-- ===== src/Smp/Identity.antt =====
-- The first 2 MB are mapped to themselves after `copy_trampoline`.
use qore_os.Base.{
  ℕ, ◌+◌, ◌*◌, ◌/◌, ◌%◌, ◌^◌, ◌≤◌, ◌<◌, ◌≡◌, refl, ap, ◌∙◌, ◌⊎◌, true, false, some, arith, bit_and,
  bit_or, bit_and_low, if_intro, if_true, not, ◌==◌,
}
use qore_os.Ram.{
  Ram, Apart, load64, store64, le_bytes, load64-store64, load64-store64-Apart, from_le,
}
use qore_os.Memory.{
  addr_mask, table_index, indices, entry_of, is_present, is_huge, walk_levels, walk_page_table,
}
use qore_os.Memory.Words.{page_entry}
use qore_os.Smp.{
  Statics, inject, map_low, map_trampoline, configuration, copy_trampoline, trampoline, real_mode,
  protected_mode, long_mode,
}
use qore_os.Ram.Writes.{AllApart, load-write_all}

inject-is_present :
    (ram : Ram) (table phys : ℕ)
    → phys % 4096 ≡ 0
    → phys < 2 ^ 52
    → is_present (load64 (inject ram table phys) table) ≡ true
unfolding inject
inject-is_present ram table phys aligned small =
    let (fits, present, kept) = page_entry phys aligned small in
    if_intro (λ m. is_present (load64 m table) ≡ true) (bit_and (load64 ram table) 1 == 0)
      (λ _. rw (load64-store64 ram table (bit_or phys 3) fits) present) (λ e. ap not e)

inject-Apart :
    (ram : Ram) (table phys q : ℕ)
    → Apart table 8 q 8
    → load64 (inject ram table phys) q ≡ load64 ram q
unfolding inject
inject-Apart ram table phys q h =
    if_intro (λ m. load64 m q ≡ load64 ram q) (bit_and (load64 ram table) 1 == 0)
      (λ _. load64-store64-Apart ram table q (bit_or phys 3) h) λ _. refl

-- The memory in which the walk starts, and the slots that it reads.
abbrev pub pml4_of : ℕ → ℕ
pml4_of cr3 = bit_and cr3 addr_mask

abbrev pub pdpt_of : Statics → Ram → ℕ → ℕ
pdpt_of s ram cr3 = bit_and (load64 (inject ram (pml4_of cr3) s.smp_pdpt) (pml4_of cr3)) addr_mask

abbrev pub injected : Statics → Ram → ℕ → Ram
injected s ram cr3 = inject (inject ram (pml4_of cr3) s.smp_pdpt) (pdpt_of s ram cr3) s.smp_pd

abbrev pub pd_of : Statics → Ram → ℕ → ℕ
pd_of s ram cr3 = bit_and (load64 (injected s ram cr3) (pdpt_of s ram cr3)) addr_mask

-- The low memory that is written over.
abbrev pub IsHigh : ℕ → Type 0
IsHigh p = (p + 8 ≤ 0x8000) ⊎ (0x8618 ≤ p)

-- The static tables are pages, and the first entries of the three tables are three words apart from
-- each other and from the trampoline; the third table does not map a huge page.
pub record IsReady (s : Statics) (ram : Ram) (cr3 : ℕ) : Type 0 where
  pub pdpt_aligned : s.smp_pdpt % 4096 ≡ 0
  pub pdpt_small : s.smp_pdpt < 2 ^ 52
  pub pd_aligned : s.smp_pd % 4096 ≡ 0
  pub pd_small : s.smp_pd < 2 ^ 52
  pub not_huge : is_huge (load64 (injected s ram cr3) (pdpt_of s ram cr3)) ≡ false
  pub apart43 : Apart (pml4_of cr3) 8 (pdpt_of s ram cr3) 8
  pub apart42 : Apart (pml4_of cr3) 8 (pd_of s ram cr3) 8
  pub apart32 : Apart (pdpt_of s ram cr3) 8 (pd_of s ram cr3) 8
  pub high4 : IsHigh (pml4_of cr3)
  pub high3 : IsHigh (pdpt_of s ram cr3)
  pub high2 : IsHigh (pd_of s ram cr3)

configuration-AllApart : (s : Statics) (cr3 p : ℕ) → IsHigh p → AllApart p 8 (configuration s cr3)
unfolding configuration trampoline real_mode protected_mode long_mode le_bytes
configuration-AllApart s cr3 p h = omega arith

index_zero :
    (shift v : ℕ)
    → v / 2 ^ shift ≡ 0
    → (ram : Ram) (table : ℕ) → entry_of ram table (table_index shift v) ≡ load64 ram table
unfolding table_index entry_of
index_zero shift v h ram table =
    let e : bit_and (v / 2 ^ shift) 0x1FF ≡ 0 = omega (arith, bit_and_low 9 (v / 2 ^ shift), h) in
    let f : table + 8 * 0 ≡ table = omega arith in rw (e, f) refl

walk_low :
    (ram : Ram) (pml4 v : ℕ)
    → v < 2 ^ 21
    → is_present (load64 ram pml4) ≡ true
    → is_present (load64 ram (bit_and (load64 ram pml4) addr_mask)) ≡ true
    → is_huge (load64 ram (bit_and (load64 ram pml4) addr_mask)) ≡ false
    → load64 ram (bit_and (load64 ram (bit_and (load64 ram pml4) addr_mask)) addr_mask) ≡ 0x83
    → walk_page_table ram pml4 v ≡ some v
unfolding walk_page_table walk_levels indices
walk_low ram pml4 v l top middle small low =
    rw
      (
        index_zero 39 v (omega arith) ram pml4,
        index_zero 30 v (omega arith) ram (bit_and (load64 ram pml4) addr_mask),
        index_zero 21 v (omega arith) ram
            (bit_and (load64 ram (bit_and (load64 ram pml4) addr_mask)) addr_mask),
        top,
        middle,
        small,
        low,
        bit_and_low 21 v,
      )
      (let e : 0 + v % 2 ^ 21 ≡ v = omega arith in ap some e)

-- The walk reads three words that the later writes leave alone.
load64_after :
    (s : Statics) (ram : Ram) (cr3 q : ℕ)
    → IsHigh q
    → load64 (copy_trampoline s ram cr3) q ≡ load64 (map_trampoline s ram cr3) q
unfolding copy_trampoline
load64_after s ram cr3 q h = ap from_le (
    load-write_all (configuration s cr3) (map_trampoline s ram cr3) q 8
      (configuration-AllApart s cr3 q h))

map_low_lem :
    (ram : Ram) (pdpt : ℕ)
    → is_huge (load64 ram pdpt) ≡ false
    → map_low ram pdpt ≡ store64 ram (bit_and (load64 ram pdpt) addr_mask) 0x83
unfolding map_low
map_low_lem ram pdpt h = if_true (bit_and (load64 ram pdpt) (2 ^ 7) == 0) _ _ (ground (arith, h))

-- After `copy_trampoline` each address below 2 MB, so all of the trampoline, is translated to itself,
-- where the static tables are pages, the first entries of the three tables lie apart from each other
-- and from the trampoline, and the third table does not map a huge page.
pub copy_trampoline-walk_page_table :
    (s : Statics) (ram : Ram) (cr3 v : ℕ)
    → IsReady s ram cr3
    → v < 2 ^ 21
    → walk_page_table (copy_trampoline s ram cr3) (pml4_of cr3) v ≡ some v
unfolding map_trampoline
copy_trampoline-walk_page_table s ram cr3 v h l =
    let p4 = pml4_of cr3 in
    let p3 = pdpt_of s ram cr3 in
    let p2 = pd_of s ram cr3 in
    let m = injected s ram cr3 in
    let last = map_low_lem m p3 h.not_huge in
    let after : (q : ℕ)
        → IsHigh q
        → Apart p2 8 q 8
        → load64 (copy_trampoline s ram cr3) q ≡ load64 m q =
      λ q k a.
        load64_after s ram cr3 q k
        ∙ ap (λ r. load64 r q) last
        ∙ load64-store64-Apart m p2 q 0x83 a in
    let e4 : load64 (copy_trampoline s ram cr3) p4 ≡ load64 (inject ram p4 s.smp_pdpt) p4 =
      after p4 h.high4 (omega (arith, h.apart42))
      ∙ inject-Apart _ p3 s.smp_pd p4 (omega (arith, h.apart43)) in
    let e3 : load64 (copy_trampoline s ram cr3) p3 ≡ load64 m p3 =
      after p3 h.high3 (omega (arith, h.apart32)) in
    let e2 : load64 (copy_trampoline s ram cr3) p2 ≡ 0x83 =
      load64_after s ram cr3 p2 h.high2
      ∙ ap (λ r. load64 r p2) last
      ∙ load64-store64 m p2 0x83 (omega arith) in
    walk_low (copy_trampoline s ram cr3) p4 v l
      (rw e4 (inject-is_present ram p4 s.smp_pdpt h.pdpt_aligned h.pdpt_small))
      (rw (e4, e3) (inject-is_present _ p3 s.smp_pd h.pd_aligned h.pd_small))
      (rw (e4, e3) h.not_huge) (rw (e4, e3) e2)
