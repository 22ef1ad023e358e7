-- ===== src/Memory/Unlock.antt =====
-- What `unlock_mmu_for_ring3` does to the page tables: it sets the user bit of every present entry
-- that it reaches, and changes nothing else of any entry.
use qore_os.Base.{
  ℕ, zero, suc, ◌+◌, ◌*◌, ◌/◌, ◌%◌, ◌≡◌, refl, ◌∙◌, sym, Bool, true, false, ◌||◌, ◌==◌, inl, inr,
  Bool-cases, bit_and, bit_or, arith, List, [], ◌∷◌, test_bit, ◌≢◌, ==→eq, ==→ne,
}
use qore_os.Ram.{
  Ram, load64, store64, Apart, load64-store64, load64-store64-Apart, IsBytes, store-IsBytes,
  le_bytes-AllBytes, load64-lt, le_bytes,
}
use qore_os.Memory.{
  addr_mask, entry_of, is_present, is_huge, walk_levels, walk_page_table, indices, unlock_entry,
  unlock_loop, unlock_table, unlock_mmu_for_ring3,
}
use qore_os.Memory.Words.{
  bit_or_four-lt, bit_or_four_user, bit_or_four_low, bit_or_four_high, addr_mask_lem,
  is_present-test, is_huge-test, addr_mask_aligned,
}

-- `e'` is `e` but for the user bit, bit 2, which may have been set.
pub record SameEntry (e e' : ℕ) : Type 0 where
  pub above : e' / 8 ≡ e / 8
  pub beneath : e' % 4 ≡ e % 4
  pub user : test_bit 2 e ≡ true → test_bit 2 e' ≡ true

module _ {e e' : ℕ} (s : SameEntry e e') where
  pub same_addr : bit_and e' addr_mask ≡ bit_and e addr_mask
  same_addr = omega (arith, s.above, addr_mask_lem e, addr_mask_lem e')

  pub same_present : is_present e' ≡ is_present e
  unfolding test_bit
  same_present =
      let bit : test_bit 0 e' ≡ test_bit 0 e = ground (arith, s.beneath) in
      is_present-test e' ∙ bit ∙ sym (is_present-test e)

  pub same_huge : is_huge e' ≡ is_huge e
  unfolding test_bit
  same_huge =
      let bit : test_bit 7 e' ≡ test_bit 7 e = ground (arith, s.above) in
      is_huge-test e' ∙ bit ∙ sym (is_huge-test e)

-- Every aligned entry of `ram'` is that of `ram` but for the user bit.
pub record Marked (ram ram' : Ram) : Type 0 where
  pub bytes : IsBytes ram'
  pub entries : (p : ℕ) → p % 8 ≡ 0 → SameEntry (load64 ram p) (load64 ram' p)

pub Marked-refl : {ram : Ram} → IsBytes ram → Marked ram ram
Marked-refl h = record {
  bytes = h;
  entries = λ p a. record { above = refl; beneath = refl; user = λ u. u };
}

pub Marked-trans : {a b c : Ram} → Marked a b → Marked b c → Marked a c
Marked-trans m n = record {
  bytes = n.bytes;
  entries = λ p h. record {
    above = (n.entries p h).above ∙ (m.entries p h).above;
    beneath = (n.entries p h).beneath ∙ (m.entries p h).beneath;
    user = λ u. (n.entries p h).user ((m.entries p h).user u);
  };
}

bit_or_four-SameEntry : (e : ℕ) → SameEntry e (bit_or e 4)
bit_or_four-SameEntry e = record {
  above = bit_or_four_high e;
  beneath = bit_or_four_low e;
  user = λ u. bit_or_four_user e;
}

pub mark-Marked :
    (ram : Ram) (slot : ℕ)
    → IsBytes ram
    → slot % 8 ≡ 0
    → Marked ram (store64 ram slot (bit_or (load64 ram slot) 4))
mark-Marked ram slot h aligned = record {
  bytes = store-IsBytes ram slot (le_bytes 8 v) h (le_bytes-AllBytes 8 v);
  entries = λ p a. elim (Bool-cases (p == slot)) [
    | inl same ↦ rw (==→eq p slot same, self) (bit_or_four-SameEntry (load64 ram slot))
    | inr other ↦
        rw (load64-store64-Apart ram slot p v (apart p a (==→ne p slot other)))
          (record { above = refl; beneath = refl; user = λ u. u })
  ];
}
  where
    v : ℕ
    v = bit_or (load64 ram slot) 4

    self : load64 (store64 ram slot v) slot ≡ v
    self = load64-store64 ram slot v (bit_or_four-lt (load64 ram slot) (load64-lt ram slot h))

    apart : (p : ℕ) → p % 8 ≡ 0 → p ≢ slot → Apart slot 8 p 8
    apart p a ne = omega arith

-- What is asked of the pass over the tables below.
abbrev pub Keeps : (Ram → ℕ → Ram) → Type 0
Keeps inner = (ram : Ram) (table : ℕ) → IsBytes ram → table % 8 ≡ 0 → Marked ram (inner ram table)

pub unlock_entry-Marked :
    (inner : Ram → ℕ → Ram) (last : Bool) (ram : Ram) (slot : ℕ)
    → Keeps inner
    → IsBytes ram
    → slot % 8 ≡ 0
    → Marked ram (unlock_entry inner last ram slot)
unfolding unlock_entry
unlock_entry-Marked inner last ram slot keeps h aligned =
    let marked = mark-Marked ram slot h aligned in
    elim (Bool-cases (bit_and (load64 ram slot) 1 == 0)) [
      | inl absent ↦ rw (absent, unlock_entry) (Marked-refl h)
      | inr present ↦ elim (Bool-cases (last || is_huge (load64 ram slot))) [
        | inl stop ↦ rw (present, stop, unlock_entry) marked
        | inr deeper ↦
            rw (present, deeper, unlock_entry)
              (Marked-trans marked (keeps _ _ marked.bytes (addr_mask_aligned (load64 ram slot))))
      ]
    ]

pub unlock_loop-Marked :
    (inner : Ram → ℕ → Ram) (last : Bool) (n : ℕ) (ram : Ram) (slot : ℕ)
    → Keeps inner
    → IsBytes ram
    → slot % 8 ≡ 0
    → Marked ram (unlock_loop inner last n ram slot)
unfolding unlock_loop
unlock_loop-Marked inner last zero ram slot keeps h aligned = Marked-refl h
unlock_loop-Marked inner last (suc n) ram slot keeps h aligned =
    let first = unlock_entry-Marked inner last ram slot keeps h aligned in
    Marked-trans first (
      unlock_loop-Marked inner last n (unlock_entry inner last ram slot) (slot + 8) keeps
        first.bytes (omega arith))

pub unlock_table-Marked : (depth : ℕ) → Keeps (unlock_table depth)
unfolding unlock_table
unlock_table-Marked zero ram table h aligned =
    unlock_loop-Marked (λ ram' _. ram') true 512 ram table (λ r t hr a. Marked-refl hr) h aligned
unlock_table-Marked (suc depth) ram table h aligned =
    unlock_loop-Marked (unlock_table depth) false 512 ram table (unlock_table-Marked depth) h
      aligned

walk_levels-Marked :
    {ram ram' : Ram} (virt table level : ℕ) (path : List ℕ)
    → Marked ram ram'
    → table % 8 ≡ 0
    → walk_levels ram' virt table level path ≡ walk_levels ram virt table level path
unfolding walk_levels entry_of
walk_levels-Marked virt table level [] m aligned = refl
walk_levels-Marked {ram} {ram'} virt table level (index ∷ path) m aligned =
    let s = m.entries (table + 8 * index) (omega arith) in
    let deeper =
      walk_levels-Marked virt (bit_and (load64 ram (table + 8 * index)) addr_mask) (level + 1) path
        m (addr_mask_aligned (load64 ram (table + 8 * index))) in
    rw (same_addr s, same_present s, same_huge s, deeper) refl

-- For a page-aligned level 4 table, `unlock_mmu_for_ring3` changes no address translation, and no
-- bit of any aligned 64-bit word but bit 2, which it at most sets.
pub unlock_mmu-walk_page_table :
    (ram : Ram) (cr3 virt : ℕ)
    → IsBytes ram
    → cr3 % 4096 ≡ 0
    → (walk_page_table (unlock_mmu_for_ring3 ram cr3) cr3 virt ≡ walk_page_table ram cr3 virt)
      × Marked ram (unlock_mmu_for_ring3 ram cr3)
unfolding walk_page_table unlock_mmu_for_ring3
unlock_mmu-walk_page_table ram cr3 virt h aligned =
    let m = unlock_table-Marked 3 ram cr3 h (omega arith) in
    (walk_levels-Marked virt cr3 0 (indices virt) m (omega arith), m)
