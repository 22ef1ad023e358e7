-- ===== src/Memory/Open.antt =====
-- After `unlock_mmu_for_ring3` each present entry that the pass reaches is open to user mode.
use qore_os.Base.{
  ℕ, zero, suc, ◌+◌, ◌*◌, ◌%◌, ◌<◌, ◌≡◌, refl, ◌∙◌, sym, Bool, true, false, ◌||◌, inl, inr,
  Bool-cases, bit_and, bit_or, arith, test_bit, if◌then◌else◌,
}
use qore_os.Ram.{Ram, load64, store64, load64-store64, IsBytes, load64-lt}
use qore_os.Memory.{
  addr_mask, is_present, is_huge, unlock_entry, unlock_loop, unlock_table, unlock_mmu_for_ring3,
}
use qore_os.Memory.Words.{bit_or_four-lt, bit_or_four_user, addr_mask_aligned}
use qore_os.Memory.Unlock.{
  SameEntry, same_addr, same_present, same_huge, Marked, Keeps, mark-Marked, unlock_entry-Marked,
  unlock_loop-Marked, unlock_table-Marked, Marked-trans, Marked-refl,
}

-- The entry `e` of a table `depth` levels above the lowest is open to user mode, and so are the
-- present entries of the table that it leads to, unless it maps a huge page.
abbrev pub OpenEntry : ℕ → Ram → ℕ → Type 0
OpenEntry zero ram e = test_bit 2 e ≡ true
OpenEntry (suc depth) ram e =
    (test_bit 2 e ≡ true)
    × (is_huge e ≡ false
        → (i : ℕ) → i < 512
        → is_present (load64 ram (bit_and e addr_mask + 8 * i)) ≡ true
        → OpenEntry depth ram (load64 ram (bit_and e addr_mask + 8 * i)))

-- The present ones of the `n` entries from `slot` on are open.
abbrev pub OpenSlots : ℕ → Ram → ℕ → ℕ → Type 0
OpenSlots depth ram n slot =
    (i : ℕ)
    → i < n
    → is_present (load64 ram (slot + 8 * i)) ≡ true
    → OpenEntry depth ram (load64 ram (slot + 8 * i))

-- What is open stays open under later marking.
OpenEntry-Marked :
    (depth : ℕ) {ram ram' : Ram} {e e' : ℕ}
    → Marked ram ram'
    → SameEntry e e'
    → OpenEntry depth ram e
    → OpenEntry depth ram' e'
OpenEntry-Marked zero m s o = s.user o
OpenEntry-Marked (suc depth) {ram} {ram'} {e} {e'} m s o = (
  s.user o.0,
  λ small i h present.
      let t = m.entries (bit_and e addr_mask + 8 * i) (omega (arith, addr_mask_aligned e)) in
      rw (same_addr s) (
        OpenEntry-Marked depth m t (
          o.1 (sym (same_huge s) ∙ small) i h
            (sym (same_present t) ∙ (rw (same_addr s) at present)))),
)

-- What is asked of the pass over a table below.
abbrev Opens : ℕ → (Ram → ℕ → Ram) → Type 0
Opens depth inner =
    (ram : Ram) (table : ℕ)
    → IsBytes ram
    → table % 8 ≡ 0
    → OpenSlots depth (inner ram table) 512 table

OpenEntry-below :
    (depth : ℕ) (r : Ram) {e e' : ℕ}
    → SameEntry e e'
    → test_bit 2 e' ≡ true
    → OpenSlots depth r 512 (bit_and e addr_mask)
    → OpenEntry (suc depth) r e'
OpenEntry-below depth r s user slots =
    (user, λ small i h present. rw (same_addr s) (slots i h (rw (same_addr s) at present)))

unlock_entry-open :
    (inner : Ram → ℕ → Ram) (last : Bool) (ram : Ram) (slot : ℕ)
    → is_present (load64 ram slot) ≡ true
    → unlock_entry inner last ram slot ≡ (
        if last || is_huge (load64 ram slot)
        then store64 ram slot (bit_or (load64 ram slot) 4)
        else inner
            (store64 ram slot (bit_or (load64 ram slot) 4))
            (bit_and (load64 ram slot) addr_mask))
unfolding unlock_entry
unlock_entry-open inner last ram slot present = ground arith

marked_user :
    (ram : Ram) (slot : ℕ)
    → IsBytes ram
    → test_bit 2 (load64 (store64 ram slot (bit_or (load64 ram slot) 4)) slot) ≡ true
marked_user ram slot h =
    rw
      (load64-store64 ram slot (bit_or (load64 ram slot) 4)
        (bit_or_four-lt (load64 ram slot) (load64-lt ram slot h)))
      (bit_or_four_user (load64 ram slot))

unlock_entry-OpenEntry :
    (depth : ℕ) (inner : Ram → ℕ → Ram) (ram : Ram) (slot : ℕ)
    → Keeps inner
    → Opens depth inner
    → IsBytes ram
    → slot % 8 ≡ 0
    → is_present (load64 ram slot) ≡ true
    → OpenEntry
        (suc depth)
        (unlock_entry inner false ram slot)
        (load64 (unlock_entry inner false ram slot) slot)
unlock_entry-OpenEntry depth inner ram slot keeps opens h aligned present =
    let first = mark-Marked ram slot h aligned in
    let table = addr_mask_aligned (load64 ram slot) in
    elim (Bool-cases (is_huge (load64 ram slot))) [
      | inl huge ↦
          rw (unlock_entry-open inner false ram slot present, huge)
            (
              marked_user ram slot h,
              λ small. absurd (clash (sym (same_huge (first.entries slot aligned) ∙ huge) ∙ small)),
            )
      | inr small ↦
          let below = keeps _ _ first.bytes table in
          rw (unlock_entry-open inner false ram slot present, small)
            (OpenEntry-below depth _ ((Marked-trans first below).entries slot aligned)
              ((below.entries slot aligned).user (marked_user ram slot h))
              (opens _ _ first.bytes table))
    ]
  where
    clash : true ≡ false → ⊥
    clash e = cc

unlock_last-OpenEntry :
    (inner : Ram → ℕ → Ram) (ram : Ram) (slot : ℕ)
    → IsBytes ram
    → is_present (load64 ram slot) ≡ true
    → OpenEntry 0
        (unlock_entry inner true ram slot)
        (load64 (unlock_entry inner true ram slot) slot)
unlock_last-OpenEntry inner ram slot h present =
    rw (unlock_entry-open inner true ram slot present) (marked_user ram slot h)

-- What a step of the loop is to give for the entry that it handles.
abbrev OpensEntry : ℕ → (Ram → ℕ → Ram) → Bool → Type 0
OpensEntry depth inner last =
    (ram : Ram) (slot : ℕ)
    → IsBytes ram
    → slot % 8 ≡ 0
    → is_present (load64 ram slot) ≡ true
    → OpenEntry depth (unlock_entry inner last ram slot)
        (load64 (unlock_entry inner last ram slot) slot)

unlock_loop-suc :
    (inner : Ram → ℕ → Ram) (last : Bool) (n : ℕ) (ram : Ram) (slot : ℕ)
    → unlock_loop inner last (suc n) ram slot
      ≡ unlock_loop inner last n (unlock_entry inner last ram slot) (slot + 8)
unfolding unlock_loop
unlock_loop-suc inner last n ram slot = refl

unlock_loop-OpenSlots :
    (depth : ℕ) (inner : Ram → ℕ → Ram) (last : Bool) (n : ℕ) (ram : Ram) (slot : ℕ)
    → Keeps inner
    → OpensEntry depth inner last
    → IsBytes ram
    → slot % 8 ≡ 0
    → OpenSlots depth (unlock_loop inner last n ram slot) n slot
unlock_loop-OpenSlots depth inner last zero ram slot keeps opens h aligned i lt present =
    absurd (omega arith)
unlock_loop-OpenSlots depth inner last (suc n) ram slot keeps opens h aligned zero lt present =
    let first = unlock_entry-Marked inner last ram slot keeps h aligned in
    let rest = unlock_loop-Marked inner last n _ (slot + 8) keeps first.bytes (omega arith) in
    let whole = unlock_loop-Marked inner last (suc n) ram slot keeps h aligned in
    let at : slot + 8 * 0 ≡ slot = omega arith in
    let was : is_present (load64 ram slot) ≡ true =
      sym (same_present (whole.entries slot aligned)) ∙ (rw at at present) in
    rw at (
      unfold unlock_loop in
      OpenEntry-Marked depth rest (rest.entries slot aligned) (opens ram slot h aligned was))
unlock_loop-OpenSlots depth inner last (suc n) ram slot keeps opens h aligned (suc i) lt present =
    let first = unlock_entry-Marked inner last ram slot keeps h aligned in
    let at : slot + 8 * suc i ≡ slot + 8 + 8 * i = omega arith in
    let step = unlock_loop-suc inner last n ram slot in
    rw (step, at)
      (unlock_loop-OpenSlots depth inner last n _ (slot + 8) keeps opens first.bytes (omega arith) i
        (omega arith) (rw (step, at) at present))

unlock_table-Opens : (depth : ℕ) → Opens depth (unlock_table depth)
unfolding unlock_table
unlock_table-Opens zero ram table h aligned =
    unlock_loop-OpenSlots 0 (λ ram' _. ram') true 512 ram table (λ r t hr a. Marked-refl hr)
      (λ r slot hr a present. unlock_last-OpenEntry (λ ram' _. ram') r slot hr present) h aligned
unlock_table-Opens (suc depth) ram table h aligned =
    unlock_loop-OpenSlots (suc depth) (unlock_table depth) false 512 ram table
      (unlock_table-Marked depth)
      (λ r slot hr a present.
        unlock_entry-OpenEntry depth (unlock_table depth) r slot (unlock_table-Marked depth)
          (unlock_table-Opens depth) hr a present)
      h aligned

-- For a page-aligned level 4 table, after `unlock_mmu_for_ring3` every present entry of that table
-- has the user bit, and so, three tables down, has every present entry of a table that a present
-- entry without bit 7 leads to.
pub unlock_mmu-OpenSlots :
    (ram : Ram) (cr3 : ℕ)
    → IsBytes ram
    → cr3 % 4096 ≡ 0
    → OpenSlots 3 (unlock_mmu_for_ring3 ram cr3) 512 cr3
unfolding unlock_mmu_for_ring3
unlock_mmu-OpenSlots ram cr3 h aligned = unlock_table-Opens 3 ram cr3 h (omega arith)
