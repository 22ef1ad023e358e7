-- ===== src/Memory.antt =====
-- Page tables in physical memory: the walk and the injection of a page of src/memory.rs, and the
-- unlocking pass of src/main.rs. The caller's CR3 comes as the address of the level 4 table.
-- Every sum of a table address and an offset stays below 2^53, so no 64-bit sum wraps.
pub mod Words
pub mod Walk
pub mod Unlock
pub mod Open
pub mod Report
mod Tests
use qore_os.Base.{
  ℕ, zero, suc, ◌+◌, ◌-◌, ◌*◌, ◌/◌, ◌%◌, ◌^◌, bit_and, bit_or, Bool, true, false, not, ◌&&◌, ◌||◌,
  List, [], ◌∷◌, Option, none, some, ◌==◌, if◌then◌else◌,
}
use qore_os.Ram.{Ram, load64, store64}

abbrev pub addr_mask : ℕ
addr_mask = 0x000FFFFFFFFFF000

-- `(virt_addr >> shift) & 0x1FF`
unfoldable pub table_index : ℕ → ℕ → ℕ
table_index shift virt = bit_and (virt / 2 ^ shift) 0x1FF

-- `indices`
unfoldable pub indices : ℕ → List ℕ
unfolding table_index
indices virt =
    table_index 39 virt ∷ table_index 30 virt ∷ table_index 21 virt ∷ table_index 12 virt ∷ []

unfoldable pub entry_of : Ram → ℕ → ℕ → ℕ
entry_of ram table index = load64 ram (table + 8 * index)

abbrev pub is_present : ℕ → Bool
is_present entry = not (bit_and entry 1 == 0)

abbrev pub is_huge : ℕ → Bool
is_huge entry = not (bit_and entry (2 ^ 7) == 0)

-- The loop over the levels, from the table at `table`.
unfoldable pub walk_levels : Ram → ℕ → ℕ → ℕ → List ℕ → Option ℕ
walk_levels ram virt table level [] = some (table + bit_and virt 0xFFF)
walk_levels ram virt table level (index ∷ rest) =
    let entry = entry_of ram table index in
    let next = bit_and entry addr_mask in
    let deeper = walk_levels ram virt next (level + 1) rest in
    if is_present entry
    then (if (level == 1 || level == 2) && is_huge entry
        then some (next + bit_and virt (if level == 1 then 0x3FFFFFFF else 0x1FFFFF))
        else deeper)
    else none

unfoldable pub walk_page_table : Ram → ℕ → ℕ → Option ℕ
walk_page_table ram cr3 virt = walk_levels ram virt cr3 0 (indices virt)

-- The address of the slot that `map_page` writes, or `none` where it aborts.
unfoldable pub page_slot : Ram → ℕ → ℕ → Option ℕ
page_slot ram cr3 virt =
    let pml4_entry = entry_of ram cr3 (table_index 39 virt) in
    let pdpt_entry = entry_of ram (bit_and pml4_entry addr_mask) (table_index 30 virt) in
    let pd_entry = entry_of ram (bit_and pdpt_entry addr_mask) (table_index 21 virt) in
    if bit_and pml4_entry 1 == 0
    then none
    else if bit_and pdpt_entry 1 == 0 || is_huge pdpt_entry
    then none
    else if bit_and pd_entry 1 == 0 || is_huge pd_entry
    then none
    else some (bit_and pd_entry addr_mask + 8 * table_index 12 virt)

unfoldable pub map_page : Ram → ℕ → ℕ → ℕ → Ram
map_page ram cr3 virt phys_frame = elim (page_slot ram cr3 virt) [
  | none ↦ ram
  | some slot ↦ store64 ram slot (bit_or phys_frame 3)
]

-- The four nested loops of `unlock_mmu_for_ring3`: `depth` is 3 in the level 4 table and 0 in a
-- level 1 table, which is where the nesting ends. The first count is the rounds left.
unfoldable pub unlock_entry : (Ram → ℕ → Ram) → Bool → Ram → ℕ → Ram
unlock_entry inner last ram slot =
    let entry = load64 ram slot in
    let marked = store64 ram slot (bit_or entry 4) in
    if bit_and entry 1 == 0
    then ram
    else if last || is_huge entry
    then marked
    else inner marked (bit_and entry addr_mask)

unfoldable pub unlock_loop : (Ram → ℕ → Ram) → Bool → ℕ → Ram → ℕ → Ram
unlock_loop inner last zero ram slot = ram
unlock_loop inner last (suc n) ram slot =
    unlock_loop inner last n (unlock_entry inner last ram slot) (slot + 8)

unfoldable pub unlock_table : ℕ → Ram → ℕ → Ram
unlock_table zero ram table = unlock_loop (λ ram' _. ram') true 512 ram table
unlock_table (suc depth) ram table = unlock_loop (unlock_table depth) false 512 ram table

unfoldable pub unlock_mmu_for_ring3 : Ram → ℕ → Ram
unlock_mmu_for_ring3 ram cr3 = unlock_table 3 ram cr3
