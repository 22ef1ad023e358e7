-- ===== src/Memory/Tests.antt =====
-- Runs of the page table functions, and their theorems at one small set of tables.
use qore_os.Base.{◌+◌, ◌%◌, ◌≡◌, refl, some, none, arith, inr}
use qore_os.Ram.{
  Ram, load, store, from_le, le_bytes, store64, IsBytes, store-IsBytes, le_bytes-AllBytes,
}
use qore_os.Memory.{
  table_index, indices, entry_of, walk_levels, walk_page_table, page_slot, map_page,
  unlock_mmu_for_ring3,
}
use qore_os.Memory.Walk.{map_page-walk_page_table}
use qore_os.Memory.Unlock.{Marked, unlock_mmu-walk_page_table}
use qore_os.Memory.Open.{OpenSlots, unlock_mmu-OpenSlots}

abbrev blank : Ram
blank a = 0

-- The level 4 table at 0x1000 leads through 0x2000 and 0x3000 to the level 1 table at 0x4000.
abbrev tables : Ram
tables = store64 (store64 (store64 blank 0x1000 0x2003) 0x2000 0x3003) 0x3000 0x4003

tables-IsBytes : IsBytes tables
tables-IsBytes =
    let one =
      store-IsBytes blank 0x1000 (le_bytes 8 0x2003) (λ a. omega arith)
        (le_bytes-AllBytes 8 0x2003) in
    let two = store-IsBytes _ 0x2000 (le_bytes 8 0x3003) one (le_bytes-AllBytes 8 0x3003) in
    store-IsBytes _ 0x3000 (le_bytes 8 0x4003) two (le_bytes-AllBytes 8 0x4003)

not_mapped : walk_page_table tables 0x1000 0x1234 ≡ none
unfolding walk_page_table walk_levels indices entry_of load store from_le le_bytes
not_mapped = refl

map_page_example :
    walk_page_table (map_page tables 0x1000 0x1234 0x77000) 0x1000 0x1234
    ≡ some (0x77000 + 0x1234 % 4096)
unfolding page_slot table_index entry_of load store from_le le_bytes
map_page_example =
    map_page-walk_page_table tables 0x1000 0x1234 0x77000 0x4008 refl refl (omega arith)
      (inr (omega arith)) (inr (omega arith)) (inr (omega arith))

unlock_mmu_example :
    (walk_page_table (unlock_mmu_for_ring3 tables 0x1000) 0x1000 0x1234
      ≡ walk_page_table tables 0x1000 0x1234)
    × Marked tables (unlock_mmu_for_ring3 tables 0x1000)
unlock_mmu_example = unlock_mmu-walk_page_table tables 0x1000 0x1234 tables-IsBytes refl

open_example : OpenSlots 3 (unlock_mmu_for_ring3 tables 0x1000) 512 0x1000
open_example = unlock_mmu-OpenSlots tables 0x1000 tables-IsBytes refl
