-- ===== src/Acpi/Tests.antt =====
-- A root pointer, an XSDT with two tables, and a MADT with a processor and an I/O APIC.
use qore_os.Base.{
  ℕ, ◌-◌, ◌≡◌, refl, List, [], ◌∷◌, ◌++◌, none, some, ltb, if◌then◌else◌, arith, replicate, get_or,
  ◌==◌,
}
use qore_os.Text.{codes}
use qore_os.Ram.{Ram, load, from_le, le_bytes}
use qore_os.Fat32.Utf8.{is_utf8_from}
use qore_os.Acpi.{
  entry_count, note_tables, note_table, same_text, find_tables, mcfg, apic, walk_madt, io_apic,
}
use qore_os.Acpi.Madt.{
  Entry, controller, other, table_bytes, last_controller, walk_madt_stuck, io_apic_lem,
}
use qore_os.Acpi.Xsdt.{last_named, find_tables_lem}

abbrev entries : List Entry
entries = other 0 (0 ∷ 0 ∷ 1 ∷ 0 ∷ 0 ∷ 0 ∷ []) ∷ controller 0 0xFEC0_0000 0 ∷ []

-- The byte at an offset of a table that starts at `at`.
abbrev from : ℕ → List ℕ → ℕ → ℕ
from at bytes a = get_or bytes (a - at) 0

abbrev madt_bytes : List ℕ
madt_bytes =
    codes "APIC"
    ++ le_bytes 4 64
    ++ replicate 28 0
    ++ le_bytes 4 0xFEE00000
    ++ replicate 4 0
    ++ table_bytes entries

abbrev xsdt_bytes : List ℕ
xsdt_bytes =
    codes "XSDT" ++ le_bytes 4 52 ++ replicate 28 0 ++ le_bytes 8 0x3000 ++ le_bytes 8 0x4000

abbrev ram : Ram
ram a =
    if ltb a 0x2000
    then from 0x1000 (codes "RSD PTR " ++ replicate 16 0 ++ le_bytes 8 0x2000) a
    else if ltb a 0x3000
    then from 0x2000 xsdt_bytes a
    else if ltb a 0x4000
    then from 0x3000 (codes "MCFG") a
    else from 0x4000 madt_bytes a

found : find_tables ram 0x1000 ≡ record { mcfg_address = 0x3000; madt_address = 0x4000 }
unfolding find_tables entry_count note_tables note_table same_text mcfg apic is_utf8_from load
    from_le le_bytes
found = refl

find_tables_example : find_tables ram 0x1000 ≡ record {
  mcfg_address = last_named ram mcfg 0 (0x3000 ∷ 0x4000 ∷ []);
  madt_address = last_named ram apic 0 (0x3000 ∷ 0x4000 ∷ []);
}
unfolding is_utf8_from load from_le le_bytes
find_tables_example =
    find_tables_lem ram 0x1000 0x2000 (0x3000 ∷ 0x4000 ∷ []) refl refl refl (omega arith)
      (refl, (refl, tt))

io_apic_example : io_apic ram 0x4000 ≡ some (last_controller 0 entries)
unfolding load from_le le_bytes
io_apic_example = io_apic_lem ram 0x4000 entries (omega arith) (omega arith) refl (omega arith)

abbrev broken : Ram
broken a = if a == 0x4004 then 64 else 0

io_apic_stuck : walk_madt 1000 broken 0x4000 64 0x2C 0 ≡ none
io_apic_stuck = walk_madt_stuck 1000 broken 0x4000 64 0x2C 0 (omega arith) (omega arith) refl
