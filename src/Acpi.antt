-- ===== src/Acpi.antt =====
-- The firmware's tables, as `_start` in src/main.rs reads them: the search of the XSDT, and the list of
-- interrupt controllers in the MADT. A `u32` wraps; addresses do not come near 2 ^ 64.
pub mod Madt
pub mod Xsdt
mod Tests
use qore_os.Base.{
  ℕ, zero, suc, ◌+◌, ◌-◌, ◌*◌, ◌/◌, ◌%◌, ◌^◌, List, [], ◌∷◌, Bool, true, Option, none, some, ◌&&◌,
  ltb, ◌==◌, if◌then◌else◌,
}
use qore_os.Ram.{Ram, load, load64, from_le}
use qore_os.Fat32.Utf8.{is_utf8}
use qore_os.Text.{codes}

abbrev pub load32 : Ram → ℕ → ℕ
load32 ram p = from_le (load ram p 4)

-- What the search of the XSDT leaves; 0 where there is no such table.
pub record Tables : Type 0 where
  pub mcfg_address : ℕ
  pub madt_address : ℕ

abbrev pub no_tables : Tables
no_tables = record { mcfg_address = 0; madt_address = 0 }

-- `sig_str == name` for a name of four letters
unfoldable pub same_text : List ℕ → List ℕ → Bool
same_text [] [] = true
same_text [] (y ∷ ys) = Bool.false
same_text (x ∷ xs) [] = Bool.false
same_text (x ∷ xs) (y ∷ ys) = (x == y) && same_text xs ys

unfoldable pub mcfg : List ℕ
mcfg = codes "MCFG"

unfoldable pub apic : List ℕ
apic = codes "APIC"

-- The body of the loop over the entries of the XSDT.
unfoldable pub note_table : Ram → ℕ → Tables → Tables
note_table ram entry_address t =
    let table_sig = load ram entry_address 4 in
    let t1 = if same_text table_sig mcfg then record t { mcfg_address = entry_address } else t in
    let t2 = if same_text table_sig apic then record t1 { madt_address = entry_address } else t1 in
    if is_utf8 table_sig then t2 else t

-- `for i in 0..entry_count`, with the rounds left and the address of the entry.
unfoldable pub note_tables : Ram → ℕ → ℕ → Tables → Tables
note_tables ram zero entry t = t
note_tables ram (suc n) entry t =
    note_tables ram n (entry + 8) (note_table ram (load64 ram entry) t)

unfoldable pub entry_count : ℕ → ℕ
entry_count xsdt_length = (xsdt_length + 2 ^ 32 - 36) % 2 ^ 32 / 8

-- From the root pointer to the addresses of the two tables; nothing is read where the signature of the
-- root pointer is no text.
unfoldable pub find_tables : Ram → ℕ → Tables
find_tables ram rsdp =
    let xsdt_address = load64 ram (rsdp + 24) in
    let xsdt_length = load32 ram (xsdt_address + 4) in
    if is_utf8 (load ram rsdp 8)
    then note_tables ram (entry_count xsdt_length) (xsdt_address + 36) no_tables
    else no_tables

-- The body of the loop over the MADT, from the address of an entry.
unfoldable pub note_ioapic : Ram → ℕ → ℕ → ℕ
note_ioapic ram entry ioapic_base = if ram entry == 1 then load32 ram (entry + 4) else ioapic_base

-- `while offset < madt_length`; without an end to the rounds, `none`.
unfoldable pub walk_madt : ℕ → Ram → ℕ → ℕ → ℕ → ℕ → Option ℕ
walk_madt zero ram madt madt_length offset ioapic_base = none
walk_madt (suc fuel) ram madt madt_length offset ioapic_base =
    let entry = madt + offset in
    let rest =
      walk_madt fuel ram madt madt_length ((offset + ram (entry + 1)) % 2 ^ 32)
        (note_ioapic ram entry ioapic_base) in
    if ltb offset madt_length then rest else some ioapic_base

-- `local_apic_base`
unfoldable pub local_apic : Ram → ℕ → ℕ
local_apic ram madt = load32 ram (madt + 0x24)

-- `ioapic_base`, with as much fuel as there are bytes.
unfoldable pub io_apic : Ram → ℕ → Option ℕ
io_apic ram madt =
    let madt_length = load32 ram (madt + 4) in
    walk_madt (suc madt_length) ram madt madt_length 0x2C 0
