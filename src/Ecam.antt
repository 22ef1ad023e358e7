-- ===== src/Ecam.antt =====
-- The scan of all functions on all buses, which `_start` in src/main.rs makes over the configuration
-- space in memory. A configuration register reads as it was last written. Addresses do not come near
-- 2 ^ 64.
pub mod Found
pub mod Rounds
pub mod Scanned
pub mod Outside
mod Tests
use qore_os.Base.{
  ℕ, ◌+◌, ◌*◌, ◌/◌, ◌%◌, ◌^◌, Bool, true, false, ◌&&◌, not, Option, none, some, bit_and, bit_or,
  ◌==◌, if◌then◌else◌,
}
use qore_os.Ram.{Ram, load, store, from_le, le_bytes}
use qore_os.Acpi.{load32}
use qore_os.Compositor.{for_range}

-- The variables that the scan fills.
pub record Devices : Type 0 where
  pub e1000_bar0 : Option ℕ
  pub nvme_found : Bool
  pub nvme_bar0 : ℕ
  pub xhci_found : Bool
  pub xhci_bar0 : ℕ
  pub hda_found : Bool
  pub hda_bar0 : ℕ

unfoldable pub no_devices : Devices
no_devices = record {
  e1000_bar0 = none;
  nvme_found = false;
  nvme_bar0 = 0;
  xhci_found = false;
  xhci_bar0 = 0;
  hda_found = false;
  hda_bar0 = 0;
}

pub record Scan : Type 0 where
  pub ram : Ram
  pub devices : Devices

abbrev pub load16 : Ram → ℕ → ℕ
load16 ram p = from_le (load ram p 2)

-- `(bar0_raw & 0xFFFFFFF0) as u64`
unfoldable pub bar_low : Ram → ℕ → ℕ
bar_low ram pci_addr = bit_and (load32 ram (pci_addr + 0x10)) 0xFFFFFFF0

-- The base address of one or of two registers, by the type in BAR0.
unfoldable pub bar_address : Ram → ℕ → ℕ
bar_address ram pci_addr =
    let bar0_raw = load32 ram (pci_addr + 0x10) in
    let bar_type = bit_and (bar0_raw / 2) 0x03 in
    if bar_type == 2
    then bit_or (load32 ram (pci_addr + 0x14) * 2 ^ 32) (bar_low ram pci_addr)
    else bar_low ram pci_addr

-- `cmd |= (1 << 1) | (1 << 2)`
unfoldable pub enable : Ram → ℕ → Ram
enable ram pci_addr =
    store ram (pci_addr + 0x04) (le_bytes 2 (bit_or (load16 ram (pci_addr + 0x04)) (2 + 4)))

abbrev pub note_e1000 : Bool → ℕ → Scan → Scan
note_e1000 matches pci_addr s =
    let d = s.devices in
    if matches
    then record {
      ram = enable s.ram pci_addr;
      devices = record d { e1000_bar0 = some (bar_low s.ram pci_addr) };
    }
    else s

abbrev pub note_nvme : Bool → ℕ → Scan → Scan
note_nvme matches pci_addr s =
    let d = s.devices in
    if matches
    then record {
      ram = enable s.ram pci_addr;
      devices = record d { nvme_found = true; nvme_bar0 = bar_address s.ram pci_addr };
    }
    else s

abbrev pub note_hda : Bool → ℕ → Scan → Scan
note_hda matches pci_addr s =
    let d = s.devices in
    if matches
    then record {
      ram = enable s.ram pci_addr;
      devices = record d { hda_found = true; hda_bar0 = bar_address s.ram pci_addr };
    }
    else s

abbrev pub note_xhci : Bool → ℕ → Scan → Scan
note_xhci matches pci_addr s =
    let d = s.devices in
    if matches
    then record s { devices = record d { xhci_found = true; xhci_bar0 = bar_low s.ram pci_addr } }
    else s

-- The body of the loops.
unfoldable pub scan_function : ℕ → Scan → Scan
scan_function pci_addr s =
    let vendor_id = load16 s.ram pci_addr in
    let class_code = s.ram (pci_addr + 0x0B) in
    let subclass = s.ram (pci_addr + 0x0A) in
    let prog_if = s.ram (pci_addr + 0x09) in
    let s1 = note_e1000 (class_code == 0x02 && subclass == 0x00) pci_addr s in
    let s2 = note_nvme (class_code == 0x01 && subclass == 0x08) pci_addr s1 in
    let s3 = note_hda (class_code == 0x04 && subclass == 0x03) pci_addr s2 in
    let s4 = note_xhci ((class_code == 0x0C && subclass == 0x03) && prog_if == 0x30) pci_addr s3 in
    if not (vendor_id == 0xFFFF) then s4 else s

unfoldable pub scan_all : ℕ → Scan → Scan
scan_all pcie_base_addr s =
    for_range
      (λ bus.
        for_range
          (λ device.
            for_range
              (λ function.
                scan_function (pcie_base_addr + bus * 2 ^ 20 + device * 2 ^ 15 + function * 2 ^ 12))
              8 0)
          32 0)
      256 0 s

-- From the address of the MCFG table; there is none where it is 0.
unfoldable pub scan_ecam : Ram → ℕ → Scan
scan_ecam ram mcfg_address =
    let s : Scan = record { ram = ram; devices = no_devices } in
    if not (mcfg_address == 0) then scan_all (from_le (load ram (mcfg_address + 44) 8)) s else s
