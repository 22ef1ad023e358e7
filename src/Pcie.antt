-- ===== src/Pcie.antt =====
-- src/pcie.rs: the scan of bus 0 for the network card. `config a` is the 32-bit register at address
-- `a` of the configuration space; the lines that are printed are in Pcie/Report.
pub mod Scan
pub mod Report
mod Tests
use qore_os.Base.{
  ℕ, zero, suc, ◌+◌, ◌*◌, ◌/◌, ◌%◌, ◌^◌, Bool, ◌&&◌, not, Option, none, some, bit_and, ◌==◌,
  if◌then◌else◌,
}

abbrev pub vendor_id : ℕ → ℕ
vendor_id vendor_and_device = bit_and vendor_and_device 0xFFFF

abbrev pub device_id : ℕ → ℕ
device_id vendor_and_device = vendor_and_device / 2 ^ 16 % 2 ^ 16

-- The body of the loop over the slots, with what was found before.
unfoldable pub scan_slot : (ℕ → ℕ) → ℕ → ℕ → Option ℕ → Option ℕ
scan_slot config pcie_base_addr device e1000_bar0 =
    let device_addr = pcie_base_addr + device * 2 ^ 15 in
    let vendor_and_device = config device_addr in
    if not (vendor_id vendor_and_device == 0xFFFF)
    then (if vendor_id vendor_and_device == 0x8086 && device_id vendor_and_device == 0x10D3
        then some (bit_and (config (device_addr + 0x10)) 0xFFFFFFF0)
        else e1000_bar0)
    else e1000_bar0

-- `for device in 0..32`, with the rounds left.
unfoldable pub scan_slots : (ℕ → ℕ) → ℕ → ℕ → ℕ → Option ℕ → Option ℕ
scan_slots config pcie_base_addr zero device e1000_bar0 = e1000_bar0
scan_slots config pcie_base_addr (suc n) device e1000_bar0 =
    scan_slots config pcie_base_addr n (device + 1)
      (scan_slot config pcie_base_addr device e1000_bar0)

-- The base address stands in the MCFG table at offset 44; here it is given.
unfoldable pub scan_bus_zero : (ℕ → ℕ) → ℕ → Option ℕ
scan_bus_zero config pcie_base_addr = scan_slots config pcie_base_addr 32 0 none
