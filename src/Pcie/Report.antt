-- ===== src/Pcie/Report.antt =====
-- What `scan_bus_zero` of src/pcie.rs prints: its lines in order, for the text console of Vga.
use qore_os.Base.{
  ℕ, zero, suc, ◌+◌, ◌*◌, ◌/◌, ◌%◌, ◌^◌, List, [], ◌∷◌, ◌++◌, Bool, ◌&&◌, not, Option, bit_and,
  ◌==◌, if◌then◌else◌,
}
use qore_os.Text.{codes, decimal, decimal2, hex, hex2, hex4}
use qore_os.Vga.{VgaWriter, println}
use qore_os.Pcie.{vendor_id, device_id}

unfoldable pub device_types : List (ℕ × ℕ × List ℕ)
device_types =
    (0x01, 0x01, codes "Storage: IDE Controller")
    ∷ (0x01, 0x06, codes "Storage: SATA Controller")
    ∷ (0x01, 0x08, codes "Storage: NVMe Controller")
    ∷ (0x02, 0x00, codes "Network: Ethernet Controller")
    ∷ (0x03, 0x00, codes "Display: VGA Compatible Controller")
    ∷ (0x04, 0x03, codes "Multimedia: High Definition Audio")
    ∷ (0x06, 0x00, codes "Bridge: Host Bridge")
    ∷ (0x06, 0x01, codes "Bridge: ISA Bridge")
    ∷ (0x06, 0x04, codes "Bridge: PCI-to-PCI Bridge")
    ∷ (0x0C, 0x03, codes "Serial Bus: USB Controller")
    ∷ []

-- The first arm of the match that fits.
unfoldable pub type_in : List (ℕ × ℕ × List ℕ) → ℕ → ℕ → List ℕ
type_in [] class subclass = codes "Unknown Device Class"
type_in ((c, s, name) ∷ rest) class subclass =
    if c == class && s == subclass then name else type_in rest class subclass

unfoldable pub get_device_type : ℕ → ℕ → List ℕ
unfolding device_types type_in
get_device_type class subclass = type_in device_types class subclass

-- The bytes of the card's hardware address, from RAL and RAH.
unfoldable pub mac_text : ℕ → ℕ → List ℕ
mac_text ral rah =
    hex2 (ral % 256)
    ++ (codes ":"
        ++ (hex2 (ral / 2 ^ 8 % 256)
            ++ (codes ":"
                ++ (hex2 (ral / 2 ^ 16 % 256)
                    ++ (codes ":"
                        ++ (hex2 (ral / 2 ^ 24 % 256)
                            ++ (codes ":"
                                ++ (hex2 (rah % 256)
                                    ++ (codes ":" ++ hex2 (rah / 2 ^ 8 % 256))))))))))

-- The two lines about a network card at BAR0.
unfoldable pub card_lines : (ℕ → ℕ) → ℕ → List (List ℕ)
card_lines config control_panel_addr =
    (codes "          >>> ETHERNET CONTROL PANEL (BAR0) FOUND AT: "
      ++ (hex control_panel_addr ++ codes " <<<"))
    ∷ (codes "          >>> HARDWARE MAC ADDRESS: "
        ++ (mac_text (config (control_panel_addr + 0x5400)) (config (control_panel_addr + 0x5404))
            ++ codes " <<<"))
    ∷ []

abbrev pub is_there : (ℕ → ℕ) → ℕ → Bool
is_there config device_addr = not (vendor_id (config device_addr) == 0xFFFF)

-- The lines about one slot.
unfoldable pub slot_lines : (ℕ → ℕ) → ℕ → ℕ → List (List ℕ)
slot_lines config pcie_base_addr device =
    let device_addr = pcie_base_addr + device * 2 ^ 15 in
    let vendor = vendor_id (config device_addr) in
    let id = device_id (config device_addr) in
    let class_info = config (device_addr + 0x08) in
    let device_type = get_device_type (class_info / 2 ^ 24 % 256) (class_info / 2 ^ 16 % 256) in
    let first =
      codes " -> SLOT " ++ (decimal2 device ++ (codes ": [" ++ (device_type ++ codes "]"))) in
    let second =
      codes "          Vendor: 0x" ++ (hex4 vendor ++ (codes " | Device: 0x" ++ hex4 id)) in
    let card =
      if vendor == 0x8086 && id == 0x10D3
      then card_lines config (bit_and (config (device_addr + 0x10)) 0xFFFFFFF0)
      else [] in
    if is_there config device_addr then first ∷ second ∷ card else []

-- The lines about `n` slots from `device` on.
unfoldable pub slots_lines : (ℕ → ℕ) → ℕ → ℕ → ℕ → List (List ℕ)
slots_lines config pcie_base_addr zero device = []
slots_lines config pcie_base_addr (suc n) device =
    slot_lines config pcie_base_addr device ++ slots_lines config pcie_base_addr n (device + 1)

-- `devices_found` after `n` slots from `device` on.
unfoldable pub devices_found : (ℕ → ℕ) → ℕ → ℕ → ℕ → ℕ → ℕ
devices_found config pcie_base_addr zero device found = found
devices_found config pcie_base_addr (suc n) device found =
    devices_found config pcie_base_addr n (device + 1)
      (if is_there config (pcie_base_addr + device * 2 ^ 15) then found + 1 else found)

unfoldable pub report : (ℕ → ℕ) → ℕ → List (List ℕ)
report config pcie_base_addr =
    (codes "PCIe Configuration Space Base Address: " ++ hex pcie_base_addr)
    ∷ codes "Scanning Motherboard PCIe Bus 0..."
    ∷ (slots_lines config pcie_base_addr 32 0
        ++ ((codes "Bus 0 Scan Complete. Found "
              ++ (decimal (devices_found config pcie_base_addr 32 0 0)
                  ++ codes " attached hardware devices."))
            ∷ []))

unfoldable pub print_all :
    (ℕ → Option (List ℕ)) → List (List ℕ) → Option VgaWriter → Option VgaWriter
print_all font [] writer = writer
print_all font (line ∷ lines) writer = print_all font lines (println font line writer)
