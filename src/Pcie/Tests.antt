-- ===== src/Pcie/Tests.antt =====
-- A bus with the card in slot 2.
use qore_os.Base.{ℕ, [], ◌∷◌, ◌≡◌, refl, none, some, ◌==◌, if◌then◌else◌}
use qore_os.Pcie.{scan_slot, scan_slots, scan_bus_zero}
use qore_os.Text.{codes, hex, hex4}
use qore_os.Pcie.Report.{slot_lines, card_lines, mac_text, get_device_type}
use qore_os.Pcie.Scan.{Scanned, scan_bus_zero-Scanned}

abbrev config : ℕ → ℕ
config a =
    if a == 0xB0010000 then 0x10D38086 else if a == 0xB0010010 then 0xFEB80008 else 0xFFFFFFFF

found : scan_bus_zero config 0xB0000000 ≡ some 0xFEB80000
unfolding scan_bus_zero scan_slots scan_slot
found = refl

scan_bus_zero_example : Scanned config 0xB0000000 32 0 none (scan_bus_zero config 0xB0000000)
scan_bus_zero_example = scan_bus_zero-Scanned config 0xB0000000

printed :
    slot_lines (λ a. if a == 0xB0010008 then 0x02000000 else config a) 0xB0000000 2
    ≡ codes " -> SLOT 02: [Network: Ethernet Controller]"
      ∷ codes "          Vendor: 0x8086 | Device: 0x10D3"
      ∷ codes "          >>> ETHERNET CONTROL PANEL (BAR0) FOUND AT: 0xFEB80000 <<<"
      ∷ codes "          >>> HARDWARE MAC ADDRESS: FF:FF:FF:FF:FF:FF <<<"
      ∷ []
unfolding slot_lines card_lines mac_text get_device_type hex hex4
printed = refl
