-- ===== src/Ecam/Tests.antt =====
-- A segment at 4096 whose first function is an NVMe controller with a 64-bit base address.
use qore_os.Base.{◌≡◌, refl, ◌==◌, if◌then◌else◌, arith}
use qore_os.Ram.{Ram, IsBytes, load, store, from_le, le_bytes}
use qore_os.Ecam.{Scan, no_devices, bar_low, bar_address, enable, scan_function, scan_all}
use qore_os.Ecam.Scanned.{Scanned, scan_all-Scanned}

abbrev ram : Ram
ram a =
    if a == 4107
    then 1
    else if a == 4106
    then 8
    else if a == 4112
    then 4
    else if a == 4115
    then 0xFE
    else if a == 4116
    then 1
    else 0

ram-IsBytes : IsBytes ram
ram-IsBytes a = ground arith

before : Scan
before = record { ram = ram; devices = no_devices }

found_nvme : (scan_function 4096 before).devices.nvme_bar0 ≡ 0x1FE000000
unfolding before scan_function no_devices load from_le le_bytes bar_address bar_low enable store
found_nvme = refl

enabled : (scan_function 4096 before).ram 4100 ≡ 6
unfolding before scan_function no_devices load from_le le_bytes bar_address bar_low enable store
enabled = refl

scan_all_example :
    Scanned ram 4096 65536 (scan_all 4096 (record { ram = ram; devices = no_devices }))
scan_all_example = scan_all-Scanned ram 4096 ram-IsBytes
