-- ===== src/Smp/Wake.antt =====
-- The block of `_start` in src/main.rs that wakes the other processors. The pauses have no state, and the
-- lines of `copy_trampoline` itself are left out.
use qore_os.Base.{ℕ, ◌+◌, ◌*◌, ◌^◌, ◌<◌, ◌≡◌, refl, ◌∷◌, ◌++◌, not, ◌==◌, if◌then◌else◌}
use qore_os.Ram.{load}
use qore_os.Text.{codes, decimal}
use qore_os.Machine.{Machine, write_mmio, print}
use qore_os.Smp.{Statics, trampoline, copy_trampoline}
use qore_os.Smp.Handover.{copy_trampoline-Handover}

abbrev pub start_vector : ℕ
start_vector = 0x08

-- The two interrupts to all other processors: the reset, and the start at page 8.
unfoldable pub fire : ℕ → Machine → Machine
fire local_apic_base m0 =
    let icr_low = local_apic_base + 0x300 in
    let icr_high = local_apic_base + 0x310 in
    let m1 = print (codes "SMP: Firing INIT IPI to all Application Processors...\n") 0xF59E0B m0 in
    let m2 = write_mmio icr_low 0x000C4500 (write_mmio icr_high 0 m1) in
    let m3 = print (codes "SMP: Firing SIPI (Vector 0x08) to awaken APs...\n") 0x10B981 m2 in
    write_mmio icr_low (0x000C4600 + start_vector) m3

-- `active_aps` is what AP_COUNT is then.
unfoldable pub wake_processors : Statics → ℕ → ℕ → ℕ → Machine → Machine
wake_processors s cr3 active_aps local_apic_base m =
    let m1 = print (codes "SMP: Copying AP Trampoline to Safe Zone 0x8000...\n") 0xF59E0B m in
    let m2 = fire local_apic_base (record m1 { ram = copy_trampoline s m1.ram cr3 }) in
    let smp_msg =
      codes "> SMP: "
      ++ (decimal active_aps ++ codes " APPLICATION PROCESSORS SUCCESSFULLY AWAKENED!\n") in
    if not (local_apic_base == 0) then print smp_msg 0x10B981 m2 else m

-- The start interrupt comes after the reset, and its page is where the trampoline stands.
pub fire-Handover :
    (s : Statics) (cr3 local_apic_base : ℕ) (m : Machine)
    → cr3 < 2 ^ 32
    → s.ap_stacks + 65536 < 2 ^ 64
    → s.ap_main < 2 ^ 64
    → let m' = fire local_apic_base (record m { ram = copy_trampoline s m.ram cr3 }) in
      (m'.writes
        ≡ (local_apic_base + 0x300, 0x000C4600 + start_vector)
          ∷ (local_apic_base + 0x300, 0x000C4500)
          ∷ (local_apic_base + 0x310, 0)
          ∷ m.writes)
      × (load m'.ram (start_vector * 4096) 161 ≡ trampoline)
unfolding fire
fire-Handover s cr3 local_apic_base m low stacks main =
    (refl, (copy_trampoline-Handover s m.ram cr3 low stacks main).code)
