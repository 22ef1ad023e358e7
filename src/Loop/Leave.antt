-- ===== src/Loop/Leave.antt =====
-- How the loop of src/main.rs leaves the kernel for the task in ring 3.
use qore_os.Base.{ℕ, ◌%◌, ◌^◌, ◌≡◌}
use qore_os.Compositor.Screen.{Screen}
use qore_os.Cpu.{Cpu}
use qore_os.Desktop.Drag.{IsDrop}
use qore_os.Gdt.{ring3_selector}
use qore_os.Memory.{walk_page_table}
use qore_os.Memory.Open.{OpenSlots}
use qore_os.Mouse.{Mouse}
use qore_os.Syscall.{System}
use qore_os.Loop.{Session, Surroundings, Round, waits, in_ring3, panics}
use qore_os.Desktop

-- The kernel `y` and the processor at the drop of a round on `x`, with the drivers as `polled` after the
-- poll of the card.
pub record HasLeft (env : Surroundings) (x : Session) (polled : System) (y : Session) (c : Cpu)
    : Type 0 where
  pub click : (m : Mouse) × IsDrop x.state.mouse m x.desktop
  pub starts : c.rip ≡ env.ring3_user_task
  pub stack : c.stack_base ≡ env.user_stack
  pub code : c.cs ≡ ring3_selector env.user_code % 2 ^ 16
  pub data_segment : c.ss ≡ ring3_selector env.user_data % 2 ^ 16
  pub translations :
      (virt : ℕ)
      → walk_page_table y.state.system.machine.ram env.cr3 virt
        ≡ walk_page_table polled.machine.ram env.cr3 virt
  pub open_to_task : OpenSlots 3 y.state.system.machine.ram 512 env.cr3

abbrev AtDrop : (Session → Cpu → Type 0) → Round → Type 0
AtDrop P (waits y) = Unit {0}
AtDrop P (in_ring3 y c) = P y c
AtDrop P panics = Unit {0}
