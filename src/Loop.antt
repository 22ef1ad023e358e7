-- ===== src/Loop.antt =====
-- The endless loop at the end of `_start` in src/main.rs as a whole: a round polls the network card, moves
-- the mouse, the window and the buttons, and draws, or leaves the kernel for ring 3; then the processor
-- waits. An interrupt comes between two rounds here, while the source lets it come within one too.
pub mod Run
pub mod Serve
pub mod Leave
pub mod Start
pub mod Sample
mod Tests
use qore_os.Base.{ℕ, ◌≡◌, Option, none, some}
use qore_os.Text.{codes}
use qore_os.Machine.{Hardware}
use qore_os.Cpu.{Cpu}
use qore_os.Mouse.{Mouse}
use qore_os.E1000.{E1000}
use qore_os.E1000.Poll.{Outcome, panic, done, map_outcome, poll}
use qore_os.Memory.{unlock_mmu_for_ring3}
use qore_os.Gdt.{ring3_selector}
use qore_os.Usermode.{drop_to_usermode}
use qore_os.Syscall.{System, say, kernel_of, back}
use qore_os.Interrupts.{State, Event, handle}
use qore_os.Desktop.{Desktop, goes_on, drops, frame}
use qore_os.Desktop.Render.{Status, render}
use qore_os.Desktop

-- The statics of the kernel and the variables of the loop.
pub record Session : Type 0 where
  pub state : State
  pub desktop : Desktop

-- What does not change in the loop: the devices, what the boot code found, and what the drop needs.
pub record Surroundings : Type 0 where
  pub hw : Hardware
  pub status : Status
  pub cr3 : ℕ
  pub cpu : Cpu
  pub user_code : ℕ
  pub user_data : ℕ
  pub ring3_user_task : ℕ
  pub user_stack : ℕ

pub data Round : Type 0 where
  waits : Session → Round
  in_ring3 : Session → Cpu → Round
  panics : Round

abbrev pub poll_with : Hardware → System → Option E1000 → Outcome System
poll_with hw s none = done s
poll_with hw s (some nic) = map_outcome (λ r. back s r.1) (poll hw (kernel_of s nic))

unfoldable pub poll_card : Hardware → System → Outcome System
poll_card hw s = poll_with hw s s.net_card

abbrev pub draw : Status → Mouse → Desktop → System → System
draw status m d s = record s { pixels = render s.screen status m d s.pixels }

-- The branch of the drop button before `drop_to_usermode`.
unfoldable pub leave : ℕ → System → System
leave cr3 s0 =
    let s1 =
      say (codes "\n> [WARNING] EJECTING FROM KERNEL MODE. DROPPING TO RING-3...\n") 0xEF4444 s0 in
    let s2 = say (codes "> SYS: DISABLING CR0.WP & UNLOCKING MMU...\n") 0xF59E0B s1 in
    let machine = s2.machine in
    say (codes "> SYS: MMU UNLOCKED! FIRING IRETQ...\n") 0x10B981
      (record s2 { machine = record machine { ram = unlock_mmu_for_ring3 machine.ram cr3 } })

abbrev pub after_frame : Surroundings → State → Desktop.Outcome → Round
after_frame env s (goes_on d m) =
    let system = draw env.status m d s.system in
    waits (record { state = record s { mouse = m; system = system }; desktop = d })
after_frame env s (drops d m) =
    in_ring3
      (record { state = record s { mouse = m; system = leave env.cr3 s.system }; desktop = d })
      (drop_to_usermode (ring3_selector env.user_code) (ring3_selector env.user_data)
        env.ring3_user_task env.user_stack env.cpu)

abbrev pub after_poll : Surroundings → State → Desktop → Outcome System → Round
after_poll env s d panic = panics
after_poll env s d (done system) =
    after_frame env (record s { system = system }) (frame system.screen s.mouse d)

unfoldable pub round : Surroundings → Session → Round
unfolding poll_card
round env x = after_poll env x.state x.desktop (poll_card env.hw x.state.system)

-- The sessions that the loop comes to by rounds and interrupts, in any order.
pub data Runs (env : Surroundings) (x : Session) : Session → Type 0 where
  begins : Runs env x x
  interrupted :
      (e : Event) {y : Session}
      → Runs env x y
      → Runs env x (record y { state = handle env.hw e y.state })
  goes_round : {y z : Session} → Runs env x y → round env y ≡ waits z → Runs env x z
