-- ===== src/Interrupts/Table.antt =====
-- The table of the handlers in src/interrupts.rs, and how an interrupt finds its handler in it. The
-- table is that of the x86_64 crate, here a function of the vector.
use qore_os.Base.{ℕ, ◌≡◌, Option, none, some, ltb, ◌==◌, if◌then◌else◌, arith}
use qore_os.Machine.{Hardware}
use qore_os.Interrupts.{
  State, broadcast, keyboard_interrupt_handler, mouse_interrupt_handler, timer_interrupt_handler,
}

pub data Handler : Type 0 where
  breakpoint_handler double_fault_handler syscall_handler keyboard_handler mouse_handler
        timer_handler :
      Handler

-- An entry with its stack in the task segment, and the ring up to which `int` may name it.
pub record Gate : Type 0 where
  pub handler : Handler
  pub stack_index : Option ℕ
  pub privilege_level : ℕ

abbrev pub InterruptDescriptorTable : Type 0
InterruptDescriptorTable = ℕ → Option Gate

abbrev pub timer_int : ℕ
timer_int = 32

abbrev pub keyboard_int : ℕ
keyboard_int = 33

abbrev pub mouse_int : ℕ
mouse_int = 44

abbrev pub syscall_int : ℕ
syscall_int = 0x80

abbrev pub double_fault_ist_index : ℕ
double_fault_ist_index = 0

-- `set_handler_fn`, `set_stack_index` and `set_privilege_level` of the crate
abbrev pub gate : Handler → Option ℕ → ℕ → Gate
gate h stack ring = record { handler = h; stack_index = stack; privilege_level = ring }

abbrev pub set : ℕ → Gate → InterruptDescriptorTable → InterruptDescriptorTable
set vector g t v = if v == vector then some g else t v

-- IDT; a breakpoint has vector 3 and a double fault vector 8.
unfoldable pub idt : InterruptDescriptorTable
idt = set timer_int (gate timer_handler none 0) (
    set mouse_int (gate mouse_handler none 3) (
      set keyboard_int (gate keyboard_handler none 3) (
        set syscall_int (gate syscall_handler none 3) (
          set 8 (gate double_fault_handler (some double_fault_ist_index) 0)
            (set 3 (gate breakpoint_handler none 0) λ v. none)))))

-- `int vector` in ring `ring`: none is a fault of the processor.
abbrev pub raise_gate : ℕ → Option Gate → Option Handler
raise_gate ring none = none
raise_gate ring (some g) = if ltb g.privilege_level ring then none else some g.handler

unfoldable pub raise : ℕ → ℕ → Option Handler
unfolding idt
raise ring vector = raise_gate ring (idt vector)

-- The work of a handler, with the byte that it reads from its port; none is the panic.
unfoldable pub run_handler : Hardware → Handler → ℕ → State → Option State
run_handler hw breakpoint_handler byte s = some s
run_handler hw double_fault_handler byte s = none
run_handler hw syscall_handler byte s = some (record s { system = broadcast hw s.system })
run_handler hw keyboard_handler byte s = some (keyboard_interrupt_handler hw byte s)
run_handler hw mouse_handler byte s = some (mouse_interrupt_handler byte s)
run_handler hw timer_handler byte s = some (timer_interrupt_handler s)

-- A task in ring 3 reaches the handlers of vector 0x80, of the keyboard and of the mouse by `int`, and
-- every other vector is refused.
pub raise_ring3 :
    (vector : ℕ)
    → raise 3 vector ≡ (
        if vector == 0x80
        then some syscall_handler
        else if vector == 33
        then some keyboard_handler
        else if vector == 44
        then some mouse_handler
        else none)
unfolding raise
raise_ring3 vector = ground arith
