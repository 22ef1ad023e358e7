-- ===== src/Interrupts.antt =====
-- src/interrupts.rs: the handlers and the setup of the interrupt controllers. A byte that a handler
-- reads from its port is an argument of the event; port writes are listed like register writes. The
-- table of the handlers is in Interrupts/Table.
pub mod Acknowledge
pub mod Table
mod Tests
use qore_os.Base.{
  ℕ, ◌+◌, List, [], ◌∷◌, Bool, true, false, Option, none, some, not, ◌||◌, bit_or, ◌==◌,
  if◌then◌else◌,
}
use qore_os.Text.{codes}
use qore_os.Machine.{Hardware, Machine, write_mmio, print}
use qore_os.Mouse.{Mouse, process_packet_byte}
use qore_os.E1000.{E1000, udp_broadcast}
use qore_os.Syscall.{System, say, kernel_of, back}

-- The statics that the handlers use, with LAPIC_BASE, and the port writes, the latest first.
pub record State : Type 0 where
  pub system : System
  pub mouse : Mouse
  pub lapic_base : ℕ
  pub ports : List (ℕ × ℕ)

abbrev pub write_mem : ℕ → ℕ → State → State
write_mem address value s =
    let system = s.system in
    record s { system = record system { machine = write_mmio address value system.machine } }

abbrev pub write_port : ℕ → ℕ → State → State
write_port port value s = record s { ports = (port, value) ∷ s.ports }

-- The routes of one line: the low half of its entry has the vector, the high half is 0.
abbrev pub route : ℕ → ℕ → ℕ → State → State
route ioapic register vector s = write_mem (ioapic + 0x10) 0 (
    write_mem ioapic (register + 1)
      (write_mem (ioapic + 0x10) vector (write_mem ioapic register s)))

-- `siv` is what the spurious interrupt register reads as.
unfoldable pub init_apic : ℕ → ℕ → ℕ → State → State
init_apic siv lapic ioapic s0 =
    let s1 = write_port 0xA1 0xFF (write_port 0x21 0xFF (record s0 { lapic_base = lapic })) in
    let s2 = write_mem (lapic + 0xF0) (bit_or (bit_or siv 0x100) 0xFF) s1 in
    if lapic == 0 || ioapic == 0 then s1 else route ioapic 0x28 44 (route ioapic 0x12 33 s2)

unfoldable pub notify_end_of_interrupt : State → State
notify_end_of_interrupt s =
    if not (s.lapic_base == 0) then write_mem (s.lapic_base + 0xB0) 0 s else s

abbrev pub broadcast_with : Hardware → System → Option E1000 → System
broadcast_with hw s none = s
broadcast_with hw s (some nic) = back s (udp_broadcast hw (kernel_of s nic))

-- `syscall_handler`, the handler of `int 0x80`.
unfoldable pub broadcast : Hardware → System → System
broadcast hw s =
    broadcast_with hw (say (codes "\nSYS_NET_TX: UDP BROADCAST FIRED!\n") 0xEF4444 s) s.net_card

-- The keys of letters and of the space, by their scancodes.
unfoldable pub keys : List (ℕ × List ℕ)
keys =
    (0x10, codes "Q")
    ∷ (0x11, codes "W")
    ∷ (0x12, codes "E")
    ∷ (0x13, codes "R")
    ∷ (0x14, codes "T")
    ∷ (0x15, codes "Y")
    ∷ (0x16, codes "U")
    ∷ (0x17, codes "I")
    ∷ (0x18, codes "O")
    ∷ (0x19, codes "P")
    ∷ (0x1E, codes "A")
    ∷ (0x1F, codes "S")
    ∷ (0x20, codes "D")
    ∷ (0x21, codes "F")
    ∷ (0x22, codes "G")
    ∷ (0x23, codes "H")
    ∷ (0x24, codes "J")
    ∷ (0x25, codes "K")
    ∷ (0x26, codes "L")
    ∷ (0x2C, codes "Z")
    ∷ (0x2D, codes "X")
    ∷ (0x2E, codes "C")
    ∷ (0x2F, codes "V")
    ∷ (0x30, codes "B")
    ∷ (0x31, codes "N")
    ∷ (0x32, codes "M")
    ∷ (0x39, codes " ")
    ∷ []

unfoldable pub key_at : List (ℕ × List ℕ) → ℕ → Option (List ℕ)
key_at [] scancode = none
key_at ((code, key) ∷ rest) scancode = if scancode == code then some key else key_at rest scancode

abbrev pub show_key : Option (List ℕ) → System → System
show_key none s = s
show_key (some c) s = say c 0x10B981 s

-- The work of the keyboard's handler: a letter is printed, Enter calls `int 0x80`.
unfoldable pub on_key : Hardware → ℕ → System → System
on_key hw scancode s =
    if scancode == 0x1C then broadcast hw s else show_key (key_at keys scancode) s

unfoldable pub keyboard_interrupt_handler : Hardware → ℕ → State → State
keyboard_interrupt_handler hw scancode s =
    notify_end_of_interrupt (record s { system = on_key hw scancode s.system })

unfoldable pub mouse_interrupt_handler : ℕ → State → State
mouse_interrupt_handler packet s =
    notify_end_of_interrupt (record s { mouse = process_packet_byte packet s.mouse })

unfoldable pub timer_interrupt_handler : State → State
timer_interrupt_handler s = notify_end_of_interrupt s

-- The interrupts, with the byte that the handler reads.
pub data Event : Type 0 where
  timer : Event
  keyboard mouse : ℕ → Event

unfoldable pub handle : Hardware → Event → State → State
handle hw timer s = timer_interrupt_handler s
handle hw (keyboard scancode) s = keyboard_interrupt_handler hw scancode s
handle hw (mouse packet) s = mouse_interrupt_handler packet s

unfoldable pub handle_all : Hardware → List Event → State → State
handle_all hw [] s = s
handle_all hw (e ∷ es) s = handle_all hw es (handle hw e s)
