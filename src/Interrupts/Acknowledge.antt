-- ===== src/Interrupts/Acknowledge.antt =====
-- Each interrupt is acknowledged last, and the mouse sees its bytes in order whatever comes between.
use mathlib.Core.Path.{subst}
use qore_os.Base.{
  ℕ, ◌+◌, ◌%◌, ◌≡◌, ◌≢◌, refl, ap, sym, ◌∙◌, List, [], ◌∷◌, not, Option, none, some, ◌==◌, if_true,
  if_intro, ==→eq, ne→==,
}
use qore_os.Text.{codes}
use qore_os.Machine.{Hardware}
use qore_os.Mouse.{process_packet_byte, process_bytes}
use qore_os.E1000.{E1000, transmit, udp_broadcast}
use qore_os.Syscall.{System, say}
use qore_os.Interrupts.{
  State, Event, timer, keyboard, mouse, write_mem, notify_end_of_interrupt, broadcast_with,
  broadcast, show_key, key_at, keys, on_key, keyboard_interrupt_handler, mouse_interrupt_handler,
  timer_interrupt_handler, handle, handle_all,
}

abbrev pub writes : State → List (ℕ × ℕ)
writes s = s.system.machine.writes

abbrev pub end_of_interrupt : State → ℕ × ℕ
end_of_interrupt s = (s.lapic_base + 0xB0, 0)

-- The last register write is the acknowledgement; before it there is at most the tail register of the
-- network card, after Enter.
pub data Acknowledged (s : State) : Event → State → Type 0 where
  quiet :
      (e : Event) (s' : State)
      → writes s' ≡ end_of_interrupt s ∷ writes s
      → s'.lapic_base ≡ s.lapic_base
      → Acknowledged s e s'
  sent :
      (nic : E1000) (s' : State)
      → s.system.net_card ≡ some nic
      → writes s'
        ≡ end_of_interrupt s
          ∷ (nic.bar0_address + 0x3818, (nic.current_tx_bucket + 1) % 8)
          ∷ writes s
      → s'.lapic_base ≡ s.lapic_base
      → Acknowledged s (keyboard 0x1C) s'

notify_lem :
    (s : State) → s.lapic_base ≢ 0 → notify_end_of_interrupt s ≡ write_mem (s.lapic_base + 0xB0) 0 s
unfolding notify_end_of_interrupt
notify_lem s h = if_true (not (s.lapic_base == 0)) _ _ (ap not (ne→== s.lapic_base 0 h))

-- What the keyboard's handler does to the registers.
data Keyed (s : System) (scancode : ℕ) : System → Type 0 where
  no_write : (s' : System) → s'.machine.writes ≡ s.machine.writes → Keyed s scancode s'
  broadcasted :
      (nic : E1000) (s' : System)
      → scancode ≡ 0x1C
      → s.net_card ≡ some nic
      → s'.machine.writes
        ≡ (nic.bar0_address + 0x3818, (nic.current_tx_bucket + 1) % 8) ∷ s.machine.writes
      → Keyed s scancode s'

show_key-Keyed : (s : System) (scancode : ℕ) (o : Option (List ℕ)) → Keyed s scancode (show_key o s)
show_key-Keyed s scancode none = no_write s refl
show_key-Keyed s scancode (some c) = no_write (say c 0x10B981 s) refl

broadcast-Keyed :
    (hw : Hardware) (s : System) (scancode : ℕ)
    → scancode ≡ 0x1C
    → Keyed s scancode (broadcast hw s)
unfolding broadcast udp_broadcast transmit
broadcast-Keyed hw s scancode e = by_card s.net_card refl
  where
    by_card :
        (o : Option E1000)
        → s.net_card ≡ o
        → Keyed s scancode
            (broadcast_with hw (say (codes "\nSYS_NET_TX: UDP BROADCAST FIRED!\n") 0xEF4444 s) o)
    by_card none h = no_write _ refl
    by_card (some nic) h = broadcasted nic _ e h refl

on_key-Keyed : (hw : Hardware) (scancode : ℕ) (s : System) → Keyed s scancode (on_key hw scancode s)
unfolding on_key
on_key-Keyed hw scancode s =
    if_intro (Keyed s scancode) (scancode == 0x1C)
      (λ e. broadcast-Keyed hw s scancode (==→eq scancode 0x1C e))
      λ _. show_key-Keyed s scancode (key_at keys scancode)

-- Where the local controller is known, each interrupt ends with one write of 0 to its register for the
-- end of an interrupt. No other register is written, but that Enter writes the transmit tail register
-- of a network card.
pub handle-Acknowledged :
    (hw : Hardware) (e : Event) (s : State) → s.lapic_base ≢ 0 → Acknowledged s e (handle hw e s)
unfolding handle timer_interrupt_handler keyboard_interrupt_handler mouse_interrupt_handler
handle-Acknowledged hw timer s h = rw (notify_lem s h) (quiet timer _ refl refl)
handle-Acknowledged hw (mouse packet) s h =
    rw (notify_lem (record s { mouse = process_packet_byte packet s.mouse }) h)
      (quiet (mouse packet) _ refl refl)
handle-Acknowledged hw (keyboard scancode) s h =
    rw (notify_lem (record s { system = on_key hw scancode s.system }) h)
      (by_key (on_key hw scancode s.system) (on_key-Keyed hw scancode s.system))
  where
    by_key :
        (s' : System)
        → Keyed s.system scancode s'
        → Acknowledged s
            (keyboard scancode)
            (write_mem (s.lapic_base + 0xB0) 0 (record s { system = s' }))
    by_key _ (no_write s' k) = quiet (keyboard scancode) _ (ap (λ w. end_of_interrupt s ∷ w) k) refl
    by_key _ (broadcasted nic s' e c k) =
        subst
          (λ key.
            Acknowledged s (keyboard key)
              (write_mem (s.lapic_base + 0xB0) 0 (record s { system = s' })))
          (sym e) (sent nic _ c (ap (λ w. end_of_interrupt s ∷ w) k) refl)

-- The bytes of the mouse among the events.
abbrev pub mouse_bytes : List Event → List ℕ
mouse_bytes [] = []
mouse_bytes (timer ∷ es) = mouse_bytes es
mouse_bytes (keyboard scancode ∷ es) = mouse_bytes es
mouse_bytes (mouse packet ∷ es) = packet ∷ mouse_bytes es

pub notify_mouse : (s : State) → (notify_end_of_interrupt s).mouse ≡ s.mouse
unfolding notify_end_of_interrupt
notify_mouse s =
    if_intro (λ (t : State). t.mouse ≡ s.mouse) (not (s.lapic_base == 0)) (λ _. refl) λ _. refl

-- However the interrupts of the mouse are mixed with those of the timer and the keyboard, the mouse
-- ends in the state in which its own bytes, in order, leave it.
pub handle_all_mouse :
    (hw : Hardware) (es : List Event) (s : State)
    → (handle_all hw es s).mouse ≡ process_bytes (mouse_bytes es) s.mouse
unfolding handle_all handle process_bytes timer_interrupt_handler keyboard_interrupt_handler
    mouse_interrupt_handler
handle_all_mouse hw [] s = refl
handle_all_mouse hw (timer ∷ es) s =
    handle_all_mouse hw es _ ∙ ap (process_bytes (mouse_bytes es)) (notify_mouse s)
handle_all_mouse hw (keyboard scancode ∷ es) s =
    handle_all_mouse hw es _
    ∙ ap (process_bytes (mouse_bytes es))
        (notify_mouse (record s { system = on_key hw scancode s.system }))
handle_all_mouse hw (mouse packet ∷ es) s =
    handle_all_mouse hw es _
    ∙ ap (process_bytes (mouse_bytes es))
        (notify_mouse (record s { mouse = process_packet_byte packet s.mouse }))
