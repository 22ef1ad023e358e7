-- ===== src/Interrupts/Tests.antt =====
-- The keyboard and the mouse on the sample kernel.
use qore_os.Base.{◌≡◌, refl, [], ◌∷◌, none, some, arith}
use qore_os.Text.{codes}
use qore_os.Compositor.Screen.{init}
use qore_os.E1000.Sample.{kernel, hw}
use qore_os.Mouse
use qore_os.Mouse.{process_bytes}
use qore_os.Interrupts.{State, keyboard, mouse, timer, keys, key_at, handle, handle_all, init_apic}
use qore_os.Interrupts.Table.{keyboard_int, keyboard_handler, raise, raise_ring3}
use qore_os.Interrupts.Acknowledge.{Acknowledged, handle-Acknowledged, handle_all_mouse}

abbrev state : State
state = record {
  system = record {
    net_card = some kernel.nic;
    arp_table = kernel.arp;
    http_payload = none;
    nvme_drive = none;
    canvases = [];
    screen =
        init (record { framebuffer_base = 0x80000000; width = 1024; height = 768; stride = 1024 });
    pixels = [];
    machine = kernel.machine;
  };
  mouse = Mouse.start;
  lapic_base = 0xFEE00000;
  ports = [];
}

letter : key_at keys 0x1F ≡ some (codes "S")
unfolding key_at keys
letter = refl

released : key_at keys 0x9F ≡ none
unfolding key_at keys
released = refl

routed :
    (init_apic 0 0xFEE00000 0xFEC00000 state).system.machine.writes
    ≡ (0xFEC00010, 0)
      ∷ (0xFEC00000, 0x29)
      ∷ (0xFEC00010, 44)
      ∷ (0xFEC00000, 0x28)
      ∷ (0xFEC00010, 0)
      ∷ (0xFEC00000, 0x13)
      ∷ (0xFEC00010, 33)
      ∷ (0xFEC00000, 0x12)
      ∷ (0xFEE000F0, 0x1FF)
      ∷ []
unfolding init_apic
routed = refl

handle-Acknowledged_example : Acknowledged state (keyboard 0x1C) (handle hw (keyboard 0x1C) state)
handle-Acknowledged_example = handle-Acknowledged hw (keyboard 0x1C) state (λ e. omega (arith, e))

handle_all_mouse_example :
    (handle_all hw (mouse 8 ∷ timer ∷ mouse 5 ∷ keyboard 0x1F ∷ mouse 3 ∷ []) state).mouse
    ≡ process_bytes (8 ∷ 5 ∷ 3 ∷ []) Mouse.start
handle_all_mouse_example =
    handle_all_mouse hw (mouse 8 ∷ timer ∷ mouse 5 ∷ keyboard 0x1F ∷ mouse 3 ∷ []) state

forged_key : raise 3 keyboard_int ≡ some keyboard_handler
forged_key = raise_ring3 keyboard_int
