-- ===== src/Loop/Tests.antt =====
-- A round after an interrupt of the mouse, without a network card.
use qore_os.Base.{◌≡◌, refl, [], none, some, arith}
use qore_os.Mouse.{Mouse, in_cycle}
use qore_os.Compositor.Screen.{Screen}
use qore_os.Compositor.Screen
use qore_os.Interrupts.{mouse, handle, mouse_interrupt_handler, notify_end_of_interrupt}
use qore_os.Desktop.{start, frame, clamp_mouse, clamp_axis, click}
use qore_os.Mouse
use qore_os.Loop.{Session, draw, round, poll_card, leave, waits, begins, interrupted, goes_round}
use qore_os.Usermode.{drop_to_usermode}
use qore_os.Cpu.{Cpu}
use qore_os.Loop.Sample.{cpu, screen, env, screen-IsDisplay}
use qore_os.E1000.Sample.{hw}
use qore_os.Loop.Run.{IsRunning, Runs-IsRunning}

abbrev first : Session
first = record {
  state = record {
    system = record {
      net_card = none;
      arp_table = [];
      http_payload = some [];
      nvme_drive = none;
      canvases = [];
      screen = screen;
      pixels = [];
      machine = record { ram = λ a. 0; reads = 0; writes = []; blocks = 0; console = [] };
    };
    mouse = qore_os.Mouse.start;
    lapic_base = 0xFEE00000;
    ports = [];
  };
  desktop = start;
}

-- The mouse has sent its first byte.
abbrev moved : Session
moved = record first { state = handle hw (mouse 0x08) first.state }

abbrev drawn : Session
drawn =
    let state = moved.state in
    record moved {
      state = record state { system = draw (env hw).status state.mouse start state.system };
    }

goes : round (env hw) moved ≡ waits drawn
unfolding round poll_card frame clamp_mouse clamp_axis click start handle mouse_interrupt_handler
    notify_end_of_interrupt qore_os.Mouse.process_packet_byte in_cycle qore_os.Mouse.start
    qore_os.Compositor.Screen.init
goes = refl

first-IsRunning : IsRunning (some []) screen first
unfolding start qore_os.Mouse.start qore_os.Compositor.Screen.init
first-IsRunning = record {
  serving = record { payload = refl; screen = refl; visible = tt };
  reading = omega arith;
  inside = omega arith;
}

drawn-IsRunning : IsRunning (some []) screen drawn
drawn-IsRunning =
    Runs-IsRunning (env hw) first drawn screen-IsDisplay
      (goes_round (interrupted (mouse 0x08) begins) goes) first-IsRunning

-- The drop button is pressed at (200, 450).
abbrev clicked : Session
clicked =
    let state = first.state in
    let m = state.mouse in
    record first { state = record state { mouse = record m { x = 200; y = 450; btn = 1 } } }

abbrev dropped : Session
dropped =
    let state = clicked.state in
    record clicked { state = record state { system = leave 0x1000 state.system } }

abbrev task : Cpu
task = drop_to_usermode 0x2B 0x33 0x201000 0x214000 cpu
