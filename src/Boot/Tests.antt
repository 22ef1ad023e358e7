-- ===== src/Boot/Tests.antt =====
-- The start of the drivers with a small disk.
use qore_os.Base.{
  ◌+◌, ◌*◌, ◌%◌, ◌≤◌, ◌≡◌, refl, [], ◌∷◌, ◌++◌, length, test_bit, true, none, some, ltb, ◌==◌,
  if◌then◌else◌, arith,
}
use qore_os.Ram.{store, load, from_le, le_bytes, all_bytes}
use qore_os.Text.{codes, decimal}
use qore_os.Machine.{Hardware, Machine}
use qore_os.Nvme.Init.{wait_ready}
use qore_os.Nvme.Start.{found_drive, Answers, HeapApart}
use qore_os.Boot.{Boot, announce_card}
use qore_os.E1000.{Kernel}
use qore_os.E1000.Arp.{ip_eq, lookup}
use qore_os.E1000.Sample.{kernel}
use qore_os.E1000.Poll.{done, has_packet, received}
use qore_os.E1000.Poll.Get.{Answered, GetWaits}
use qore_os.Net.{http_body, target_mac_of, starts_with_get}
use qore_os.Net.Craft.{Delivers}
use qore_os.Net.Answers.{get_answer, get_answer_frame}
use qore_os.Net.Page.{IsPage}
use qore_os.Net.Sample.{get_packet, http_response-Fits}
use qore_os.Compositor.Screen.{Screen}
use qore_os.Compositor.Screen
use qore_os.Desktop.{start}
use qore_os.Interrupts.{mouse, handle, mouse_interrupt_handler, notify_end_of_interrupt}
use qore_os.Mouse
use qore_os.Syscall.{kernel_of, back}
use qore_os.Loop.{Session, poll_card, begins, interrupted}
use qore_os.Loop.Sample.{screen, env, screen-IsDisplay}
use qore_os.Loop.Run.{IsRunning}
use qore_os.Loop.Serve.{Runs-poll_card}
use qore_os.E1000

-- A heap that uses the pages after the first sixteen again, and a controller that stops and starts at
-- once.
abbrev boot_hw : Hardware
boot_hw = record {
  device = λ n a. if n == 3 then 1 else 0;
  place = λ n. if ltb n 16 then 0x100000 + n * 4096 else 0x110000 + n % 16 * 4096;
}

abbrev boot_machine : Machine
boot_machine = record { ram = λ a. 0; reads = 0; writes = []; blocks = 0; console = [] }

boot-HeapApart : HeapApart boot_hw 0
boot-HeapApart = record {
  queues = ground arith;
  later = λ n l. ground arith;
  fits = λ n. ground arith;
}

abbrev boot : Boot
boot = record {
  net_card = some (qore_os.E1000.new 0xFEB80000);
  arp_table = [];
  http_payload = none;
  nvme_drive = none;
  audio_drive = none;
  machine = boot_machine;
}

boot-Answers :
    Answers boot_hw (found_drive 0xFEBF0000 (announce_card (some 0xFEB80000) boot).machine)
boot-Answers = record { there = refl; stops = unfold wait_ready in refl }

-- The request in the first bucket of the receive ring.
abbrev serving : Kernel
serving = record kernel {
  http_payload = some (codes "FILE CONTENT: " ++ codes "HI");
  machine = record boot_machine {
    ram =
        store
          (store (store (λ a. 0) 0x20000 get_packet) 0x8000 (le_bytes 8 0x20000 ++ le_bytes 2 59))
          0x800C (1 ∷ []);
  };
}

request : received serving ≡ get_packet
unfolding received load store from_le le_bytes
request = refl

waits : has_packet serving ≡ true
unfolding has_packet store le_bytes
waits = refl

serving-GetWaits : GetWaits boot_hw serving
unfolding lookup ip_eq target_mac_of test_bit starts_with_get all_bytes http_body decimal
serving-GetWaits = record {
  waits = waits;
  server = rw request refl;
  syn = rw request refl;
  psh = rw request refl;
  get = rw request refl;
  fits = rw request (http_response-Fits _ refl (omega arith));
  placed = record { apart = omega arith; fits = omega arith };
  apart = record { descriptor = omega arith; block = omega arith };
}

size : length (http_body (codes "FILE CONTENT: " ++ codes "HI")) ≤ 65481
unfolding http_body decimal
size = omega arith

-- The loop with the request on the ring, and after the first byte of the mouse.
abbrev first : Session
first = record {
  state = record {
    system = record {
      net_card = some serving.nic;
      arp_table = serving.arp;
      http_payload = serving.http_payload;
      nvme_drive = none;
      canvases = [];
      screen = screen;
      pixels = [];
      machine = serving.machine;
    };
    mouse = qore_os.Mouse.start;
    lapic_base = 0;
    ports = [];
  };
  desktop = start;
}

abbrev moved : Session
moved = record first { state = handle boot_hw (mouse 0x08) first.state }

first-IsRunning : IsRunning (some (codes "FILE CONTENT: " ++ codes "HI")) screen first
unfolding start qore_os.Mouse.start qore_os.Compositor.Screen.init
first-IsRunning = record {
  serving = record { payload = refl; screen = refl; visible = tt };
  reading = omega arith;
  inside = omega arith;
}

abbrev asked : Kernel
asked = kernel_of moved.state.system serving.nic

moved-GetWaits : GetWaits boot_hw asked
unfolding handle mouse_interrupt_handler notify_end_of_interrupt
moved-GetWaits = serving-GetWaits

moved-net_card : moved.state.system.net_card ≡ some serving.nic
unfolding handle mouse_interrupt_handler notify_end_of_interrupt
moved-net_card = refl

Runs-poll_card_example :
    (k' : Kernel) × (poll_card boot_hw moved.state.system ≡ done (back moved.state.system k'))
    × Answered boot_hw
        (get_answer_frame (received asked) asked)
        (54 + length (get_answer (received asked) asked).body)
        asked
        k'
    × Delivers (get_answer_frame (received asked) asked) (get_answer (received asked) asked)
    × IsPage (get_answer (received asked) asked).body (codes "FILE CONTENT: " ++ codes "HI")
unfolding handle mouse_interrupt_handler notify_end_of_interrupt
Runs-poll_card_example =
    Runs-poll_card (env boot_hw) (codes "FILE CONTENT: " ++ codes "HI") screen first moved
      serving.nic screen-IsDisplay first-IsRunning (interrupted (mouse 0x08) begins) moved-net_card
      moved-GetWaits size
