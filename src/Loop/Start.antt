-- ===== src/Loop/Start.antt =====
-- The loop of src/main.rs as `_start` comes to it.
use qore_os.Base.{ℕ, ◌≡◌, refl, List, [], Option, none, some, ◌==◌, ◌||◌, if_intro}
use qore_os.Ram.{Ram}
use qore_os.Bootloader.{BootInfo}
use qore_os.Boot.Setup.{
  Platform, Given, KernelState, Outcome, halted, hangs, panics, enters_loop, scan_firmware,
  start_processor, start_input, start_screen, start_all, with_ram, with_frames, with_platform,
  start,
}
use qore_os.Compositor.Screen.{Screen, Writes, blit_canvas}
use qore_os.Compositor.Visible.{
  AllVisible, fill_rect-AllVisible, draw_string-AllVisible, blit_canvas-AllVisible,
}
use qore_os.Desktop.Inside.{IsInside, IsReading}
use qore_os.FrameAllocator.{BitmapAllocator}
use qore_os.Interrupts.{State, init_apic}
use qore_os.Loop.{Session, Surroundings, Runs}
use qore_os.Loop.Run.{IsDisplay, IsRunning, Runs-IsRunning}
use qore_os.Compositor.Screen
use qore_os.Desktop

-- The screen that the bootloader's record gives.
abbrev pub screen_of : BootInfo → Screen
screen_of info = qore_os.Compositor.Screen.init (record {
  framebuffer_base = info.framebuffer_base;
  width = info.width;
  height = info.height;
  stride = info.stride;
})

-- The loop before its first round.
abbrev pub first_session : KernelState → Session
first_session k = record { state = k.state; desktop = qore_os.Desktop.start }

init_apic-AllVisible :
    (sc : Screen) (siv lapic ioapic : ℕ) (s : State)
    → AllVisible sc s.system.pixels
    → AllVisible sc (init_apic siv lapic ioapic s).system.pixels
unfolding init_apic
init_apic-AllVisible sc siv lapic ioapic s h =
    if_intro (λ (x : State). AllVisible sc x.system.pixels) (lapic == 0 || ioapic == 0) (λ _. h)
      λ _. h

init_apic-IsReading :
    (siv lapic ioapic : ℕ) (s : State)
    → IsReading s.mouse
    → IsReading (init_apic siv lapic ioapic s).mouse
unfolding init_apic
init_apic-IsReading siv lapic ioapic s h =
    if_intro (λ (x : State). IsReading x.mouse) (lapic == 0 || ioapic == 0) (λ _. h) λ _. h

-- What holds at the loop, if the kernel comes to it.
abbrev AtLoop : (KernelState → Type 0) → Outcome → Type 0
AtLoop P halted = Unit {0}
AtLoop P hangs = Unit {0}
AtLoop P panics = Unit {0}
AtLoop P (enters_loop k) = P k

start_all-IsRunning :
    (g : Given) (info : BootInfo) (p : Platform) (frames : BitmapAllocator) (s : KernelState)
    → IsDisplay (screen_of info)
    → IsInside (screen_of info) qore_os.Desktop.start
    → IsReading s.state.mouse
    → s.state.system.pixels ≡ []
    → let k = start_all g info p frames s in
      IsRunning k.state.system.http_payload (screen_of info) (first_session k)
unfolding start_all start_processor start_input start_screen
start_all-IsRunning g info p frames s v inside reading blank =
    let rect = fill_rect-AllVisible (screen_of info) v.framebuffer in
    let none_yet : AllVisible (screen_of info) s.state.system.pixels = rw blank tt in
    let title = draw_string-AllVisible (screen_of info) v.framebuffer _ _ _ _ _ _ (
      rect _ _ _ _ _ _
        (rect _ _ _ _ _ _ (init_apic-AllVisible (screen_of info) _ _ _ _ none_yet))) in
    record {
      serving = record { payload = refl; screen = refl; visible = title };
      reading = init_apic-IsReading _ _ _ _ reading;
      inside = inside;
    }

-- The copy of the terminal to the framebuffer with which `terminal_print` ends, whatever the terminal has
-- on it by then.
abbrev pub terminal_copy : Screen → List ℕ → Writes → Writes
terminal_copy sc pixels w =
    let terminal = sc.terminal_layer in blit_canvas sc (record terminal { pixels = pixels }) w

-- Where `_start` comes to its loop, with nothing drawn and the mouse at two `i32` before it, and a screen with
-- room for the desktop and its first window: every session that the loop comes to from there by rounds and
-- interrupts, in any order, serves the text that `_start` left, and has the mouse at two `i32` and the window
-- on the screen below the bar. The drawing of `_start` and of the rounds, and a copy of the terminal after it
-- as a printed line makes one, has written only visible pixels of the framebuffer; the clearing of the
-- framebuffer and the lines of the VGA console are not counted.
pub start-Runs-IsRunning :
    (g : Given) (info : BootInfo) (s k : KernelState) (env : Surroundings) (y : Session)
    → start g info s ≡ enters_loop k
    → IsDisplay (screen_of info)
    → IsInside (screen_of info) qore_os.Desktop.start
    → IsReading s.state.mouse
    → s.state.system.pixels ≡ []
    → Runs env (first_session k) y
    → IsRunning k.state.system.http_payload (screen_of info) y
      × ((pixels : List ℕ)
          → AllVisible
              (screen_of info)
              (terminal_copy (screen_of info) pixels y.state.system.pixels))
unfolding start
start-Runs-IsRunning g info s k env y e v inside reading blank runs =
    let running = Runs-IsRunning env (first_session k) y v runs (rw e at at_loop) in
    (
      running,
      λ pixels. blit_canvas-AllVisible (screen_of info) _ v.terminal _ running.serving.visible,
    )
  where
    P : KernelState → Type 0
    P k = IsRunning k.state.system.http_payload (screen_of info) (first_session k)

    mapped :
        (p : Platform) (ram : Ram) (o : Option BitmapAllocator)
        → AtLoop P (with_frames g info p (with_ram ram s) o)
    mapped p ram none = tt
    mapped p ram (some frames) =
        start_all-IsRunning g info p frames (with_ram ram s) v inside reading blank

    scanned : (o : Option (Platform × Ram)) → AtLoop P (with_platform g info s o)
    scanned none = tt
    scanned (some (p, ram)) = mapped p ram _

    at_loop : AtLoop P (start g info s)
    at_loop = if_intro (AtLoop P) (g.apic_id == 0) (λ _. scanned (scan_firmware _ _)) λ _. tt
