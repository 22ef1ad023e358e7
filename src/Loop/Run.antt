-- ===== src/Loop/Run.antt =====
-- What every run of the loop keeps.
use qore_os.Base.{
  ℕ, zero, suc, bit_and, ap, ◌∙◌, ◌+◌, ◌≤◌, ◌≡◌, refl, List, not, Bool, Option, none, some, arith,
  if_intro, ◌==◌,
}
use qore_os.Machine.{Hardware}
use qore_os.Compositor.Screen.{Screen, Writes}
use qore_os.Compositor.Visible.{IsScreen, AllVisible}
use qore_os.Mouse.{Mouse, in_cycle, decode, process_packet_byte}
use qore_os.E1000.{E1000, Kernel}
use qore_os.E1000.Poll.{Outcome, panic, done, map_outcome, poll}
use qore_os.Syscall.{System, back, kernel_of}
use qore_os.Interrupts.{
  State, Event, timer, keyboard, mouse, notify_end_of_interrupt, broadcast_with, broadcast, key_at,
  keys, show_key, on_key, keyboard_interrupt_handler, mouse_interrupt_handler,
  timer_interrupt_handler, handle,
}
use qore_os.Interrupts.Acknowledge.{notify_mouse}
use qore_os.Desktop.{goes_on, drops, frame}
use qore_os.Desktop.Inside.{
  HasRoom, IsInside, IsReading, OutcomeInside, went_on, dropped, frame-OutcomeInside,
}
use qore_os.Desktop.Render.{render-AllVisible}
use qore_os.Loop.{
  Session, Surroundings, Round, waits, in_ring3, panics, poll_with, poll_card, leave, after_frame,
  after_poll, round, Runs, begins, interrupted, goes_round,
}
use qore_os.Desktop

-- The text to serve and the screen are the given ones, and the drawing has written only visible pixels.
pub record IsServing (text : Option (List ℕ)) (s : Screen) (x : System) : Type 0 where
  pub payload : x.http_payload ≡ text
  pub screen : x.screen ≡ s
  pub visible : AllVisible s x.pixels

-- The mouse is at two `i32`, and the window lies on the screen.
pub record IsRunning (text : Option (List ℕ)) (s : Screen) (x : Session) : Type 0 where
  pub serving : IsServing text s x.state.system
  pub reading : IsReading x.state.mouse
  pub inside : IsInside s x.desktop

-- A screen on which the desktop can be drawn.
pub record IsDisplay (s : Screen) : Type 0 where
  pub room : HasRoom s
  pub framebuffer : IsScreen s
  pub terminal : s.terminal_layer.x + s.terminal_layer.width ≤ s.width

-- What the loop draws by and serves, and the pixels written.
abbrev shown : System → Option (List ℕ) × Screen × Writes
shown x = (x.http_payload, x.screen, x.pixels)

shown-IsServing :
    {text : Option (List ℕ)} {s : Screen} (x y : System)
    → shown y ≡ shown x
    → IsServing text s x
    → IsServing text s y
shown-IsServing x y e h = record {
  payload = ap (λ t. t.0) e ∙ h.payload;
  screen = ap (λ t. t.1) e ∙ h.screen;
  visible = let pixels : y.pixels ≡ x.pixels = ap (λ t. t.2) e in rw pixels h.visible;
}

-- The interrupts: the keyboard and Enter print and send, and draw nothing.
shown-notify : (x : State) → shown (notify_end_of_interrupt x).system ≡ shown x.system
unfolding notify_end_of_interrupt
shown-notify x =
    if_intro (λ (y : State). shown y.system ≡ shown x.system) (not (x.lapic_base == 0)) (λ _. refl)
      λ _. refl

shown-broadcast : (hw : Hardware) (x : System) → shown (broadcast hw x) ≡ shown x
unfolding broadcast
shown-broadcast hw x = by_card x.net_card _ refl
  where
    by_card :
        (o : Option E1000) (y : System)
        → shown y ≡ shown x
        → shown (broadcast_with hw y o) ≡ shown x
    by_card none y e = e
    by_card (some nic) y e = e

shown-on_key : (hw : Hardware) (scancode : ℕ) (x : System) → shown (on_key hw scancode x) ≡ shown x
unfolding on_key
shown-on_key hw scancode x =
    if_intro (λ y. shown y ≡ shown x) (scancode == 0x1C) (λ _. shown-broadcast hw x)
      λ _. letter (key_at keys scancode)
  where
    letter : (o : Option (List ℕ)) → shown (show_key o x) ≡ shown x
    letter none = refl
    letter (some c) = refl

shown-handle :
    (hw : Hardware) (e : Event) (x : State) → shown (handle hw e x).system ≡ shown x.system
unfolding handle timer_interrupt_handler keyboard_interrupt_handler mouse_interrupt_handler
shown-handle hw timer x = shown-notify x
shown-handle hw (mouse packet) x =
    shown-notify (record x { mouse = process_packet_byte packet x.mouse })
shown-handle hw (keyboard scancode) x =
    shown-notify (record x { system = on_key hw scancode x.system })
    ∙ shown-on_key hw scancode x.system

process_packet_byte-IsReading :
    (b : ℕ) (m : Mouse) → IsReading m → IsReading (process_packet_byte b m)
unfolding process_packet_byte in_cycle decode
process_packet_byte-IsReading b m h = by_cycle m.cycle
  where
    by_cycle : (cycle : ℕ) → IsReading (in_cycle cycle b m)
    by_cycle zero =
        if_intro IsReading (not (bit_and b 0x08 == 0)) (λ _. record { x = h.x; y = h.y }) λ _. h
    by_cycle (suc zero) = record { x = h.x; y = h.y }
    by_cycle (suc (suc zero)) = record { x = omega arith; y = omega arith }
    by_cycle (suc (suc (suc n))) = record { x = h.x; y = h.y }

handle-IsReading :
    (hw : Hardware) (e : Event) (x : State) → IsReading x.mouse → IsReading (handle hw e x).mouse
unfolding handle timer_interrupt_handler keyboard_interrupt_handler mouse_interrupt_handler
handle-IsReading hw timer x h = rw (notify_mouse x) h
handle-IsReading hw (mouse packet) x h =
    rw (notify_mouse (record x { mouse = process_packet_byte packet x.mouse }))
      (process_packet_byte-IsReading packet x.mouse h)
handle-IsReading hw (keyboard scancode) x h =
    rw (notify_mouse (record x { system = on_key hw scancode x.system })) h

-- A round that ends, and one that leaves for ring 3, leave the kernel so.
abbrev RoundRunning : Option (List ℕ) → Screen → Round → Type 0
RoundRunning text s (waits y) = IsRunning text s y
RoundRunning text s (in_ring3 y c) = IsRunning text s y
RoundRunning text s panics = Unit {0}

abbrev PollServing : Option (List ℕ) → Screen → Outcome System → Type 0
PollServing text s (done x) = IsServing text s x
PollServing text s panic = Unit {0}

poll_card-PollServing :
    {text : Option (List ℕ)} {s : Screen} (hw : Hardware) (x : System)
    → IsServing text s x
    → PollServing text s (poll_card hw x)
unfolding poll_card map_outcome
poll_card-PollServing {text} {s} hw x h = by_card x.net_card
  where
    by_outcome :
        (o : Outcome (Bool × Kernel)) → PollServing text s (map_outcome (λ r. back x r.1) o)
    by_outcome panic = tt
    by_outcome (done r) = shown-IsServing x (back x r.1) refl h

    by_card : (o : Option E1000) → PollServing text s (poll_with hw x o)
    by_card none = h
    by_card (some nic) = by_outcome (poll hw (kernel_of x nic))

after_frame-RoundRunning :
    {text : Option (List ℕ)} {s : Screen} (env : Surroundings) (x : State) (o : Desktop.Outcome)
    → IsDisplay s
    → IsServing text s x.system
    → OutcomeInside s o
    → RoundRunning text s (after_frame env x o)
unfolding leave
after_frame-RoundRunning {s = s} env x (goes_on d m) v h (went_on _ _ k l r) = record {
  serving = record {
    payload = h.payload;
    screen = h.screen;
    visible =
        rw h.screen
          (render-AllVisible s v.framebuffer v.terminal env.status m d x.system.pixels h.visible);
  };
  reading = record { x = omega (arith, v.room.width); y = omega (arith, v.room.height) };
  inside = k;
}
after_frame-RoundRunning env x (drops d m) v h (dropped _ _ k l r) = record {
  serving = record { payload = h.payload; screen = h.screen; visible = h.visible };
  reading = record { x = omega (arith, v.room.width); y = omega (arith, v.room.height) };
  inside = k;
}

round-RoundRunning :
    {text : Option (List ℕ)} {s : Screen} (env : Surroundings) (x : Session)
    → IsDisplay s
    → IsRunning text s x
    → RoundRunning text s (round env x)
unfolding round
round-RoundRunning {text} {s} env x v h =
    by_poll (poll_card env.hw x.state.system)
      (poll_card-PollServing env.hw x.state.system h.serving)
  where
    by_poll :
        (o : Outcome System)
        → PollServing text s o
        → RoundRunning text s (after_poll env x.state x.desktop o)
    by_poll panic k = tt
    by_poll (done y) k =
        let state = x.state in
        after_frame-RoundRunning env (record state { system = y })
          (frame y.screen state.mouse x.desktop) v k
          (rw k.screen (frame-OutcomeInside s state.mouse x.desktop v.room h.reading h.inside))

-- On a screen with room for the desktop, every run of rounds and interrupts, in any order, keeps the text
-- that is served and the screen, has the mouse at two `i32` and the window on the screen below the bar, and
-- has drawn only visible pixels of the framebuffer, the copies of the terminal that printed lines make not
-- counted.
pub Runs-IsRunning :
    {text : Option (List ℕ)} {s : Screen} (env : Surroundings) (x y : Session)
    → IsDisplay s
    → Runs env x y
    → IsRunning text s x
    → IsRunning text s y
Runs-IsRunning env x _ v begins h = h
Runs-IsRunning env x _ v (interrupted e {y} r) h =
    let k = Runs-IsRunning env x y v r h in
    record {
      serving = shown-IsServing y.state.system _ (shown-handle env.hw e y.state) k.serving;
      reading = handle-IsReading env.hw e y.state k.reading;
      inside = k.inside;
    }
Runs-IsRunning env x z v (goes_round {y} r e) h =
    rw e at (round-RoundRunning env y v (Runs-IsRunning env x y v r h))
