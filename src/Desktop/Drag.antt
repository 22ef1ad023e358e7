-- ===== src/Desktop/Drag.antt =====
-- A round that drags the window, and a round that leaves the kernel.
use qore_os.Base.{
  ℕ, ◌+◌, ◌-◌, ◌%◌, ◌^◌, ◌≤◌, ◌<◌, ◌≡◌, refl, ap, ap₂, ◌∙◌, min, max, true, false, ◌&&◌, not,
  bit_and, bit_and_low, arith, sub32, as_i32, is_within, if_intro, if_true, if_false, &&→both, ◌==◌,
}
use qore_os.Mouse.{Mouse}
use qore_os.Compositor.Screen.{Screen}
use qore_os.Desktop.{
  Desktop, Outcome, goes_on, drops, clamp_axis, clamp_mouse, keep_inside, on_close, on_drop,
  drop_btn_x, drop_btn_y, move_window, drag, click, after_frame, frame,
}
use qore_os.Desktop.Inside.{HasRoom, IsInside, IsReading, clamp_axis-lt}

keep_inside_lem :
    (low size limit mx offset : ℕ)
    → limit < 2 ^ 30
    → low + size ≤ limit
    → mx < limit
    → offset ≤ 2 ^ 30
    → keep_inside low size limit (sub32 mx offset) ≡ max low (min (mx - offset) (limit - size))
unfolding keep_inside
keep_inside_lem low size limit mx offset h l r o = ground arith

clamp_axis_inside : (size v : ℕ) → size < 2 ^ 30 → v < size → clamp_axis size v ≡ v
unfolding clamp_axis
clamp_axis_inside size v h l = ground arith

-- The left button is down, and was down before.
pub record IsHeld (m : Mouse) (d : Desktop) : Type 0 where
  pub is_open : d.win.is_open ≡ true
  pub is_dragging : d.is_dragging ≡ true
  pub down : m.btn % 2 ≡ 1
  pub before : d.old_mbtn % 2 ≡ 1

-- The window where the held point is under the pointer, or as near as the screen allows.
abbrev pub dragged : Screen → Mouse → Desktop → Desktop
dragged s m d =
    let win = d.win in
    record d {
      win = record win {
        x = min (m.x - d.drag_offset_x) (s.width - win.width);
        y = max 40 (min (m.y - d.drag_offset_y) (s.height - win.height));
      };
      old_mbtn = m.btn;
    }

frame_opened :
    (s : Screen) (m : Mouse) (d : Desktop)
    → d.win.is_open ≡ true
    → frame s m d ≡ after_frame (click s (clamp_mouse s m) d)
unfolding frame
frame_opened s m d h = ap after_frame (if_true d.win.is_open _ _ h)

click_held :
    (s : Screen) (m : Mouse) (d : Desktop) → IsHeld m d → click s m d ≡ goes_on (drag s m.x m.y d) m
unfolding click
click_held s m d h =
    let now : (bit_and m.btn 0x01 == 0) ≡ false = ground (arith, bit_and_low 1 m.btn, h.down) in
    let old : (bit_and d.old_mbtn 0x01 == 0) ≡ false =
      ground (arith, bit_and_low 1 d.old_mbtn, h.before) in
    rw (now, old) refl

drag_held :
    (s : Screen) (mx my : ℕ) (d : Desktop)
    → d.is_dragging ≡ true
    → drag s mx my d ≡ record d { win = move_window s mx my d }
unfolding drag
drag_held s mx my d h = if_false (not d.is_dragging) _ _ (ap not h)

-- The button stays down over a dragged window, the pointer on the screen: the round moves the window
-- so that the held point is under the pointer, or as near to it as the screen and the bar at its top
-- allow, and changes nothing else but the remembered buttons.
pub frame-dragged :
    (s : Screen) (m : Mouse) (d : Desktop)
    → HasRoom s
    → IsInside s d
    → IsHeld m d
    → m.x < s.width
    → m.y < s.height
    → frame s m d ≡ goes_on (dragged s m d) m
unfolding clamp_mouse move_window
frame-dragged s m d v h k l r =
    let x =
      keep_inside_lem 0 d.win.width s.width m.x d.drag_offset_x v.width (omega (arith, h.right)) l
        (omega (arith, h.right, h.held_x, v.width)) in
    let y =
      keep_inside_lem 40 d.win.height s.height m.y d.drag_offset_y v.height
        (omega (arith, h.below, h.top)) r (omega (arith, h.held_y)) in
    let still : clamp_mouse s m ≡ m =
      ap₂ (λ x y. record m { x = x; y = y }) (clamp_axis_inside s.width m.x v.width l)
        (clamp_axis_inside s.height m.y v.height r) in
    let moved : move_window s m.x m.y d ≡ (dragged s m d).win =
      let win = d.win in ap₂ (λ x y. record win { x = x; y = y }) (x ∙ omega arith) y in
    frame_opened s m d k.is_open
    ∙ ap (λ m'. after_frame (click s m' d)) still
    ∙ ap after_frame (click_held s m d k)
    ∙ ap (λ d'. after_frame (goes_on d' m)) (drag_held s m.x m.y d k.is_dragging)
    ∙ ap (λ win. goes_on (record d { win = win; old_mbtn = m.btn }) m) moved

-- The pointer is on the drop button of an open window, pressed since the round before.
pub record IsDrop (m m' : Mouse) (d : Desktop) : Type 0 where
  pub is_open : d.win.is_open ≡ true
  pub down : m.btn % 2 ≡ 1
  pub before : d.old_mbtn % 2 ≡ 0
  pub left : d.win.x + 20 ≤ m'.x
  pub right : m'.x ≤ d.win.x + 400
  pub top : d.win.y + 240 ≤ m'.y
  pub below : m'.y ≤ d.win.y + 264

-- A round drops to ring 3 only so, and leaves the desktop as it is then.
pub data DropsByButton (m : Mouse) (d : Desktop) : Outcome → Type 0 where
  stays : (d' : Desktop) (m' : Mouse) → DropsByButton m d (goes_on d' m')
  pressed : (m' : Mouse) → IsDrop m m' d → DropsByButton m d (drops d m')

on_drop_place :
    (v low size : ℕ)
    → low ≤ 2 ^ 30 + 240
    → size ≤ 1000
    → v < 2 ^ 30
    → is_within (as_i32 low) (as_i32 (low + size)) v ≡ true
    → (low ≤ v) × (v ≤ low + size)
on_drop_place v low size l k r e = ground arith

after_frame-DropsByButton :
    (m : Mouse) (d : Desktop) (o : Outcome)
    → DropsByButton m d o
    → DropsByButton m d (after_frame o)
after_frame-DropsByButton m d _ (stays d' m') = stays _ m'
after_frame-DropsByButton m d _ (pressed m' h) = pressed m' h

fresh_bits :
    (new old : ℕ)
    → (not (bit_and new 0x01 == 0) && (bit_and old 0x01 == 0)) ≡ true
    → (new % 2 ≡ 1) × (old % 2 ≡ 0)
fresh_bits new old e = ground (arith, bit_and_low 1 new, bit_and_low 1 old, e)

on_drop-IsDrop :
    (s : Screen) (m m' : Mouse) (d : Desktop)
    → HasRoom s
    → IsInside s d
    → m'.x < s.width
    → m'.y < s.height
    → d.win.is_open ≡ true
    → (m.btn % 2 ≡ 1) × (d.old_mbtn % 2 ≡ 0)
    → on_drop d.win m'.x m'.y ≡ true
    → IsDrop m m' d
unfolding on_drop
on_drop-IsDrop s m m' d v h l r is_open fresh e =
    let btn_x = drop_btn_x d.win in
    let btn_y = drop_btn_y d.win in
    let (ex, ey) =
      &&→both (is_within (as_i32 btn_x) (as_i32 (btn_x + 380)) m'.x)
        (is_within (as_i32 btn_y) (as_i32 (btn_y + 24)) m'.y) e in
    let at_x : drop_btn_x d.win ≡ d.win.x + 20 = ground (arith, h.right, v.width) in
    let at_y : drop_btn_y d.win ≡ d.win.y + 240 = ground (arith, h.below, v.height) in
    let x =
      on_drop_place m'.x (drop_btn_x d.win) 380 (omega (arith, at_x, h.right, v.width))
        (omega arith) (omega (arith, v.width)) ex in
    let y =
      on_drop_place m'.y (drop_btn_y d.win) 24 (omega (arith, at_y, h.below, v.height))
        (omega arith) (omega (arith, v.height)) ey in
    record {
      is_open = is_open;
      down = fresh.0;
      before = fresh.1;
      left = omega (arith, x, at_x);
      right = omega (arith, x, at_x);
      top = omega (arith, y, at_y);
      below = omega (arith, y, at_y);
    }

-- A round drops to ring 3 only where the left button was pressed since the round before, with the
-- pointer, brought back onto the screen, on the drop button of the open window.
pub frame-DropsByButton :
    (s : Screen) (m : Mouse) (d : Desktop)
    → HasRoom s
    → IsReading m
    → IsInside s d
    → DropsByButton m d (frame s m d)
unfolding frame click clamp_mouse
frame-DropsByButton s m d v p h =
    let P = DropsByButton m d in
    let m' = clamp_mouse s m in
    let fresh = not (bit_and m.btn 0x01 == 0) && (bit_and d.old_mbtn 0x01 == 0) in
    let l = clamp_axis-lt s.width m.x v.wide v.width p.x in
    let r = clamp_axis-lt s.height m.y v.high v.height p.y in
    after_frame-DropsByButton m d _ (
      if_intro P d.win.is_open
        (λ is_open.
          if_intro P (fresh && on_close d.win m'.x m'.y) (λ _. stays _ m')
            λ _.
              if_intro P (fresh && on_drop d.win m'.x m'.y)
                (λ e.
                  let (pressed_now, on_button) = &&→both _ _ e in
                  pressed m' (
                    on_drop-IsDrop s m m' d v h l r is_open
                      (fresh_bits m.btn d.old_mbtn pressed_now) on_button))
                λ _. if_intro P (not (bit_and m.btn 0x01 == 0)) (λ _. stays _ m') λ _. stays _ m')
        λ _. stays d m')
