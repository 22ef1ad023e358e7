-- ===== src/Desktop/Inside.antt =====
-- The window and the mouse stay on the screen.
use qore_os.Base.{
  ℕ, ◌+◌, ◌^◌, ◌≤◌, ◌<◌, ◌≡◌, List, [], ◌∷◌, Bool, true, false, ◌&&◌, not, bit_and, arith, add32,
  sub32, as_i32, is_within, if_intro, &&→both, ◌==◌, if◌then◌else◌,
}
use qore_os.Mouse.{Mouse}
use qore_os.Compositor.Screen.{Screen}
use qore_os.Desktop.{
  Desktop, Outcome, goes_on, drops, clamp_axis, clamp_mouse, on_title, keep_inside, on_close,
  on_drop, move_window, drag, close, click, after_frame, frame, frames,
}

-- The screen has room for the pointer's way back, and its sizes fit an `i32`.
pub record HasRoom (s : Screen) : Type 0 where
  pub wide : 10 ≤ s.width
  pub high : 10 ≤ s.height
  pub width : s.width < 2 ^ 30
  pub height : s.height < 2 ^ 30

-- The window lies on the screen and below the bar at its top, and is held at a point of its title bar.
pub record IsInside (s : Screen) (d : Desktop) : Type 0 where
  pub right : d.win.x + d.win.width ≤ s.width
  pub top : 40 ≤ d.win.y
  pub below : d.win.y + d.win.height ≤ s.height
  pub held_x : d.drag_offset_x ≤ d.win.width
  pub held_y : d.drag_offset_y ≤ 24

-- A reading of the mouse is two `i32`.
pub record IsReading (m : Mouse) : Type 0 where
  pub x : m.x < 2 ^ 32
  pub y : m.y < 2 ^ 32

abbrev pub AllReadings : List Mouse → Type 0
AllReadings [] = Unit {0}
AllReadings (m ∷ ms) = IsReading m × AllReadings ms

pub clamp_axis-lt : (size v : ℕ) → 10 ≤ size → size < 2 ^ 30 → v < 2 ^ 32 → clamp_axis size v < size
unfolding clamp_axis
clamp_axis-lt size v l h r = ground arith

keep_inside-le :
    (low size limit mx offset : ℕ)
    → limit < 2 ^ 30
    → low + size ≤ limit
    → mx < limit
    → offset ≤ 2 ^ 30
    → (low ≤ keep_inside low size limit (sub32 mx offset))
      × (keep_inside low size limit (sub32 mx offset) + size ≤ limit)
unfolding keep_inside
keep_inside-le low size limit mx offset h l r o = ground arith

title_test :
    (v low size limit : ℕ)
    → limit < 2 ^ 30
    → low ≤ limit
    → size ≤ limit
    → v < limit
    → is_within low (add32 low (as_i32 size)) v ≡ true
    → sub32 v low ≤ size
title_test v low size limit h l k r e = ground arith

on_title-le :
    (s : Screen) (d : Desktop) (mx my : ℕ)
    → HasRoom s
    → IsInside s d
    → mx < s.width
    → my < s.height
    → on_title d.win mx my ≡ true
    → (sub32 mx d.win.x ≤ d.win.width) × (sub32 my d.win.y ≤ 24)
unfolding on_title
on_title-le s d mx my v h l r e =
    let (x, y) = &&→both _ (is_within d.win.y (add32 d.win.y 24) my) e in
    (
      title_test mx d.win.x d.win.width s.width v.width (omega (arith, h.right))
          (omega (arith, h.right)) l x,
      title_test my d.win.y 24 s.height v.height (omega (arith, h.below))
          (omega (arith, h.below, h.top)) r y,
    )

drag-IsInside :
    (s : Screen) (d : Desktop) (mx my : ℕ)
    → HasRoom s
    → IsInside s d
    → mx < s.width
    → my < s.height
    → IsInside s (drag s mx my d)
unfolding drag move_window
drag-IsInside s d mx my v h l r =
    if_intro (IsInside s) (not d.is_dragging)
      (λ _. if_intro (IsInside s) (on_title d.win mx my) (λ e. grabbed e) (λ _. h)) (λ _. moved)
  where
    moved : IsInside s (record d { win = move_window s mx my d })
    moved =
        let x =
          keep_inside-le 0 d.win.width s.width mx d.drag_offset_x v.width (omega (arith, h.right)) l
            (omega (arith, h.right, h.held_x, v.width)) in
        let y =
          keep_inside-le 40 d.win.height s.height my d.drag_offset_y v.height
            (omega (arith, h.below, h.top)) r (omega (arith, h.held_y)) in
        record { right = x.1; top = y.0; below = y.1; held_x = h.held_x; held_y = h.held_y }

    grabbed :
        on_title d.win mx my ≡ true
        → IsInside s (record d {
          is_dragging = true;
          drag_offset_x = sub32 mx d.win.x;
          drag_offset_y = sub32 my d.win.y;
        })
    grabbed e =
        let g = on_title-le s d mx my v h l r e in
        record { right = h.right; top = h.top; below = h.below; held_x = g.0; held_y = g.1 }

-- What holds of the state after a round, and where the pointer is.
pub data OutcomeInside (s : Screen) : Outcome → Type 0 where
  went_on :
      (d : Desktop) (m : Mouse)
      → IsInside s d
      → m.x < s.width
      → m.y < s.height
      → OutcomeInside s (goes_on d m)
  dropped :
      (d : Desktop) (m : Mouse)
      → IsInside s d
      → m.x < s.width
      → m.y < s.height
      → OutcomeInside s (drops d m)

-- The invariant reads neither whether the window is dragged or open, nor the old buttons.
same_place-IsInside :
    (s : Screen) (d : Desktop) (is_dragging : Bool) (old_mbtn : ℕ)
    → IsInside s d
    → IsInside s (record d { is_dragging = is_dragging; old_mbtn = old_mbtn })
same_place-IsInside s d is_dragging old_mbtn h = record {
  right = h.right;
  top = h.top;
  below = h.below;
  held_x = h.held_x;
  held_y = h.held_y;
}

close-IsInside : (s : Screen) (d : Desktop) → IsInside s d → IsInside s (close d)
close-IsInside s d h = record {
  right = h.right;
  top = h.top;
  below = h.below;
  held_x = h.held_x;
  held_y = h.held_y;
}

click-OutcomeInside :
    (s : Screen) (m : Mouse) (d : Desktop)
    → HasRoom s
    → IsInside s d
    → m.x < s.width
    → m.y < s.height
    → OutcomeInside s (click s m d)
unfolding click
click-OutcomeInside s m d v h l r =
    choose (not (bit_and m.btn 0x01 == 0)) (bit_and d.old_mbtn 0x01 == 0) (on_close d.win m.x m.y)
      (on_drop d.win m.x m.y)
  where
    dragged : OutcomeInside s (goes_on (drag s m.x m.y d) m)
    dragged = went_on _ m (drag-IsInside s d m.x m.y v h l r) l r

    choose :
        (left fresh on_x on_button : Bool)
        → OutcomeInside s (
            if (left && fresh) && on_x
            then goes_on (close d) m
            else if (left && fresh) && on_button
            then drops d m
            else if left
            then goes_on (drag s m.x m.y d) m
            else goes_on (record d { is_dragging = false }) m)
    choose true true true b = went_on _ m (close-IsInside s d h) l r
    choose true true false true = dropped d m h l r
    choose true true false false = dragged
    choose true false x b = dragged
    choose false f x b = went_on _ m (same_place-IsInside s d false d.old_mbtn h) l r

after_frame-OutcomeInside :
    (s : Screen) (o : Outcome) → OutcomeInside s o → OutcomeInside s (after_frame o)
after_frame-OutcomeInside s (goes_on d m) (went_on _ _ h l r) =
    went_on _ m (same_place-IsInside s d d.is_dragging m.btn h) l r
after_frame-OutcomeInside s (drops d m) (dropped _ _ h l r) = dropped d m h l r

pub frame-OutcomeInside :
    (s : Screen) (m : Mouse) (d : Desktop)
    → HasRoom s
    → IsReading m
    → IsInside s d
    → OutcomeInside s (frame s m d)
unfolding frame clamp_mouse
frame-OutcomeInside s m d v p h =
    let l = clamp_axis-lt s.width m.x v.wide v.width p.x in
    let r = clamp_axis-lt s.height m.y v.high v.height p.y in
    after_frame-OutcomeInside s _ (
      if_intro (OutcomeInside s) d.win.is_open (λ _. click-OutcomeInside s _ d v h l r)
        λ _. went_on d _ h l r)

-- Through any rounds, for any readings of the mouse, the window stays on a screen that has room: it lies
-- below the bar at the top, and is held, if at all, at a point of its title bar.
pub frames-IsInside :
    (s : Screen) (ms : List Mouse) (d : Desktop)
    → HasRoom s
    → AllReadings ms
    → IsInside s d
    → IsInside s (frames s ms d)
unfolding frames
frames-IsInside s [] d v p h = h
frames-IsInside s (m ∷ ms) d v p h =
    next (λ d' k. frames-IsInside s ms d' v p.1 k) (frame s m d) (frame-OutcomeInside s m d v p.0 h)
  where
    next :
        ((d' : Desktop) → IsInside s d' → IsInside s (frames s ms d'))
        → (o : Outcome) → OutcomeInside s o
        → IsInside s (elim o [ goes_on d' m' ↦ frames s ms d' | drops d' m' ↦ d' ])
    next rest _ (went_on d' m' k l r) = rest d' k
    next rest _ (dropped d' m' k l r) = k
