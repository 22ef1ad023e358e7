-- ===== src/Desktop.antt =====
-- The endless loop of `_start` in src/main.rs: the mouse, the window and its close and drop buttons.
-- The loop itself is left out, a round of it is `frame`. An `i32` is its 32-bit pattern; a sum that
-- overflows wraps here, and panics in a build with overflow checks.
pub mod Render
pub mod Inside
pub mod Drag
mod Tests
use qore_os.Base.{
  ℕ, ◌+◌, ◌-◌, ◌%◌, ◌^◌, List, [], ◌∷◌, Bool, true, false, ◌&&◌, not, bit_and, slt, sle, add32,
  sub32, as_i32, as_usize, is_within, ◌==◌, if◌then◌else◌,
}
use qore_os.Mouse.{Mouse}
use qore_os.Compositor.Screen.{Screen, Window, u64}
use qore_os.Text.{codes}

-- The variables of the loop.
pub record Desktop : Type 0 where
  pub win : Window
  pub is_dragging : Bool
  pub drag_offset_x : ℕ
  pub drag_offset_y : ℕ
  pub old_mbtn : ℕ

unfoldable pub start : Desktop
start = record {
  win = record {
    x = 100;
    y = 200;
    width = 600;
    height = 300;
    title = codes "EDGECORE DIAGNOSTICS";
    bg_color = 0x334155;
    is_open = true;
  };
  is_dragging = false;
  drag_offset_x = 0;
  drag_offset_y = 0;
  old_mbtn = 0;
}

-- `if v < 0 { 0 }`, then `if v >= size { size - 10 }`.
unfoldable pub clamp_axis : ℕ → ℕ → ℕ
clamp_axis size v =
    let low = if slt v 0 then 0 else v in
    if sle (as_i32 size) low then sub32 (as_i32 size) 10 else low

-- The four tests that bring the mouse back onto the screen; MOUSE_X and MOUSE_Y are stored too.
unfoldable pub clamp_mouse : Screen → Mouse → Mouse
clamp_mouse s m = record m { x = clamp_axis s.width m.x; y = clamp_axis s.height m.y }

unfoldable pub on_close : Window → ℕ → ℕ → Bool
on_close win mx my =
    let close_x = sub32 (add32 win.x (as_i32 win.width)) 20 in
    let close_y = add32 win.y 4 in
    is_within close_x (add32 close_x 16) mx && is_within close_y (add32 close_y 16) my

abbrev pub drop_btn_x : Window → ℕ
drop_btn_x win = u64 (as_usize win.x + 20)

abbrev pub drop_btn_y : Window → ℕ
drop_btn_y win = u64 (as_usize win.y + 240)

unfoldable pub on_drop : Window → ℕ → ℕ → Bool
on_drop win mx my =
    is_within (as_i32 (drop_btn_x win)) (as_i32 (drop_btn_x win + 380)) mx
    && is_within (as_i32 (drop_btn_y win)) (as_i32 (drop_btn_y win + 24)) my

unfoldable pub on_title : Window → ℕ → ℕ → Bool
on_title win mx my =
    is_within win.x (add32 win.x (as_i32 win.width)) mx && is_within win.y (add32 win.y 24) my

-- `if v < low { low }`, then `if v + size > limit { limit - size }`.
unfoldable pub keep_inside : ℕ → ℕ → ℕ → ℕ → ℕ
keep_inside low size limit v =
    let from = if slt v low then low else v in
    if slt (as_i32 limit) (add32 from (as_i32 size))
    then sub32 (as_i32 limit) (as_i32 size)
    else from

unfoldable pub move_window : Screen → ℕ → ℕ → Desktop → Window
move_window s mx my d =
    let win = d.win in
    record win {
      x = keep_inside 0 win.width s.width (sub32 mx d.drag_offset_x);
      y = keep_inside 40 win.height s.height (sub32 my d.drag_offset_y);
    }

-- The branch `else if left_click`.
unfoldable pub drag : Screen → ℕ → ℕ → Desktop → Desktop
drag s mx my d =
    if not d.is_dragging
    then (if on_title d.win mx my
        then record d {
          is_dragging = true;
          drag_offset_x = sub32 mx d.win.x;
          drag_offset_y = sub32 my d.win.y;
        }
        else d)
    else record d { win = move_window s mx my d }

-- What a round comes to: the loop goes on, or the kernel drops to ring 3 and does not come back.
pub data Outcome : Type 0 where
  goes_on : Desktop → Mouse → Outcome
  drops : Desktop → Mouse → Outcome

abbrev pub close : Desktop → Desktop
close d = let win = d.win in record d { win = record win { is_open = false }; is_dragging = false }

-- The branches on an open window, with the mouse on the screen.
unfoldable pub click : Screen → Mouse → Desktop → Outcome
click s m d =
    let left_click = not (bit_and m.btn 0x01 == 0) in
    let click_just_pressed = left_click && (bit_and d.old_mbtn 0x01 == 0) in
    if click_just_pressed && on_close d.win m.x m.y
    then goes_on (close d) m
    else if click_just_pressed && on_drop d.win m.x m.y
    then drops d m
    else if left_click
    then goes_on (drag s m.x m.y d) m
    else goes_on (record d { is_dragging = false }) m

abbrev pub after_frame : Outcome → Outcome
after_frame (goes_on d m) = goes_on (record d { old_mbtn = m.btn }) m
after_frame (drops d m) = drops d m

-- A round of the loop, but for the network card and the drawing.
unfoldable pub frame : Screen → Mouse → Desktop → Outcome
frame s m d =
    let inside = clamp_mouse s m in
    after_frame (if d.win.is_open then click s inside d else goes_on d inside)

-- The rounds for some readings of the mouse, as far as the loop goes on.
unfoldable pub frames : Screen → List Mouse → Desktop → Desktop
frames s [] d = d
frames s (m ∷ ms) d = elim (frame s m d) [ goes_on d' m' ↦ frames s ms d' | drops d' m' ↦ d' ]
