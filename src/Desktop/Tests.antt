-- ===== src/Desktop/Tests.antt =====
-- Rounds on a screen of 1024 by 768, and a drawing on a small one.
use qore_os.Base.{ℕ, ◌<◌, ◌≡◌, refl, List, [], ◌∷◌, true, false, arith}
use qore_os.Mouse.{Mouse}
use qore_os.Compositor.Screen.{BootInfo, Screen, init}
use qore_os.Compositor.Visible.{IsScreen, AllVisible}
use qore_os.Desktop.{
  Desktop, goes_on, start, frame, frames, clamp_axis, clamp_mouse, click, drag, on_close, on_drop,
  on_title, move_window, keep_inside,
}
use qore_os.Desktop.Inside.{HasRoom, IsInside, frames-IsInside}
use qore_os.Desktop.Drag.{IsHeld, dragged, frame-dragged, DropsByButton, frame-DropsByButton}
use qore_os.Desktop.Render.{render, render-init-AllVisible}

abbrev info : BootInfo
info = record { framebuffer_base = 0x80000000; width = 1024; height = 768; stride = 1024 }

abbrev screen : Screen
screen = init info

abbrev reading : ℕ → ℕ → ℕ → Mouse
reading x y btn = record {
  cycle = 0;
  packet0 = 8;
  packet1 = 0;
  packet2 = 0;
  x = x;
  y = y;
  btn = btn;
}

screen-HasRoom : HasRoom screen
unfolding init
screen-HasRoom = omega arith

start-IsInside : IsInside screen start
unfolding init start
start-IsInside = omega arith

-- The title bar is grabbed at (300, 210), and dragged past the left edge and up over the bar.
abbrev drag_readings : List Mouse
drag_readings = reading 300 210 1 ∷ reading 150 20 1 ∷ []

dragged_to : (frames screen drag_readings start).win.x ≡ 0
unfolding frames frame start init clamp_mouse clamp_axis click drag on_close on_drop on_title
    move_window keep_inside
dragged_to = refl

dragged_below : (frames screen drag_readings start).win.y ≡ 40
unfolding frames frame start init clamp_mouse clamp_axis click drag on_close on_drop on_title
    move_window keep_inside
dragged_below = refl

closed : (frames screen (reading 685 210 1 ∷ []) start).win.is_open ≡ false
unfolding frames frame start init clamp_mouse clamp_axis click drag on_close on_drop on_title
    move_window keep_inside
closed = refl

dragged-IsInside : IsInside screen (frames screen drag_readings start)
dragged-IsInside =
    frames-IsInside screen drag_readings start screen-HasRoom (omega arith) start-IsInside

-- The window held at (200, 10).
abbrev held : Desktop
held = record start { is_dragging = true; drag_offset_x = 200; drag_offset_y = 10; old_mbtn = 1 }

held-IsInside : IsInside screen held
unfolding init start
held-IsInside = omega arith

held-IsHeld : IsHeld (reading 350 300 1) held
unfolding start
held-IsHeld = record { is_open = refl; is_dragging = refl; down = refl; before = refl }

on_screen : (350 < screen.width) × (300 < screen.height)
unfolding init
on_screen = omega arith

info-IsScreen : IsScreen (init info)
unfolding init
info-IsScreen = omega arith

frame-dragged_example :
    frame screen (reading 350 300 1) held
    ≡ goes_on (dragged screen (reading 350 300 1) held) (reading 350 300 1)
frame-dragged_example =
    frame-dragged screen (reading 350 300 1) held screen-HasRoom held-IsInside held-IsHeld
      on_screen.0 on_screen.1

press-DropsByButton :
    DropsByButton (reading 200 450 1) start (frame screen (reading 200 450 1) start)
press-DropsByButton =
    frame-DropsByButton screen (reading 200 450 1) start screen-HasRoom (omega arith) start-IsInside

render-init_example : AllVisible (init info) (
    render
      (init info)
      (record { nvme_found = true; hda_found = false; sector_data_str = [] })
      (reading 500 400 0)
      start
      [])
render-init_example =
    render-init-AllVisible info info-IsScreen
      (record { nvme_found = true; hda_found = false; sector_data_str = [] }) (reading 500 400 0)
      start
