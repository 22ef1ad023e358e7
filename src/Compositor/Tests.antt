-- ===== src/Compositor/Tests.antt =====
-- A small canvas and a terminal on it.
use qore_os.Base.{
  ℕ, ◌+◌, ◌*◌, ◌≡◌, refl, [], ◌∷◌, ◌&&◌, arith, length-replicate, ltb, if◌then◌else◌,
}
use qore_os.Text.{codes}
use qore_os.Compositor.{Canvas, Terminal, new, draw_pixel, for_range, fill_rect, scroll_up}
use qore_os.Compositor.Screen.{Screen, init, terminal_print}
use qore_os.Compositor.Pixels.{pixel_at, scroll_up-pixel_at}
use qore_os.Compositor.Fill.{is_from, fill_rect-pixel_at}
use qore_os.Compositor.Cursor.{IsTerminal, terminal_print-IsTerminal}

abbrev small : Canvas
small = new 0 40 4 3 7

-- The rectangle is clipped at the right and lower edges.
filled : (fill_rect 2 1 5 5 9 small).pixels ≡ 7 ∷ 7 ∷ 7 ∷ 7 ∷ 7 ∷ 7 ∷ 9 ∷ 9 ∷ 7 ∷ 7 ∷ 9 ∷ 9 ∷ []
unfolding fill_rect for_range draw_pixel
filled = refl

fill_rect_example :
    pixel_at (fill_rect 2 1 5 5 9 small) 3 2
    ≡ (if is_from 2 5 3 && is_from 1 5 2 then 9 else pixel_at small 3 2)
fill_rect_example = fill_rect-pixel_at 2 1 5 5 9 3 2 small refl (omega arith) (omega arith)

scroll_up_example :
    pixel_at (scroll_up 1 5 small) 2 2 ≡ (if ltb (2 + 1) 3 then pixel_at small 2 (2 + 1) else 5)
scroll_up_example = scroll_up-pixel_at 1 5 2 2 small refl (omega arith) (omega arith) (omega arith)

abbrev terminal : Terminal
terminal = record { term_x = 20; term_y = 20; canvas = new 0 40 60 50 0xFFFFFF }

terminal-IsTerminal : IsTerminal terminal
terminal-IsTerminal = record {
  canvas = length-replicate {A = ℕ} (60 * 50) 0xFFFFFF;
  wide = omega arith;
  narrow = omega arith;
  right = omega arith;
  below = omega arith;
}

abbrev shown : Screen
shown = init (record { framebuffer_base = 0x80000000; width = 1024; height = 768; stride = 1024 })

terminal_print_example :
    IsTerminal (terminal_print shown (codes "OK\n> READY") 0x10B981 terminal []).0
terminal_print_example =
    terminal_print-IsTerminal shown (codes "OK\n> READY") 0x10B981 terminal [] terminal-IsTerminal
