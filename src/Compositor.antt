-- ===== src/Compositor.antt =====
-- src/compositor.rs: the off-screen canvas and the terminal on it. Pixels are 32-bit colours, a text
-- the list of its code points. A `usize` that overflows wraps here; a build with overflow checks panics
-- there.
pub mod Font
pub mod Pixels
pub mod Fill
pub mod Cursor
pub mod Screen
pub mod Visible
mod Tests
use qore_os.Base.{
  ℕ, zero, suc, ◌+◌, ◌-◌, ◌*◌, ◌%◌, ◌^◌, List, [], ◌∷◌, ◌++◌, ◌&&◌, not, bit_and, length, get_or,
  set, drop, replicate, ltb, leb, ◌==◌, if◌then◌else◌,
}
use qore_os.Compositor.Font.{get_char_bitmap, to_ascii_uppercase}

pub record Canvas : Type 0 where
  pub x : ℕ
  pub y : ℕ
  pub width : ℕ
  pub height : ℕ
  pub pixels : List ℕ

-- `Canvas::new`
abbrev pub new : ℕ → ℕ → ℕ → ℕ → ℕ → Canvas
new x y width height bg_color = record {
  x = x;
  y = y;
  width = width;
  height = height;
  pixels = replicate (width * height) bg_color;
}

unfoldable pub draw_pixel : ℕ → ℕ → ℕ → Canvas → Canvas
draw_pixel px py color c =
    if ltb px c.width && ltb py c.height
    then record c { pixels = set c.pixels (py * c.width + px) color }
    else c

-- `for i in first..first + rounds { .. }`
unfoldable pub for_range {ℓ} : {S : Type ℓ} → (ℕ → S → S) → ℕ → ℕ → S → S
for_range body zero first s = s
for_range body (suc rounds) first s = for_range body rounds (first + 1) (body first s)

-- The rounds of `start..(start + n)`, whose end is a `usize`.
abbrev pub rounds_of : ℕ → ℕ → ℕ
rounds_of start n = (start + n) % 2 ^ 64 - start

unfoldable pub fill_rect : ℕ → ℕ → ℕ → ℕ → ℕ → Canvas → Canvas
fill_rect start_x start_y w h color c =
    for_range (λ y. for_range (λ x. draw_pixel x y color) (rounds_of start_x w) start_x)
      (rounds_of start_y h) start_y c

unfoldable pub scroll_up : ℕ → ℕ → Canvas → Canvas
scroll_up shift_y bg_color c =
    let pixel_shift = shift_y * c.width % 2 ^ 64 in
    if leb (length c.pixels) pixel_shift
    then record c { pixels = replicate (length c.pixels) bg_color }
    else record c { pixels = drop pixel_shift c.pixels ++ replicate pixel_shift bg_color }

-- The statics TERM_X and TERM_Y, and the canvas of SERVER.
pub record Terminal : Type 0 where
  pub term_x : ℕ
  pub term_y : ℕ
  pub canvas : Canvas

-- A new line, and a scroll where it would not fit.
unfoldable pub next_line : Terminal → Terminal
next_line t =
    let down = t.term_y + 30 in
    if ltb t.canvas.height (down + 30)
    then record t { term_x = 20; term_y = down - 30; canvas = scroll_up 30 0xFFFFFF t.canvas }
    else record t { term_x = 20; term_y = down }

-- The two loops over the rows and columns of a letter.
unfoldable pub draw_glyph : List ℕ → ℕ → ℕ → ℕ → Canvas → Canvas
draw_glyph bitmap x y color c =
    for_range
      (λ row.
        for_range
          (λ col canvas.
            if not (bit_and (get_or bitmap row 0) (2 ^ (7 - col)) == 0)
            then fill_rect (x + col * 3) (y + row * 3) 3 3 color canvas
            else canvas)
          8 0)
      8 0 c

-- The body of the loop of `terminal_print`.
unfoldable pub put_char : ℕ → ℕ → Terminal → Terminal
put_char color c t =
    let bitmap = get_char_bitmap (to_ascii_uppercase c) in
    let drawn = draw_glyph bitmap t.term_x t.term_y color t.canvas in
    let right = record t { canvas = drawn; term_x = t.term_x + (24 + 6) } in
    if c == 0x0A
    then next_line t
    else if ltb ((t.canvas.width + 2 ^ 64 - 40) % 2 ^ 64) right.term_x
    then next_line right
    else right

-- The loop of `terminal_print` over the letters.
unfoldable pub print_chars : List ℕ → ℕ → Terminal → Terminal
print_chars [] color t = t
print_chars (c ∷ text) color t = print_chars text color (put_char color c t)
