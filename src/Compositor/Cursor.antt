-- ===== src/Compositor/Cursor.antt =====
-- The terminal's cursor: where `terminal_print` leaves it.
use qore_os.Base.{
  ℕ, ◌+◌, ◌-◌, ◌*◌, ◌%◌, ◌^◌, ◌≤◌, ◌<◌, refl, ◌∙◌, List, [], ◌∷◌, not, arith, length, get_or,
  bit_and, drop, replicate, length-append, length-drop, length-replicate, leb, ltb, ◌==◌,
  if◌then◌else◌, inl, inr, Bool-cases,
}
use qore_os.Compositor.Font.{get_char_bitmap, to_ascii_uppercase}
use qore_os.Compositor.{
  Canvas, Terminal, fill_rect, scroll_up, next_line, draw_glyph, put_char, print_chars,
}
use qore_os.Compositor.Screen.{Screen, Writes, terminal_print}
use qore_os.Compositor.Pixels.{IsCanvas}
use qore_os.Compositor.Fill.{Keeps, for_range-Keeps, fill_rect-Keeps}

scroll_up-Keeps : (shift_y bg : ℕ) (c : Canvas) → IsCanvas c → Keeps c (scroll_up shift_y bg c)
unfolding scroll_up
scroll_up-Keeps shift_y bg c h =
    elim (Bool-cases (leb (length c.pixels) (shift_y * c.width % 2 ^ 64))) [
      | inl all ↦ rw all (record {
        width = refl;
        height = refl;
        canvas = length-replicate (length c.pixels) bg ∙ h;
      })
      | inr some_left ↦
          let s = shift_y * c.width % 2 ^ 64 in
          rw some_left (record {
            width = refl;
            height = refl;
            canvas =
                length-append (drop s c.pixels) (replicate s bg)
                ∙ ground (arith, length-drop s c.pixels, length-replicate s bg, h, some_left);
          })
    ]

draw_glyph-Keeps :
    (bitmap : List ℕ) (x y color : ℕ) (c : Canvas)
    → IsCanvas c
    → Keeps c (draw_glyph bitmap x y color c)
unfolding draw_glyph
draw_glyph-Keeps bitmap x y color c h =
    for_range-Keeps _ (λ row c h. for_range-Keeps _ (λ col c h. dot row col c h) 8 0 c h) 8 0 c h
  where
    dot :
        (row col : ℕ) (c : Canvas)
        → IsCanvas c
        → Keeps c (
            if not (bit_and (get_or bitmap row 0) (2 ^ (7 - col)) == 0)
            then fill_rect (x + col * 3) (y + row * 3) 3 3 color c
            else c)
    dot row col c h = elim (Bool-cases (not (bit_and (get_or bitmap row 0) (2 ^ (7 - col)) == 0))) [
      | inl set_bit ↦ rw set_bit (fill_rect-Keeps (x + col * 3) (y + row * 3) 3 3 color c h)
      | inr clear ↦ rw clear (record { width = refl; height = refl; canvas = h })
    ]

-- The canvas is whole, and the letter at the cursor, 24 pixels wide and high, lies in it, with room
-- to the right and below.
pub record IsTerminal (t : Terminal) : Type 0 where
  pub canvas : IsCanvas t.canvas
  pub wide : 60 ≤ t.canvas.width
  pub narrow : t.canvas.width < 2 ^ 63
  pub right : t.term_x + 40 ≤ t.canvas.width
  pub below : t.term_y + 30 ≤ t.canvas.height

next_line-IsTerminal :
    (t : Terminal)
    → IsCanvas t.canvas
    → 60 ≤ t.canvas.width
    → t.canvas.width < 2 ^ 63
    → t.term_y + 30 ≤ t.canvas.height
    → IsTerminal (next_line t)
unfolding next_line
next_line-IsTerminal t h wide narrow below =
    elim (Bool-cases (ltb t.canvas.height (t.term_y + 30 + 30))) [
      | inl full ↦
          let k = scroll_up-Keeps 30 0xFFFFFF t.canvas h in
          rw full (record {
            canvas = k.canvas;
            wide = omega (arith, k.width, wide);
            narrow = omega (arith, k.width, narrow);
            right = omega (arith, k.width, wide);
            below = omega (arith, k.height, below);
          })
      | inr room ↦ rw room (record {
        canvas = h;
        wide = wide;
        narrow = narrow;
        right = omega (arith, wide);
        below = ground (arith, room);
      })
    ]

put_char-IsTerminal : (color c : ℕ) (t : Terminal) → IsTerminal t → IsTerminal (put_char color c t)
unfolding put_char
put_char-IsTerminal color c t h = elim (Bool-cases (c == 0x0A)) [
  | inl line ↦ rw line (next_line-IsTerminal t h.canvas h.wide h.narrow h.below)
  | inr letter ↦
      let bitmap = get_char_bitmap (to_ascii_uppercase c) in
      let k = draw_glyph-Keeps bitmap t.term_x t.term_y color t.canvas h.canvas in
      let right = record t {
        canvas = draw_glyph bitmap t.term_x t.term_y color t.canvas;
        term_x = t.term_x + (24 + 6);
      } in
      let wide : 60 ≤ right.canvas.width = omega (arith, k.width, h.wide) in
      let narrow : right.canvas.width < 2 ^ 63 = omega (arith, k.width, h.narrow) in
      let below : right.term_y + 30 ≤ right.canvas.height = omega (arith, k.height, h.below) in
      elim (Bool-cases (ltb ((t.canvas.width + 2 ^ 64 - 40) % 2 ^ 64) right.term_x)) [
        | inl past ↦ rw (letter, past) (next_line-IsTerminal right k.canvas wide narrow below)
        | inr room ↦
            rw (letter, room)
              (record {
                canvas = k.canvas;
                wide = wide;
                narrow = narrow;
                right = ground (arith, room, k.width, h.narrow, h.wide);
                below = below;
              })
      ]
]

print_chars-IsTerminal :
    (text : List ℕ) (color : ℕ) (t : Terminal)
    → IsTerminal t
    → IsTerminal (print_chars text color t)
unfolding print_chars
print_chars-IsTerminal [] color t h = h
print_chars-IsTerminal (c ∷ text) color t h =
    print_chars-IsTerminal text color (put_char color c t) (put_char-IsTerminal color c t h)

-- `terminal_print` keeps the canvas whole and the cursor where the next letter lies in the canvas, so
-- that no letter is cut off at an edge.
pub terminal_print-IsTerminal :
    (s : Screen) (text : List ℕ) (color : ℕ) (t : Terminal) (w : Writes)
    → IsTerminal t
    → IsTerminal (terminal_print s text color t w).0
unfolding terminal_print
terminal_print-IsTerminal s text color t w h = print_chars-IsTerminal text color t h
