-- ===== src/Vga/Bounds.antt =====
-- Where the console writes.
use qore_os.Base.{
  ℕ, zero, suc, ◌+◌, ◌*◌, ◌≤◌, ◌<◌, ◌≡◌, refl, List, [], ◌∷◌, Option, none, some, arith, leb, ◌==◌,
  if◌then◌else◌, if_intro,
}
use qore_os.Compositor.{for_range}
use qore_os.Compositor.Screen.{BootInfo}
use qore_os.Vga.{
  VgaWriter, new, newline, put_pixel, draw_glyph, draw_known, advance, write_char, write_string,
}

-- The address of a byte of a pixel in the first `bottom` rows of the visible columns.
pub data Inside (w : VgaWriter) (bottom address : ℕ) : Type 0 where
  at :
      (x y byte : ℕ)
      → x < w.width
      → y < bottom
      → byte < 4
      → address ≡ w.framebuffer + 4 * (y * w.stride + x) + byte
      → Inside w bottom address

abbrev pub AllInside : VgaWriter → ℕ → List (ℕ × ℕ) → Type 0
AllInside w bottom [] = Unit {0}
AllInside w bottom ((address, value) ∷ rest) = Inside w bottom address × AllInside w bottom rest

-- `v` has the framebuffer of `w`, a cursor with room for a letter, and has written above its end only.
pub record IsWriter (w : VgaWriter) (v : VgaWriter) : Type 0 where
  pub framebuffer : v.framebuffer ≡ w.framebuffer
  pub width : v.width ≡ w.width
  pub stride : v.stride ≡ w.stride
  pub above : w.y_pos ≤ v.y_pos
  pub cursor : v.x_pos ≤ w.width
  pub inside : AllInside w (v.y_pos + 8) v.writes

Inside-mono : (w : VgaWriter) (b b' a : ℕ) → b ≤ b' → Inside w b a → Inside w b' a
Inside-mono w b b' a l (at x y byte p q r e) = at x y byte p (omega arith) r e

AllInside-mono :
    (w : VgaWriter) (b b' : ℕ) (writes : List (ℕ × ℕ))
    → b ≤ b'
    → AllInside w b writes
    → AllInside w b' writes
AllInside-mono w b b' [] l h = tt
AllInside-mono w b b' ((a, v) ∷ rest) l h =
    (Inside-mono w b b' a l h.0, AllInside-mono w b b' rest l h.1)

newline-IsWriter : (w v : VgaWriter) → 18 ≤ w.width → IsWriter w v → IsWriter w (newline v)
unfolding newline
newline-IsWriter w v l h = record {
  framebuffer = h.framebuffer;
  width = h.width;
  stride = h.stride;
  above = omega (arith, h.above);
  cursor = omega arith;
  inside = AllInside-mono w (v.y_pos + 8) (v.y_pos + 10 + 8) v.writes (omega arith) h.inside;
}

put_pixel-IsWriter :
    (w v : VgaWriter) (x y color : ℕ)
    → x < w.width
    → y < v.y_pos + 8
    → IsWriter w v
    → IsWriter w (put_pixel x y color v)
unfolding put_pixel
put_pixel-IsWriter w v x y color l r h =
    let base : v.framebuffer + (y * v.stride * 4 + x * 4) ≡ w.framebuffer + 4 * (y * w.stride + x) =
      rw (h.framebuffer, h.stride) (omega arith) in
    let byte_at : (b address : ℕ)
        → b < 4
        → address ≡ w.framebuffer + 4 * (y * w.stride + x) + b
        → Inside w (v.y_pos + 8) address =
      λ b address k e. at x y b l r k e in
    record {
      framebuffer = h.framebuffer;
      width = h.width;
      stride = h.stride;
      above = h.above;
      cursor = h.cursor;
      inside = (
        byte_at 3 _ (omega arith) (omega (arith, base)),
        (
          byte_at 2 _ (omega arith) (omega (arith, base)),
          (
            byte_at 1 _ (omega arith) (omega (arith, base)),
            (byte_at 0 _ (omega arith) (omega (arith, base)), h.inside),
          ),
        ),
      );
    }

-- A loop whose rounds below `limit` keep a property keeps it.
for_range_keeps :
    {S : Type 0} (P : S → Type 0) (limit : ℕ) (body : ℕ → S → S)
    → ((i : ℕ) (s : S) → i < limit → P s → P (body i s))
    → (n i : ℕ) (s : S) → i + n ≤ limit
    → P s
    → P (for_range body n i s)
unfolding for_range
for_range_keeps P limit body keep zero i s l h = h
for_range_keeps P limit body keep (suc n) i s l h =
    for_range_keeps P limit body keep n (i + 1) (body i s) (omega arith) (keep i s (omega arith) h)

-- While a letter is drawn the cursor stays.
record IsDrawing (w p v : VgaWriter) : Type 0 where
  writer : IsWriter w v
  x : v.x_pos ≡ p.x_pos
  y : v.y_pos ≡ p.y_pos

put_pixel-IsDrawing :
    (w p v : VgaWriter) (x y color : ℕ)
    → p.x_pos + x < w.width
    → y < 8
    → IsDrawing w p v
    → IsDrawing w p (put_pixel (p.x_pos + x) (p.y_pos + y) color v)
unfolding put_pixel
put_pixel-IsDrawing w p v x y color l r h = record {
  writer =
      (put_pixel-IsWriter w v (p.x_pos + x) (p.y_pos + y) color l (omega (arith, h.y)) h.writer);
  x = h.x;
  y = h.y;
}

draw_glyph-IsDrawing :
    (w p : VgaWriter) (glyph : List ℕ)
    → p.x_pos + 8 ≤ w.width
    → IsWriter w p
    → IsDrawing w p (draw_glyph glyph p)
unfolding draw_glyph
draw_glyph-IsDrawing w p glyph l h =
    for_range_keeps (IsDrawing w p) 8 _
      (λ y v k d.
        for_range_keeps (IsDrawing w p) 8 _
          (λ x v k' d'. put_pixel-IsDrawing w p v x y _ (omega arith) k d') 8 0 v (omega arith) d)
      8 0 p (omega arith) (record { writer = h; x = refl; y = refl })

draw_known-IsDrawing :
    (w p : VgaWriter) (o : Option (List ℕ))
    → p.x_pos + 8 ≤ w.width
    → IsWriter w p
    → IsDrawing w p (draw_known o p)
draw_known-IsDrawing w p none l h = record { writer = h; x = refl; y = refl }
draw_known-IsDrawing w p (some glyph) l h = draw_glyph-IsDrawing w p glyph l h

advance-IsWriter :
    (w p v : VgaWriter) → p.x_pos + 8 ≤ w.width → IsDrawing w p v → IsWriter w (advance v)
advance-IsWriter w p v l h = record {
  framebuffer = h.writer.framebuffer;
  width = h.writer.width;
  stride = h.writer.stride;
  above = h.writer.above;
  cursor = omega (arith, h.x);
  inside = h.writer.inside;
}

write_char-IsWriter :
    (font : ℕ → Option (List ℕ)) (c : ℕ) (w v : VgaWriter)
    → 18 ≤ w.width
    → IsWriter w v
    → IsWriter w (write_char font c v)
unfolding write_char newline
write_char-IsWriter font c w v l h =
    if_intro (λ p. IsWriter w (advance (draw_known (font c) p))) (leb v.width (v.x_pos + 8))
      (λ _.
        advance-IsWriter w (newline v) _ l
          (draw_known-IsDrawing w (newline v) (font c) l (newline-IsWriter w v l h)))
      λ e.
        let room : v.x_pos + 8 ≤ w.width = ground (arith, h.width) in
        advance-IsWriter w v _ room (draw_known-IsDrawing w v (font c) room h)

write_string-IsWriter :
    (font : ℕ → Option (List ℕ)) (text : List ℕ) (w v : VgaWriter)
    → 18 ≤ w.width
    → IsWriter w v
    → IsWriter w (write_string font text v)
unfolding write_string
write_string-IsWriter font [] w v l h = h
write_string-IsWriter font (c ∷ text) w v l h =
    write_string-IsWriter font text w (if c == 0x0A then newline v else write_char font c v) l (
      if_intro (IsWriter w) (c == 0x0A) (λ _. newline-IsWriter w v l h)
        λ _. write_char-IsWriter font c w v l h)

-- On a screen of at least 18 columns the console writes only bytes of pixels in the visible columns,
-- down to eight rows from the cursor's row on, whatever the text and the font are; the cursor never
-- moves up, and stays in the visible columns or right behind them.
pub write_string-new-IsWriter :
    (font : ℕ → Option (List ℕ)) (text : List ℕ) (info : BootInfo)
    → 18 ≤ info.width
    → IsWriter (new info) (write_string font text (new info))
unfolding new
write_string-new-IsWriter font text info l =
    write_string-IsWriter font text (new info) (new info) l (record {
      framebuffer = refl;
      width = refl;
      stride = refl;
      above = omega arith;
      cursor = omega arith;
      inside = tt;
    })
