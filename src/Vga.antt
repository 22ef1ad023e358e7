-- ===== src/Vga.antt =====
-- src/vga.rs: the text console of the boot. The shapes of the letters come from the crate font8x8, and
-- are the parameter `font`. A byte write is its address and value, the latest first. Sums of positions
-- stay far below 2 ^ 64.
pub mod Bounds
mod Tests
use qore_os.Base.{
  ℕ, ◌+◌, ◌*◌, ◌^◌, List, [], ◌∷◌, ◌++◌, Option, none, some, not, bit_and, get_or, leb, ◌==◌,
  if◌then◌else◌,
}
use qore_os.Compositor.{for_range}
use qore_os.Compositor.Screen.{BootInfo}

-- `VgaWriter`, with what it has written.
pub record VgaWriter : Type 0 where
  pub framebuffer : ℕ
  pub width : ℕ
  pub height : ℕ
  pub stride : ℕ
  pub x_pos : ℕ
  pub y_pos : ℕ
  pub writes : List (ℕ × ℕ)

-- `VgaWriter::new`
unfoldable pub new : BootInfo → VgaWriter
new info = record {
  framebuffer = info.framebuffer_base;
  width = info.width;
  height = info.height;
  stride = info.stride;
  x_pos = 10;
  y_pos = 10;
  writes = [];
}

unfoldable pub newline : VgaWriter → VgaWriter
newline w = record w { y_pos = w.y_pos + 10; x_pos = 10 }

unfoldable pub put_pixel : ℕ → ℕ → ℕ → VgaWriter → VgaWriter
put_pixel x y color w =
    let offset = y * w.stride * 4 + x * 4 in
    let p = w.framebuffer + offset in
    record w { writes = (p + 3, 0) ∷ (p + 2, color) ∷ (p + 1, color) ∷ (p, color) ∷ w.writes }

-- The two loops over the rows and columns of a shape.
unfoldable pub draw_glyph : List ℕ → VgaWriter → VgaWriter
draw_glyph glyph w =
    for_range
      (λ y.
        for_range
          (λ x v.
            put_pixel (w.x_pos + x) (w.y_pos + y)
              (if not (bit_and (get_or glyph y 0) (2 ^ x) == 0) then 0xFF else 0x00) v)
          8 0)
      8 0 w

abbrev pub draw_known : Option (List ℕ) → VgaWriter → VgaWriter
draw_known none w = w
draw_known (some glyph) w = draw_glyph glyph w

abbrev pub advance : VgaWriter → VgaWriter
advance w = record w { x_pos = w.x_pos + 8 }

unfoldable pub write_char : (ℕ → Option (List ℕ)) → ℕ → VgaWriter → VgaWriter
write_char font c w =
    let placed = if leb w.width (w.x_pos + 8) then newline w else w in
    advance (draw_known (font c) placed)

unfoldable pub write_string : (ℕ → Option (List ℕ)) → List ℕ → VgaWriter → VgaWriter
write_string font [] w = w
write_string font (byte ∷ bytes) w =
    write_string font bytes (if byte == 0x0A then newline w else write_char font byte w)

-- `_print`, with the text that the arguments are formatted to; WRITER is empty before the console is set
-- up, and a text is then lost.
unfoldable pub print : (ℕ → Option (List ℕ)) → List ℕ → Option VgaWriter → Option VgaWriter
print font text none = none
print font text (some w) = some (write_string font text w)

-- `println!`
unfoldable pub println : (ℕ → Option (List ℕ)) → List ℕ → Option VgaWriter → Option VgaWriter
println font text writer = print font (text ++ (0x0A ∷ [])) writer
