-- ===== src/Vga/Tests.antt =====
-- A console of 27 columns, so that each line has two letters.
use qore_os.Base.{ℕ, ◌≡◌, refl, List, Option, some, arith, replicate, length}
use qore_os.Text.{codes}
use qore_os.Compositor.{for_range}
use qore_os.Compositor.Screen.{BootInfo}
use qore_os.Vga.{new, newline, put_pixel, draw_glyph, write_char, write_string}
use qore_os.Vga.Bounds.{IsWriter, write_string-new-IsWriter}

abbrev info : BootInfo
info = record { framebuffer_base = 0x80000000; width = 27; height = 40; stride = 32 }

abbrev font : ℕ → Option (List ℕ)
font c = some (replicate 8 0x81)

third_letter : (write_string font (codes "ABC") (new info)).y_pos ≡ 20
unfolding write_string write_char draw_glyph put_pixel newline new for_range
third_letter = refl

bytes_written : length ((write_string font (codes "A") (new info)).writes) ≡ 256
unfolding write_string write_char draw_glyph put_pixel newline new for_range
bytes_written = refl

write_string-new-IsWriter_example :
    IsWriter (new info) (write_string font (codes "AB\nC") (new info))
write_string-new-IsWriter_example =
    write_string-new-IsWriter font (codes "AB\nC") info (omega arith)
