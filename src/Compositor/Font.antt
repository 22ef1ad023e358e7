-- ===== src/Compositor/Font.antt =====
-- src/compositor.rs: the font of eight rows of eight bits.
use qore_os.Base.{ℕ, ◌-◌, List, [], ◌∷◌, ◌&&◌, leb, ◌==◌, if◌then◌else◌, replicate}

-- The characters that have a shape, by their code points.
unfoldable pub glyphs : List (ℕ × List ℕ)
glyphs =
    (65, 0x18 ∷ 0x24 ∷ 0x42 ∷ 0x42 ∷ 0x7E ∷ 0x42 ∷ 0x42 ∷ 0x00 ∷ [])
    ∷ (66, 0x3C ∷ 0x22 ∷ 0x22 ∷ 0x3C ∷ 0x22 ∷ 0x22 ∷ 0x3C ∷ 0x00 ∷ [])
    ∷ (67, 0x3C ∷ 0x42 ∷ 0x40 ∷ 0x40 ∷ 0x40 ∷ 0x42 ∷ 0x3C ∷ 0x00 ∷ [])
    ∷ (68, 0x38 ∷ 0x24 ∷ 0x22 ∷ 0x22 ∷ 0x22 ∷ 0x24 ∷ 0x38 ∷ 0x00 ∷ [])
    ∷ (69, 0x7E ∷ 0x40 ∷ 0x40 ∷ 0x78 ∷ 0x40 ∷ 0x40 ∷ 0x7E ∷ 0x00 ∷ [])
    ∷ (70, 0x7E ∷ 0x40 ∷ 0x40 ∷ 0x78 ∷ 0x40 ∷ 0x40 ∷ 0x40 ∷ 0x00 ∷ [])
    ∷ (71, 0x3C ∷ 0x42 ∷ 0x40 ∷ 0x4E ∷ 0x42 ∷ 0x42 ∷ 0x3C ∷ 0x00 ∷ [])
    ∷ (72, 0x42 ∷ 0x42 ∷ 0x42 ∷ 0x7E ∷ 0x42 ∷ 0x42 ∷ 0x42 ∷ 0x00 ∷ [])
    ∷ (73, 0x3E ∷ 0x08 ∷ 0x08 ∷ 0x08 ∷ 0x08 ∷ 0x08 ∷ 0x3E ∷ 0x00 ∷ [])
    ∷ (74, 0x0E ∷ 0x04 ∷ 0x04 ∷ 0x04 ∷ 0x04 ∷ 0x44 ∷ 0x38 ∷ 0x00 ∷ [])
    ∷ (75, 0x44 ∷ 0x48 ∷ 0x50 ∷ 0x60 ∷ 0x50 ∷ 0x48 ∷ 0x44 ∷ 0x00 ∷ [])
    ∷ (76, 0x40 ∷ 0x40 ∷ 0x40 ∷ 0x40 ∷ 0x40 ∷ 0x40 ∷ 0x7E ∷ 0x00 ∷ [])
    ∷ (77, 0x42 ∷ 0x66 ∷ 0x5A ∷ 0x42 ∷ 0x42 ∷ 0x42 ∷ 0x42 ∷ 0x00 ∷ [])
    ∷ (78, 0x42 ∷ 0x62 ∷ 0x52 ∷ 0x4A ∷ 0x46 ∷ 0x42 ∷ 0x42 ∷ 0x00 ∷ [])
    ∷ (79, 0x3C ∷ 0x42 ∷ 0x42 ∷ 0x42 ∷ 0x42 ∷ 0x42 ∷ 0x3C ∷ 0x00 ∷ [])
    ∷ (80, 0x3C ∷ 0x42 ∷ 0x42 ∷ 0x3C ∷ 0x40 ∷ 0x40 ∷ 0x40 ∷ 0x00 ∷ [])
    ∷ (81, 0x3C ∷ 0x42 ∷ 0x42 ∷ 0x42 ∷ 0x4A ∷ 0x44 ∷ 0x3A ∷ 0x00 ∷ [])
    ∷ (82, 0x3C ∷ 0x22 ∷ 0x22 ∷ 0x3C ∷ 0x24 ∷ 0x22 ∷ 0x42 ∷ 0x00 ∷ [])
    ∷ (83, 0x3C ∷ 0x42 ∷ 0x40 ∷ 0x3C ∷ 0x02 ∷ 0x42 ∷ 0x3C ∷ 0x00 ∷ [])
    ∷ (84, 0x7E ∷ 0x18 ∷ 0x18 ∷ 0x18 ∷ 0x18 ∷ 0x18 ∷ 0x18 ∷ 0x00 ∷ [])
    ∷ (85, 0x42 ∷ 0x42 ∷ 0x42 ∷ 0x42 ∷ 0x42 ∷ 0x42 ∷ 0x3C ∷ 0x00 ∷ [])
    ∷ (86, 0x42 ∷ 0x42 ∷ 0x42 ∷ 0x42 ∷ 0x24 ∷ 0x24 ∷ 0x18 ∷ 0x00 ∷ [])
    ∷ (87, 0x42 ∷ 0x42 ∷ 0x42 ∷ 0x42 ∷ 0x5A ∷ 0x66 ∷ 0x42 ∷ 0x00 ∷ [])
    ∷ (88, 0x42 ∷ 0x24 ∷ 0x18 ∷ 0x18 ∷ 0x24 ∷ 0x42 ∷ 0x42 ∷ 0x00 ∷ [])
    ∷ (89, 0x42 ∷ 0x42 ∷ 0x24 ∷ 0x18 ∷ 0x18 ∷ 0x18 ∷ 0x18 ∷ 0x00 ∷ [])
    ∷ (90, 0x7E ∷ 0x04 ∷ 0x08 ∷ 0x10 ∷ 0x20 ∷ 0x40 ∷ 0x7E ∷ 0x00 ∷ [])
    ∷ (48, 0x3C ∷ 0x46 ∷ 0x4A ∷ 0x52 ∷ 0x62 ∷ 0x42 ∷ 0x3C ∷ 0x00 ∷ [])
    ∷ (49, 0x18 ∷ 0x28 ∷ 0x08 ∷ 0x08 ∷ 0x08 ∷ 0x08 ∷ 0x3E ∷ 0x00 ∷ [])
    ∷ (32, 0x00 ∷ 0x00 ∷ 0x00 ∷ 0x00 ∷ 0x00 ∷ 0x00 ∷ 0x00 ∷ 0x00 ∷ [])
    ∷ (58, 0x00 ∷ 0x18 ∷ 0x18 ∷ 0x00 ∷ 0x18 ∷ 0x18 ∷ 0x00 ∷ 0x00 ∷ [])
    ∷ (45, 0x00 ∷ 0x00 ∷ 0x00 ∷ 0x3C ∷ 0x00 ∷ 0x00 ∷ 0x00 ∷ 0x00 ∷ [])
    ∷ (62, 0x00 ∷ 0x08 ∷ 0x04 ∷ 0x02 ∷ 0x04 ∷ 0x08 ∷ 0x00 ∷ 0x00 ∷ [])
    ∷ (40, 0x08 ∷ 0x10 ∷ 0x20 ∷ 0x20 ∷ 0x20 ∷ 0x10 ∷ 0x08 ∷ 0x00 ∷ [])
    ∷ (41, 0x20 ∷ 0x10 ∷ 0x08 ∷ 0x08 ∷ 0x08 ∷ 0x10 ∷ 0x20 ∷ 0x00 ∷ [])
    ∷ (46, 0x00 ∷ 0x00 ∷ 0x00 ∷ 0x00 ∷ 0x00 ∷ 0x18 ∷ 0x18 ∷ 0x00 ∷ [])
    ∷ (33, 0x18 ∷ 0x18 ∷ 0x18 ∷ 0x18 ∷ 0x00 ∷ 0x18 ∷ 0x18 ∷ 0x00 ∷ [])
    ∷ []

unfoldable pub shape_of : List (ℕ × List ℕ) → ℕ → List ℕ
shape_of [] c = replicate 8 0xFF
shape_of (g ∷ gs) c = if g.0 == c then g.1 else shape_of gs c

unfoldable pub get_char_bitmap : ℕ → List ℕ
get_char_bitmap c = shape_of glyphs c

abbrev pub to_ascii_uppercase : ℕ → ℕ
to_ascii_uppercase c = if leb 97 c && leb c 122 then c - 32 else c
