-- ===== src/Fat32/Utf8.antt =====
-- The test of a text that src/main.rs makes with `core::str::from_utf8`.
use qore_os.Base.{
  ℕ, zero, suc, List, [], ◌∷◌, Bool, true, false, ◌&&◌, ltb, leb, ◌==◌, if◌then◌else◌,
}

-- `core::str::from_utf8`, after the table of well-formed byte sequences: `more` continuation bytes
-- are due, of which the next lies from `low` to `high`.
unfoldable pub is_utf8_from : ℕ → ℕ → ℕ → List ℕ → Bool
is_utf8_from zero low high [] = true
is_utf8_from (suc more) low high [] = false
is_utf8_from (suc more) low high (b ∷ s) =
    leb low b && (leb b high && is_utf8_from more 0x80 0xBF s)
is_utf8_from zero low high (b ∷ s) =
    let one = is_utf8_from 1 0x80 0xBF s in
    let two_low = is_utf8_from 2 0xA0 0xBF s in
    let two = is_utf8_from 2 0x80 0xBF s in
    let two_high = is_utf8_from 2 0x80 0x9F s in
    let three_low = is_utf8_from 3 0x90 0xBF s in
    let three = is_utf8_from 3 0x80 0xBF s in
    let three_high = is_utf8_from 3 0x80 0x8F s in
    if ltb b 0x80
    then is_utf8_from 0 0 0 s
    else if ltb b 0xC2
    then false
    else if ltb b 0xE0
    then one
    else if b == 0xE0
    then two_low
    else if b == 0xED
    then two_high
    else if ltb b 0xF0
    then two
    else if b == 0xF0
    then three_low
    else if ltb b 0xF4
    then three
    else if b == 0xF4
    then three_high
    else false

abbrev pub is_utf8 : List ℕ → Bool
is_utf8 s = is_utf8_from 0 0 0 s
