-- ===== src/Compositor/Pixels.antt =====
-- The canvas, pixel by pixel.
use native.Mathlib.Nat.{mul-le-mul_right, add-mul}
use qore_os.Base.{
  ℕ, zero, suc, ◌+◌, ◌-◌, ◌*◌, ◌%◌, ◌^◌, ◌≤◌, ◌<◌, ◌≡◌, refl, ap, sym, ◌∙◌, List, ◌++◌, false, ◌&&◌,
  arith, inl, inr, Bool-cases, length, get_or, set, drop, replicate, length-drop, get_or-drop,
  get_or-append_left, get_or-append_past, get_or-set_self, get_or-set_ne, leb, ltb, ◌==◌,
  if◌then◌else◌, ==→eq, ==→ne, ltb→lt, ltb→le,
}
use qore_os.Compositor.{Canvas, draw_pixel, scroll_up}

-- There is a colour for each place.
abbrev pub IsCanvas : Canvas → Type 0
IsCanvas c = length c.pixels ≡ c.height * c.width

abbrev pub pixel_at : Canvas → ℕ → ℕ → ℕ
pixel_at c px py = get_or c.pixels (py * c.width + px) 0

pub index-lt : (w h px q : ℕ) → px < w → q < h → q * w + px < h * w
index-lt w h px q l r =
    let row : suc q * w ≤ h * w = mul-le-mul_right w r in
    let split : suc q * w ≡ q * w + w = omega arith in omega (arith, row, split)

index-le : (w h px q : ℕ) → h ≤ q → h * w ≤ q * w + px
index-le w h px q l = omega (arith, mul-le-mul_right w l)

index_test : (w h px q : ℕ) → px < w → ltb (q * w + px) (h * w) ≡ ltb q h
index_test w h px q l = elim (Bool-cases (ltb q h)) [
  | inl inside ↦ ground (arith, index-lt w h px q l (ltb→lt q h inside))
  | inr past ↦ ground (arith, index-le w h px q (ltb→le q h past))
]

-- Different places have different indices.
index-injective :
    (w px py qx qy : ℕ)
    → px < w
    → qx < w
    → (py * w + px == qy * w + qx) ≡ ((px == qx) && (py == qy))
index-injective w px py qx qy l r = elim (Bool-cases (ltb py qy)) [
  | inl before ↦ ground (arith, index-lt w qy px py l (ltb→lt py qy before))
  | inr from ↦ elim (Bool-cases (ltb qy py)) [
    | inl after ↦ ground (arith, index-lt w py qx qy r (ltb→lt qy py after))
    | inr upto ↦ let same : py ≡ qy = ground arith in rw same (ground arith)
  ]
]

get_or-replicate_lt : (n i a : ℕ) → i < n → get_or (replicate n a) i 0 ≡ a
get_or-replicate_lt zero i a h = absurd (omega arith)
get_or-replicate_lt (suc n) zero a h = refl
get_or-replicate_lt (suc n) (suc i) a h = get_or-replicate_lt n i a (omega arith)

get_or-shift :
    (s i : ℕ) (xs : List ℕ) (bg : ℕ)
    → i < length xs
    → s ≤ length xs
    → get_or (drop s xs ++ replicate s bg) i 0
      ≡ (if ltb (i + s) (length xs) then get_or xs (i + s) 0 else bg)
get_or-shift s i xs bg h l = elim (Bool-cases (ltb (i + s) (length xs))) [
  | inl inside ↦
      let short : i < length (drop s xs) =
        omega (arith, length-drop s xs, ltb→lt (i + s) (length xs) inside) in
      rw inside (
        get_or-append_left (drop s xs) (replicate s bg) i 0 short
        ∙ get_or-drop s i xs 0
        ∙ ap (λ k. get_or xs k 0) (omega arith))
  | inr past ↦
      let over = ltb→le (i + s) (length xs) past in
      rw past (
        get_or-append_past (drop s xs) (replicate s bg) i 0 (omega (arith, length-drop s xs, over))
        ∙ get_or-replicate_lt s (i - length (drop s xs)) bg (omega (arith, length-drop s xs, over)))
]

-- Where the shift in pixels fits 64 bits, scrolling a whole canvas moves every row up and fills what comes
-- in from below with the background, also where the shift is larger than the canvas.
pub scroll_up-pixel_at :
    (shift_y bg px py : ℕ) (c : Canvas)
    → IsCanvas c
    → shift_y * c.width < 2 ^ 64
    → px < c.width
    → py < c.height
    → pixel_at (scroll_up shift_y bg c) px py
      ≡ (if ltb (py + shift_y) c.height then pixel_at c px (py + shift_y) else bg)
unfolding scroll_up
scroll_up-pixel_at shift_y bg px py c h small l r =
    let w = c.width in
    let i = index-lt w c.height px py l r in
    let exact : shift_y * w % 2 ^ 64 ≡ shift_y * w = omega (arith, small) in
    rw exact (elim (Bool-cases (leb (length c.pixels) (shift_y * w))) [
      | inl all ↦
          let above : (ltb (py + shift_y) c.height) ≡ false =
            sym (index_test w c.height px (py + shift_y) l)
            ∙ ground (arith, add-mul py shift_y w, h, all) in
          rw (all, above)
            (get_or-replicate_lt (length c.pixels) (py * w + px) bg (omega (arith, i, h)))
      | inr some_left ↦
          let inside : py * w + px < length c.pixels = omega (arith, i, h) in
          let row : py * w + px + shift_y * w ≡ (py + shift_y) * w + px =
            omega (arith, add-mul py shift_y w) in
          rw some_left (
            get_or-shift (shift_y * w) (py * w + px) c.pixels bg inside (ground arith)
            ∙ rw (row, h, index_test w c.height px (py + shift_y) l) refl)
    ])

pub draw_pixel-pixel_at :
    (qx qy color px py : ℕ) (c : Canvas)
    → IsCanvas c
    → px < c.width
    → py < c.height
    → pixel_at (draw_pixel qx qy color c) px py
      ≡ (if px == qx && py == qy then color else pixel_at c px py)
unfolding draw_pixel
draw_pixel-pixel_at qx qy color px py c h l r =
    elim (Bool-cases (ltb qx c.width && ltb qy c.height)) [
      | inl inside ↦
          let x_in : qx < c.width = ground arith in
          let y_in : qy < c.height = ground arith in
          let i = index-lt c.width c.height qx qy x_in y_in in
          let same = index-injective c.width px py qx qy l x_in in
          rw inside (
            written (py * c.width + px) (qy * c.width + qx) c.pixels (omega (arith, i, h))
            ∙ rw same refl)
      | inr outside ↦
          let elsewhere : (px == qx && py == qy) ≡ false = ground arith in
          rw (outside, elsewhere) refl
    ]
  where
    written :
        (i j : ℕ) (xs : List ℕ)
        → j < length xs
        → get_or (set xs j color) i 0 ≡ (if i == j then color else get_or xs i 0)
    written i j xs b = elim (Bool-cases (i == j)) [
      | inl e ↦ let same : i ≡ j = ==→eq i j e in rw (e, same) (get_or-set_self xs j color 0 b)
      | inr e ↦ rw e (get_or-set_ne xs j i color 0 (λ eq. ==→ne i j e (sym eq)))
    ]
