-- ===== src/Compositor/Fill.antt =====
-- `fill_rect` and the loops over it: what they keep, and each pixel after a rectangle is filled.
use qore_os.Base.{
  ℕ, zero, suc, ◌+◌, ◌*◌, ◌%◌, ◌^◌, ◌<◌, ◌≡◌, refl, ◌∙◌, Bool, false, ◌&&◌, arith, length-set, leb,
  ltb, ◌==◌, if◌then◌else◌, inl, inr, Bool-cases,
}
use qore_os.Compositor.{Canvas, draw_pixel, for_range, fill_rect, rounds_of}
use qore_os.Compositor.Pixels.{IsCanvas, pixel_at, draw_pixel-pixel_at}

-- The canvas `c'` has the size of `c`, and a colour for each place.
pub record Keeps (c c' : Canvas) : Type 0 where
  pub width : c'.width ≡ c.width
  pub height : c'.height ≡ c.height
  pub canvas : IsCanvas c'

pub Keeps-trans : {a b c : Canvas} → Keeps a b → Keeps b c → Keeps a c
Keeps-trans k l = record {
  width = l.width ∙ k.width;
  height = l.height ∙ k.height;
  canvas = l.canvas;
}

pub draw_pixel-Keeps : (x y color : ℕ) (c : Canvas) → IsCanvas c → Keeps c (draw_pixel x y color c)
unfolding draw_pixel
draw_pixel-Keeps x y color c h = elim (Bool-cases (ltb x c.width && ltb y c.height)) [
  | inl inside ↦ rw inside (record {
    width = refl;
    height = refl;
    canvas = length-set c.pixels (y * c.width + x) color ∙ h;
  })
  | inr outside ↦ rw outside (record { width = refl; height = refl; canvas = h })
]

-- A loop whose rounds keep the canvas keeps it.
pub for_range-Keeps :
    (body : ℕ → Canvas → Canvas)
    → ((i : ℕ) (c : Canvas) → IsCanvas c → Keeps c (body i c))
    → (n i : ℕ) (c : Canvas) → IsCanvas c
    → Keeps c (for_range body n i c)
unfolding for_range
for_range-Keeps body keep zero i c h = record { width = refl; height = refl; canvas = h }
for_range-Keeps body keep (suc n) i c h =
    let k = keep i c h in Keeps-trans k (for_range-Keeps body keep n (i + 1) (body i c) k.canvas)

fill_row-Keeps :
    (n x y color : ℕ) (c : Canvas)
    → IsCanvas c
    → Keeps c (for_range (λ x. draw_pixel x y color) n x c)
fill_row-Keeps n x y color c h =
    for_range-Keeps (λ x. draw_pixel x y color) (λ x c h. draw_pixel-Keeps x y color c h) n x c h

pub fill_rect-Keeps :
    (x y w h color : ℕ) (c : Canvas) → IsCanvas c → Keeps c (fill_rect x y w h color c)
unfolding fill_rect
fill_rect-Keeps x y w h color c v =
    for_range-Keeps (λ y. for_range (λ x. draw_pixel x y color) (rounds_of x w) x)
      (λ y c v. fill_row-Keeps (rounds_of x w) x y color c v) (rounds_of y h) y c v

-- `i` lies in the `n` numbers from `first` on.
abbrev is_in : ℕ → ℕ → ℕ → Bool
is_in first n i = leb first i && ltb i (first + n)

fill_row-pixel_at :
    (n x y color px py : ℕ) (c : Canvas)
    → IsCanvas c
    → px < c.width
    → py < c.height
    → pixel_at (for_range (λ x. draw_pixel x y color) n x c) px py
      ≡ (if is_in x n px && py == y then color else pixel_at c px py)
unfolding for_range
fill_row-pixel_at zero x y color px py c h l r =
    let none_in : (is_in x 0 px) ≡ false = ground arith in rw none_in refl
fill_row-pixel_at (suc n) x y color px py c h l r =
    let k = draw_pixel-Keeps x y color c h in
    let rest =
      fill_row-pixel_at n (x + 1) y color px py (draw_pixel x y color c) k.canvas (rw (k.width) l)
        (rw (k.height) r) in
    rest ∙ rw (draw_pixel-pixel_at x y color px py c h l r) (ground arith)

fill_rows-pixel_at :
    (n x y w color px py : ℕ) (c : Canvas)
    → IsCanvas c
    → px < c.width
    → py < c.height
    → pixel_at (for_range (λ y. for_range (λ x. draw_pixel x y color) w x) n y c) px py
      ≡ (if is_in x w px && is_in y n py then color else pixel_at c px py)
unfolding for_range
fill_rows-pixel_at zero x y w color px py c h l r =
    let none_in : (is_in x w px && is_in y 0 py) ≡ false = ground arith in rw none_in refl
fill_rows-pixel_at (suc n) x y w color px py c h l r =
    let k = fill_row-Keeps w x y color c h in
    let c1 = for_range (λ x. draw_pixel x y color) w x c in
    fill_rows-pixel_at n x (y + 1) w color px py c1 k.canvas (rw (k.width) l) (rw (k.height) r)
    ∙ rw (fill_row-pixel_at w x y color px py c h l r) (ground arith)

-- `i` lies from `first` up to a `usize` sum, which wraps.
abbrev pub is_from : ℕ → ℕ → ℕ → Bool
is_from first n i = leb first i && ltb i ((first + n) % 2 ^ 64)

is_in-rounds_of : (first n i : ℕ) → is_in first (rounds_of first n) i ≡ is_from first n i
is_in-rounds_of first n i = ground arith

-- After `fill_rect` the pixels of the canvas that lie in the rectangle have the colour, and all others
-- are as before; the part of the rectangle that lies outside the canvas is dropped. The rectangle ends
-- before `x + w` and `y + h`, each modulo 2 ^ 64, and is empty where that is not past its start.
pub fill_rect-pixel_at :
    (x y w h color px py : ℕ) (c : Canvas)
    → IsCanvas c
    → px < c.width
    → py < c.height
    → pixel_at (fill_rect x y w h color c) px py
      ≡ (if is_from x w px && is_from y h py then color else pixel_at c px py)
unfolding fill_rect
fill_rect-pixel_at x y w h color px py c v l r =
    fill_rows-pixel_at (rounds_of y h) x y (rounds_of x w) color px py c v l r
    ∙ rw (is_in-rounds_of x w px, is_in-rounds_of y h py) refl
