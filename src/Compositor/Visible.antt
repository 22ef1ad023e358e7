-- ===== src/Compositor/Visible.antt =====
-- Where the drawing routines write: in the visible part of the framebuffer, wherever they are told to
-- draw.
use qore_os.Base.{
  ℕ, zero, suc, ◌+◌, ◌-◌, ◌*◌, ◌^◌, ◌≤◌, ◌<◌, ◌≡◌, List, [], ◌∷◌, not, ◌||◌, bit_and, get_or, arith,
  inl, inr, Bool-cases, leb, ◌==◌, if◌then◌else◌,
}
use qore_os.Compositor.{Canvas, for_range}
use qore_os.Compositor.Pixels.{index-lt}
use qore_os.Compositor.Screen.{
  Screen, Writes, Window, u64, rounds, draw_pixel, fill_rect, draw_letter, draw_string, copy_row,
  blit_rows, blit_canvas, draw_frame, draw_window,
}

-- The rows of the framebuffer lie in the address space and do not overlap.
pub record IsScreen (s : Screen) : Type 0 where
  pub rows : s.width ≤ s.stride
  pub space : s.framebuffer + 4 * (s.height * s.stride) ≤ 2 ^ 64

-- The address of a pixel of the screen.
pub data Visible (s : Screen) (address : ℕ) : Type 0 where
  at :
      (x y : ℕ)
      → x < s.width
      → y < s.height
      → address ≡ s.framebuffer + 4 * (y * s.stride + x)
      → Visible s address

abbrev pub AllVisible : Screen → Writes → Type 0
AllVisible s [] = Unit {0}
AllVisible s ((address, color) ∷ w) = Visible s address × AllVisible s w

pub for_range-AllVisible :
    (s : Screen) (body : ℕ → Writes → Writes)
    → ((i : ℕ) (w : Writes) → AllVisible s w → AllVisible s (body i w))
    → (n i : ℕ) (w : Writes) → AllVisible s w
    → AllVisible s (for_range body n i w)
unfolding for_range
for_range-AllVisible s body keep zero i w h = h
for_range-AllVisible s body keep (suc n) i w h =
    for_range-AllVisible s body keep n (i + 1) (body i w) (keep i w h)

draw_pixel-AllVisible :
    (s : Screen)
    → IsScreen s
    → (x y color : ℕ) (w : Writes) → AllVisible s w
    → AllVisible s (draw_pixel s x y color w)
unfolding draw_pixel
draw_pixel-AllVisible s v x y color w h = elim (Bool-cases (leb s.width x || leb s.height y)) [
  | inl outside ↦ rw outside h
  | inr inside ↦
      let l : x < s.width = ground arith in
      let r : y < s.height = ground arith in
      let below = index-lt s.stride s.height x y (omega (arith, v.rows)) r in
      let e : u64 (s.framebuffer + u64 (y * s.stride + x) * 4)
          ≡ s.framebuffer + 4 * (y * s.stride + x) =
        omega (arith, below, v.space) in
      rw inside (at x y l r e, h)
]

pub fill_rect-AllVisible :
    (s : Screen)
    → IsScreen s
    → (x y w h color : ℕ) (ws : Writes) → AllVisible s ws
    → AllVisible s (fill_rect s x y w h color ws)
unfolding fill_rect
fill_rect-AllVisible s v x y w h color ws k =
    for_range-AllVisible s _
      (λ cy ws k.
        for_range-AllVisible s _ (λ cx ws k. draw_pixel-AllVisible s v cx cy color ws k)
          (rounds x w) x ws k)
      (rounds y h) y ws k

draw_letter-AllVisible :
    (s : Screen)
    → IsScreen s
    → (x y : ℕ) (bitmap : List ℕ) (color scale : ℕ) (w : Writes) → AllVisible s w
    → AllVisible s (draw_letter s x y bitmap color scale w)
unfolding draw_letter
draw_letter-AllVisible s v x y bitmap color scale w h =
    for_range-AllVisible s _
      (λ row ws k. for_range-AllVisible s _ (λ col ws k. dot row col ws k) 8 0 ws k) 8 0 w h
  where
    dot :
        (row col : ℕ) (ws : Writes)
        → AllVisible s ws
        → AllVisible s (
            if not (bit_and (get_or bitmap row 0) (2 ^ (7 - col)) == 0)
            then fill_rect s (u64 (x + col * scale)) (u64 (y + row * scale)) scale scale color ws
            else ws)
    dot row col ws k =
        elim (Bool-cases (not (bit_and (get_or bitmap row 0) (2 ^ (7 - col)) == 0))) [
          | inl set_bit ↦ rw set_bit (fill_rect-AllVisible s v _ _ scale scale color ws k)
          | inr clear ↦ rw clear k
        ]

pub draw_string-AllVisible :
    (s : Screen)
    → IsScreen s
    → (x y : ℕ) (text : List ℕ) (color scale : ℕ) (w : Writes) → AllVisible s w
    → AllVisible s (draw_string s x y text color scale w)
unfolding draw_string
draw_string-AllVisible s v x y [] color scale w h = h
draw_string-AllVisible s v x y (c ∷ text) color scale w h =
    draw_string-AllVisible s v (u64 (x + (8 * scale + 2 * scale))) y text color scale _
      (draw_letter-AllVisible s v x y _ color scale w h)

draw_frame-AllVisible :
    (s : Screen)
    → IsScreen s
    → (win : Window) (w : Writes) → AllVisible s w
    → AllVisible s (draw_frame s win w)
unfolding draw_frame
draw_frame-AllVisible s v win w h = draw_string-AllVisible s v _ _ _ _ _ _ (
    fill_rect-AllVisible s v _ _ _ _ _ _ (
      draw_string-AllVisible s v _ _ _ _ _ _ (
        fill_rect-AllVisible s v _ _ _ _ _ _
          (fill_rect-AllVisible s v _ _ _ _ _ _ (fill_rect-AllVisible s v _ _ _ _ _ _ h)))))

pub draw_window-AllVisible :
    (s : Screen)
    → IsScreen s
    → (win : Window) (w : Writes) → AllVisible s w
    → AllVisible s (draw_window s win w)
unfolding draw_window
draw_window-AllVisible s v win w h = ground (arith, draw_frame-AllVisible s v win w h)

-- The canvas is no wider than the screen to its right.
copy_row-AllVisible :
    (s : Screen) (pixels : List ℕ) (y : ℕ)
    → y < s.height
    → (n src x dst : ℕ) (w : Writes) → x + n ≤ s.width
    → dst ≡ s.framebuffer + 4 * (y * s.stride + x)
    → AllVisible s w
    → AllVisible s (copy_row pixels src dst n w)
unfolding copy_row
copy_row-AllVisible s pixels y r zero src x dst w l e h = h
copy_row-AllVisible s pixels y r (suc n) src x dst w l e h =
    copy_row-AllVisible s pixels y r n (src + 1) (x + 1) (dst + 4) _ (omega arith) (omega arith)
      (at x y (omega arith) r e, h)

blit_rows-AllVisible :
    (s : Screen) (canvas : Canvas)
    → canvas.x + canvas.width ≤ s.width
    → (n cy : ℕ) (w : Writes) → AllVisible s w
    → AllVisible s (blit_rows s canvas n cy w)
unfolding blit_rows
blit_rows-AllVisible s canvas l zero cy w h = h
blit_rows-AllVisible s canvas l (suc n) cy w h = elim (Bool-cases (leb s.height (canvas.y + cy))) [
  | inl past ↦ rw past h
  | inr inside ↦ rw inside (
      blit_rows-AllVisible s canvas l n (cy + 1) _ (
        copy_row-AllVisible s canvas.pixels (canvas.y + cy) (ground arith) canvas.width _ canvas.x _
          w l (omega arith) h))
]

pub blit_canvas-AllVisible :
    (s : Screen) (canvas : Canvas)
    → canvas.x + canvas.width ≤ s.width
    → (w : Writes) → AllVisible s w
    → AllVisible s (blit_canvas s canvas w)
unfolding blit_canvas
blit_canvas-AllVisible s canvas l w h = blit_rows-AllVisible s canvas l canvas.height 0 w h
