-- ===== src/Compositor/Screen.antt =====
-- src/compositor.rs: the screen. A pixel write is its address and colour, the latest first. A sum or
-- product of `usize` wraps here; a build with overflow checks panics there.
use qore_os.Base.{
  ℕ, zero, suc, ◌+◌, ◌-◌, ◌*◌, ◌%◌, ◌^◌, List, [], ◌∷◌, Bool, ◌||◌, not, bit_and, get_or, ltb, leb,
  slt, as_usize, ◌==◌, if◌then◌else◌,
}
use qore_os.Text.{codes}
use qore_os.Compositor.{Canvas, Terminal, new, for_range, print_chars}
use qore_os.Compositor.Font.{get_char_bitmap, to_ascii_uppercase}

-- The static SERVER, with its `terminal_layer`.
pub record Screen : Type 0 where
  pub framebuffer : ℕ
  pub width : ℕ
  pub height : ℕ
  pub stride : ℕ
  pub terminal_layer : Canvas

abbrev pub Writes : Type 0
Writes = List (ℕ × ℕ)

abbrev pub u64 : ℕ → ℕ
u64 n = n % 2 ^ 64

-- What `init` reads of `BootInfo`.
pub record BootInfo : Type 0 where
  pub framebuffer_base : ℕ
  pub width : ℕ
  pub height : ℕ
  pub stride : ℕ

unfoldable pub init : BootInfo → Screen
init info = record {
  framebuffer = info.framebuffer_base;
  width = info.width;
  height = info.height;
  stride = info.stride;
  terminal_layer = new 0 40 info.width (u64 (info.height + 2 ^ 64 - 40)) 0xFFFFFF;
}

unfoldable pub draw_pixel : Screen → ℕ → ℕ → ℕ → Writes → Writes
draw_pixel s x y color w =
    let offset = u64 (y * s.stride + x) in
    if leb s.width x || leb s.height y then w else (u64 (s.framebuffer + offset * 4), color) ∷ w

-- The rounds of `for i in first..(first + n)`.
abbrev pub rounds : ℕ → ℕ → ℕ
rounds first n = u64 (first + n) - first

unfoldable pub fill_rect : Screen → ℕ → ℕ → ℕ → ℕ → ℕ → Writes → Writes
fill_rect s x y w h color ws =
    for_range (λ curr_y. for_range (λ curr_x. draw_pixel s curr_x curr_y color) (rounds x w) x)
      (rounds y h) y ws

unfoldable pub clear_screen : Screen → ℕ → Writes → Writes
clear_screen s color w = fill_rect s 0 0 s.width s.height color w

-- One letter of `draw_string`.
unfoldable pub draw_letter : Screen → ℕ → ℕ → List ℕ → ℕ → ℕ → Writes → Writes
draw_letter s x y bitmap color scale w =
    for_range
      (λ row.
        for_range
          (λ col ws.
            if not (bit_and (get_or bitmap row 0) (2 ^ (7 - col)) == 0)
            then fill_rect s (u64 (x + col * scale)) (u64 (y + row * scale)) scale scale color ws
            else ws)
          8 0)
      8 0 w

unfoldable pub draw_string : Screen → ℕ → ℕ → List ℕ → ℕ → ℕ → Writes → Writes
draw_string s x y [] color scale w = w
draw_string s x y (c ∷ text) color scale w =
    let bitmap = get_char_bitmap (to_ascii_uppercase c) in
    draw_string s (u64 (x + (8 * scale + 2 * scale))) y text color scale
      (draw_letter s x y bitmap color scale w)

-- `copy_nonoverlapping` of `n` pixels, from `pixels` at `src` to the address `dst`.
unfoldable pub copy_row : List ℕ → ℕ → ℕ → ℕ → Writes → Writes
copy_row pixels src dst zero w = w
copy_row pixels src dst (suc n) w =
    copy_row pixels (src + 1) (dst + 4) n ((dst, get_or pixels src 0) ∷ w)

-- The loop over the rows of the canvas, with the rounds left.
unfoldable pub blit_rows : Screen → Canvas → ℕ → ℕ → Writes → Writes
blit_rows s canvas zero cy w = w
blit_rows s canvas (suc n) cy w =
    let screen_y = canvas.y + cy in
    let src_offset = cy * canvas.width in
    let dst_offset = screen_y * s.stride + canvas.x in
    let row = copy_row canvas.pixels src_offset (s.framebuffer + dst_offset * 4) canvas.width w in
    let rest = blit_rows s canvas n (cy + 1) row in if leb s.height screen_y then w else rest

unfoldable pub blit_canvas : Screen → Canvas → Writes → Writes
blit_canvas s canvas w = blit_rows s canvas canvas.height 0 w

pub record Window : Type 0 where
  pub x : ℕ
  pub y : ℕ
  pub width : ℕ
  pub height : ℕ
  pub title : List ℕ
  pub bg_color : ℕ
  pub is_open : Bool

-- `win.x` or 0 where it is negative
abbrev pub safe : ℕ → ℕ
safe v = if slt v 0 then 0 else as_usize v

-- The drawing of a window that is open and lies on the screen.
unfoldable pub draw_frame : Screen → Window → Writes → Writes
draw_frame s win w0 =
    let safe_x = safe win.x in
    let safe_y = safe win.y in
    let close_x = u64 (safe_x + win.width + 2 ^ 64 - 20) in
    let close_y = safe_y + 4 in
    let w1 = fill_rect s (safe_x + 4) (safe_y + 4) win.width win.height 0x000000 w0 in
    let w2 = fill_rect s safe_x safe_y win.width win.height win.bg_color w1 in
    let w3 = fill_rect s safe_x safe_y win.width 24 0x0F172A w2 in
    let w4 = draw_string s (safe_x + 8) (safe_y + 8) win.title 0xFFFFFF 1 w3 in
    let w5 = fill_rect s close_x close_y 16 16 0xEF4444 w4 in
    draw_string s (u64 (close_x + 4)) (close_y + 4) (codes "X") 0xFFFFFF 1 w5

unfoldable pub draw_window : Screen → Window → Writes → Writes
draw_window s win w =
    let is_past =
      ltb s.width (u64 (safe win.x + win.width)) || ltb s.height (u64 (safe win.y + win.height)) in
    if not win.is_open then w else if is_past then w else draw_frame s win w

-- With the copy of the terminal to the framebuffer at its end.
unfoldable pub terminal_print : Screen → List ℕ → ℕ → Terminal → Writes → Terminal × Writes
terminal_print s text color t w =
    let printed = print_chars text color t in (printed, blit_canvas s printed.canvas w)
