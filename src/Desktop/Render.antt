-- ===== src/Desktop/Render.antt =====
-- The drawing half of a round, with the mouse that `frame` has brought back onto the screen; it writes to the visible framebuffer only.
use qore_os.Base.{
  ℕ, ◌+◌, ◌-◌, ◌^◌, ◌≤◌, List, [], ◌∷◌, ◌++◌, Bool, arith, if_intro, length, as_usize, ltb,
  if◌then◌else◌,
}
use qore_os.Mouse.{Mouse}
use qore_os.Text.{codes, decimal}
use qore_os.Compositor.Screen.{
  BootInfo, Screen, Window, Writes, u64, init, fill_rect, draw_string, blit_canvas, draw_window,
}
use qore_os.Compositor.Visible.{
  IsScreen, AllVisible, fill_rect-AllVisible, draw_string-AllVisible, blit_canvas-AllVisible,
  draw_window-AllVisible,
}
use qore_os.Desktop.{Desktop, drop_btn_x, drop_btn_y}

-- What the boot code found, which the window tells of.
pub record Status : Type 0 where
  pub nvme_found : Bool
  pub hda_found : Bool
  pub sector_data_str : List ℕ

-- `{}` of an `i32`
abbrev pub decimal32 : ℕ → List ℕ
decimal32 v = if ltb v (2 ^ 31) then decimal v else 45 ∷ decimal (2 ^ 32 - v)

abbrev pub diag_text : Mouse → List ℕ
diag_text m = codes "MOUSE X: " ++ decimal32 m.x ++ codes "   MOUSE Y: " ++ decimal32 m.y

abbrev pub nvme_text : Status → List ℕ
nvme_text st =
    codes "STORAGE: NVME CONTROLLER "
    ++ (if st.nvme_found then codes "DATA SECURED" else codes "NOT DETECTED")

abbrev pub hda_text : Status → List ℕ
hda_text st =
    codes "AUDIO: INTEL HDA "
    ++ (if st.hda_found then codes "PLAYING 440HZ TONE" else codes "OFFLINE")

-- The payload, where there is one.
unfoldable pub draw_payload : Screen → ℕ → ℕ → List ℕ → Writes → Writes
draw_payload s text_x text_y text w =
    if ltb 0 (length text)
    then draw_string s text_x (u64 (text_y + 150)) text 0xF59E0B 1
        (draw_string s text_x (u64 (text_y + 130)) (codes "FAT32 PAYLOAD DECRYPTED:") 0x10B981 1 w)
    else w

-- `if desktop_win.is_open { .. }`
unfoldable pub draw_desktop : Screen → Status → Mouse → Window → Writes → Writes
draw_desktop s st m win w0 =
    let text_x = u64 (as_usize win.x + 20) in
    let text_y = u64 (as_usize win.y + 50) in
    let w1 = draw_window s win w0 in
    let w2 = draw_string s text_x text_y (diag_text m) 0x10B981 2 w1 in
    let w3 =
      draw_string s text_x (u64 (text_y + 40)) (codes "SYS: 2MB RING-0 SAFE ZONE ACTIVE") 0xFFFFFF 1
        w2 in
    let w4 =
      draw_string s text_x (u64 (text_y + 60)) (codes "SYS: E1000 NETWORK CARD ONLINE") 0xFFFFFF 1
        w3 in
    let w5 = draw_string s text_x (u64 (text_y + 80)) (nvme_text st) 0x3B82F6 1 w4 in
    let w6 = draw_string s text_x (u64 (text_y + 100)) (hda_text st) 0x3B82F6 1 w5 in
    let w7 = draw_payload s text_x text_y st.sector_data_str w6 in
    let w8 = fill_rect s (drop_btn_x win) (drop_btn_y win) 380 24 0xEF4444 w7 in
    draw_string s (u64 (drop_btn_x win + 10)) (u64 (drop_btn_y win + 6))
      (codes "INITIATE SECURE RING-3 DROP (LOCKS GUI)") 0xFFFFFF 1 w8

unfoldable pub draw_cursor : Screen → Mouse → Bool → Writes → Writes
draw_cursor s m is_dragging w =
    let cursor_color = if is_dragging then 0x10B981 else 0x3B82F6 in
    fill_rect s (u64 (as_usize m.x + 1)) (u64 (as_usize m.y + 1)) 6 6 cursor_color
      (fill_rect s (as_usize m.x) (as_usize m.y) 8 8 0x000000 w)

-- The bar, the terminal, the window and the cursor.
unfoldable pub render : Screen → Status → Mouse → Desktop → Writes → Writes
render s st m d w =
    let bar = fill_rect s 0 0 s.width 40 0x1E293B w in
    let title = draw_string s 20 10 (codes "QOREOS UNIKERNEL SECURE CONSOLE") 0xFFFFFF 2 bar in
    let terminal = blit_canvas s s.terminal_layer title in
    let windows = if d.win.is_open then draw_desktop s st m d.win terminal else terminal in
    draw_cursor s m d.is_dragging windows

draw_payload-AllVisible :
    (s : Screen)
    → IsScreen s
    → (x y : ℕ) (text : List ℕ) (w : Writes) → AllVisible s w
    → AllVisible s (draw_payload s x y text w)
unfolding draw_payload
draw_payload-AllVisible s v x y text w h =
    if_intro (AllVisible s) (ltb 0 (length text))
      (λ _. draw_string-AllVisible s v _ _ _ _ _ _ (draw_string-AllVisible s v _ _ _ _ _ _ h))
      λ _. h

draw_desktop-AllVisible :
    (s : Screen)
    → IsScreen s
    → (st : Status) (m : Mouse) (win : Window) (w : Writes) → AllVisible s w
    → AllVisible s (draw_desktop s st m win w)
unfolding draw_desktop
draw_desktop-AllVisible s v st m win w h =
    let string = draw_string-AllVisible s v in
    let rect = fill_rect-AllVisible s v in
    let text = string _ _ _ _ _ _ (
      string _ _ _ _ _ _ (
        string _ _ _ _ _ _
          (string _ _ _ _ _ _ (string _ _ _ _ _ _ (draw_window-AllVisible s v win w h))))) in
    string _ _ _ _ _ _
      (rect _ _ _ _ _ _ (draw_payload-AllVisible s v _ _ st.sector_data_str _ text))

pub render-AllVisible :
    (s : Screen)
    → IsScreen s
    → s.terminal_layer.x + s.terminal_layer.width ≤ s.width
    → (st : Status) (m : Mouse) (d : Desktop) (w : Writes) → AllVisible s w
    → AllVisible s (render s st m d w)
unfolding render draw_cursor
render-AllVisible s v l st m d w h =
    let string = draw_string-AllVisible s v in
    let rect = fill_rect-AllVisible s v in
    let terminal =
      blit_canvas-AllVisible s s.terminal_layer l _ (string _ _ _ _ _ _ (rect _ _ _ _ _ _ h)) in
    rect _ _ _ _ _ _ (
      rect _ _ _ _ _ _ (
        if_intro (AllVisible s) d.win.is_open
          (λ _. draw_desktop-AllVisible s v st m d.win _ terminal) λ _. terminal))

-- On the screen that `init` sets up, a round of drawing writes only pixels of the visible rows and
-- columns of the framebuffer, wherever the window and the mouse are and whatever the texts are.
pub render-init-AllVisible :
    (info : BootInfo)
    → IsScreen (init info)
    → (st : Status) (m : Mouse) (d : Desktop)
    → AllVisible (init info) (render (init info) st m d [])
unfolding init
render-init-AllVisible info v st m d = render-AllVisible (init info) v (omega arith) st m d [] tt
