-- ===== src/Ecam/Scanned.antt =====
-- The scan as a whole: it finds the last device of each kind, and makes the network, disk and audio
-- devices bus masters.
use qore_os.Base.{
  ℕ, ◌+◌, ◌-◌, ◌/◌, ◌^◌, ◌≤◌, ◌<◌, ◌≡◌, ◌≢◌, refl, ap, sym, ◌∙◌, ◌⊎◌, inl, inr, Bool, true, false,
  ◌&&◌, arith, bit_or, bit_or_step, bit_or_zero, ltb, ◌==◌, if◌then◌else◌, Bool-cases, if_intro,
  ==→ne, lt→ltb, le→ltb,
}
use qore_os.Ram.{
  Ram, IsBytes, load, store, from_le, le_bytes, load_ext, store-outside, load-store_self,
  from_le-le_bytes, length-le_bytes, load-store-Apart, from_le-load-lt,
}
use qore_os.Ecam.{no_devices, Scan, load16, bar_low, bar_address, enable, scan_function, scan_all}
use qore_os.Ecam.Rounds.{scan_all_inv}
use qore_os.Ecam.Found.{
  is_e1000, is_nvme, is_hda, is_xhci, is_master, found, scan_function-Noted, Last, Last-suc,
  none_yet, function_at,
}

-- The two memories agree on a function's registers, but for the command register.
abbrev pub Agree : Ram → Ram → ℕ → Type 0
Agree ram ram0 a = (o : ℕ) → o < 4096 → (o < 4) ⊎ (6 ≤ o) → ram (a + o) ≡ ram0 (a + o)

load-Agree :
    (ram ram0 : Ram) (a o n : ℕ)
    → Agree ram ram0 a
    → (o + n ≤ 4) ⊎ (6 ≤ o)
    → o + n ≤ 4096
    → load ram (a + o) n ≡ load ram0 (a + o) n
load-Agree ram ram0 a o n h s l =
    load_ext ram ram0 (a + o) n λ b p q.
      let e : a + (b - a) ≡ b = omega arith in rw⁻¹ e (h (b - a) (omega arith) (omega arith))

record Same (ram ram0 : Ram) (a : ℕ) : Type 0 where
  e1000 : is_e1000 ram a ≡ is_e1000 ram0 a
  nvme : is_nvme ram a ≡ is_nvme ram0 a
  hda : is_hda ram a ≡ is_hda ram0 a
  xhci : is_xhci ram a ≡ is_xhci ram0 a
  low : bar_low ram a ≡ bar_low ram0 a
  address : bar_address ram a ≡ bar_address ram0 a

Agree-Same : (ram ram0 : Ram) (a : ℕ) → Agree ram ram0 a → Same ram ram0 a
unfolding bar_low bar_address
Agree-Same ram ram0 a h =
    let start : load ram a 2 ≡ load ram0 a 2 =
      let e : a + 0 ≡ a = omega arith in
      rw⁻¹ e (load-Agree ram ram0 a 0 2 h (omega arith) (omega arith)) in
    let class = h 0x0B (omega arith) (omega arith) in
    let sub = h 0x0A (omega arith) (omega arith) in
    let prog = h 0x09 (omega arith) (omega arith) in
    let bar0 = load-Agree ram ram0 a 0x10 4 h (omega arith) (omega arith) in
    let bar1 = load-Agree ram ram0 a 0x14 4 h (omega arith) (omega arith) in
    record {
      e1000 = rw (start, class, sub) refl;
      nvme = rw (start, class, sub) refl;
      hda = rw (start, class, sub) refl;
      xhci = rw (start, class, sub, prog) refl;
      low = rw bar0 refl;
      address = rw (bar0, bar1) refl;
    }

bit_or_six : (x : ℕ) → x < 2 ^ 16 → bit_or x (2 + 4) < 2 ^ 16
bit_or_six x h = omega (
  arith,
  bit_or_step x 6,
  bit_or_step (x / 2) 3,
  bit_or_step (x / 2 / 2) 1,
  bit_or_zero (x / 2 / 2 / 2),
)

abbrev pub command_after : Ram → ℕ → Bool → ℕ
command_after ram a matches =
    if matches then bit_or (load16 ram (a + 4)) (2 + 4) else load16 ram (a + 4)

-- After `k` functions of a segment at `base`: the memory `ram0` is as before but for the command
-- registers of the masters among them, and the last device of each kind is noted.
pub record Scanned (ram0 : Ram) (base k : ℕ) (s : Scan) : Type 0 where
  pub agree : (i : ℕ) → Agree s.ram ram0 (function_at base i)
  pub command :
      (i : ℕ)
      → load16 s.ram (function_at base i + 4)
        ≡ command_after ram0 (function_at base i) (ltb i k && is_master ram0 (function_at base i))
  pub e1000 :
      Last
        (λ i. is_e1000 ram0 (function_at base i))
        (λ i. bar_low ram0 (function_at base i))
        k
        s.devices.e1000_bar0
  pub nvme :
      Last
        (λ i. is_nvme ram0 (function_at base i))
        (λ i. bar_address ram0 (function_at base i))
        k
        (found s.devices.nvme_found s.devices.nvme_bar0)
  pub hda :
      Last
        (λ i. is_hda ram0 (function_at base i))
        (λ i. bar_address ram0 (function_at base i))
        k
        (found s.devices.hda_found s.devices.hda_bar0)
  pub xhci :
      Last
        (λ i. is_xhci ram0 (function_at base i))
        (λ i. bar_low ram0 (function_at base i))
        k
        (found s.devices.xhci_found s.devices.xhci_bar0)

enable-Agree :
    (ram ram0 : Ram) (base i k : ℕ)
    → Agree ram ram0 (function_at base i)
    → Agree (enable ram (function_at base k)) ram0 (function_at base i)
unfolding enable
enable-Agree ram ram0 base i k h o l s =
    store-outside ram (function_at base k + 4) (le_bytes 2 _) (function_at base i + o)
      (omega (arith, length-le_bytes 2 (bit_or (load16 ram (function_at base k + 4)) (2 + 4))))
    ∙ h o l s

enable_self :
    (ram : Ram) (a : ℕ)
    → load16 ram (a + 4) < 2 ^ 16
    → load16 (enable ram a) (a + 4) ≡ bit_or (load16 ram (a + 4)) (2 + 4)
unfolding enable
enable_self ram a h =
    let v = bit_or (load16 ram (a + 4)) (2 + 4) in
    ap from_le (
      ap (load (store ram (a + 4) (le_bytes 2 v)) (a + 4)) (sym (length-le_bytes 2 v))
      ∙ load-store_self ram (a + 4) (le_bytes 2 v))
    ∙ from_le-le_bytes 2 v (omega (arith, bit_or_six (load16 ram (a + 4)) h))

enable_other :
    (ram : Ram) (base i k : ℕ)
    → i ≢ k
    → load16 (enable ram (function_at base k)) (function_at base i + 4)
      ≡ load16 ram (function_at base i + 4)
unfolding enable
enable_other ram base i k h = ap from_le (
    load-store-Apart ram (function_at base k + 4) (le_bytes 2 _) (function_at base i + 4) 2
      (omega (arith, h, length-le_bytes 2 (bit_or (load16 ram (function_at base k + 4)) (2 + 4)))))

command-suc :
    (ram ram0 : Ram) (base k : ℕ)
    → IsBytes ram0
    → ((i : ℕ)
        → load16 ram (function_at base i + 4)
          ≡ command_after ram0
              (function_at base i)
              (ltb i k && is_master ram0 (function_at base i)))
    → (i : ℕ)
    → load16
        (if is_master ram0 (function_at base k) then enable ram (function_at base k) else ram)
        (function_at base i + 4)
      ≡ command_after ram0
          (function_at base i)
          (ltb i (k + 1) && is_master ram0 (function_at base i))
command-suc ram ram0 base k v h i = elim (Bool-cases (i == k)) [
  | inl same ↦
      let s : i ≡ k = ground arith in rw s (here (is_master ram0 (function_at base k)) refl)
  | inr differs ↦
      let n : i ≢ k = λ e. ==→ne i k differs e in
      let same : ltb i k ≡ ltb i (k + 1) = ground (arith, n) in
      if_intro (λ m. load16 m (function_at base i + 4) ≡ load16 ram (function_at base i + 4))
        (is_master ram0 (function_at base k)) (λ _. enable_other ram base i k n) (λ _. refl)
      ∙ h i
      ∙ ap (λ b. command_after ram0 (function_at base i) (b && is_master ram0 (function_at base i)))
          same
]
  where
    untouched : load16 ram (function_at base k + 4) ≡ load16 ram0 (function_at base k + 4)
    untouched =
        h k
        ∙ ap
            (λ b.
              command_after ram0 (function_at base k) (b && is_master ram0 (function_at base k)))
            (le→ltb k k (omega arith))

    here :
        (b : Bool)
        → is_master ram0 (function_at base k) ≡ b
        → load16 (if b then enable ram (function_at base k) else ram) (function_at base k + 4)
          ≡ command_after ram0 (function_at base k) (ltb k (k + 1) && b)
    here true e =
        enable_self ram (function_at base k)
          (rw untouched (from_le-load-lt ram0 (function_at base k + 4) 2 v))
        ∙ ap (λ c. bit_or c (2 + 4)) untouched
        ∙ ap (λ b. command_after ram0 (function_at base k) (b && true))
            (sym (lt→ltb k (k + 1) (omega arith)))
    here false e =
        untouched
        ∙ ap (λ b. command_after ram0 (function_at base k) (b && false))
            (sym (lt→ltb k (k + 1) (omega arith)))

scan_function-Scanned :
    (ram0 : Ram) (base k : ℕ) (s : Scan)
    → IsBytes ram0
    → Scanned ram0 base k s
    → Scanned ram0 base (k + 1) (scan_function (function_at base k) s)
scan_function-Scanned ram0 base k s v h =
    let a = function_at base k in
    let n = scan_function-Noted a s in
    let same = Agree-Same s.ram ram0 a (h.agree k) in
    let master : is_master s.ram a ≡ is_master ram0 a = rw (same.e1000, same.nvme, same.hda) refl in
    let memory = n.memory ∙ ap (λ b. if b then enable s.ram a else s.ram) master in
    record {
      agree = λ i. rw memory (
          if_intro (λ m. Agree m ram0 (function_at base i)) (is_master ram0 a)
            (λ _. enable-Agree s.ram ram0 base i k (h.agree i)) λ _. h.agree i);
      command = λ i. rw memory (command-suc s.ram ram0 base k v h.command i);
      e1000 = rw (n.e1000, same.e1000, same.low) (Last-suc _ _ k h.e1000);
      nvme = rw (n.nvme, same.nvme, same.address) (Last-suc _ _ k h.nvme);
      hda = rw (n.hda, same.hda, same.address) (Last-suc _ _ k h.hda);
      xhci = rw (n.xhci, same.xhci, same.low) (Last-suc _ _ k h.xhci);
    }

start-Scanned :
    (ram0 : Ram) (base : ℕ) → Scanned ram0 base 0 (record { ram = ram0; devices = no_devices })
unfolding no_devices
start-Scanned ram0 base = record {
  agree = λ i o l s. refl;
  command = λ i. let e = le→ltb i 0 (omega arith) in rw e refl;
  e1000 = none_yet λ i l. absurd (omega arith);
  nvme = none_yet λ i l. absurd (omega arith);
  hda = none_yet λ i l. absurd (omega arith);
  xhci = none_yet λ i l. absurd (omega arith);
}

-- The scan finds the last device of each kind by the class and vendor registers as they were before,
-- and changes no register but the command registers of present network, disk and audio devices, where
-- it sets the bits for memory access and bus mastering.
pub scan_all-Scanned :
    (ram0 : Ram) (base : ℕ)
    → IsBytes ram0
    → Scanned ram0 base 65536 (scan_all base (record { ram = ram0; devices = no_devices }))
scan_all-Scanned ram0 base v =
    scan_all_inv base (Scanned ram0 base) (λ k s. scan_function-Scanned ram0 base k s v) _
      (start-Scanned ram0 base)
