-- ===== src/Ecam/Outside.antt =====
-- The scan of src/main.rs writes to no memory outside the configuration space.
use qore_os.Base.{ℕ, ◌+◌, ◌^◌, ◌<◌, ◌≤◌, ◌≡◌, refl, ◌∙◌, ◌⊎◌, arith, if_intro, bit_or, ◌==◌, not}
use qore_os.Ram.{Ram, load, from_le, le_bytes, length-le_bytes, store-outside}
use qore_os.Ecam.{Scan, no_devices, load16, enable, scan_function, scan_ecam}
use qore_os.Ecam.Found.{is_master, scan_function-Noted, function_at}
use qore_os.Ecam.Rounds.{scan_all_inv}

-- The start of the configuration space, by the MCFG table.
abbrev pub ecam_base : Ram → ℕ → ℕ
ecam_base ram mcfg_address = from_le (load ram (mcfg_address + 44) 8)

-- `b` lies outside the 256 MiB of the configuration space at `base`.
abbrev pub OutsideEcam : ℕ → ℕ → Type 0
OutsideEcam base b = (b < base) ⊎ (base + 2 ^ 28 ≤ b)

enable-outside : (ram : Ram) (a b : ℕ) → (b < a) ⊎ (a + 4096 ≤ b) → enable ram a b ≡ ram b
unfolding enable
enable-outside ram a b h =
    store-outside ram (a + 4) (le_bytes 2 _) b
      (omega (arith, length-le_bytes 2 (bit_or (load16 ram (a + 4)) (2 + 4))))

scan_function-outside :
    (a : ℕ) (s : Scan) (b : ℕ) → (b < a) ⊎ (a + 4096 ≤ b) → (scan_function a s).ram b ≡ s.ram b
scan_function-outside a s b h =
    let n = scan_function-Noted a s in
    rw n.memory (
      if_intro (λ (m : Ram). m b ≡ s.ram b) (is_master s.ram a) (λ _. enable-outside s.ram a b h)
        λ _. refl)

pub scan_ecam-outside :
    (ram : Ram) (mcfg_address b : ℕ)
    → OutsideEcam (ecam_base ram mcfg_address) b
    → (scan_ecam ram mcfg_address).ram b ≡ ram b
unfolding scan_ecam
scan_ecam-outside ram mcfg_address b h =
    let base = ecam_base ram mcfg_address in
    let P : ℕ → Scan → Type 0 = λ k s. (k ≤ 65536) → s.ram b ≡ ram b in
    let whole =
      scan_all_inv base P
        (λ k s e l. scan_function-outside (function_at base k) s b (omega arith) ∙ e (omega arith))
        (record { ram = ram; devices = no_devices }) (λ _. refl) (omega arith) in
    if_intro (λ (s : Scan). s.ram b ≡ ram b) (not (mcfg_address == 0)) (λ _. whole) λ _. refl
