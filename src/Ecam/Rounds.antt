-- ===== src/Ecam/Rounds.antt =====
-- What the three loops of the scan in src/main.rs keep.
use native.Mathlib.Nat.{add-mul}
use qore_os.Base.{ℕ, zero, suc, ◌+◌, ◌*◌, ◌^◌, ◌≡◌, arith}
use qore_os.Compositor.{for_range}
use qore_os.Ecam.{Scan, scan_function, scan_all}
use qore_os.Ecam.Found.{function_at}

-- A loop whose rounds lead from `P i` to `P (i + step)`.
for_range_inv :
    {S : Type 0} (P : ℕ → S → Type 0) (step : ℕ) (body : ℕ → S → S) (start : ℕ)
    → ((i : ℕ) (s : S) → P (start + i * step) s → P (start + i * step + step) (body i s))
    → (n i : ℕ) (s : S) → P (start + i * step) s
    → P (start + (i + n) * step) (for_range body n i s)
unfolding for_range
for_range_inv P step body start keep zero i s h = let e : i + 0 ≡ i = omega arith in rw e h
for_range_inv P step body start keep (suc n) i s h =
    let e : start + i * step + step ≡ start + (i + 1) * step =
      rw (add-mul i 1 step) (omega arith) in
    let f : i + suc n ≡ i + 1 + n = omega arith in
    rw f (for_range_inv P step body start keep n (i + 1) (body i s) (rw⁻¹ e (keep i s h)))

-- What each function of the scan keeps holds at its end, with the number of the functions seen.
pub scan_all_inv :
    (base : ℕ) (P : ℕ → Scan → Type 0)
    → ((k : ℕ) (s : Scan) → P k s → P (k + 1) (scan_function (function_at base k) s))
    → (s : Scan) → P 0 s
    → P 65536 (scan_all base s)
unfolding scan_all
scan_all_inv base P keep s0 h0 =
    for_range_inv P 256 _ 0
      (λ bus s h.
        for_range_inv P 8 _ (0 + bus * 256)
          (λ device s h.
            for_range_inv P 1 _ (0 + bus * 256 + device * 8)
              (λ function s h. at bus device function s h) 8 0 s (again h))
          32 0 s (again h))
      256 0 s0 h0
  where
    again : {k : ℕ} {s : Scan} → P k s → P (k + 0) s
    again {k} h = let e : k + 0 ≡ k = omega arith in rw e h

    at :
        (bus device function : ℕ) (s : Scan)
        → P (0 + bus * 256 + device * 8 + function * 1) s
        → P
            (0 + bus * 256 + device * 8 + function * 1 + 1)
            (scan_function (base + bus * 2 ^ 20 + device * 2 ^ 15 + function * 2 ^ 12) s)
    at bus device function s h =
        let k = 0 + bus * 256 + device * 8 + function * 1 in
        let e : base + bus * 2 ^ 20 + device * 2 ^ 15 + function * 2 ^ 12 ≡ function_at base k =
          omega arith in
        rw e (keep k s h)
