-- ===== src/Base/Bits.antt =====
-- Bits of a number: `&`, `|` and `^` bit by bit at every width, and masks as arithmetic.
use Prim.Native.Nat.{
  ℕ, zero, suc, ◌+◌, ◌-◌, ◌*◌, ◌/◌, ◌%◌, ◌^◌, ◌≤◌, ◌<◌, min, max, digits, bitwise, bit_and, bit_or,
  bit_and-bitwise, bit_or-bitwise,
}
use mathlib.Core.Path.{◌≡◌, refl, ap, ◌∙◌}
use mathlib.Core.Bool.{Bool, false, not, ◌&&◌, ◌||◌}
use native.Mathlib.Nat.{
  pow-suc, one-le-pow, mod-lt, mul-add-mod_self_left, mod-eq_of_lt, mul-add-div, div-eq_of_lt,
  div-add-mod,
}
use native.Mathlib.Omega.{arith}
use qore_os.Base.Tests.{◌==◌, if◌then◌else◌}

-- The native operations stand for a recursion on digits with fuel; any fuel from `a` on will do.
module _ (rest : ℕ → ℕ) (digit : ℕ → ℕ → ℕ) where
  fuel_irrelevant :
      (f g x y : ℕ) → x ≤ f → x ≤ g → digits rest digit f x y ≡ digits rest digit g x y
  fuel_irrelevant zero zero x y p q = refl
  fuel_irrelevant zero (suc g) zero y p q = refl
  fuel_irrelevant zero (suc g) (suc x) y p q = absurd (omega arith)
  fuel_irrelevant (suc f) zero zero y p q = refl
  fuel_irrelevant (suc f) zero (suc x) y p q = absurd (omega arith)
  fuel_irrelevant (suc f) (suc g) zero y p q = refl
  fuel_irrelevant (suc f) (suc g) (suc x) y p q =
      rw (fuel_irrelevant f g (suc x / 2) (y / 2) (omega arith) (omega arith))

  lowest_digit :
      (x y : ℕ)
      → bitwise rest digit (suc x) y
        ≡ bitwise rest digit (suc x / 2) (y / 2) * 2 + digit (suc x % 2) (y % 2)
  lowest_digit x y =
      omega (arith, fuel_irrelevant x (suc x / 2) (suc x / 2) (y / 2) (omega arith) (omega arith))

pub bit_and_step : (x y : ℕ) → bit_and x y ≡ 2 * bit_and (x / 2) (y / 2) + min (x % 2) (y % 2)
bit_and_step (suc n) y =
    let low = lowest_digit (λ y. 0) min n y in simp bit_and-bitwise (low ∙ omega arith)
bit_and_step zero y = simp bit_and-bitwise (omega arith)

pub bit_or_step : (x y : ℕ) → bit_or x y ≡ 2 * bit_or (x / 2) (y / 2) + max (x % 2) (y % 2)
bit_or_step (suc n) y =
    let low = lowest_digit (λ y. y) max n y in simp bit_or-bitwise (low ∙ omega arith)
bit_or_step zero y = simp bit_or-bitwise (omega arith)

-- Bit `i` of `x`, the test `x & (1 << i) != 0`.
unfoldable pub test_bit : ℕ → ℕ → Bool
test_bit zero x = x % 2 == 1
test_bit (suc i) x = test_bit i (x / 2)

pub test_bit-bit_and : (i a b : ℕ) → test_bit i (bit_and a b) ≡ (test_bit i a && test_bit i b)
unfolding test_bit
test_bit-bit_and zero a b = ground (arith, bit_and_step a b)
test_bit-bit_and (suc i) a b =
    let half : bit_and a b / 2 ≡ bit_and (a / 2) (b / 2) = omega (arith, bit_and_step a b) in
    rw half (test_bit-bit_and i (a / 2) (b / 2))

pub test_bit-bit_or : (i a b : ℕ) → test_bit i (bit_or a b) ≡ (test_bit i a || test_bit i b)
unfolding test_bit
test_bit-bit_or zero a b = ground (arith, bit_or_step a b)
test_bit-bit_or (suc i) a b =
    let half : bit_or a b / 2 ≡ bit_or (a / 2) (b / 2) = omega (arith, bit_or_step a b) in
    rw half (test_bit-bit_or i (a / 2) (b / 2))

pub test_bit-zero : (i : ℕ) → test_bit i 0 ≡ false
unfolding test_bit
test_bit-zero zero = refl
test_bit-zero (suc i) = test_bit-zero i

half-pow-suc : (k : ℕ) → 2 ^ suc k / 2 ≡ 2 ^ k
half-pow-suc k = omega (arith, pow-suc 2 k)

pub test_bit-pow : (i k : ℕ) → test_bit i (2 ^ k) ≡ (i == k)
unfolding test_bit
test_bit-pow zero zero = refl
test_bit-pow zero (suc k) = ground (arith, pow-suc 2 k)
test_bit-pow (suc i) zero = test_bit-zero i ∙ ground arith
test_bit-pow (suc i) (suc k) = rw (half-pow-suc k) (test_bit-pow i k ∙ ground arith)

pub two-pow-lt : (k w : ℕ) → k < w → 2 ^ k < 2 ^ w
two-pow-lt zero zero h = absurd (omega arith)
two-pow-lt (suc k) zero h = absurd (omega arith)
two-pow-lt zero (suc w) h = omega (arith, pow-suc 2 w, one-le-pow w 2)
two-pow-lt (suc k) (suc w) h = omega (arith, pow-suc 2 w, pow-suc 2 k, two-pow-lt k w (omega arith))

-- `!x` in a word of `w` bits.
pub test_bit_complement :
    (w i x : ℕ) → x < 2 ^ w → i < w → test_bit i (2 ^ w - 1 - x) ≡ not (test_bit i x)
unfolding test_bit
test_bit_complement zero i x hx hi = absurd (omega arith)
test_bit_complement (suc w) zero x hx hi = ground (arith, pow-suc 2 w)
test_bit_complement (suc w) (suc i) x hx hi =
    let half : (2 ^ suc w - 1 - x) / 2 ≡ 2 ^ w - 1 - x / 2 = omega (arith, pow-suc 2 w) in
    rw half (test_bit_complement w i (x / 2) (omega (arith, pow-suc 2 w)) (omega arith))

pub test_bit_lt : (w i x : ℕ) → x < 2 ^ w → w ≤ i → test_bit i x ≡ false
unfolding test_bit
test_bit_lt zero i x hx hi = let e : x ≡ 0 = omega arith in rw e (test_bit-zero i)
test_bit_lt (suc w) zero x hx hi = absurd (omega arith)
test_bit_lt (suc w) (suc i) x hx hi =
    test_bit_lt w i (x / 2) (omega (arith, pow-suc 2 w)) (omega arith)

bit_and-zero : (k a : ℕ) → a < 2 ^ k → bit_and a 0 ≡ 0
bit_and-zero zero a h = let e : a ≡ 0 = omega arith in rw e
bit_and-zero (suc k) a h =
    omega (arith, bit_and_step a 0, bit_and-zero k (a / 2) (omega (arith, pow-suc 2 k)))

lt-two-pow : (n : ℕ) → n < 2 ^ n
lt-two-pow zero = omega arith
lt-two-pow (suc n) = omega (arith, pow-suc 2 n, lt-two-pow n)

pub bit_and_zero : (a : ℕ) → bit_and a 0 ≡ 0
bit_and_zero a = bit_and-zero a a (lt-two-pow a)

bit_or-zero : (k a : ℕ) → a < 2 ^ k → bit_or a 0 ≡ a
bit_or-zero zero a h = let e : a ≡ 0 = omega arith in rw e
bit_or-zero (suc k) a h =
    omega (arith, bit_or_step a 0, bit_or-zero k (a / 2) (omega (arith, pow-suc 2 k)))

pub bit_or_zero : (a : ℕ) → bit_or a 0 ≡ a
bit_or_zero a = bit_or-zero a a (lt-two-pow a)

-- `x & (1 << k)` is the bit or nothing.
pub bit_and-pow : (k x : ℕ) → bit_and x (2 ^ k) ≡ (if test_bit k x then 2 ^ k else 0)
unfolding test_bit
bit_and-pow zero x = ground (arith, bit_and_step x 1, bit_and_zero (x / 2))
bit_and-pow (suc k) x =
    ground (arith, bit_and_step x (2 ^ suc k), half-pow-suc k, pow-suc 2 k, bit_and-pow k (x / 2))

mod_unique : (d q r : ℕ) → r < d → (d * q + r) % d ≡ r
mod_unique d q r h = mul-add-mod_self_left d q r ∙ mod-eq_of_lt h

div_unique : (d q r : ℕ) → r < d → (d * q + r) / d ≡ q
div_unique d q r h = mul-add-div (omega arith) q r ∙ omega (arith, div-eq_of_lt h)

mod-div_suc :
    (k x : ℕ) → (x % 2 ^ suc k ≡ x / 2 % 2 ^ k * 2 + x % 2) × (x / 2 ^ suc k ≡ x / 2 / 2 ^ k)
mod-div_suc k x =
    let q = x / 2 / 2 ^ k in
    let r = x / 2 % 2 ^ k * 2 + x % 2 in
    let small : r < 2 ^ suc k =
      omega (arith, pow-suc 2 k, mod-lt (x / 2) (one-le-pow k 2 (omega arith))) in
    let split : 2 ^ suc k * q + r ≡ x =
      omega (arith, div-add-mod (x / 2) (2 ^ k), ap (λ (t : ℕ). t * q) (pow-suc 2 k)) in
    (
      rw (← split) (mod_unique (2 ^ suc k) q r small ∙ rw split refl),
      rw (← split) (div_unique (2 ^ suc k) q r small ∙ rw split refl),
    )

-- `x & mask` for a mask of `k` low bits is the remainder.
pub bit_and_low : (k x : ℕ) → bit_and x (2 ^ k - 1) ≡ x % 2 ^ k
bit_and_low zero x = omega (arith, bit_and_zero x)
bit_and_low (suc k) x =
    let half : (2 ^ suc k - 1) / 2 ≡ 2 ^ k - 1 = omega (arith, pow-suc 2 k, one-le-pow k 2) in
    let odd : (2 ^ suc k - 1) % 2 ≡ 1 = omega (arith, pow-suc 2 k, one-le-pow k 2) in
    bit_and_step x (2 ^ suc k - 1)
    ∙ rw (half, odd, bit_and_low k (x / 2)) (omega (arith, (mod-div_suc k x).0))

double : (m k : ℕ) → m * 2 ^ suc k ≡ 2 * (m * 2 ^ k)
double m k =
    let power : m * 2 ^ suc k ≡ m * (2 ^ k * 2) = ap (λ (p : ℕ). m * p) (pow-suc 2 k) in
    omega (arith, power)

-- A mask shifted up masks the shifted value.
pub bit_and_high : (k x m : ℕ) → bit_and x (m * 2 ^ k) ≡ bit_and (x / 2 ^ k) m * 2 ^ k
bit_and_high zero x m =
    let e : m * 2 ^ 0 ≡ m = omega arith in
    let f : x / 2 ^ 0 ≡ x = omega arith in rw (e, f) (omega arith)
bit_and_high (suc k) x m =
    let half : m * 2 ^ suc k / 2 ≡ m * 2 ^ k = omega (arith, double m k) in
    let even : m * 2 ^ suc k % 2 ≡ 0 = omega (arith, double m k) in
    bit_and_step x (m * 2 ^ suc k)
    ∙ rw (half, even, bit_and_high k (x / 2) m, (mod-div_suc k x).1)
        (omega (arith, double (bit_and (x / 2 / 2 ^ k) m) k))

-- `(q << k) | r` is a sum where `r` fits below.
pub bit_or_low : (k q r : ℕ) → r < 2 ^ k → bit_or (q * 2 ^ k) r ≡ q * 2 ^ k + r
bit_or_low zero q r h =
    let e : q * 2 ^ 0 ≡ q = omega arith in
    let f : r ≡ 0 = omega arith in rw (e, f) (omega (arith, bit_or_zero q))
bit_or_low (suc k) q r h =
    let half : q * 2 ^ suc k / 2 ≡ q * 2 ^ k = omega (arith, double q k) in
    let even : q * 2 ^ suc k % 2 ≡ 0 = omega (arith, double q k) in
    bit_or_step (q * 2 ^ suc k) r
    ∙ rw (half, even, bit_or_low k q (r / 2) (omega (arith, pow-suc 2 k)))
        (omega (arith, double q k))
