-- ===== src/Ram.antt =====
-- Physical memory as bytes at addresses, for the raw pointer reads and writes of the kernel, and
-- little-endian words in it.
pub mod Writes
use qore_os.Base.{
  ℕ, zero, suc, ◌+◌, ◌*◌, ◌/◌, ◌%◌, ◌^◌, ◌≤◌, ◌<◌, ◌≡◌, refl, ap, ap₂, ◌∙◌, ◌⊎◌, List, [], ◌∷◌,
  Bool, true, ◌&&◌, ltb, ◌==◌, if◌then◌else◌, arith, length, pow-suc, get_or,
}

abbrev pub Ram : Type 0
Ram = ℕ → ℕ

-- The bytes `bs` written from address `p` on.
unfoldable pub store : Ram → ℕ → List ℕ → Ram
store m p [] a = m a
store m p (b ∷ bs) a = if a == p then b else store m (p + 1) bs a

-- `n` bytes read from address `p` on.
unfoldable pub load : Ram → ℕ → ℕ → List ℕ
load m p zero = []
load m p (suc n) = m p ∷ load m (p + 1) n

unfoldable pub from_le : List ℕ → ℕ
from_le [] = 0
from_le (b ∷ bs) = b + 256 * from_le bs

unfoldable pub le_bytes : ℕ → ℕ → List ℕ
le_bytes zero v = []
le_bytes (suc n) v = v % 256 ∷ le_bytes n (v / 256)

abbrev pub load64 : Ram → ℕ → ℕ
load64 m p = from_le (load m p 8)

abbrev pub store64 : Ram → ℕ → ℕ → Ram
store64 m p v = store m p (le_bytes 8 v)

-- Two ranges of addresses that share none.
abbrev pub Apart : ℕ → ℕ → ℕ → ℕ → Type 0
Apart p n q k = (p + n ≤ q) ⊎ (q + k ≤ p)

pub length-load : (m : Ram) (p n : ℕ) → length (load m p n) ≡ n
unfolding load
length-load m p zero = refl
length-load m p (suc n) = ap suc (length-load m (p + 1) n)

-- The byte at an index of a range that was read.
pub get_or-load : (m : Ram) (p n k : ℕ) → k < n → get_or (load m p n) k 0 ≡ m (p + k)
unfolding load
get_or-load m p zero k h = absurd (omega arith)
get_or-load m p (suc n) zero h = ap m (omega arith)
get_or-load m p (suc n) (suc k) h = get_or-load m (p + 1) n k (omega arith) ∙ ap m (omega arith)

pub length-le_bytes : (n v : ℕ) → length (le_bytes n v) ≡ n
unfolding le_bytes
length-le_bytes zero v = refl
length-le_bytes (suc n) v = ap suc (length-le_bytes n (v / 256))

pub load_ext :
    (m k : Ram) (p n : ℕ) → ((a : ℕ) → p ≤ a → a < p + n → m a ≡ k a) → load m p n ≡ load k p n
unfolding load
load_ext m k p zero h = refl
load_ext m k p (suc n) h =
    ap₂ ◌∷◌ (h p (omega arith) (omega arith))
      (load_ext m k (p + 1) n λ a l r. h a (omega arith) (omega arith))

-- A write changes no byte outside its range.
pub store-outside :
    (m : Ram) (p : ℕ) (bs : List ℕ) (a : ℕ) → (a < p) ⊎ (p + length bs ≤ a) → store m p bs a ≡ m a
unfolding store
store-outside m p [] a h = refl
store-outside m p (b ∷ bs) a h = ground (arith, store-outside m (p + 1) bs a)

pub load-store-Apart :
    (m : Ram) (p : ℕ) (bs : List ℕ) (q n : ℕ)
    → Apart p (length bs) q n
    → load (store m p bs) q n ≡ load m q n
load-store-Apart m p bs q n h =
    load_ext (store m p bs) m q n λ a l r. store-outside m p bs a (omega arith)

-- A read of the range just written gives what was written.
pub load-store_self : (m : Ram) (p : ℕ) (bs : List ℕ) → load (store m p bs) p (length bs) ≡ bs
unfolding load store
load-store_self m p [] = refl
load-store_self m p (b ∷ bs) = ap₂ ◌∷◌ (ground arith) (
    load_ext (store m p (b ∷ bs)) (store m (p + 1) bs) (p + 1) (length bs) (λ a l r. ground arith)
    ∙ load-store_self m (p + 1) bs)

pub from_le-le_bytes : (n v : ℕ) → v < 256 ^ n → from_le (le_bytes n v) ≡ v
unfolding from_le le_bytes
from_le-le_bytes zero v h = omega arith
from_le-le_bytes (suc n) v h =
    omega (arith, from_le-le_bytes n (v / 256) (omega (arith, pow-suc 256 n)))

pub load64-store64 : (m : Ram) (p v : ℕ) → v < 2 ^ 64 → load64 (store64 m p v) p ≡ v
unfolding le_bytes
load64-store64 m p v h =
    ap from_le (load-store_self m p (le_bytes 8 v)) ∙ from_le-le_bytes 8 v (omega arith)

pub load64-store64-Apart :
    (m : Ram) (p q v : ℕ) → Apart p 8 q 8 → load64 (store64 m p v) q ≡ load64 m q
load64-store64-Apart m p q v h =
    ap from_le (load-store-Apart m p (le_bytes 8 v) q 8 (omega (arith, length-le_bytes 8 v)))

-- Each address holds a byte.
abbrev pub IsBytes : Ram → Type 0
IsBytes m = (a : ℕ) → m a < 256

abbrev pub AllBytes : List ℕ → Type 0
AllBytes [] = Unit {0}
AllBytes (b ∷ bs) = (b < 256) × AllBytes bs

pub le_bytes-AllBytes : (n v : ℕ) → AllBytes (le_bytes n v)
unfolding le_bytes
le_bytes-AllBytes zero v = tt
le_bytes-AllBytes (suc n) v = (omega arith, le_bytes-AllBytes n (v / 256))

pub store-IsBytes :
    (m : Ram) (p : ℕ) (bs : List ℕ) → IsBytes m → AllBytes bs → IsBytes (store m p bs)
unfolding store
store-IsBytes m p [] hm hb a = hm a
store-IsBytes m p (b ∷ bs) hm hb a = ground (arith, store-IsBytes m (p + 1) bs hm hb.1 a)

pub from_le-load-lt : (m : Ram) (p n : ℕ) → IsBytes m → from_le (load m p n) < 256 ^ n
unfolding from_le load
from_le-load-lt m p zero h = omega arith
from_le-load-lt m p (suc n) h = omega (arith, h p, from_le-load-lt m (p + 1) n h, pow-suc 256 n)

pub load64-lt : (m : Ram) (p : ℕ) → IsBytes m → load64 m p < 2 ^ 64
load64-lt m p h = omega (arith, from_le-load-lt m p 8 h)

-- A test of `AllBytes`.
unfoldable pub all_bytes : List ℕ → Bool
all_bytes [] = true
all_bytes (b ∷ bs) = ltb b 256 && all_bytes bs

pub all_bytes→AllBytes : (bs : List ℕ) → all_bytes bs ≡ true → AllBytes bs
unfolding all_bytes
all_bytes→AllBytes [] h = tt
all_bytes→AllBytes (b ∷ bs) h = ground (arith, all_bytes→AllBytes bs)
