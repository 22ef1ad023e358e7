-- ===== src/Net/Checksum/Put.antt =====
-- A 16-bit field stored in a frame, and how it changes the plain sums.
use qore_os.Base.{
  ℕ, zero, suc, ◌+◌, ◌*◌, ◌/◌, ◌%◌, ◌≤◌, ◌<◌, ◌≡◌, ◌≢◌, ◌∙◌, ◌⊎◌, ◌==◌, List, arith, inl, inr,
  Bool-cases, length, get_or, set, length-set, get_or-set_self, get_or-set_ne, ==→eq, ==→ne,
}
use qore_os.Net.{put16}
use qore_os.Net.Receiver.{plain, pair, plain_ext, IsFrame}

pub length-put16 : (f : List ℕ) (k v : ℕ) → length (put16 f k v) ≡ length f
length-put16 f k v =
    length-set (set f k (v / 256 % 256)) (k + 1) (v % 256) ∙ length-set f k (v / 256 % 256)

pub get_or-put16_ne :
    (f : List ℕ) (k v j : ℕ) → j ≢ k → j ≢ k + 1 → get_or (put16 f k v) j 0 ≡ get_or f j 0
get_or-put16_ne f k v j p q =
    get_or-set_ne (set f k (v / 256 % 256)) (k + 1) j (v % 256) 0 (omega arith)
    ∙ get_or-set_ne f k j (v / 256 % 256) 0 (omega arith)

put16_first : (f : List ℕ) (k v : ℕ) → k + 1 < length f → get_or (put16 f k v) k 0 ≡ v / 256 % 256
put16_first f k v h =
    get_or-set_ne (set f k (v / 256 % 256)) (k + 1) k (v % 256) 0 (omega arith)
    ∙ get_or-set_self f k (v / 256 % 256) 0 (omega arith)

put16_second : (f : List ℕ) (k v : ℕ) → k + 1 < length f → get_or (put16 f k v) (k + 1) 0 ≡ v % 256
put16_second f k v h =
    get_or-set_self (set f k (v / 256 % 256)) (k + 1) (v % 256) 0
      (omega (arith, length-set f k (v / 256 % 256)))

pub pair-put16 : (f : List ℕ) (k v : ℕ) → k + 1 < length f → v < 65536 → pair (put16 f k v) k ≡ v
pair-put16 f k v h small = omega (arith, put16_first f k v h, put16_second f k v h)

pub put16-IsFrame : (f : List ℕ) (k v : ℕ) → k + 1 < length f → IsFrame f → IsFrame (put16 f k v)
put16-IsFrame f k v h b j = elim (Bool-cases (j == k)) [
  | inl e ↦ rw (==→eq j k e) (omega (arith, put16_first f k v h))
  | inr n ↦ elim (Bool-cases (j == k + 1)) [
    | inl e ↦ rw (==→eq j (k + 1) e) (omega (arith, put16_second f k v h))
    | inr o ↦ rw (get_or-put16_ne f k v j (==→ne j k n) (==→ne j (k + 1) o)) (b j)
  ]
]

-- A field outside the words that are summed does not count.
pub plain-put16_out :
    (f : List ℕ) (k v n i : ℕ)
    → (k + 2 ≤ i) ⊎ (i + 2 * n ≤ k)
    → plain (put16 f k v) n i ≡ plain f n i
plain-put16_out f k v n i h =
    plain_ext (put16 f k v) f n i i λ j l. get_or-put16_ne f k v (i + j) (omega arith) (omega arith)

-- A field that is one of the words, the `a`-th, counts instead of what stood there.
pub plain-put16 :
    (f : List ℕ) (k v n i a : ℕ)
    → k ≡ i + 2 * a
    → a < n
    → k + 1 < length f
    → v < 65536
    → plain (put16 f k v) n i + pair f k ≡ plain f n i + v
unfolding plain
plain-put16 f k v zero i a e h room small = absurd (omega arith)
plain-put16 f k v (suc n) i zero e h room small =
    let at : i ≡ k = omega arith in
    rw at (
      omega
        (arith, pair-put16 f k v room small, plain-put16_out f k v n (k + 2) (inl (omega arith))))
plain-put16 f k v (suc n) i (suc a) e h room small = omega (
  arith,
  get_or-put16_ne f k v i (omega arith) (omega arith),
  get_or-put16_ne f k v (i + 1) (omega arith) (omega arith),
  plain-put16 f k v n (i + 2) a (omega arith) (omega arith) room small,
)
