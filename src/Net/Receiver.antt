-- ===== src/Net/Receiver.antt =====
-- How a receiver checks a frame, by the end-around-carry sum of RFC 1071, and that sum as arithmetic.
use qore_os.Base.{
  ℕ, zero, suc, ◌+◌, ◌-◌, ◌*◌, ◌%◌, ◌≤◌, ◌<◌, ◌≡◌, refl, ap, sym, ◌∙◌, List, [], ◌∷◌, ◌++◌, ltb,
  if◌then◌else◌, arith, length, take, drop, get_or, get_or_past, length-drop, get_or-drop,
  Bool-cases, inl, inr, ltb→lt, ltb→le,
}

-- The big-endian 16-bit words of some bytes; a last single byte is padded with 0.
unfoldable pub words : List ℕ → List ℕ
words [] = []
words (a ∷ []) = a * 256 ∷ []
words (a ∷ b ∷ rest) = (a * 256 + b) ∷ words rest

-- One's complement addition: a carry out of 16 bits is added back.
unfoldable pub ones_add : ℕ → ℕ → ℕ
ones_add a b = if ltb (a + b) 65536 then a + b else a + b - 65535

unfoldable pub ones_sum : List ℕ → ℕ
ones_sum [] = 0
ones_sum (w ∷ ws) = ones_add w (ones_sum ws)

-- The IPv4 header from byte 14 on, twenty bytes long, sums to all ones.
abbrev pub AcceptsIp : List ℕ → Type 0
AcceptsIp frame = ones_sum (words (take 20 (drop 14 frame))) ≡ 0xFFFF

-- The pseudo header (the two addresses, the protocol and the segment's length) and the segment from
-- byte 34 on sum to all ones.
abbrev pub AcceptsTcp : List ℕ → Type 0
AcceptsTcp frame =
    ones_sum (words (take 8 (drop 26 frame)) ++ (6 ∷ (length frame - 34) ∷ words (drop 34 frame)))
    ≡ 0xFFFF

unfoldable pub total : List ℕ → ℕ
total [] = 0
total (w ∷ ws) = w + total ws

abbrev pub AllWords : List ℕ → Type 0
AllWords [] = Unit {0}
AllWords (w ∷ ws) = (w < 65536) × AllWords ws

-- The end-around-carry sum is at most all ones, is the plain sum modulo 65535, and is 0 only if all
-- words are.
record IsSum (s t : ℕ) : Type 0 where
  small : s ≤ 65535
  same : s % 65535 ≡ t % 65535
  pos : 0 < t → 0 < s

ones_sum-IsSum : (ws : List ℕ) → AllWords ws → IsSum (ones_sum ws) (total ws)
unfolding ones_sum ones_add total
ones_sum-IsSum [] h = omega arith
ones_sum-IsSum (w ∷ ws) h = ground (arith, ones_sum-IsSum ws h.1)

-- A receiver's sum comes out as all ones if the plain sum is a positive multiple of 65535.
pub ones_sum_full :
    (ws : List ℕ) → AllWords ws → 0 < total ws → total ws % 65535 ≡ 0 → ones_sum ws ≡ 0xFFFF
ones_sum_full ws h p m = let s = ones_sum-IsSum ws h in omega (arith, s.small, s.same, s.pos p)

pub total-append : (xs ys : List ℕ) → total (xs ++ ys) ≡ total xs + total ys
unfolding total
total-append [] ys = omega arith
total-append (x ∷ xs) ys = omega (arith, total-append xs ys)

pub AllWords-append : (xs ys : List ℕ) → AllWords xs → AllWords ys → AllWords (xs ++ ys)
AllWords-append [] ys hx hy = hy
AllWords-append (x ∷ xs) ys hx hy = (hx.0, AllWords-append xs ys hx.1 hy)

-- The word of the bytes at `i`, and the plain sum of the `n` words from `i` on.
abbrev pub pair : List ℕ → ℕ → ℕ
pair f i = get_or f i 0 * 256 + get_or f (i + 1) 0

unfoldable pub plain : List ℕ → ℕ → ℕ → ℕ
plain f zero i = 0
plain f (suc n) i = pair f i + plain f n (i + 2)

pub plain_ext :
    (f g : List ℕ) (n i k : ℕ)
    → ((j : ℕ) → j < 2 * n → get_or f (i + j) 0 ≡ get_or g (k + j) 0)
    → plain f n i ≡ plain g n k
unfolding plain
plain_ext f g zero i k h = refl
plain_ext f g (suc n) i k h =
    let first : get_or f i 0 ≡ get_or g k 0 =
      ap (λ a. get_or f a 0) (omega arith)
      ∙ h 0 (omega arith)
      ∙ ap (λ a. get_or g a 0) (omega arith) in
    let second = h 1 (omega arith) in
    let rest = plain_ext f g n (i + 2) (k + 2) λ j l.
      ap (λ a. get_or f a 0) (omega arith)
      ∙ h (2 + j) (omega arith)
      ∙ ap (λ a. get_or g a 0) (omega arith) in
    rw (first, second, rest) refl

pub plain_past : (f : List ℕ) (n i : ℕ) → length f ≤ i → plain f n i ≡ 0
unfolding plain
plain_past f zero i h = refl
plain_past f (suc n) i h = omega (
  arith,
  get_or_past f i 0 h,
  get_or_past f (i + 1) 0 (omega arith),
  plain_past f n (i + 2) (omega arith),
)

-- The words of some bytes sum to the plain sum.
total-words : (bs : List ℕ) (n : ℕ) → length bs ≤ 2 * n → total (words bs) ≡ plain bs n 0
unfolding total words plain
total-words [] n h = sym (plain_past [] n 0 (omega arith))
total-words (a ∷ bs) zero h = absurd (omega arith)
total-words (a ∷ []) (suc n) h = omega (arith, plain_past (a ∷ []) n 2 (omega arith))
total-words (a ∷ b ∷ bs) (suc n) h =
    let shift =
      plain_ext (a ∷ b ∷ bs) bs n 2 0
        λ j l. ap (λ k. get_or (a ∷ b ∷ bs) k 0) (two j) ∙ ap (λ k. get_or bs k 0) (omega arith) in
    omega (arith, total-words bs n (omega arith), shift)
  where
    two : (j : ℕ) → 2 + j ≡ suc (suc j)
    two j = omega arith

get_or-take : (n i : ℕ) (xs : List ℕ) → i < n → get_or (take n xs) i 0 ≡ get_or xs i 0
get_or-take zero i xs h = absurd (omega arith)
get_or-take (suc n) i [] h = refl
get_or-take (suc n) zero (x ∷ xs) h = refl
get_or-take (suc n) (suc i) (x ∷ xs) h = get_or-take n i xs (omega arith)

length-take-le : (n : ℕ) (xs : List ℕ) → length (take n xs) ≤ n
length-take-le zero xs = omega arith
length-take-le (suc n) [] = omega arith
length-take-le (suc n) (x ∷ xs) = omega (arith, length-take-le n xs)

-- The words of a slice of `2 n` bytes.
pub total-slice : (f : List ℕ) (n i : ℕ) → total (words (take (2 * n) (drop i f))) ≡ plain f n i
total-slice f n i =
    total-words (take (2 * n) (drop i f)) n (length-take-le (2 * n) (drop i f))
    ∙ plain_ext (take (2 * n) (drop i f)) f n 0 i λ j l.
      get_or-take (2 * n) (0 + j) (drop i f) (omega arith)
      ∙ ap (λ k. get_or (drop i f) k 0) (omega arith)
      ∙ get_or-drop i j f 0

-- The words of all that follows byte `i`.
pub total-rest :
    (f : List ℕ) (n i : ℕ) → length f ≤ i + 2 * n → total (words (drop i f)) ≡ plain f n i
total-rest f n i h =
    total-words (drop i f) n (omega (arith, length-drop i f))
    ∙ plain_ext (drop i f) f n 0 i
        λ j l. ap (λ k. get_or (drop i f) k 0) (omega arith) ∙ get_or-drop i j f 0

-- Each place of a frame holds a byte.
abbrev pub IsFrame : List ℕ → Type 0
IsFrame f = (i : ℕ) → get_or f i 0 < 256

words-AllWords : (bs : List ℕ) → IsFrame bs → AllWords (words bs)
unfolding words
words-AllWords [] h = tt
words-AllWords (a ∷ []) h = (omega (arith, h 0), tt)
words-AllWords (a ∷ b ∷ bs) h = (omega (arith, h 0, h 1), words-AllWords bs (λ i. h (suc (suc i))))

pub slice-AllWords : (f : List ℕ) (n i : ℕ) → IsFrame f → AllWords (words (take n (drop i f)))
slice-AllWords f n i h = words-AllWords (take n (drop i f)) λ j. elim (Bool-cases (ltb j n)) [
  | inl lt ↦ rw (get_or-take n j (drop i f) (ltb→lt j n lt), get_or-drop i j f 0) (h (i + j))
  | inr ge ↦
      rw
        (get_or_past (take n (drop i f)) j 0
          (omega (arith, ltb→le j n ge, length-take-le n (drop i f))))
        (omega arith)
]

pub rest-AllWords : (f : List ℕ) (i : ℕ) → IsFrame f → AllWords (words (drop i f))
rest-AllWords f i h = words-AllWords (drop i f) λ j. rw (get_or-drop i j f 0) (h (i + j))
