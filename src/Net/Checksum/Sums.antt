-- ===== src/Net/Checksum/Sums.antt =====
-- The summing and folding loops of `recalculate_checksums`.
use qore_os.Base.{
  ℕ, zero, suc, ◌+◌, ◌-◌, ◌*◌, ◌/◌, ◌%◌, ◌^◌, ◌≤◌, ◌<◌, ◌≡◌, ◌∙◌, List, ◌==◌, ltb, arith, inl, inr,
  Bool-cases, ==→eq, ==→ne, length, get_or, get_or_past, ltb→le, bit_or_low, bit_and_low,
}
use qore_os.Net.{
  word_at, segment_word, sum_words, fold_carries, ip_checksum, tcp_checksum, complement16,
}
use qore_os.Net.Receiver.{plain, pair, IsFrame}

word_at-pair : (f : List ℕ) (i : ℕ) → IsFrame f → word_at f i ≡ pair f i
unfolding word_at
word_at-pair f i h = omega (arith, bit_or_low 8 (get_or f i 0) (get_or f (i + 1) 0) (h (i + 1)))

segment_word-pair : (f : List ℕ) (i : ℕ) → IsFrame f → segment_word f i ≡ pair f i
unfolding segment_word
segment_word-pair f i h = elim (Bool-cases (ltb (i + 1) (length f))) [
  | inl inside ↦ rw inside (word_at-pair f i h)
  | inr last ↦ rw last (omega (arith, get_or_past f (i + 1) 0 (ltb→le (i + 1) (length f) last)))
]

-- Where the 32-bit accumulator has room, the loop gives the plain sum.
sum_words-plain :
    (f : List ℕ) (word : ℕ → ℕ) (n i chk : ℕ)
    → ((k : ℕ) → word k ≡ pair f k)
    → IsFrame f
    → chk + n * 65535 < 2 ^ 32
    → sum_words word n i chk ≡ chk + plain f n i
unfolding sum_words plain
sum_words-plain f word zero i chk same h room = omega arith
sum_words-plain f word (suc n) i chk same h room =
    let bound : pair f i ≤ 65535 = omega (arith, h i, h (i + 1)) in
    let next : (chk + word i) % 2 ^ 32 ≡ chk + pair f i = omega (arith, same i) in
    rw next (sum_words-plain f word n (i + 2) (chk + pair f i) same h (omega arith) ∙ omega arith)

-- `r` is `c` with the carries folded in.
record IsFold (c r : ℕ) : Type 0 where
  small : r < 65536
  same : r % 65535 ≡ c % 65535
  pos : 0 < c → 0 < r
  empty : c ≡ 0 → r ≡ 0

IsFold-step :
    (fuel c : ℕ)
    → IsFold (c % 65536 + c / 65536) (fold_carries fuel (c % 65536 + c / 65536))
    → IsFold c (fold_carries (suc fuel) c)
unfolding fold_carries
IsFold-step fuel c h = ground (arith, bit_and_low 16 c)

IsFold-last : (fuel c : ℕ) → c < 65536 → IsFold c (fold_carries (suc fuel) c)
unfolding fold_carries
IsFold-last fuel c h = ground arith

-- Four units of fuel are enough for a 32-bit sum.
fold_carries_lem : (c : ℕ) → c < 2 ^ 32 → IsFold c (fold_carries 4 c)
fold_carries_lem c h =
    let c1 = c % 65536 + c / 65536 in
    let c2 = c1 % 65536 + c1 / 65536 in
    IsFold-step 3 c
      (IsFold-step 2 c1 (IsFold-step 1 c2 (IsFold-last 0 (c2 % 65536 + c2 / 65536) (omega arith))))

-- A sum with its checksum added is a positive multiple of 65535.
pub record Completes (t v : ℕ) : Type 0 where
  pub small : v < 65536
  pub multiple : (t + v) % 65535 ≡ 0
  pub pos : 0 < t + v

complement_lem : (t r : ℕ) → IsFold t r → Completes t (complement16 r)
complement_lem t r h = record {
  small = omega (arith, h.small);
  multiple = omega (arith, h.small, h.same);
  pos = positive;
}
  where
    positive : 0 < t + complement16 r
    positive = elim (Bool-cases (t == 0)) [
      | inl none ↦ omega (arith, h.empty (==→eq t 0 none))
      | inr some ↦ omega (arith, ==→ne t 0 some)
    ]

plain-le : (f : List ℕ) (n i : ℕ) → IsFrame f → plain f n i ≤ n * 65535
unfolding plain
plain-le f zero i h = omega arith
plain-le f (suc n) i h = omega (arith, h i, h (i + 1), plain-le f n (i + 2) h)

-- The IPv4 checksum completes the words of the header.
pub ip_checksum_lem : (f : List ℕ) → IsFrame f → Completes (plain f 10 14) (ip_checksum f)
unfolding ip_checksum
ip_checksum_lem f h =
    let bound = plain-le f 10 14 h in
    let sum : sum_words (word_at f) 10 14 0 ≡ plain f 10 14 =
      sum_words-plain f (word_at f) 10 14 0 (λ k. word_at-pair f k h) h (omega arith)
      ∙ omega arith in
    rw sum (complement_lem (plain f 10 14) _ (fold_carries_lem (plain f 10 14) (omega arith)))

-- The TCP checksum completes the pseudo header and the segment, for a frame that an IPv4 length
-- can describe; on such a frame no 32-bit sum wraps.
pub tcp_checksum_lem :
    (f : List ℕ)
    → IsFrame f
    → 34 ≤ length f
    → length f ≤ 65549
    → Completes
        (plain f 4 26 + 6 + (length f - 34) + plain f ((length f - 34 + 1) / 2) 34)
        (tcp_checksum f)
unfolding tcp_checksum
tcp_checksum_lem f h low high =
    let n = (length f - 34 + 1) / 2 in
    let pseudo = plain f 4 26 + 6 + (length f - 34) in
    let bound = plain-le f 4 26 h in
    let rest = plain-le f n 34 h in
    let addresses : sum_words (word_at f) 4 26 0 ≡ plain f 4 26 =
      sum_words-plain f (word_at f) 4 26 0 (λ k. word_at-pair f k h) h (omega arith)
      ∙ omega arith in
    let fits : pseudo % 2 ^ 32 ≡ pseudo = omega arith in
    let sum : sum_words (segment_word f) n 34 pseudo ≡ pseudo + plain f n 34 =
      sum_words-plain f (segment_word f) n 34 pseudo (λ k. segment_word-pair f k h) h
        (omega arith) in
    rw (addresses, fits, sum)
      (complement_lem (pseudo + plain f n 34) _
        (fold_carries_lem (pseudo + plain f n 34) (omega arith)))
