-- ===== src/Net/Checksum.antt =====
-- The checksums of `recalculate_checksums`, against the receiver's check.
pub mod Sums
pub mod Put
use qore_os.Base.{
  ℕ, suc, ◌+◌, ◌-◌, ◌*◌, ◌/◌, ◌%◌, ◌^◌, ◌≤◌, ◌<◌, ◌≡◌, ◌≢◌, refl, sym, ap, ◌∙◌, ◌⊎◌, inl, inr, List,
  [], ◌∷◌, ◌++◌, arith, length, take, drop, get_or,
}
use qore_os.Net.{put16, ip_checksum, tcp_checksum, recalculate_checksums}
use qore_os.Net.Receiver.{
  AcceptsIp, AcceptsTcp, total, total-append, AllWords-append, plain, pair, total-slice, total-rest,
  IsFrame, slice-AllWords, rest-AllWords, ones_sum_full, words,
}
use Sums.{ip_checksum_lem, tcp_checksum_lem}
use Put.{length-put16, get_or-put16_ne, pair-put16, put16-IsFrame, plain-put16_out, plain-put16}

-- The plain sums that a receiver forms.
abbrev ip_total : List ℕ → ℕ
ip_total f = plain f 10 14

abbrev tcp_total : List ℕ → ℕ
tcp_total f = plain f 4 26 + 6 + (length f - 34) + plain f ((length f - 34 + 1) / 2) 34

AcceptsIp-of_total :
    (f : List ℕ) → IsFrame f → 0 < ip_total f → ip_total f % 65535 ≡ 0 → AcceptsIp f
AcceptsIp-of_total f h p m =
    let sum = total-slice f 10 14 in
    ones_sum_full (words (take 20 (drop 14 f))) (slice-AllWords f 20 14 h) (omega (arith, sum))
      (omega (arith, sum))

AcceptsTcp-of_total :
    (f : List ℕ)
    → IsFrame f
    → 34 ≤ length f
    → length f ≤ 65549
    → 0 < tcp_total f
    → tcp_total f % 65535 ≡ 0
    → AcceptsTcp f
unfolding total
AcceptsTcp-of_total f h low high p m =
    let addresses = words (take 8 (drop 26 f)) in
    let rest = 6 ∷ (length f - 34) ∷ words (drop 34 f) in
    let segment = total-rest f ((length f - 34 + 1) / 2) 34 (omega arith) in
    let e : total (addresses ++ rest) ≡ tcp_total f =
      total-append addresses rest ∙ omega (arith, total-slice f 4 26, segment) in
    ones_sum_full (addresses ++ rest)
      (AllWords-append addresses rest (slice-AllWords f 8 26 h)
        (omega arith, (omega arith, rest-AllWords f 34 h)))
      (omega (arith, e)) (omega (arith, e))

-- What `recalculate_checksums` gives back of a frame.
pub record Recalculated (f g : List ℕ) : Type 0 where
  pub ip : AcceptsIp g
  pub tcp : AcceptsTcp g
  pub same_length : length g ≡ length f
  pub bytes : IsFrame g
  pub rest : (i : ℕ) → i ≢ 24 → i ≢ 25 → i ≢ 50 → i ≢ 51 → get_or g i 0 ≡ get_or f i 0

-- The frame after each store of `recalculate_checksums`.
module _ (f : List ℕ) (h : IsFrame f) (low : 54 ≤ length f) (high : length f ≤ 65549) where
  abbrev cleared : List ℕ
  cleared = put16 f 24 0

  abbrev with_ip : List ℕ
  with_ip = put16 cleared 24 (ip_checksum cleared)

  abbrev without_tcp : List ℕ
  without_tcp = put16 with_ip 50 0

  abbrev with_tcp : List ℕ
  with_tcp = put16 without_tcp 50 (tcp_checksum without_tcp)

  lengths :
      (length cleared ≡ length f)
      × (length with_ip ≡ length f)
      × (length without_tcp ≡ length f)
      × (length with_tcp ≡ length f)
  lengths =
      let a = length-put16 f 24 0 in
      let b = length-put16 cleared 24 (ip_checksum cleared) ∙ a in
      let c = length-put16 with_ip 50 0 ∙ b in
      (a, b, c, length-put16 without_tcp 50 (tcp_checksum without_tcp) ∙ c)

  cleared-IsFrame : IsFrame cleared
  cleared-IsFrame = put16-IsFrame f 24 0 (omega arith) h

  with_ip-IsFrame : IsFrame with_ip
  with_ip-IsFrame = put16-IsFrame cleared 24 _ (omega (arith, lengths.0)) cleared-IsFrame

  without_tcp-IsFrame : IsFrame without_tcp
  without_tcp-IsFrame = put16-IsFrame with_ip 50 0 (omega (arith, lengths.1)) with_ip-IsFrame

  with_tcp-IsFrame : IsFrame with_tcp
  with_tcp-IsFrame = put16-IsFrame without_tcp 50 _ (omega (arith, lengths.2)) without_tcp-IsFrame

  with_tcp-AcceptsIp : AcceptsIp with_tcp
  with_tcp-AcceptsIp =
      let done = ip_checksum_lem cleared cleared-IsFrame in
      let v = ip_checksum cleared in
      let empty = pair-put16 f 24 0 (omega arith) (omega arith) in
      let stored =
        plain-put16 cleared 24 v 10 14 5 refl (omega arith) (omega (arith, lengths.0)) done.small in
      let c = plain-put16_out with_ip 50 0 10 14 (inr (omega arith)) in
      let d = plain-put16_out without_tcp 50 (tcp_checksum without_tcp) 10 14 (inr (omega arith)) in
      let e : ip_total with_tcp ≡ ip_total cleared + v = omega (arith, empty, stored, c, d) in
      AcceptsIp-of_total with_tcp with_tcp-IsFrame (omega (arith, e, done.pos)) (rw e done.multiple)

  with_tcp-AcceptsTcp : AcceptsTcp with_tcp
  with_tcp-AcceptsTcp =
      let done =
        tcp_checksum_lem without_tcp without_tcp-IsFrame (omega (arith, lengths.2))
          (omega (arith, lengths.2)) in
      let v = tcp_checksum without_tcp in
      let n = (length f - 34 + 1) / 2 in
      let empty = pair-put16 with_ip 50 0 (omega (arith, lengths.1)) (omega arith) in
      let stored =
        plain-put16 without_tcp 50 v n 34 8 refl (omega arith) (omega (arith, lengths.2))
          done.small in
      let addresses = plain-put16_out without_tcp 50 v 4 26 (inr (omega arith)) in
      let e : tcp_total with_tcp ≡ tcp_total without_tcp + v =
        rw (lengths.2, lengths.3) (omega (arith, empty, stored, addresses)) in
      AcceptsTcp-of_total with_tcp with_tcp-IsFrame (omega (arith, lengths.3))
        (omega (arith, lengths.3)) (omega (arith, e, done.pos)) (rw e done.multiple)

-- For a frame of bytes with room for the headers, no longer than an IPv4 length can say, the frame
-- that `recalculate_checksums` leaves is accepted by a receiver's IPv4 and TCP checks, has the same
-- length, and differs at most in the four checksum bytes.
pub recalculate-Recalculated :
    (f : List ℕ)
    → IsFrame f
    → 54 ≤ length f
    → length f ≤ 65549
    → Recalculated f (recalculate_checksums f)
unfolding recalculate_checksums
recalculate-Recalculated f h low high = record {
  ip = with_tcp-AcceptsIp f h low high;
  tcp = with_tcp-AcceptsTcp f h low high;
  same_length = (lengths f h low high).3;
  bytes = with_tcp-IsFrame f h low high;
  rest = λ i a b c d.
      get_or-put16_ne (without_tcp f h low high) 50 _ i c d
      ∙ get_or-put16_ne (with_ip f h low high) 50 0 i c d
      ∙ get_or-put16_ne (cleared f h low high) 24 _ i a b
      ∙ get_or-put16_ne f 24 0 i a b;
}
