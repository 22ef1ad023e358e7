-- ===== src/Net/Handle.antt =====
-- What `handle_incoming_packet` does with a packet: which it answers, and how.
use qore_os.Base.{
  ℕ, ◌+◌, ◌-◌, ◌*◌, ◌/◌, ◌%◌, ◌^◌, ◌≡◌, refl, Bool, true, false, not, ◌&&◌, ◌==◌, ltb, leb,
  if◌then◌else◌, List, ◌++◌, arith, length, get_or, take, drop, bit_and, bit_and_low, bit_and-pow,
  test_bit, test_bit-bit_and, one-le-pow,
}
use qore_os.Text.{codes, decimal}
use qore_os.Machine.{Hardware}
use qore_os.E1000.{Kernel, my_ip, terminal_print}
use qore_os.E1000.Arp.{ip_eq}
use qore_os.Net.{
  be16, be32, ip_at, send_tcp_syn_ack, send_http_response, target_mac_of, starts_with_get,
  handle_data, handle_tcp, handle_incoming_packet,
}

-- The fields of a packet, by arithmetic: the header lengths in bytes, where the TCP header starts,
-- and how much data the IPv4 length leaves.
abbrev pub ihl_of : List ℕ → ℕ
ihl_of p = get_or p 14 0 % 16 * 4

abbrev pub tcp_at : List ℕ → ℕ
tcp_at p = 14 + ihl_of p

abbrev pub tcp_header_len : List ℕ → ℕ
tcp_header_len p = be16 p (tcp_at p + 12) / 4096 % 16 * 4

abbrev pub data_len_of : List ℕ → ℕ
data_len_of p = be16 p 16 - ihl_of p - tcp_header_len p

-- The packet is a whole TCP segment to 10.0.2.15, port 80.
abbrev pub is_for_server : List ℕ → Bool
is_for_server p =
    leb 34 (length p)
    && (be16 p 12 == 0x0800
        && (ip_eq (ip_at p 30) my_ip
            && (get_or p 23 0 == 6
                && (leb (tcp_at p + 20) (length p) && be16 p (tcp_at p + 2) == 80))))

abbrev pub has_syn : List ℕ → Bool
has_syn p = test_bit 1 (be16 p (tcp_at p + 12))

abbrev pub has_psh : List ℕ → Bool
has_psh p = test_bit 3 (be16 p (tcp_at p + 12))

-- The segment holds data that starts with "GET", inside the packet.
abbrev pub has_get : List ℕ → Bool
has_get p =
    leb (ihl_of p + tcp_header_len p) (be16 p 16)
    && (ltb 0 (data_len_of p)
        && (leb (tcp_at p + tcp_header_len p + data_len_of p) (length p)
            && starts_with_get (take (data_len_of p) (drop (tcp_at p + tcp_header_len p) p))))

-- `flags & bit`, of the nine low bits of the word.
flag_test :
    (w k : ℕ)
    → test_bit k 0x1FF ≡ true
    → (bit_and (bit_and w 0x1FF) (2 ^ k) == 0) ≡ not (test_bit k w)
flag_test w k h =
    rw (bit_and-pow k (bit_and w 0x1FF), test_bit-bit_and k w 0x1FF, h)
      (ground (arith, one-le-pow k 2))

-- Nested tests with one way through are one conjunction.
data_guards {ℓ} :
    {A : Type ℓ} (a b c d : Bool) (x y : A)
    → (if a then (if b && c then (if d then x else y) else y) else y)
      ≡ (if a && (b && (c && d)) then x else y)
data_guards true true true d x y = refl
data_guards true true false d x y = refl
data_guards true false c d x y = refl
data_guards false b c d x y = refl

packet_guards {ℓ} :
    {A : Type ℓ} (short ipv4 cut ours tcp brief port : Bool) (x y : A)
    → (cut ≡ false → short ≡ false)
    → (if short
        then y
        else if not ipv4
        then y
        else if cut
        then y
        else if not ours
        then y
        else if not tcp
        then y
        else if brief
        then y
        else if port
        then x
        else y)
      ≡ (if not cut && (ipv4 && (ours && (tcp && (not brief && port)))) then x else y)
packet_guards short ipv4 true ours tcp brief port x y h = ground arith
packet_guards short ipv4 false ours tcp brief port x y h = ground arith

not-not : (b : Bool) → not (not b) ≡ b
not-not true = refl
not-not false = refl

-- A test and its converse.
leb-ltb : (a b : ℕ) → leb a b ≡ not (ltb b a)
leb-ltb a b = ground arith

abbrev pub syn_log : List ℕ → List ℕ
syn_log p =
    codes "> NET: TCP [SYN] RCV'D. PORT "
    ++ (decimal (be16 p (tcp_at p))
        ++ (codes " -> " ++ (decimal (be16 p (tcp_at p + 2)) ++ codes "\n")))

unfoldable pub syn_reply : Hardware → List ℕ → Kernel → Kernel
syn_reply hw p k =
    let k1 = terminal_print (syn_log p) 0xF59E0B k in
    send_tcp_syn_ack hw (target_mac_of k1 (ip_at p 26)) (ip_at p 26) (be16 p (tcp_at p))
      (be32 p (tcp_at p + 4)) k1

unfoldable pub get_reply : Hardware → List ℕ → Kernel → Kernel
get_reply hw p k =
    let k1 = terminal_print (codes "> NET: HTTP [GET] REQUEST INTERCEPTED!\n") 0x10B981 k in
    send_http_response hw (target_mac_of k1 (ip_at p 26)) (ip_at p 26) (be16 p (tcp_at p))
      (be32 p (tcp_at p + 8)) (be32 p (tcp_at p + 4)) (data_len_of p) k1

handle_data_lem :
    (hw : Hardware) (p : List ℕ) (k : Kernel)
    → handle_data hw p (ihl_of p) (tcp_header_len p) k ≡ (if has_get p then get_reply hw p k else k)
unfolding handle_data get_reply
handle_data_lem hw p k =
    data_guards (leb (ihl_of p + tcp_header_len p) (be16 p 16)) (ltb 0 (data_len_of p))
      (leb (tcp_at p + tcp_header_len p + data_len_of p) (length p))
      (starts_with_get (take (data_len_of p) (drop (tcp_at p + tcp_header_len p) p)))
      (get_reply hw p k) k

handle_tcp_lem :
    (hw : Hardware) (p : List ℕ) (k : Kernel)
    → handle_tcp hw p (ihl_of p) k ≡ (
        if be16 p (tcp_at p + 2) == 80
        then (if has_syn p
            then syn_reply hw p k
            else if has_psh p
            then handle_data hw p (ihl_of p) (tcp_header_len p) k
            else k)
        else k)
unfolding handle_tcp syn_reply
handle_tcp_lem hw p k =
    rw
      (
        flag_test (be16 p (tcp_at p + 12)) 1 (unfold test_bit in refl),
        flag_test (be16 p (tcp_at p + 12)) 3 (unfold test_bit in refl),
        bit_and_low 4 (be16 p (tcp_at p + 12) / 2 ^ 12),
        not-not (has_syn p),
        not-not (has_psh p),
      )
      refl

-- What the packet makes the kernel do.
pub handle_lem :
    (hw : Hardware) (p : List ℕ) (k : Kernel)
    → handle_incoming_packet hw p k ≡ (
        if is_for_server p
        then (if has_syn p
            then syn_reply hw p k
            else if has_psh p
            then (if has_get p then get_reply hw p k else k)
            else k)
        else k)
unfolding handle_incoming_packet
handle_lem hw p k =
    rw
      (
        bit_and_low 4 (get_or p 14 0),
        handle_tcp_lem hw p k,
        handle_data_lem hw p k,
        leb-ltb 34 (length p),
        leb-ltb (tcp_at p + 20) (length p),
      )
      (packet_guards (ltb (length p) 14) (be16 p 12 == 0x0800) (ltb (length p) 34)
        (ip_eq (ip_at p 30) my_ip) (get_or p 23 0 == 6) (ltb (length p) (tcp_at p + 20))
        (be16 p (tcp_at p + 2) == 80) _ k (λ h. ground arith))
