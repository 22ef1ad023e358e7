-- ===== src/Net/Replies.antt =====
-- The two replies that the kernel sends: what they say, and that a receiver accepts them.
use qore_os.Base.{
  ℕ, suc, ◌+◌, ◌%◌, ◌^◌, ◌≡◌, refl, ap, List, [], ◌∷◌, ◌++◌, arith, length, get_or, length-append,
  get_or_past,
}
use qore_os.E1000.Arp.{Mac, Ip}
use qore_os.Net.{craft_base_tcp_frame, recalculate_checksums, syn_ack_frame, http_frame, put16}
use qore_os.Net.Craft.{
  Segment, Says, Fits, Delivers, AllBytes-IsFrame, AllBytes-append, recalculate-Delivers,
}

-- The maximum segment size option of the SYN-ACK, after the fixed header, as its four bytes.
abbrev pub syn_ack : Mac → Ip → ℕ → ℕ → Segment
syn_ack mac ip port client_seq = record {
  mac = mac;
  ip = ip;
  port = port;
  seq = 0xCAFEBABE;
  ack = (client_seq + 1) % 2 ^ 32;
  flags = 0x12;
  tcp_hl = 24;
  body = [];
}

abbrev pub http_response : Mac → Ip → ℕ → ℕ → ℕ → List ℕ → Segment
http_response mac ip port my_seq ack body = record {
  mac = mac;
  ip = ip;
  port = port;
  seq = my_seq;
  ack = ack;
  flags = 0x18;
  tcp_hl = 20;
  body = body;
}

abbrev crafted : Segment → List ℕ
crafted s = craft_base_tcp_frame s.mac s.ip s.port s.seq s.ack s.flags s.tcp_hl

get_or-append_right : (xs ys : List ℕ) (i : ℕ) → get_or (xs ++ ys) (length xs + i) 0 ≡ get_or ys i 0
get_or-append_right [] ys i = ap (λ k. get_or ys k 0) (omega arith)
get_or-append_right (x ∷ xs) ys i =
    let e : suc (length xs) + i ≡ suc (length xs + i) = omega arith in
    rw e (get_or-append_right xs ys i)

syn_ack-Says :
    (mac : Mac) (ip : Ip) (port client_seq : ℕ)
    → Fits (syn_ack mac ip port client_seq)
    → Says (crafted (syn_ack mac ip port client_seq)) (syn_ack mac ip port client_seq)
unfolding craft_base_tcp_frame
syn_ack-Says mac ip port client_seq h = record {
  bytes = AllBytes-IsFrame (crafted (syn_ack mac ip port client_seq)) (omega (arith, h.mac, h.ip));
  len = refl;
  dest_mac = refl;
  src_mac = refl;
  ethertype = refl;
  version_ihl = refl;
  total_length = refl;
  protocol = refl;
  src_ip = refl;
  dest_ip = refl;
  src_port = refl;
  dest_port = omega (arith, h.port);
  seq_num = refl;
  ack_num = omega arith;
  data_offset = refl;
  flag_bits = refl;
  body_bytes = λ i. get_or_past (crafted (syn_ack mac ip port client_seq)) (58 + i) 0 (omega arith);
}

-- The frame of the response before its checksums: the header with the length of the whole, and the
-- body.
abbrev with_length : Segment → List ℕ
with_length s = put16 (crafted s) 16 ((20 + 20 + length s.body) % 65536)

http_response-Says :
    (mac : Mac) (ip : Ip) (port my_seq ack : ℕ) (body : List ℕ)
    → Fits (http_response mac ip port my_seq ack body)
    → let s = http_response mac ip port my_seq ack body in Says (with_length s ++ body) s
unfolding craft_base_tcp_frame
http_response-Says mac ip port my_seq ack body h =
    let s = http_response mac ip port my_seq ack body in
    record {
      bytes =
          AllBytes-IsFrame (with_length s ++ body)
            (AllBytes-append (with_length s) body (omega (arith, h.mac, h.ip)) h.body);
      len = length-append (with_length s) body;
      dest_mac = refl;
      src_mac = refl;
      ethertype = refl;
      version_ihl = refl;
      total_length = omega (arith, h.size);
      protocol = refl;
      src_ip = refl;
      dest_ip = refl;
      src_port = refl;
      dest_port = omega (arith, h.port);
      seq_num = omega (arith, h.seq);
      ack_num = omega (arith, h.ack);
      data_offset = refl;
      flag_bits = refl;
      body_bytes = get_or-append_right (with_length s) body;
    }

http_frame_split :
    (mac : Mac) (ip : Ip) (port my_seq ack : ℕ) (body : List ℕ)
    → http_frame mac ip port my_seq ack body
      ≡ recalculate_checksums (with_length (http_response mac ip port my_seq ack body) ++ body)
unfolding http_frame craft_base_tcp_frame
http_frame_split mac ip port my_seq ack body = refl

-- For addresses of bytes and a 16-bit port, the SYN-ACK frame goes to the peer's addresses and port,
-- from the kernel's and port 80, with SYN and ACK set, sequence number 0xCAFEBABE, and the client's
-- sequence number plus 1 (modulo 2 ^ 32) acknowledged; its lengths are right, and a receiver's IPv4
-- and TCP checksum tests accept it.
pub syn_ack_frame-Delivers :
    (mac : Mac) (ip : Ip) (port client_seq : ℕ)
    → Fits (syn_ack mac ip port client_seq)
    → Delivers (syn_ack_frame mac ip port client_seq) (syn_ack mac ip port client_seq)
unfolding syn_ack_frame
syn_ack_frame-Delivers mac ip port client_seq h =
    recalculate-Delivers (crafted (syn_ack mac ip port client_seq)) (syn_ack mac ip port client_seq)
      (omega arith) (omega arith) (omega arith) (syn_ack-Says mac ip port client_seq h)

-- For addresses of bytes, a 16-bit port, 32-bit sequence numbers and a body of at most 65491 bytes,
-- the response frame goes to the peer's addresses and port, from the kernel's and port 80, with PSH
-- and ACK set and the numbers given; it carries the body, with the right lengths, and a receiver's
-- IPv4 and TCP checksum tests accept it.
pub http_frame-Delivers :
    (mac : Mac) (ip : Ip) (port my_seq ack : ℕ) (body : List ℕ)
    → Fits (http_response mac ip port my_seq ack body)
    → Delivers (http_frame mac ip port my_seq ack body) (http_response mac ip port my_seq ack body)
http_frame-Delivers mac ip port my_seq ack body h =
    let s = http_response mac ip port my_seq ack body in
    rw (http_frame_split mac ip port my_seq ack body) (
      recalculate-Delivers (with_length s ++ body) s (omega arith) (omega arith) h.size
        (http_response-Says mac ip port my_seq ack body h))
