-- ===== src/Net/Craft.antt =====
-- The segments that the kernel builds, read back field by field.
use qore_os.Base.{
  ℕ, zero, suc, ◌+◌, ◌*◌, ◌/◌, ◌^◌, ◌≤◌, ◌<◌, ◌≡◌, ◌∙◌, ◌⊎◌, List, [], ◌∷◌, ◌++◌, arith, length,
  get_or,
}
use qore_os.Ram.{AllBytes}
use qore_os.E1000.{my_mac, my_ip}
use qore_os.E1000.Arp.{Mac, Ip, mac_bytes, ip_bytes}
use qore_os.Net.{be16, be32, ip_at, recalculate_checksums}
use qore_os.Net.Receiver.{AcceptsIp, AcceptsTcp, IsFrame}
use qore_os.Net.Checksum.{Recalculated, recalculate-Recalculated}

abbrev pub mac_at : List ℕ → ℕ → Mac
mac_at f i = record {
  m0 = get_or f i 0;
  m1 = get_or f (i + 1) 0;
  m2 = get_or f (i + 2) 0;
  m3 = get_or f (i + 3) 0;
  m4 = get_or f (i + 4) 0;
  m5 = get_or f (i + 5) 0;
}

-- What a segment to a peer says.
pub record Segment : Type 0 where
  pub mac : Mac
  pub ip : Ip
  pub port : ℕ
  pub seq : ℕ
  pub ack : ℕ
  pub flags : ℕ
  pub tcp_hl : ℕ
  pub body : List ℕ

-- `f` is an Ethernet frame with an IPv4 packet with a TCP segment that says `s`, from the kernel's
-- hardware address, IP address and port 80; its length fields and its header lengths are right.
pub record Says (f : List ℕ) (s : Segment) : Type 0 where
  pub bytes : IsFrame f
  pub len : length f ≡ 34 + s.tcp_hl + length s.body
  pub dest_mac : mac_at f 0 ≡ s.mac
  pub src_mac : mac_at f 6 ≡ my_mac
  pub ethertype : be16 f 12 ≡ 0x0800
  pub version_ihl : get_or f 14 0 ≡ 0x45
  pub total_length : be16 f 16 ≡ 20 + s.tcp_hl + length s.body
  pub protocol : get_or f 23 0 ≡ 6
  pub src_ip : ip_at f 26 ≡ my_ip
  pub dest_ip : ip_at f 30 ≡ s.ip
  pub src_port : be16 f 34 ≡ 80
  pub dest_port : be16 f 36 ≡ s.port
  pub seq_num : be32 f 38 ≡ s.seq
  pub ack_num : be32 f 42 ≡ s.ack
  pub data_offset : get_or f 46 0 / 16 * 4 ≡ s.tcp_hl
  pub flag_bits : get_or f 47 0 ≡ s.flags
  pub body_bytes : (i : ℕ) → get_or f (34 + s.tcp_hl + i) 0 ≡ get_or s.body i 0

-- The numbers that a segment is made of fit their fields.
pub record Fits (s : Segment) : Type 0 where
  pub mac : AllBytes (mac_bytes s.mac)
  pub ip : AllBytes (ip_bytes s.ip)
  pub port : s.port < 65536
  pub seq : s.seq < 2 ^ 32
  pub ack : s.ack < 2 ^ 32
  pub flags : s.flags < 256
  pub body : AllBytes s.body
  pub size : length s.body ≤ 65491

pub AllBytes-IsFrame : (bs : List ℕ) → AllBytes bs → IsFrame bs
AllBytes-IsFrame [] h i = omega arith
AllBytes-IsFrame (b ∷ bs) h zero = h.0
AllBytes-IsFrame (b ∷ bs) h (suc i) = AllBytes-IsFrame bs h.1 i

pub AllBytes-append : (xs ys : List ℕ) → AllBytes xs → AllBytes ys → AllBytes (xs ++ ys)
AllBytes-append [] ys hx hy = hy
AllBytes-append (x ∷ xs) ys hx hy = (hx.0, AllBytes-append xs ys hx.1 hy)

-- The places that `recalculate_checksums` leaves alone.
abbrev Clear : ℕ → Type 0
Clear i = (i < 24) ⊎ ((25 < i) × (i < 50)) ⊎ (51 < i)

module _ {c g : List ℕ} (r : Recalculated c g) where
  kept : (i : ℕ) → Clear i → get_or g i 0 ≡ get_or c i 0
  kept i h = r.rest i (omega arith) (omega arith) (omega arith) (omega arith)

  -- New checksums change nothing of what a frame says.
  Recalculated-Says : {s : Segment} → 20 ≤ s.tcp_hl → Says c s → Says g s
  Recalculated-Says {s} long says = record {
    bytes = r.bytes;
    len = r.same_length ∙ says.len;
    dest_mac =
        rw
          (
            kept 0 (omega arith),
            kept 1 (omega arith),
            kept 2 (omega arith),
            kept 3 (omega arith),
            kept 4 (omega arith),
            kept 5 (omega arith),
          )
          says.dest_mac;
    src_mac =
        rw
          (
            kept 6 (omega arith),
            kept 7 (omega arith),
            kept 8 (omega arith),
            kept 9 (omega arith),
            kept 10 (omega arith),
            kept 11 (omega arith),
          )
          says.src_mac;
    ethertype = omega (arith, kept 12 (omega arith), kept 13 (omega arith), says.ethertype);
    version_ihl = omega (arith, kept 14 (omega arith), says.version_ihl);
    total_length = omega (arith, kept 16 (omega arith), kept 17 (omega arith), says.total_length);
    protocol = omega (arith, kept 23 (omega arith), says.protocol);
    src_ip =
        rw
          (
            kept 26 (omega arith),
            kept 27 (omega arith),
            kept 28 (omega arith),
            kept 29 (omega arith),
          )
          says.src_ip;
    dest_ip =
        rw
          (
            kept 30 (omega arith),
            kept 31 (omega arith),
            kept 32 (omega arith),
            kept 33 (omega arith),
          )
          says.dest_ip;
    src_port = omega (arith, kept 34 (omega arith), kept 35 (omega arith), says.src_port);
    dest_port = omega (arith, kept 36 (omega arith), kept 37 (omega arith), says.dest_port);
    seq_num = omega (
      arith,
      kept 38 (omega arith),
      kept 39 (omega arith),
      kept 40 (omega arith),
      kept 41 (omega arith),
      says.seq_num,
    );
    ack_num = omega (
      arith,
      kept 42 (omega arith),
      kept 43 (omega arith),
      kept 44 (omega arith),
      kept 45 (omega arith),
      says.ack_num,
    );
    data_offset = omega (arith, kept 46 (omega arith), says.data_offset);
    flag_bits = omega (arith, kept 47 (omega arith), says.flag_bits);
    body_bytes = λ i. kept (34 + s.tcp_hl + i) (omega arith) ∙ says.body_bytes i;
  }

-- `f` says `s` and a receiver's two checksum tests accept it.
abbrev pub Delivers : List ℕ → Segment → Type 0
Delivers f s = Says f s × AcceptsIp f × AcceptsTcp f

pub recalculate-Delivers :
    (c : List ℕ) (s : Segment)
    → 20 ≤ s.tcp_hl
    → s.tcp_hl ≤ 24
    → length s.body ≤ 65491
    → Says c s
    → Delivers (recalculate_checksums c) s
recalculate-Delivers c s long short size says =
    let r =
      recalculate-Recalculated c says.bytes (omega (arith, says.len)) (omega (arith, says.len)) in
    (Recalculated-Says r long says, r.ip, r.tcp)
