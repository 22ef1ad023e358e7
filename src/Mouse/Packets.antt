-- ===== src/Mouse/Packets.antt =====
-- A stream of bytes as packets: where each one moves the pointer to.
use qore_os.Base.{
  ℕ, ◌+◌, ◌-◌, ◌*◌, ◌/◌, ◌%◌, ◌^◌, ◌<◌, ◌≡◌, refl, ap, ◌∙◌, List, [], ◌∷◌, ◌++◌, true, false, not,
  arith, bit_and, bit_or, bit_and-pow, bit_and_low, bit_or_low, one-le-pow, test_bit, ◌==◌,
  if◌then◌else◌,
}
use qore_os.Mouse.{Mouse, extend_sign, negate, decode, in_cycle, process_packet_byte, process_bytes}

-- A packet: flags, and the low eight bits of two nine-bit moves.
pub record Packet : Type 0 where
  pub flags : ℕ
  pub dx : ℕ
  pub dy : ℕ

-- The bytes of a packet; the first has bit 3 set.
pub record IsPacket (p : Packet) : Type 0 where
  pub flags : p.flags < 256
  pub marked : p.flags / 8 % 2 ≡ 1
  pub dx : p.dx < 256
  pub dy : p.dy < 256

-- What the rest of the kernel sees of the mouse.
pub record Pointer : Type 0 where
  pub x : ℕ
  pub y : ℕ
  pub btn : ℕ

abbrev pub pointer : Mouse → Pointer
pointer m = record { x = m.x; y = m.y; btn = m.btn }

-- A packet adds its move to the right to `x` and takes its move up from `y`, modulo 2 ^ 32; bits 4 and
-- 5 of the flags weigh -256. The buttons are the two low bits.
abbrev pub move : Packet → Pointer → Pointer
move p q = record {
  x = (q.x + 2 ^ 32 + p.dx - 256 * (p.flags / 16 % 2)) % 2 ^ 32;
  y = (q.y + 2 ^ 32 + 256 * (p.flags / 32 % 2) - p.dy) % 2 ^ 32;
  btn = p.flags % 4;
}

abbrev pub moves : List Packet → Pointer → Pointer
moves [] q = q
moves (p ∷ ps) q = moves ps (move p q)

abbrev pub bytes : List Packet → List ℕ
bytes [] = []
bytes (p ∷ ps) = p.flags ∷ p.dx ∷ p.dy ∷ bytes ps

abbrev pub AllPackets : List Packet → Type 0
AllPackets [] = Unit {0}
AllPackets (p ∷ ps) = IsPacket p × AllPackets ps

-- Bytes that cannot begin a packet.
abbrev pub AllNoise : List ℕ → Type 0
AllNoise [] = Unit {0}
AllNoise (b ∷ bs) = (b / 8 % 2 ≡ 0) × AllNoise bs

test_bit-three : (b : ℕ) → test_bit 3 b ≡ (b / 8 % 2 == 1)
unfolding test_bit
test_bit-three b = ground arith

extend_sign_lem :
    (state k d : ℕ)
    → d < 256
    → extend_sign state k d ≡ (if test_bit k state then 0xFFFFFF00 + d else d)
unfolding extend_sign
extend_sign_lem state k d h =
    let mask : bit_or 0xFFFFFF00 d ≡ 0xFFFFFF00 + d = bit_or_low 8 0xFFFFFF d h in
    rw (bit_and-pow k state, mask) (ground (arith, one-le-pow k 2))

test_bit-four : (b : ℕ) → test_bit 4 b ≡ (b / 16 % 2 == 1)
unfolding test_bit
test_bit-four b = ground arith

test_bit-five : (b : ℕ) → test_bit 5 b ≡ (b / 32 % 2 == 1)
unfolding test_bit
test_bit-five b = ground arith

move_x :
    (p : Packet) (x : ℕ)
    → IsPacket p
    → (x + extend_sign p.flags 4 p.dx) % 2 ^ 32
      ≡ (x + 2 ^ 32 + p.dx - 256 * (p.flags / 16 % 2)) % 2 ^ 32
move_x p x h = rw (extend_sign_lem p.flags 4 p.dx h.dx, test_bit-four p.flags) (ground arith)

move_y :
    (p : Packet) (y : ℕ)
    → IsPacket p
    → (y + negate (extend_sign p.flags 5 p.dy)) % 2 ^ 32
      ≡ (y + 2 ^ 32 + 256 * (p.flags / 32 % 2) - p.dy) % 2 ^ 32
move_y p y h =
    rw (extend_sign_lem p.flags 5 p.dy h.dy, test_bit-five p.flags) (ground (arith, h.dy))

marked_test : (b : ℕ) → not (bit_and b 0x08 == 0) ≡ (b / 8 % 2 == 1)
marked_test b = rw (bit_and-pow 3 b, test_bit-three b) (ground arith)

-- The state after a whole packet.
abbrev after_packet : Packet → Mouse → Mouse
after_packet p m =
    decode (record m { packet0 = p.flags; packet1 = p.dx; packet2 = p.dy; cycle = 2 })

process_packet :
    (p : Packet) (m : Mouse) (rest : List ℕ)
    → IsPacket p
    → m.cycle ≡ 0
    → process_bytes (p.flags ∷ p.dx ∷ p.dy ∷ rest) m ≡ process_bytes rest (after_packet p m)
unfolding process_bytes process_packet_byte in_cycle
process_packet p m rest h begin =
    let marked : (p.flags / 8 % 2 == 1) ≡ true = ground (arith, h.marked) in
    rw (begin, marked_test p.flags, marked) refl

pointer-after_packet :
    (p : Packet) (m : Mouse) → IsPacket p → pointer (after_packet p m) ≡ move p (pointer m)
unfolding decode
pointer-after_packet p m h = rw (move_x p m.x h, move_y p m.y h, bit_and_low 2 p.flags) refl

cycle-after_packet : (p : Packet) (m : Mouse) → (after_packet p m).cycle ≡ 0
unfolding decode
cycle-after_packet p m = refl

process_packets :
    (ps : List Packet) (m : Mouse)
    → AllPackets ps
    → m.cycle ≡ 0
    → pointer (process_bytes (bytes ps) m) ≡ moves ps (pointer m)
unfolding process_bytes
process_packets [] m h begin = refl
process_packets (p ∷ ps) m h begin =
    ap pointer (process_packet p m (bytes ps) h.0 begin)
    ∙ process_packets ps (after_packet p m) h.1 (cycle-after_packet p m)
    ∙ ap (moves ps) (pointer-after_packet p m h.0)

process_noise : (b : ℕ) (m : Mouse) → b / 8 % 2 ≡ 0 → m.cycle ≡ 0 → process_packet_byte b m ≡ m
unfolding process_packet_byte in_cycle
process_noise b m q begin =
    let plain : (b / 8 % 2 == 1) ≡ false = ground (arith, q) in
    ap (λ c. in_cycle c b m) begin ∙ rw (marked_test b, plain) refl

-- Between packets, bytes that cannot begin one are dropped, and the packets that follow move the
-- pointer one after the other: the coordinates change modulo 2 ^ 32 by the nine-bit moves, up being
-- less, and the buttons are those of the last packet.
pub process_bytes-moves :
    (noise : List ℕ) (ps : List Packet) (m : Mouse)
    → AllNoise noise
    → AllPackets ps
    → m.cycle ≡ 0
    → pointer (process_bytes (noise ++ bytes ps) m) ≡ moves ps (pointer m)
unfolding process_bytes
process_bytes-moves [] ps m q h begin = process_packets ps m h begin
process_bytes-moves (b ∷ noise) ps m q h begin =
    ap (λ m'. pointer (process_bytes (noise ++ bytes ps) m')) (process_noise b m q.0 begin)
    ∙ process_bytes-moves noise ps m q.1 h begin
