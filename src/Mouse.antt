-- ===== src/Mouse.antt =====
-- src/mouse.rs: the packets of the PS/2 mouse. An `i32` is its 32-bit pattern, a number below 2 ^ 32,
-- where a negative number is that of its sum with 2 ^ 32; `fetch_add` wraps.
pub mod Packets
pub mod Setup
mod Tests
use qore_os.Base.{
  ℕ, zero, suc, ◌+◌, ◌-◌, ◌*◌, ◌%◌, ◌^◌, List, [], ◌∷◌, bit_and, bit_or, ◌==◌, not, if◌then◌else◌,
}

-- The statics MOUSE_CYCLE, MOUSE_PACKET, MOUSE_X, MOUSE_Y and MOUSE_BTN.
pub record Mouse : Type 0 where
  pub cycle : ℕ
  pub packet0 : ℕ
  pub packet1 : ℕ
  pub packet2 : ℕ
  pub x : ℕ
  pub y : ℕ
  pub btn : ℕ

unfoldable pub start : Mouse
start = record { cycle = 0; packet0 = 0; packet1 = 0; packet2 = 0; x = 400; y = 300; btn = 0 }

-- `if (state & (1 << k)) != 0 { d |= !0xFF; }`
unfoldable pub extend_sign : ℕ → ℕ → ℕ → ℕ
extend_sign state k d = if not (bit_and state (2 ^ k) == 0) then bit_or 0xFFFFFF00 d else d

-- `-d` of an `i32`
abbrev pub negate : ℕ → ℕ
negate d = (2 ^ 32 - d) % 2 ^ 32

-- A whole packet has come.
unfoldable pub decode : Mouse → Mouse
decode m =
    let state = m.packet0 in
    let dx = extend_sign state 4 m.packet1 in
    let dy = extend_sign state 5 m.packet2 in
    record m {
      x = (m.x + dx) % 2 ^ 32;
      y = (m.y + negate dy) % 2 ^ 32;
      btn = bit_and state 0x03;
      cycle = 0;
    }

-- `match MOUSE_CYCLE`
unfoldable pub in_cycle : ℕ → ℕ → Mouse → Mouse
in_cycle zero byte m =
    if not (bit_and byte 0x08 == 0) then record m { packet0 = byte; cycle = m.cycle + 1 } else m
in_cycle (suc zero) byte m = record m { packet1 = byte; cycle = m.cycle + 1 }
in_cycle (suc (suc zero)) byte m = decode (record m { packet2 = byte })
in_cycle (suc (suc (suc n))) byte m = record m { cycle = 0 }

unfoldable pub process_packet_byte : ℕ → Mouse → Mouse
process_packet_byte byte m = in_cycle m.cycle byte m

-- The interrupts of some bytes, one after the other.
unfoldable pub process_bytes : List ℕ → Mouse → Mouse
process_bytes [] m = m
process_bytes (b ∷ bs) m = process_bytes bs (process_packet_byte b m)
