-- ===== src/Mouse/Tests.antt =====
-- A short stream of mouse bytes.
use qore_os.Base.{◌≡◌, refl, [], ◌∷◌, ◌++◌, arith}
use qore_os.Mouse.{start, process_bytes, process_packet_byte, in_cycle, decode, extend_sign}
use qore_os.Mouse.Packets.{Packet, IsPacket, pointer, moves, bytes, process_bytes-moves}

-- Two to the left and three up, with the left button down.
abbrev left_up : Packet
left_up = record { flags = 0x19; dx = 0xFE; dy = 3 }

left_up-IsPacket : IsPacket left_up
left_up-IsPacket = record { flags = omega arith; marked = refl; dx = omega arith; dy = omega arith }

moved :
    pointer (process_bytes (0 ∷ bytes (left_up ∷ [])) start) ≡ record { x = 398; y = 297; btn = 1 }
unfolding process_bytes process_packet_byte in_cycle decode extend_sign start
moved = refl

process_bytes_example :
    pointer (process_bytes ((0 ∷ []) ++ bytes (left_up ∷ left_up ∷ [])) start)
    ≡ moves (left_up ∷ left_up ∷ []) (pointer start)
unfolding start
process_bytes_example =
    process_bytes-moves (0 ∷ []) (left_up ∷ left_up ∷ []) start (refl, tt)
      (left_up-IsPacket, (left_up-IsPacket, tt)) refl
