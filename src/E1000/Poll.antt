-- ===== src/E1000/Poll.antt =====
-- src/e1000.rs: `poll`, which takes one packet off the receive ring. An index past the end of a
-- packet panics, as it does in the source.
pub mod Ring
pub mod Answer
pub mod Get
use qore_os.Base.{
  ℕ, ◌+◌, ◌*◌, ◌%◌, List, [], ◌∷◌, ◌++◌, Bool, true, false, ◌&&◌, not, bit_and, length, ltb, ◌==◌,
  if◌then◌else◌,
}
use qore_os.Ram.{load, from_le, load64}
use qore_os.Text.{codes, decimal, hex4}
use qore_os.Machine.{Hardware, write_ram}
use qore_os.E1000.{Kernel, my_ip, resize, terminal_print, transmit, write_register}
use qore_os.E1000.Arp.{Mac, Ip, mac_bytes, ip_bytes, ip_eq, insert}
use qore_os.Net.{be16, ip_at, handle_incoming_packet}
use qore_os.Net.Craft.{mac_at}

-- A call that returns or panics.
pub data Outcome {ℓ} (A : Type ℓ) : Type ℓ where
  panic : Outcome A
  done : A → Outcome A

abbrev pub rx_descriptor : Kernel → ℕ
rx_descriptor k = k.nic.rx_ring_ptr + k.nic.current_rx_bucket * 16

-- `(descriptor.status & 1) != 0`, of the descriptor that the card is at.
unfoldable pub has_packet : Kernel → Bool
has_packet k = not (bit_and (k.machine.ram (rx_descriptor k + 12)) 1 == 0)

-- The bytes that the descriptor gives the address and the length of.
unfoldable pub received : Kernel → List ℕ
received k =
    load k.machine.ram (load64 k.machine.ram (rx_descriptor k))
      (from_le (load k.machine.ram (rx_descriptor k + 8) 2))

abbrev pub dotted : Ip → List ℕ
dotted ip =
    decimal ip.a
    ++ (codes "." ++ (decimal ip.b ++ (codes "." ++ (decimal ip.c ++ (codes "." ++ decimal ip.d)))))

unfoldable pub arp_reply_frame : Mac → Mac → Ip → List ℕ
arp_reply_frame mac sender_mac sender_ip =
    resize
      (mac_bytes sender_mac
        ++ (mac_bytes mac
            ++ ((0x08 ∷ 0x06 ∷ 0x00 ∷ 0x01 ∷ 0x08 ∷ 0x00 ∷ 0x06 ∷ 0x04 ∷ 0x00 ∷ 0x02 ∷ [])
                ++ (mac_bytes mac
                    ++ ((10 ∷ 0 ∷ 2 ∷ 15 ∷ []) ++ (mac_bytes sender_mac ++ ip_bytes sender_ip))))))
      60

unfoldable pub arp_reply : Hardware → Mac → Ip → Kernel → Kernel
arp_reply hw sender_mac sender_ip k =
    transmit hw (arp_reply_frame k.nic.mac_address sender_mac sender_ip) 60
      (terminal_print (codes "> NET: THAT IS US! TRANSMITTING ARP REPLY...\n") 0x10B981 k)

-- `opcode == 1`
unfoldable pub answer_arp : Hardware → List ℕ → Kernel → Kernel
answer_arp hw packet k =
    let target_ip = ip_at packet 38 in
    let sniffer_msg = codes "> NET: ROUTER ASKING FOR IP " ++ (dotted target_ip ++ codes "\n") in
    let k1 = terminal_print sniffer_msg 0xF59E0B k in
    if ip_eq target_ip my_ip then arp_reply hw (mac_at packet 22) (ip_at packet 28) k1 else k1

-- The branch of an ARP packet.
unfoldable pub handle_arp : Hardware → List ℕ → Kernel → Outcome Kernel
handle_arp hw packet k =
    let k1 = record k { arp = insert k.arp (ip_at packet 28) (mac_at packet 22) } in
    if ltb (length packet) 22
    then panic
    else if be16 packet 14 == 1 && be16 packet 16 == 0x0800
    then (if ltb (length packet) 42
        then panic
        else done (if be16 packet 20 == 1 then answer_arp hw packet k1 else k1))
    else done k

unfoldable pub dispatch : Hardware → List ℕ → Kernel → Outcome Kernel
dispatch hw packet k =
    let ethertype = be16 packet 12 in
    let tap_msg =
      codes "> NET [RAW]: HARDWARE TRIGGERED! LEN: "
      ++ (decimal (length packet) ++ (codes " ETHERTYPE: 0x" ++ (hex4 ethertype ++ codes "\n"))) in
    let k1 = terminal_print tap_msg 0x8B5CF6 k in
    if ltb (length packet) 14
    then panic
    else if ethertype == 0x0806
    then handle_arp hw packet k1
    else if ethertype == 0x0800
    then done (handle_incoming_packet hw packet k1)
    else done k1

-- What `poll` does once the packet is handled: clear the status of the descriptor it came by, go on
-- to the next bucket and hand the old one back.
unfoldable pub release : ℕ → Kernel → Kernel
release descriptor_addr k =
    let old_bucket = k.nic.current_rx_bucket in
    write_register 0x2818 old_bucket (record k {
      nic = record (k.nic) { current_rx_bucket = (old_bucket + 1) % 32 };
      machine = write_ram (descriptor_addr + 12) (0 ∷ []) k.machine;
    })

unfoldable pub map_outcome {ℓ κ} : {A : Type ℓ} {B : Type κ} → (A → B) → Outcome A → Outcome B
map_outcome f panic = panic
map_outcome f (done a) = done (f a)

unfoldable pub poll : Hardware → Kernel → Outcome (Bool × Kernel)
poll hw k =
    if has_packet k
    then map_outcome (λ k'. (true, release (rx_descriptor k) k')) (dispatch hw (received k) k)
    else done (false, k)
