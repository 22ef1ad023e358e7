-- ===== src/E1000.antt =====
-- The network card of src/e1000.rs: its ring setup and what it sends. `poll` is in the child
-- `Poll`, since it hands packets to src/net.rs. The statics NET_CARD (with a card in it), ARP_TABLE
-- and HTTP_PAYLOAD are the fields of `Kernel`, beside the machine. Ring addresses and register
-- addresses are far below 2^64, so the sums that form them do not wrap.
pub mod Arp
pub mod Transmit
pub mod Poll
pub mod Sample
mod Tests
use qore_os.Base.{
  ℕ, zero, suc, ◌+◌, ◌-◌, ◌*◌, ◌/◌, ◌%◌, ◌^◌, List, [], ◌∷◌, ◌++◌, Option, bit_and, bit_or,
  replicate, length, take, leb, if◌then◌else◌,
}
use qore_os.Ram.{le_bytes}
use qore_os.Text.{codes}
use qore_os.Machine.{Hardware, Machine, write_mmio, write_ram, print, leak}
use qore_os.E1000.Arp.{Mac, Ip, mac_bytes, ip_bytes, ArpCache}

pub record E1000 : Type 0 where
  pub bar0_address : ℕ
  pub rx_ring_ptr : ℕ
  pub current_rx_bucket : ℕ
  pub tx_ring_ptr : ℕ
  pub current_tx_bucket : ℕ
  pub mac_address : Mac

pub record Kernel : Type 0 where
  pub nic : E1000
  pub arp : ArpCache
  pub http_payload : Option (List ℕ)
  pub machine : Machine

abbrev pub my_mac : Mac
my_mac = record { m0 = 0x52; m1 = 0x54; m2 = 0x00; m3 = 0x12; m4 = 0x34; m5 = 0x56 }

abbrev pub my_ip : Ip
my_ip = record { a = 10; b = 0; c = 2; d = 15 }

-- `E1000::new`
unfoldable pub new : ℕ → E1000
new bar0 = record {
  bar0_address = bar0;
  rx_ring_ptr = 0;
  current_rx_bucket = 0;
  tx_ring_ptr = 0;
  current_tx_bucket = 0;
  mac_address = my_mac;
}

unfoldable pub write_register : ℕ → ℕ → Kernel → Kernel
write_register offset value k = record k {
  machine = write_mmio (k.nic.bar0_address + offset) value k.machine;
}

abbrev pub terminal_print : List ℕ → ℕ → Kernel → Kernel
terminal_print text color k = record k { machine = print text color k.machine }

-- `Vec::resize(n, 0)`
unfoldable pub resize : List ℕ → ℕ → List ℕ
resize xs n = if leb n (length xs) then take n xs else xs ++ replicate (n - length xs) 0

abbrev pub descriptor_addr : E1000 → ℕ
descriptor_addr nic = nic.tx_ring_ptr + nic.current_tx_bucket * 16

-- How each sender puts a frame on the ring: leak it, fill in the descriptor's address, length and
-- command (1 << 0 | 1 << 1 | 1 << 3), go on to the next bucket and write the tail register.
unfoldable pub transmit : Hardware → List ℕ → ℕ → Kernel → Kernel
unfolding write_register
transmit hw frame len k =
    let m1 = leak hw frame k.machine in
    let addr = descriptor_addr k.nic in
    let m2 = write_ram addr (le_bytes 8 (hw.place k.machine.blocks)) m1 in
    let m3 = write_ram (addr + 8) (le_bytes 2 len) m2 in
    let m4 = write_ram (addr + 11) (0x0B ∷ []) m3 in
    let bucket = (k.nic.current_tx_bucket + 1) % 8 in
    write_register 0x3818 bucket
      (record k { nic = record (k.nic) { current_tx_bucket = bucket }; machine = m4 })

unfoldable pub arp_request_frame : Mac → Ip → List ℕ
unfolding resize
arp_request_frame mac target_ip =
    resize
      ((0xFF ∷ 0xFF ∷ 0xFF ∷ 0xFF ∷ 0xFF ∷ 0xFF ∷ [])
        ++ (mac_bytes mac
            ++ ((0x08 ∷ 0x06 ∷ 0x00 ∷ 0x01 ∷ 0x08 ∷ 0x00 ∷ 0x06 ∷ 0x04 ∷ 0x00 ∷ 0x01 ∷ [])
                ++ (mac_bytes mac
                    ++ ((10 ∷ 0 ∷ 2 ∷ 15 ∷ 0x00 ∷ 0x00 ∷ 0x00 ∷ 0x00 ∷ 0x00 ∷ 0x00 ∷ [])
                        ++ ip_bytes target_ip)))))
      60

unfoldable pub arp_request : Hardware → Ip → Kernel → Kernel
unfolding transmit arp_request_frame
arp_request hw target_ip k =
    terminal_print (codes "\nNET: ARP Request Broadcasted to Network.\n") 0x3B82F6
      (transmit hw (arp_request_frame k.nic.mac_address target_ip) 60 k)

unfoldable pub qemu_router_handshake : Hardware → Kernel → Kernel
unfolding arp_request
qemu_router_handshake hw k =
    arp_request hw (record { a = 10; b = 0; c = 2; d = 2 })
      (terminal_print (codes "\n> NET: INITIATING QEMU ROUTER HANDSHAKE (10.0.2.2)...\n") 0xF59E0B
        k)

abbrev pub udp_frame : List ℕ
udp_frame =
    (0xFF ∷ 0xFF ∷ 0xFF ∷ 0xFF ∷ 0xFF ∷ 0xFF ∷ 0x52 ∷ 0x54 ∷ 0x00 ∷ 0x12 ∷ 0x34 ∷ 0x56 ∷ 0x08 ∷ 0x00
      ∷ 0x45 ∷ 0x00 ∷ 0x00 ∷ 0x3A ∷ 0x00 ∷ 0x00 ∷ 0x40 ∷ 0x00 ∷ 0x40 ∷ 0x11 ∷ 0x00 ∷ 0x00 ∷ 10 ∷ 0
      ∷ 2 ∷ 15 ∷ 255 ∷ 255 ∷ 255 ∷ 255 ∷ 0x1A ∷ 0x0A ∷ 0x1A ∷ 0x0B ∷ 0x00 ∷ 0x26 ∷ 0x00 ∷ 0x00 ∷ [])
    ++ codes "QOREOS NODE ONLINE"

unfoldable pub udp_broadcast : Hardware → Kernel → Kernel
unfolding transmit
udp_broadcast hw k =
    terminal_print (codes "\nSYS NET TX: UDP BROADCAST FIRED!\n") 0xEF4444
      (transmit hw udp_frame 60 k)

-- One RxDescriptor with its buffer and all else 0.
abbrev pub rx_descriptor_bytes : ℕ → List ℕ
rx_descriptor_bytes buffer_ptr = le_bytes 8 buffer_ptr ++ replicate 8 0

-- The loop of `init_rx_ring`: a leaked buffer of 2048 zero bytes for each descriptor, and the bytes
-- of the descriptors.
unfoldable pub fill_rx_ring : Hardware → ℕ → Machine → List ℕ × Machine
fill_rx_ring hw zero m = ([], m)
fill_rx_ring hw (suc n) m =
    let rest = fill_rx_ring hw n (leak hw (replicate 2048 0) m) in
    (rx_descriptor_bytes (hw.place m.blocks) ++ rest.0, rest.1)

unfoldable pub init_rx_ring : Hardware → Kernel → Kernel
unfolding write_register fill_rx_ring
init_rx_ring hw k =
    let ctrl = hw.device k.machine.reads (k.nic.bar0_address + 0x0000) in
    let k1 = record k { machine = record (k.machine) { reads = k.machine.reads + 1 } } in
    let k2 = write_register 0x0000 (bit_or ctrl (2 ^ 6)) k1 in
    let ring = fill_rx_ring hw 32 k2.machine in
    let ring_ptr = hw.place ring.1.blocks in
    let k3 = record k2 {
      nic = record (k2.nic) { rx_ring_ptr = ring_ptr };
      machine = leak hw ring.0 ring.1;
    } in
    let k4 = write_register 0x2800 (bit_and ring_ptr 0xFFFFFFFF) k3 in
    let k5 =
      write_register 0x2818 31 (write_register 0x2810 0 (write_register 0x2808 (32 * 16) k4)) in
    let mac = k.nic.mac_address in
    let ral =
      bit_or (bit_or (bit_or mac.m0 (mac.m1 * 2 ^ 8)) (mac.m2 * 2 ^ 16)) (mac.m3 * 2 ^ 24) in
    let rah = bit_or (bit_or mac.m4 (mac.m5 * 2 ^ 8)) (2 ^ 31) in
    write_register 0x0100 (2 ^ 1 + 2 ^ 3 + 2 ^ 4 + 2 ^ 15)
      (write_register 0x5404 rah (write_register 0x5400 ral k5))

unfoldable pub init_tx_ring : Hardware → Kernel → Kernel
unfolding write_register
init_tx_ring hw k =
    let ring_ptr = hw.place k.machine.blocks in
    let k1 = record k {
      nic = record (k.nic) { tx_ring_ptr = ring_ptr };
      machine = leak hw (replicate (8 * 16) 0) k.machine;
    } in
    let k2 =
      write_register 0x3808 (8 * 16) (write_register 0x3800 (bit_and ring_ptr 0xFFFFFFFF) k1) in
    write_register 0x0400 (2 ^ 1 + 2 ^ 3) (write_register 0x3818 0 (write_register 0x3810 0 k2))
