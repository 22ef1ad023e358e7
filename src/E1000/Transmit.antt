-- ===== src/E1000/Transmit.antt =====
-- What the card is left with when a frame is put on the transmit ring.
use qore_os.Base.{
  take, drop, replicate, get_or, ℕ, ◌+◌, ◌%◌, ◌^◌, ◌<◌, ◌≡◌, refl, ap, ◌∙◌, List, [], ◌∷◌, arith,
  length,
}
use qore_os.Ram.{
  Ram, store, load, from_le, le_bytes, Apart, load64, load-store_self, load-store-Apart,
  from_le-le_bytes, length-le_bytes,
}
use qore_os.Machine.{Hardware}
use qore_os.E1000.{Kernel, descriptor_addr, resize, transmit, arp_request, arp_request_frame}
use qore_os.E1000.Arp.{Mac, Ip}
use qore_os.Net.{be16, ip_at}
use qore_os.Net.Craft.{mac_at}

-- The three writes to the descriptor at `d`, and what is read back from it.
module _ (m : Ram) (d frame_ptr len : ℕ) where
  abbrev descriptor : Ram
  descriptor =
      store (store (store m d (le_bytes 8 frame_ptr)) (d + 8) (le_bytes 2 len)) (d + 11) (0x0B ∷ [])

  descriptor-Apart : (p n : ℕ) → Apart d 16 p n → load descriptor p n ≡ load m p n
  descriptor-Apart p n h =
      load-store-Apart _ (d + 11) (0x0B ∷ []) p n (omega arith)
      ∙ load-store-Apart _ (d + 8) (le_bytes 2 len) p n (omega (arith, length-le_bytes 2 len))
      ∙ load-store-Apart m d (le_bytes 8 frame_ptr) p n (omega (arith, length-le_bytes 8 frame_ptr))

  descriptor_address : frame_ptr < 2 ^ 64 → from_le (load descriptor d 8) ≡ frame_ptr
  unfolding le_bytes
  descriptor_address h =
      ap from_le (
        load-store-Apart _ (d + 11) (0x0B ∷ []) d 8 (omega arith)
        ∙ load-store-Apart _ (d + 8) (le_bytes 2 len) d 8 (omega arith)
        ∙ load-store_self m d (le_bytes 8 frame_ptr))
      ∙ from_le-le_bytes 8 frame_ptr (omega arith)

  descriptor_length : len < 2 ^ 16 → from_le (load descriptor (d + 8) 2) ≡ len
  unfolding le_bytes
  descriptor_length h =
      ap from_le (
        load-store-Apart _ (d + 11) (0x0B ∷ []) (d + 8) 2 (omega arith)
        ∙ load-store_self _ (d + 8) (le_bytes 2 len))
      ∙ from_le-le_bytes 2 len (omega arith)

  descriptor_cmd : load descriptor (d + 11) 1 ≡ 0x0B ∷ []
  descriptor_cmd = load-store_self _ (d + 11) (0x0B ∷ [])

-- The descriptor of the bucket that `k` was at describes `frame`, whose bytes stand in memory, with
-- the commands to end, checksum and report it; the tail register was last written with the next
-- bucket, at which `k'` is.
pub record Sent (hw : Hardware) (frame : List ℕ) (len : ℕ) (k k' : Kernel) : Type 0 where
  pub address : load64 k'.machine.ram (descriptor_addr k.nic) ≡ hw.place k.machine.blocks
  pub bytes : load k'.machine.ram (hw.place k.machine.blocks) (length frame) ≡ frame
  pub len_field : from_le (load k'.machine.ram (descriptor_addr k.nic + 8) 2) ≡ len
  pub cmd : load k'.machine.ram (descriptor_addr k.nic + 11) 1 ≡ 0x0B ∷ []
  pub next : k'.nic.current_tx_bucket ≡ (k.nic.current_tx_bucket + 1) % 8
  pub in_ring : k'.nic.current_tx_bucket < 8
  pub tail :
      k'.machine.writes
      ≡ (k.nic.bar0_address + 0x3818, (k.nic.current_tx_bucket + 1) % 8) ∷ k.machine.writes

-- The leaked block stands apart from the descriptor that is written, and addresses fit 64 bits.
pub record Placed (hw : Hardware) (frame : List ℕ) (k : Kernel) : Type 0 where
  pub apart : Apart (descriptor_addr k.nic) 16 (hw.place k.machine.blocks) (length frame)
  pub fits : hw.place k.machine.blocks < 2 ^ 64

-- A frame whose block stands apart from the descriptor, and whose length fits the length field, is
-- put on the ring as `Sent` says.
pub transmit-Sent :
    (hw : Hardware) (frame : List ℕ) (len : ℕ) (k : Kernel)
    → Placed hw frame k
    → len < 2 ^ 16
    → Sent hw frame len k (transmit hw frame len k)
unfolding transmit
transmit-Sent hw frame len k p h =
    let d = descriptor_addr k.nic in
    let place = hw.place k.machine.blocks in
    let m = store k.machine.ram place frame in
    record {
      address = descriptor_address m d place len p.fits;
      bytes =
          descriptor-Apart m d place len place (length frame) p.apart
          ∙ load-store_self k.machine.ram place frame;
      len_field = descriptor_length m d place len h;
      cmd = descriptor_cmd m d place len;
      next = refl;
      in_ring = omega arith;
      tail = refl;
    }

-- The frame is an ARP request of 60 bytes to all, for Ethernet and IPv4, in which `mac` at 10.0.2.15 asks
-- for the hardware address of `ip`; zeros fill it up.
pub record IsArpRequest (frame : List ℕ) (mac : Mac) (ip : Ip) : Type 0 where
  pub size : length frame ≡ 60
  pub dest : take 6 frame ≡ 0xFF ∷ 0xFF ∷ 0xFF ∷ 0xFF ∷ 0xFF ∷ 0xFF ∷ []
  pub source : mac_at frame 6 ≡ mac
  pub ethertype : be16 frame 12 ≡ 0x0806
  pub hardware : be16 frame 14 ≡ 1
  pub protocol : be16 frame 16 ≡ 0x0800
  pub sizes : (get_or frame 18 0 ≡ 6) × (get_or frame 19 0 ≡ 4)
  pub opcode : be16 frame 20 ≡ 1
  pub sender_mac : mac_at frame 22 ≡ mac
  pub sender_ip : ip_at frame 28 ≡ record { a = 10; b = 0; c = 2; d = 15 }
  pub target_mac : take 6 (drop 32 frame) ≡ replicate 6 0
  pub target_ip : ip_at frame 38 ≡ ip
  pub padding : drop 42 frame ≡ replicate 18 0

arp_request_frame-IsArpRequest :
    (mac : Mac) (ip : Ip) → IsArpRequest (arp_request_frame mac ip) mac ip
unfolding arp_request_frame resize
arp_request_frame-IsArpRequest mac ip = record {
  size = refl;
  dest = refl;
  source = refl;
  ethertype = refl;
  hardware = refl;
  protocol = refl;
  sizes = (refl, refl);
  opcode = refl;
  sender_mac = refl;
  sender_ip = refl;
  target_mac = refl;
  target_ip = refl;
  padding = refl;
}

-- With a place for the frame apart from its descriptor, `arp_request` puts one frame of 60 bytes on the
-- transmit ring: an ARP request to all that asks, from the card's hardware address and 10.0.2.15, for the
-- hardware address of `target_ip`, padded with 18 zeros.
pub arp_request-Sent :
    (hw : Hardware) (target_ip : Ip) (k : Kernel)
    → Placed hw (arp_request_frame k.nic.mac_address target_ip) k
    → Sent hw (arp_request_frame k.nic.mac_address target_ip) 60 k (arp_request hw target_ip k)
      × IsArpRequest (arp_request_frame k.nic.mac_address target_ip) k.nic.mac_address target_ip
unfolding arp_request
arp_request-Sent hw target_ip k p =
    let sent =
      transmit-Sent hw (arp_request_frame k.nic.mac_address target_ip) 60 k p (omega arith) in
    (
      record {
        address = sent.address;
        bytes = sent.bytes;
        len_field = sent.len_field;
        cmd = sent.cmd;
        next = sent.next;
        in_ring = sent.in_ring;
        tail = sent.tail;
      },
      arp_request_frame-IsArpRequest k.nic.mac_address target_ip,
    )
