-- ===== src/E1000/Poll/Answer.antt =====
-- The answer of `poll` to an ARP request for 10.0.2.15.
use qore_os.Base.{
  ℕ, ◌≡◌, refl, ◌∙◌, List, ◌++◌, Bool, true, ◌&&◌, ◌||◌, not, arith, length, ltb, ◌==◌,
  if◌then◌else◌, some,
}
use qore_os.Text.{codes, decimal, hex4}
use qore_os.Machine.{Hardware}
use qore_os.E1000.{Kernel, my_ip, resize, transmit, terminal_print}
use qore_os.E1000.Arp.{Mac, Ip, insert, lookup, ip_eq}
use qore_os.E1000.Arp.Laws.{has_room, is_known, ip_eq_refl, lookup-insert}
use qore_os.E1000.Transmit.{Sent, Placed, transmit-Sent}
use qore_os.E1000.Poll.{done, dotted, arp_reply_frame, arp_reply, answer_arp, handle_arp, dispatch}
use qore_os.Net.{be16, ip_at}
use qore_os.Net.Craft.{mac_at}

-- The packet is a whole ARP request, for Ethernet and IPv4, for the kernel's address.
abbrev pub asks_us : List ℕ → Bool
asks_us p =
    not (ltb (length p) 42)
    && (be16 p 12 == 0x0806
        && (be16 p 14 == 1
            && (be16 p 16 == 0x0800 && (be16 p 20 == 1 && ip_eq (ip_at p 38) my_ip))))

abbrev pub answer_frame : List ℕ → Kernel → List ℕ
answer_frame p k = arp_reply_frame k.nic.mac_address (mac_at p 22) (ip_at p 28)

-- The frame is 60 bytes: an ARP reply to the hardware address `peer`, which tells the peer at the IP
-- address `ip` that 10.0.2.15 is at `mac`.
pub record IsArpReply (frame : List ℕ) (mac peer : Mac) (ip : Ip) : Type 0 where
  pub size : length frame ≡ 60
  pub dest : mac_at frame 0 ≡ peer
  pub source : mac_at frame 6 ≡ mac
  pub ethertype : be16 frame 12 ≡ 0x0806
  pub hardware : be16 frame 14 ≡ 1
  pub protocol : be16 frame 16 ≡ 0x0800
  pub opcode : be16 frame 20 ≡ 2
  pub sender_mac : mac_at frame 22 ≡ mac
  pub sender_ip : ip_at frame 28 ≡ my_ip
  pub target_mac : mac_at frame 32 ≡ peer
  pub target_ip : ip_at frame 38 ≡ ip

arp_reply_frame-IsArpReply :
    (mac peer : Mac) (ip : Ip) → IsArpReply (arp_reply_frame mac peer ip) mac peer ip
unfolding arp_reply_frame resize
arp_reply_frame-IsArpReply mac peer ip = record {
  size = refl;
  dest = refl;
  source = refl;
  ethertype = refl;
  hardware = refl;
  protocol = refl;
  opcode = refl;
  sender_mac = refl;
  sender_ip = refl;
  target_mac = refl;
  target_ip = refl;
}

-- The kernel with the packet logged and its sender in the cache.
learned : List ℕ → Kernel → Kernel
learned p k =
    let tap_msg =
      codes "> NET [RAW]: HARDWARE TRIGGERED! LEN: "
      ++ (decimal (length p) ++ (codes " ETHERTYPE: 0x" ++ (hex4 (be16 p 12) ++ codes "\n"))) in
    let sniffer_msg = codes "> NET: ROUTER ASKING FOR IP " ++ (dotted (ip_at p 38) ++ codes "\n") in
    let k1 = terminal_print tap_msg 0x8B5CF6 k in
    terminal_print sniffer_msg 0xF59E0B
      (record k1 { arp = insert k1.arp (ip_at p 28) (mac_at p 22) })

dispatch_asks_lem :
    (hw : Hardware) (p : List ℕ) (k : Kernel)
    → asks_us p ≡ true
    → dispatch hw p k ≡ done (arp_reply hw (mac_at p 22) (ip_at p 28) (learned p k))
unfolding dispatch handle_arp answer_arp learned
dispatch_asks_lem hw p k h = ground arith

-- A whole ARP request for 10.0.2.15, with a place for the reply apart from its descriptor, is answered
-- by one frame on the transmit ring: the ARP reply to the sender. From then on the ARP cache has the
-- sender's hardware address, if it knew the sender before or had a free entry; else it is as before
-- for the sender.
pub dispatch_asks :
    (hw : Hardware) (p : List ℕ) (k : Kernel)
    → asks_us p ≡ true
    → Placed hw (answer_frame p k) k
    → (k' : Kernel) × ((dispatch hw p k ≡ done k')
        × Sent hw (answer_frame p k) 60 k k'
        × IsArpReply (answer_frame p k) k.nic.mac_address (mac_at p 22) (ip_at p 28)
        × (lookup k'.arp (ip_at p 28) ≡ (
            if is_known k.arp (ip_at p 28) || has_room k.arp
            then some (mac_at p 22)
            else lookup k.arp (ip_at p 28))))
unfolding learned arp_reply transmit
dispatch_asks hw p k asks placed =
    let s =
      transmit-Sent hw (answer_frame p k) 60 (learned p k)
        (record { apart = placed.apart; fits = placed.fits }) (omega arith) in
    (
      arp_reply hw (mac_at p 22) (ip_at p 28) (learned p k),
      (
        dispatch_asks_lem hw p k asks,
        record {
          address = s.address;
          bytes = s.bytes;
          len_field = s.len_field;
          cmd = s.cmd;
          next = s.next;
          in_ring = s.in_ring;
          tail = s.tail;
        },
        arp_reply_frame-IsArpReply k.nic.mac_address (mac_at p 22) (ip_at p 28),
        lookup-insert k.arp (ip_at p 28) (ip_at p 28) (mac_at p 22) ∙ self (ip_at p 28),
      ),
    )
  where
    self :
        (ip : Ip)
        → (if (is_known k.arp ip || has_room k.arp) && ip_eq ip ip
            then some (mac_at p 22)
            else lookup k.arp ip)
          ≡ (if is_known k.arp ip || has_room k.arp then some (mac_at p 22) else lookup k.arp ip)
    self ip = rw (ip_eq_refl ip) (ground arith)
