-- ===== src/E1000/Poll/Ring.antt =====
-- The receive ring under `poll`: which calls return, and what a call leaves of the ring.
use qore_os.Base.{
  ℕ, ◌+◌, ◌%◌, ◌<◌, ◌≡◌, refl, List, ◌∷◌, Bool, true, false, ◌&&◌, ◌||◌, not, inl, inr, arith,
  length, ltb, ◌++◌, ◌==◌, if◌then◌else◌, Bool-cases,
}
use qore_os.Ram.{store}
use qore_os.Text.{codes, decimal, hex4}
use qore_os.Machine.{Hardware}
use qore_os.E1000.{Kernel, transmit, terminal_print, write_register, my_ip}
use qore_os.E1000.Arp.{insert, ip_eq}
use qore_os.E1000.Poll.{
  Outcome, panic, done, rx_descriptor, has_packet, received, answer_arp, arp_reply, handle_arp,
  dispatch, release, map_outcome, poll,
}
use qore_os.Net.{
  be16, ip_at, handle_incoming_packet, send_tcp_syn_ack, send_http_response, inject_frame,
}
use qore_os.Net.Handle.{is_for_server, has_syn, has_psh, has_get, syn_reply, get_reply, handle_lem}
use qore_os.Net.Craft.{mac_at}

-- The packet has every byte that `poll` reads of it: an Ethernet header, and of an ARP packet
-- the fixed part, and the addresses too if it is one for Ethernet and IPv4.
abbrev pub is_readable : List ℕ → Bool
is_readable p =
    not (ltb (length p) 14)
    && (not (be16 p 12 == 0x0806)
        || (not (ltb (length p) 22)
            && (not (be16 p 14 == 1 && be16 p 16 == 0x0800) || not (ltb (length p) 42))))

-- The card's registers, its receive ring and the hardware address, which replies do not change.
pub record SameRx (k k' : Kernel) : Type 0 where
  pub bar0 : k'.nic.bar0_address ≡ k.nic.bar0_address
  pub ring : k'.nic.rx_ring_ptr ≡ k.nic.rx_ring_ptr
  pub bucket : k'.nic.current_rx_bucket ≡ k.nic.current_rx_bucket

transmit-SameRx :
    (hw : Hardware) (frame : List ℕ) (len : ℕ) (k : Kernel) → SameRx k (transmit hw frame len k)
unfolding transmit
transmit-SameRx hw frame len k = record { bar0 = refl; ring = refl; bucket = refl }

syn_reply-SameRx : (hw : Hardware) (p : List ℕ) (k : Kernel) → SameRx k (syn_reply hw p k)
unfolding syn_reply send_tcp_syn_ack inject_frame transmit
syn_reply-SameRx hw p k = record { bar0 = refl; ring = refl; bucket = refl }

get_reply-SameRx : (hw : Hardware) (p : List ℕ) (k : Kernel) → SameRx k (get_reply hw p k)
unfolding get_reply send_http_response inject_frame transmit
get_reply-SameRx hw p k = record { bar0 = refl; ring = refl; bucket = refl }

if-SameRx : {k x y : Kernel} (b : Bool) → SameRx k x → SameRx k y → SameRx k (if b then x else y)
if-SameRx true hx hy = hx
if-SameRx false hx hy = hy

answer_arp-SameRx : (hw : Hardware) (p : List ℕ) (k : Kernel) → SameRx k (answer_arp hw p k)
unfolding answer_arp arp_reply transmit
answer_arp-SameRx hw p k =
    if-SameRx (ip_eq (ip_at p 38) my_ip) (record { bar0 = refl; ring = refl; bucket = refl })
      (record { bar0 = refl; ring = refl; bucket = refl })

pub handle-SameRx :
    (hw : Hardware) (p : List ℕ) (k : Kernel) → SameRx k (handle_incoming_packet hw p k)
handle-SameRx hw p k =
    let same : SameRx k k = record { bar0 = refl; ring = refl; bucket = refl } in
    let get = if-SameRx (has_get p) (get_reply-SameRx hw p k) same in
    rw (handle_lem hw p k) (
      if-SameRx (is_for_server p)
        (if-SameRx (has_syn p) (syn_reply-SameRx hw p k) (if-SameRx (has_psh p) get same)) same)

-- The tests of `dispatch`, with what it returns.
dispatch_cases :
    {k : Kernel} (short arp brief eth cut ipv4 : Bool) (answered ignored handled other : Kernel)
    → SameRx k answered
    → SameRx k ignored
    → SameRx k handled
    → SameRx k other
    → (not short && (not arp || (not brief && (not eth || not cut)))) ≡ true
    → (k' : Kernel) × (((if short
            then panic
            else if arp
            then (if brief
                then panic
                else if eth
                then (if cut then panic else done answered)
                else done ignored)
            else if ipv4
            then done handled
            else done other)
          ≡ done k')
        × SameRx k k')
dispatch_cases true arp brief eth cut ipv4 a i h o ha hi hh ho e = cc
dispatch_cases false true true eth cut ipv4 a i h o ha hi hh ho e = cc
dispatch_cases false true false true true ipv4 a i h o ha hi hh ho e = cc
dispatch_cases false true false true false ipv4 a i h o ha hi hh ho e = (a, (refl, ha))
dispatch_cases false true false false cut ipv4 a i h o ha hi hh ho e = (i, (refl, hi))
dispatch_cases false false brief eth cut true a i h o ha hi hh ho e = (h, (refl, hh))
dispatch_cases false false brief eth cut false a i h o ha hi hh ho e = (o, (refl, ho))

unfoldable pub tap_log : List ℕ → List ℕ
tap_log p =
    codes "> NET [RAW]: HARDWARE TRIGGERED! LEN: "
    ++ (decimal (length p) ++ (codes " ETHERTYPE: 0x" ++ (hex4 (be16 p 12) ++ codes "\n")))

-- `dispatch` returns for a readable packet, with the receive ring as it was.
dispatch-done :
    (hw : Hardware) (p : List ℕ) (k : Kernel)
    → is_readable p ≡ true
    → (k' : Kernel) × ((dispatch hw p k ≡ done k') × SameRx k k')
unfolding dispatch handle_arp tap_log
dispatch-done hw p k h =
    let k1 = terminal_print (tap_log p) 0x8B5CF6 k in
    let k2 = record k1 { arp = insert k1.arp (ip_at p 28) (mac_at p 22) } in
    let same : SameRx k k1 = record { bar0 = refl; ring = refl; bucket = refl } in
    let answer = answer_arp-SameRx hw p k2 in
    let handled = handle-SameRx hw p k1 in
    dispatch_cases (ltb (length p) 14) (be16 p 12 == 0x0806) (ltb (length p) 22)
      (be16 p 14 == 1 && be16 p 16 == 0x0800) (ltb (length p) 42) (be16 p 12 == 0x0800)
      (if be16 p 20 == 1 then answer_arp hw p k2 else k2) k1 (handle_incoming_packet hw p k1) k1
      (if-SameRx (be16 p 20 == 1)
        (record { bar0 = answer.bar0; ring = answer.ring; bucket = answer.bucket })
        (record { bar0 = refl; ring = refl; bucket = refl }))
      same (record { bar0 = handled.bar0; ring = handled.ring; bucket = handled.bucket }) same h

dispatch-panic :
    (hw : Hardware) (p : List ℕ) (k : Kernel) → is_readable p ≡ false → dispatch hw p k ≡ panic
unfolding dispatch handle_arp
dispatch-panic hw p k h = ground arith

-- What a call of `poll` leaves of the receive ring: the descriptor that it read has status 0, so that
-- the card may use it again, the tail register was last written with its index, and the next index
-- lies in the ring.
pub record Released (k k' : Kernel) : Type 0 where
  pub status : k'.machine.ram (rx_descriptor k + 12) ≡ 0
  pub tail :
      (earlier : List (ℕ × ℕ)) × k'.machine.writes
        ≡ (k.nic.bar0_address + 0x2818, k.nic.current_rx_bucket) ∷ earlier
  pub next : k'.nic.current_rx_bucket ≡ (k.nic.current_rx_bucket + 1) % 32
  pub in_ring : k'.nic.current_rx_bucket < 32
  pub ring : k'.nic.rx_ring_ptr ≡ k.nic.rx_ring_ptr

release-Released : (k k' : Kernel) → SameRx k k' → Released k (release (rx_descriptor k) k')
unfolding release write_register store
release-Released k k' same = record {
  status = ground arith;
  tail = (k'.machine.writes, rw (same.bar0, same.bucket) refl);
  next = rw (same.bucket) refl;
  in_ring = omega arith;
  ring = same.ring;
}

-- How a call of `poll` ends.
pub data PollStep (k : Kernel) : Outcome (Bool × Kernel) → Type 0 where
  idle : has_packet k ≡ false → PollStep k (done (false, k))
  cut_off : has_packet k ≡ true → is_readable (received k) ≡ false → PollStep k panic
  taken :
      (k' : Kernel)
      → has_packet k ≡ true
      → is_readable (received k) ≡ true
      → Released k k'
      → PollStep k (done (true, k'))

pub poll_waiting :
    (hw : Hardware) (k : Kernel) (o : Outcome Kernel)
    → has_packet k ≡ true
    → dispatch hw (received k) k ≡ o
    → poll hw k ≡ map_outcome (λ k'. (true, release (rx_descriptor k) k')) o
unfolding poll
poll_waiting hw k o waits e = rw (waits, e) refl

-- Where no packet waits, `poll` returns false and changes nothing; where one waits that has the
-- bytes which `poll` reads, it returns true and gives the descriptor back; it panics exactly where
-- one waits that lacks them.
pub poll-PollStep : (hw : Hardware) (k : Kernel) → PollStep k (poll hw k)
unfolding map_outcome
poll-PollStep hw k = elim (Bool-cases (has_packet k)) [
  | inr none_waits ↦
      let e : poll hw k ≡ done (false, k) = unfold poll in rw none_waits refl in
      rw e (idle none_waits)
  | inl waits ↦ elim (Bool-cases (is_readable (received k))) [
    | inr cut ↦
        rw (poll_waiting hw k panic waits (dispatch-panic hw (received k) k cut))
          (cut_off waits cut)
    | inl whole ↦
        let r = dispatch-done hw (received k) k whole in
        rw (poll_waiting hw k (done r.0) waits r.1.0)
          (taken (release (rx_descriptor k) r.0) waits whole (release-Released k r.0 r.1.1))
  ]
]
