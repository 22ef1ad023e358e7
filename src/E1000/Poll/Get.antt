-- ===== src/E1000/Poll/Get.antt =====
-- A request for the page that waits on the receive ring: one call of `poll` of src/e1000.rs answers it.
use qore_os.Base.{ℕ, ◌+◌, ◌%◌, ◌≤◌, ◌≡◌, refl, ap, ◌∙◌, List, [], ◌∷◌, true, false, arith, length}
use qore_os.Ram.{Apart, load, from_le, load64, load-store-Apart}
use qore_os.Machine.{Hardware}
use qore_os.E1000.{Kernel, descriptor_addr, terminal_print, write_register}
use qore_os.E1000.Transmit.{Sent, Placed}
use qore_os.E1000.Poll.{
  done, rx_descriptor, has_packet, received, dispatch, release, poll, map_outcome,
}
use qore_os.E1000.Poll.Ring.{SameRx, handle-SameRx, poll_waiting, tap_log}
use qore_os.Net.{handle_incoming_packet, target_mac_of}
use qore_os.Net.Page.{IsPage, page_text}
use qore_os.Net.Craft.{Delivers, Fits}
use qore_os.Net.Handle.{is_for_server, has_syn, has_psh, has_get}
use qore_os.Net.Answers.{get_answer, get_answer_frame, handle_get}

-- As `Sent`, but that the descriptor of the packet was given back to the card since.
pub record Answered (hw : Hardware) (frame : List ℕ) (len : ℕ) (k k' : Kernel) : Type 0 where
  pub address : load64 k'.machine.ram (descriptor_addr k.nic) ≡ hw.place k.machine.blocks
  pub bytes : load k'.machine.ram (hw.place k.machine.blocks) (length frame) ≡ frame
  pub len_field : from_le (load k'.machine.ram (descriptor_addr k.nic + 8) 2) ≡ len
  pub cmd : load k'.machine.ram (descriptor_addr k.nic + 11) 1 ≡ 0x0B ∷ []
  pub next : k'.nic.current_tx_bucket ≡ (k.nic.current_tx_bucket + 1) % 8
  pub next_rx : k'.nic.current_rx_bucket ≡ (k.nic.current_rx_bucket + 1) % 32
  pub tails :
      k'.machine.writes
      ≡ (k.nic.bar0_address + 0x2818, k.nic.current_rx_bucket)
        ∷ (k.nic.bar0_address + 0x3818, (k.nic.current_tx_bucket + 1) % 8)
        ∷ k.machine.writes

-- The status byte of the received descriptor lies in no descriptor or block of the answer.
pub record RingsApart (hw : Hardware) (frame : List ℕ) (k : Kernel) : Type 0 where
  pub descriptor : Apart (rx_descriptor k + 12) 1 (descriptor_addr k.nic) 16
  pub block : Apart (rx_descriptor k + 12) 1 (hw.place k.machine.blocks) (length frame)

release-Answered :
    (hw : Hardware) (frame : List ℕ) (len : ℕ) (k k1 : Kernel)
    → Sent hw frame len k k1
    → SameRx k k1
    → RingsApart hw frame k
    → Answered hw frame len k (release (rx_descriptor k) k1)
unfolding release write_register
release-Answered hw frame len k k1 s same apart =
    let keep = load-store-Apart k1.machine.ram (rx_descriptor k + 12) (0 ∷ []) in
    let d = descriptor_addr k.nic in
    record {
      address = ap from_le (keep d 8 (omega (arith, apart.descriptor))) ∙ s.address;
      bytes = keep (hw.place k.machine.blocks) (length frame) apart.block ∙ s.bytes;
      len_field = ap from_le (keep (d + 8) 2 (omega (arith, apart.descriptor))) ∙ s.len_field;
      cmd = keep (d + 11) 1 (omega (arith, apart.descriptor)) ∙ s.cmd;
      next = s.next;
      next_rx = rw same.bucket refl;
      tails = rw (same.bar0, same.bucket, s.tail) refl;
    }

dispatch_server :
    (hw : Hardware) (p : List ℕ) (k : Kernel)
    → is_for_server p ≡ true
    → dispatch hw p k ≡ done (handle_incoming_packet hw p (terminal_print (tap_log p) 0x8B5CF6 k))
unfolding dispatch tap_log
dispatch_server hw p k h = ground arith

-- The packet that waits is a whole request for the page, PSH without SYN, with fields that fit. The
-- answer has a place for its frame apart from its descriptor, and both lie apart from the packet's.
pub record GetWaits (hw : Hardware) (k : Kernel) : Type 0 where
  pub waits : has_packet k ≡ true
  pub server : is_for_server (received k) ≡ true
  pub syn : has_syn (received k) ≡ false
  pub psh : has_psh (received k) ≡ true
  pub get : has_get (received k) ≡ true
  pub fits : Fits (get_answer (received k) k)
  pub placed : Placed hw (get_answer_frame (received k) k) k
  pub apart : RingsApart hw (get_answer_frame (received k) k) k

-- One call of `poll` answers such a request by one frame on the transmit ring, which a receiver accepts and
-- whose body is the page with the text of HTTP_PAYLOAD, and gives the packet's descriptor back.
pub poll_get :
    (hw : Hardware) (k : Kernel)
    → GetWaits hw k
    → length (get_answer (received k) k).body ≤ 65481
    → (k' : Kernel) × (poll hw k ≡ done (true, k'))
      × Answered hw
          (get_answer_frame (received k) k)
          (54 + length (get_answer (received k) k).body)
          k
          k'
      × Delivers (get_answer_frame (received k) k) (get_answer (received k) k)
      × IsPage (get_answer (received k) k).body (page_text k.http_payload)
unfolding target_mac_of map_outcome
poll_get hw k w size =
    let p = received k in
    let k1 = terminal_print (tap_log p) 0x8B5CF6 k in
    let handled =
      handle_get hw p k1 w.server w.syn w.psh w.get w.fits size
        (record { apart = w.placed.apart; fits = w.placed.fits }) in
    let sent = handled.0 in
    let k2 = handle_incoming_packet hw p k1 in
    let rx = handle-SameRx hw p k1 in
    (
      release (rx_descriptor k) k2,
      poll_waiting hw k (done k2) w.waits (dispatch_server hw p k w.server),
      release-Answered hw (get_answer_frame p k) (54 + length (get_answer p k).body) k k2
          (record {
            address = sent.address;
            bytes = sent.bytes;
            len_field = sent.len_field;
            cmd = sent.cmd;
            next = sent.next;
            in_ring = sent.in_ring;
            tail = sent.tail;
          })
          (record { bar0 = rx.bar0; ring = rx.ring; bucket = rx.bucket }) w.apart,
      handled.1,
      handled.2,
    )
