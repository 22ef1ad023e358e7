-- ===== src/Net/Answers.antt =====
-- Which packets the kernel answers, and with what.
use mathlib.Core.Path.{subst}
use qore_os.Base.{
  ℕ, ◌+◌, ◌%◌, ◌^◌, ◌≤◌, ◌<◌, ◌≡◌, refl, ◌∙◌, Bool, true, false, ◌&&◌, ◌||◌, if◌then◌else◌, List,
  arith, length,
}
use qore_os.Text.{codes}
use qore_os.Machine.{Hardware}
use qore_os.E1000.{Kernel, terminal_print, transmit}
use qore_os.E1000.Transmit.{Sent, Placed, transmit-Sent}
use qore_os.Net.{
  be16, be32, ip_at, inject_frame, syn_ack_frame, http_frame, http_body, file_content,
  send_tcp_syn_ack, send_http_response, target_mac_of, handle_incoming_packet,
}
use qore_os.Net.Craft.{Fits, Delivers, Segment}
use qore_os.Net.Replies.{syn_ack, http_response, syn_ack_frame-Delivers, http_frame-Delivers}
use qore_os.Net.Page.{IsPage, page_text, http_body-IsPage, file_content-page_text}
use qore_os.Net.Handle.{
  tcp_at, data_len_of, is_for_server, has_syn, has_psh, has_get, syn_log, syn_reply, get_reply,
  handle_lem,
}

-- A packet changes nothing at all, unless it is a whole TCP segment to 10.0.2.15, port 80, with SYN
-- set, or with PSH set and data inside the packet that starts with "GET".
pub handle_silent :
    (hw : Hardware) (p : List ℕ) (k : Kernel)
    → (is_for_server p && (has_syn p || (has_psh p && has_get p))) ≡ false
    → handle_incoming_packet hw p k ≡ k
handle_silent hw p k h =
    handle_lem hw p k ∙ quiet (is_for_server p) (has_syn p) (has_psh p) (has_get p) h
  where
    quiet :
        (a b c d : Bool)
        → (a && (b || (c && d))) ≡ false
        → (if a
            then (if b
                then syn_reply hw p k
                else if c
                then (if d then get_reply hw p k else k)
                else k)
            else k)
          ≡ k
    quiet false b c d e = refl
    quiet true true c d e = cc
    quiet true false false d e = refl
    quiet true false true true e = cc
    quiet true false true false e = refl

-- The segment that answers a SYN, and the one that answers a GET: to the sender, at the hardware
-- address that the ARP cache has for it or else at the broadcast address.
abbrev pub syn_answer : List ℕ → Kernel → Segment
syn_answer p k =
    syn_ack (target_mac_of k (ip_at p 26)) (ip_at p 26) (be16 p (tcp_at p)) (be32 p (tcp_at p + 4))

abbrev pub get_answer : List ℕ → Kernel → Segment
get_answer p k =
    http_response (target_mac_of k (ip_at p 26)) (ip_at p 26) (be16 p (tcp_at p))
      (be32 p (tcp_at p + 8)) ((be32 p (tcp_at p + 4) + data_len_of p) % 2 ^ 32)
      (http_body (file_content k.http_payload))

abbrev pub syn_answer_frame : List ℕ → Kernel → List ℕ
syn_answer_frame p k =
    syn_ack_frame (target_mac_of k (ip_at p 26)) (ip_at p 26) (be16 p (tcp_at p))
      (be32 p (tcp_at p + 4))

abbrev pub get_answer_frame : List ℕ → Kernel → List ℕ
get_answer_frame p k = let s = get_answer p k in http_frame s.mac s.ip s.port s.seq s.ack s.body

-- A frame sent between two lines on the console is sent.
transmit_between :
    (hw : Hardware) (frame : List ℕ) (len : ℕ) (k : Kernel) (text : List ℕ) (color : ℕ)
    (text' : List ℕ) (color' : ℕ)
    → Placed hw frame k
    → len < 2 ^ 16
    → Sent hw frame len k
        (terminal_print text' color' (transmit hw frame len (terminal_print text color k)))
transmit_between hw frame len k text color text' color' placed h =
    let k1 = terminal_print text color k in
    let s = transmit-Sent hw frame len k1 (record { apart = placed.apart; fits = placed.fits }) h in
    record {
      address = s.address;
      bytes = s.bytes;
      len_field = s.len_field;
      cmd = s.cmd;
      next = s.next;
      in_ring = s.in_ring;
      tail = s.tail;
    }

syn_reply_lem :
    (hw : Hardware) (p : List ℕ) (k : Kernel)
    → syn_reply hw p k
      ≡ terminal_print (codes "> NET: [SYN-ACK] TRANSMITTED TO HOST.\n") 0x3B82F6 (
          transmit hw
            (syn_answer_frame p k)
            (length (syn_answer_frame p k) % 65536)
            (terminal_print (syn_log p) 0xF59E0B k))
unfolding syn_reply send_tcp_syn_ack inject_frame target_mac_of
syn_reply_lem hw p k = refl

get_reply_lem :
    (hw : Hardware) (p : List ℕ) (k : Kernel)
    → get_reply hw p k
      ≡ terminal_print (codes "> NET: HTTP 200 OK RESPONSE SERVED. SOCKET CLOSED.\n") 0x10B981 (
          transmit hw
            (get_answer_frame p k)
            (length (get_answer_frame p k) % 65536)
            (terminal_print (codes "> NET: HTTP [GET] REQUEST INTERCEPTED!\n") 0x10B981 k))
unfolding get_reply send_http_response inject_frame target_mac_of
get_reply_lem hw p k = refl

-- A SYN segment to the server, with fields that fit and a place for the frame apart from its
-- descriptor, is answered by one frame on the transmit ring: the SYN-ACK to the sender, which a
-- receiver accepts.
pub handle_syn :
    (hw : Hardware) (p : List ℕ) (k : Kernel)
    → is_for_server p ≡ true
    → has_syn p ≡ true
    → Fits (syn_answer p k)
    → Placed hw (syn_answer_frame p k) k
    → Sent hw (syn_answer_frame p k) 58 k (handle_incoming_packet hw p k)
      × Delivers (syn_answer_frame p k) (syn_answer p k)
handle_syn hw p k server syn fits placed =
    let delivers =
      syn_ack_frame-Delivers (target_mac_of k (ip_at p 26)) (ip_at p 26) (be16 p (tcp_at p))
        (be32 p (tcp_at p + 4)) fits in
    let size : length (syn_answer_frame p k) % 65536 ≡ 58 = omega (arith, delivers.0.len) in
    (
      rw (handle_lem hw p k, server, syn, syn_reply_lem hw p k, size)
          (transmit_between hw (syn_answer_frame p k) 58 k (syn_log p) 0xF59E0B _ _ placed
            (omega arith)),
      delivers,
    )

-- A segment to the server with PSH and without SYN, whose data lies inside the packet and starts with
-- "GET", with fields that fit, a place for the frame apart from its descriptor, and a frame of at most 65535
-- bytes, is answered by this frame on the transmit ring: a segment to the sender that acknowledges the data,
-- and which a receiver accepts. Its body is a page of status 200 with the whole text of HTTP_PAYLOAD, or the
-- error text where there is none, and with the text's length as Content-Length.
pub handle_get :
    (hw : Hardware) (p : List ℕ) (k : Kernel)
    → is_for_server p ≡ true
    → has_syn p ≡ false
    → has_psh p ≡ true
    → has_get p ≡ true
    → Fits (get_answer p k)
    → length (get_answer p k).body ≤ 65481
    → Placed hw (get_answer_frame p k) k
    → Sent hw
        (get_answer_frame p k)
        (54 + length (get_answer p k).body)
        k
        (handle_incoming_packet hw p k)
      × Delivers (get_answer_frame p k) (get_answer p k)
      × IsPage (get_answer p k).body (page_text k.http_payload)
handle_get hw p k server syn psh get fits size placed =
    let s = get_answer p k in
    let delivers = http_frame-Delivers s.mac s.ip s.port s.seq s.ack s.body fits in
    let len : length (get_answer_frame p k) % 65536 ≡ 54 + length s.body =
      omega (arith, delivers.0.len, size) in
    (
      rw (handle_lem hw p k, server, syn, psh, get, get_reply_lem hw p k, len)
          (transmit_between hw (get_answer_frame p k) (54 + length s.body) k
            (codes "> NET: HTTP [GET] REQUEST INTERCEPTED!\n") 0x10B981 _ _ placed
            (omega (arith, size))),
      delivers,
      subst (IsPage s.body) (file_content-page_text k.http_payload)
          (http_body-IsPage (file_content k.http_payload) size),
    )
