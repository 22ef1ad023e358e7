-- ===== src/Net.antt =====
-- src/net.rs: the TCP frames that the kernel builds, their checksums, and what it does with a
-- packet that comes in. A packet or frame is the list of its bytes; a read past its end, which the
-- length tests rule out, gives 0. The caller is `poll`, so NET_CARD holds a card.
pub mod Receiver
pub mod Checksum
pub mod Craft
pub mod Replies
pub mod Handle
pub mod Answers
pub mod Page
pub mod Sample
mod Tests
use qore_os.Base.{
  ℕ, zero, suc, ◌+◌, ◌-◌, ◌*◌, ◌/◌, ◌%◌, ◌^◌, List, [], ◌∷◌, ◌++◌, Bool, true, false, not, ◌&&◌,
  Option, none, some, bit_and, bit_or, replicate, length, take, drop, get_or, set, ltb, leb, ◌==◌,
  if◌then◌else◌,
}
use qore_os.Text.{codes, decimal}
use qore_os.Machine.{Hardware}
use qore_os.E1000.{Kernel, my_mac, my_ip, terminal_print, transmit}
use qore_os.E1000.Arp.{Mac, Ip, mac_bytes, ip_bytes, ip_eq, lookup}

-- `u16::from_be` and `u32::from_be` of a packed field at offset `i`.
abbrev pub be16 : List ℕ → ℕ → ℕ
be16 p i = get_or p i 0 * 256 + get_or p (i + 1) 0

abbrev pub be32 : List ℕ → ℕ → ℕ
be32 p i = be16 p i * 65536 + be16 p (i + 2)

abbrev pub ip_at : List ℕ → ℕ → Ip
ip_at p i = record {
  a = get_or p i 0;
  b = get_or p (i + 1) 0;
  c = get_or p (i + 2) 0;
  d = get_or p (i + 3) 0;
}

-- `to_be_bytes` of a `u16` and a `u32`
abbrev pub be_bytes2 : ℕ → List ℕ
be_bytes2 v = v / 256 % 256 ∷ v % 256 ∷ []

abbrev pub be_bytes4 : ℕ → List ℕ
be_bytes4 v = v / 16777216 % 256 ∷ v / 65536 % 256 ∷ v / 256 % 256 ∷ v % 256 ∷ []

-- `frame[i..i + n].copy_from_slice(bytes)`
abbrev pub copy_at : List ℕ → ℕ → List ℕ → List ℕ
copy_at frame i [] = frame
copy_at frame i (b ∷ bs) = copy_at (set frame i b) (i + 1) bs

unfoldable pub craft_base_tcp_frame : Mac → Ip → ℕ → ℕ → ℕ → ℕ → ℕ → List ℕ
craft_base_tcp_frame target_mac target_ip target_port seq ack flags tcp_hl =
    let frame = replicate (34 + tcp_hl) 0 in
    let f1 = copy_at (copy_at frame 0 (mac_bytes target_mac)) 6 (mac_bytes my_mac) in
    let f2 = set (set (set f1 12 0x08) 13 0x00) 14 0x45 in
    let total_ip_len = 20 + tcp_hl in
    let f3 = set (set f2 16 (total_ip_len / 256 % 256)) 17 (total_ip_len % 256) in
    let f4 = set (set (set (set f3 20 0x40) 21 0x00) 22 64) 23 6 in
    let f5 = copy_at (copy_at f4 26 (ip_bytes my_ip)) 30 (ip_bytes target_ip) in
    let f6 = copy_at (copy_at f5 34 (be_bytes2 80)) 36 (be_bytes2 target_port) in
    let f7 = copy_at (copy_at f6 38 (be_bytes4 seq)) 42 (be_bytes4 ack) in
    let f8 = set (set f7 46 (tcp_hl / 4 * 2 ^ 4 % 256)) 47 flags in
    let f9 = copy_at f8 48 (be_bytes2 0xFAF0) in
    if tcp_hl == 24 then copy_at (set (set f9 54 0x02) 55 0x04) 56 (be_bytes2 1460) else f9

-- `((frame[i] as u32) << 8) | (frame[i + 1] as u32)`
unfoldable pub word_at : List ℕ → ℕ → ℕ
word_at frame i = bit_or (get_or frame i 0 * 2 ^ 8) (get_or frame (i + 1) 0)

-- The word at `i` of the segment, whose last byte may stand alone.
unfoldable pub segment_word : List ℕ → ℕ → ℕ
segment_word frame i =
    if ltb (i + 1) (length frame) then word_at frame i else get_or frame i 0 * 2 ^ 8

-- `for i in (..).step_by(2) { chk += .. }` on `u32`, with the rounds left.
unfoldable pub sum_words : (ℕ → ℕ) → ℕ → ℕ → ℕ → ℕ
sum_words word zero i chk = chk
sum_words word (suc n) i chk = sum_words word n (i + 2) ((chk + word i) % 2 ^ 32)

-- `while (chk >> 16) > 0`, with fuel; a `u32` takes three rounds at most.
unfoldable pub fold_carries : ℕ → ℕ → ℕ
fold_carries zero chk = chk
fold_carries (suc fuel) chk = elim (chk / 2 ^ 16 == 0) [
  | true ↦ chk
  | false ↦ fold_carries fuel (bit_and chk 0xFFFF + chk / 2 ^ 16)
]

-- `!(chk as u16)`
abbrev pub complement16 : ℕ → ℕ
complement16 chk = 65535 - chk % 65536

-- The 16-bit value `v` stored at `i`, high byte first.
abbrev pub put16 : List ℕ → ℕ → ℕ → List ℕ
put16 frame i v = set (set frame i (v / 256 % 256)) (i + 1) (v % 256)

unfoldable pub ip_checksum : List ℕ → ℕ
ip_checksum frame = complement16 (fold_carries 4 (sum_words (word_at frame) 10 14 0))

unfoldable pub tcp_checksum : List ℕ → ℕ
tcp_checksum frame =
    let addresses = sum_words (word_at frame) 4 26 0 in
    let pseudo = (addresses + 6 + (length frame - 34)) % 2 ^ 32 in
    complement16
      (fold_carries 4 (sum_words (segment_word frame) ((length frame - 34 + 1) / 2) 34 pseudo))

-- The parameter `body_len` of the source is not used there.
unfoldable pub recalculate_checksums : List ℕ → List ℕ
recalculate_checksums frame =
    let f1 = put16 frame 24 0 in
    let f2 = put16 f1 24 (ip_checksum f1) in let f3 = put16 f2 50 0 in put16 f3 50 (tcp_checksum f3)

unfoldable pub inject_frame : Hardware → List ℕ → Kernel → Kernel
inject_frame hw frame k = transmit hw frame (length frame % 65536) k

unfoldable pub syn_ack_frame : Mac → Ip → ℕ → ℕ → List ℕ
syn_ack_frame target_mac target_ip target_port client_seq = recalculate_checksums (
    craft_base_tcp_frame target_mac target_ip target_port 0xCAFEBABE ((client_seq + 1) % 2 ^ 32)
      0x12 24)

unfoldable pub send_tcp_syn_ack : Hardware → Mac → Ip → ℕ → ℕ → Kernel → Kernel
send_tcp_syn_ack hw target_mac target_ip target_port client_seq k =
    terminal_print (codes "> NET: [SYN-ACK] TRANSMITTED TO HOST.\n") 0x3B82F6
      (inject_frame hw (syn_ack_frame target_mac target_ip target_port client_seq) k)

unfoldable pub http_body : List ℕ → List ℕ
http_body file_content =
    codes "HTTP/1.1 200 OK\r\nContent-Type: text/plain\r\nContent-Length: "
    ++ (decimal (length file_content) ++ (codes "\r\nConnection: close\r\n\r\n" ++ file_content))

abbrev pub file_content : Option (List ℕ) → List ℕ
file_content none = codes "ERROR: NO PAYLOAD FOUND IN RING-0 MEMORY"
file_content (some s) = s

-- `total_len as u16`, written over the length that the base frame has.
unfoldable pub http_frame : Mac → Ip → ℕ → ℕ → ℕ → List ℕ → List ℕ
http_frame target_mac target_ip target_port my_seq ack_num body =
    let frame =
      craft_base_tcp_frame target_mac target_ip target_port my_seq ack_num 0x18 20 ++ body in
    recalculate_checksums (put16 frame 16 ((20 + 20 + length body) % 65536))

unfoldable pub send_http_response : Hardware → Mac → Ip → ℕ → ℕ → ℕ → ℕ → Kernel → Kernel
send_http_response hw target_mac target_ip target_port my_seq client_seq client_data_len k =
    let ack_num = (client_seq + client_data_len) % 2 ^ 32 in
    let body = http_body (file_content k.http_payload) in
    terminal_print (codes "> NET: HTTP 200 OK RESPONSE SERVED. SOCKET CLOSED.\n") 0x10B981
      (inject_frame hw (http_frame target_mac target_ip target_port my_seq ack_num body) k)

abbrev pub broadcast_mac : Mac
broadcast_mac = record { m0 = 0xFF; m1 = 0xFF; m2 = 0xFF; m3 = 0xFF; m4 = 0xFF; m5 = 0xFF }

unfoldable pub target_mac_of : Kernel → Ip → Mac
target_mac_of k ip = elim (lookup k.arp ip) [ some mac ↦ mac | none ↦ broadcast_mac ]

-- `payload.starts_with(b"GET")`
unfoldable pub starts_with_get : List ℕ → Bool
starts_with_get payload =
    leb 3 (length payload)
    && (get_or payload 0 0 == 71 && (get_or payload 1 0 == 69 && get_or payload 2 0 == 84))

-- The branch of a TCP segment to port 80 with PSH and without SYN.
unfoldable pub handle_data : Hardware → List ℕ → ℕ → ℕ → Kernel → Kernel
handle_data hw packet ihl tcp_header_len k =
    let tcp_offset = 14 + ihl in
    let data_offset = tcp_offset + tcp_header_len in
    let total_ip_len = be16 packet 16 in
    let data_len = total_ip_len - ihl - tcp_header_len in
    let payload = take data_len (drop data_offset packet) in
    let src_ip = ip_at packet 26 in
    let k1 = terminal_print (codes "> NET: HTTP [GET] REQUEST INTERCEPTED!\n") 0x10B981 k in
    if leb (ihl + tcp_header_len) total_ip_len
    then (if ltb 0 data_len && leb (data_offset + data_len) (length packet)
        then (if starts_with_get payload
            then send_http_response hw (target_mac_of k1 src_ip) src_ip (be16 packet tcp_offset)
                (be32 packet (tcp_offset + 8)) (be32 packet (tcp_offset + 4)) data_len k1
            else k)
        else k)
    else k

-- The branch of a TCP segment, whose header fits the packet.
unfoldable pub handle_tcp : Hardware → List ℕ → ℕ → Kernel → Kernel
handle_tcp hw packet ihl k =
    let tcp_offset = 14 + ihl in
    let src_port = be16 packet tcp_offset in
    let dest_port = be16 packet (tcp_offset + 2) in
    let seq_num = be32 packet (tcp_offset + 4) in
    let doff_flags = be16 packet (tcp_offset + 12) in
    let tcp_header_len = bit_and (doff_flags / 2 ^ 12) 0x0F * 4 in
    let flags = bit_and doff_flags 0x01FF in
    let src_ip = ip_at packet 26 in
    let log =
      codes "> NET: TCP [SYN] RCV'D. PORT "
      ++ (decimal src_port ++ (codes " -> " ++ (decimal dest_port ++ codes "\n"))) in
    let k1 = terminal_print log 0xF59E0B k in
    if dest_port == 80
    then (if not (bit_and flags 0x02 == 0)
        then send_tcp_syn_ack hw (target_mac_of k1 src_ip) src_ip src_port seq_num k1
        else if not (bit_and flags 0x08 == 0)
        then handle_data hw packet ihl tcp_header_len k
        else k)
    else k

unfoldable pub handle_incoming_packet : Hardware → List ℕ → Kernel → Kernel
handle_incoming_packet hw packet k =
    let ihl = bit_and (get_or packet 14 0) 0x0F * 4 in
    if ltb (length packet) 14
    then k
    else if not (be16 packet 12 == 0x0800)
    then k
    else if ltb (length packet) (14 + 20)
    then k
    else if not (ip_eq (ip_at packet 30) my_ip)
    then k
    else if not (get_or packet 23 0 == 0x06)
    then k
    else if ltb (length packet) (14 + ihl + 20)
    then k
    else handle_tcp hw packet ihl k
