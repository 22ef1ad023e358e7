-- ===== src/Net/Sample.antt =====
-- A request for the page from 10.0.2.2, and what the frames to it need.
use qore_os.Base.{ℕ, ◌≤◌, ◌≡◌, refl, List, ◌∷◌, true, arith, length}
use qore_os.Ram.{AllBytes, all_bytes, all_bytes→AllBytes}
use qore_os.Text.{codes}
use qore_os.E1000.Arp.{mac_bytes, ip_bytes}
use qore_os.E1000.Sample.{router_mac, router_ip}
use qore_os.Net.Craft.{Fits}
use qore_os.Net.Replies.{http_response}

-- A segment of 20 bytes and `bytes` from port 49152 to port 80, sequence number 7.
abbrev pub segment : ℕ → ℕ → List ℕ → List ℕ
segment total_len flags bytes =
    0x52 ∷ 0x54 ∷ 0 ∷ 0x12 ∷ 0x34 ∷ 0x56 ∷ 0x52 ∷ 0x55 ∷ 10 ∷ 0 ∷ 2 ∷ 2 ∷ 8 ∷ 0 ∷ 0x45 ∷ 0 ∷ 0
    ∷ total_len ∷ 0 ∷ 0 ∷ 0x40 ∷ 0 ∷ 64 ∷ 6 ∷ 0 ∷ 0 ∷ 10 ∷ 0 ∷ 2 ∷ 2 ∷ 10 ∷ 0 ∷ 2 ∷ 15 ∷ 0xC0 ∷ 0
    ∷ 0 ∷ 80 ∷ 0 ∷ 0 ∷ 0 ∷ 7 ∷ 0 ∷ 0 ∷ 0 ∷ 9 ∷ 0x50 ∷ flags ∷ 0xFA ∷ 0xF0 ∷ 0 ∷ 0 ∷ 0 ∷ 0 ∷ bytes

abbrev pub get_packet : List ℕ
get_packet = segment 45 0x18 (codes "GET /")

pub router_mac-AllBytes : AllBytes (mac_bytes router_mac)
unfolding all_bytes
router_mac-AllBytes = all_bytes→AllBytes (mac_bytes router_mac) refl

pub router_ip-AllBytes : AllBytes (ip_bytes router_ip)
unfolding all_bytes
router_ip-AllBytes = all_bytes→AllBytes (ip_bytes router_ip) refl

pub http_response-Fits :
    (body : List ℕ)
    → all_bytes body ≡ true
    → length body ≤ 65491
    → Fits (http_response router_mac router_ip 49152 9 12 body)
http_response-Fits body h size = record {
  mac = router_mac-AllBytes;
  ip = router_ip-AllBytes;
  port = omega arith;
  seq = omega arith;
  ack = omega arith;
  flags = omega arith;
  body = all_bytes→AllBytes body h;
  size = size;
}
