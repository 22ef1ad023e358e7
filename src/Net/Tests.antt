-- ===== src/Net/Tests.antt =====
-- A SYN and a GET from 10.0.2.2, and the theorems of the network stack at them.
use qore_os.Base.{ℕ, ◌+◌, ◌≡◌, refl, List, [], arith, length, test_bit}
use qore_os.Ram.{all_bytes, all_bytes→AllBytes}
use qore_os.Text.{decimal}
use qore_os.E1000.Arp.{ip_eq, lookup}
use qore_os.E1000.Sample.{router_mac, router_ip, hw, kernel}
use qore_os.E1000.Transmit.{Sent, Placed}
use qore_os.Net.{
  recalculate_checksums, http_body, target_mac_of, starts_with_get, handle_incoming_packet,
}
use qore_os.Net.Checksum.{Recalculated, recalculate-Recalculated}
use qore_os.Net.Craft.{Delivers, Fits, AllBytes-IsFrame}
use qore_os.Net.Page.{IsPage, page_text}
use qore_os.Net.Replies.{syn_ack}
use qore_os.Net.Sample.{
  segment, get_packet, router_mac-AllBytes, router_ip-AllBytes, http_response-Fits,
}
use qore_os.Net.Answers.{
  syn_answer, get_answer, syn_answer_frame, get_answer_frame, handle_silent, handle_syn, handle_get,
}

abbrev syn_packet : List ℕ
syn_packet = segment 40 0x02 []

recalculate_example : Recalculated get_packet (recalculate_checksums get_packet)
unfolding all_bytes
recalculate_example =
    recalculate-Recalculated get_packet
      (AllBytes-IsFrame get_packet (all_bytes→AllBytes get_packet refl)) (omega arith) (omega arith)

handle_silent_example : handle_incoming_packet hw [] kernel ≡ kernel
handle_silent_example = handle_silent hw [] kernel refl

syn_ack-Fits : Fits (syn_ack router_mac router_ip 49152 7)
syn_ack-Fits = record {
  mac = router_mac-AllBytes;
  ip = router_ip-AllBytes;
  port = omega arith;
  seq = omega arith;
  ack = omega arith;
  flags = omega arith;
  body = tt;
  size = omega arith;
}

placed : (frame : List ℕ) → Placed hw frame kernel
placed frame = record { apart = omega arith; fits = omega arith }

handle_syn_example :
    Sent hw
      (syn_answer_frame syn_packet kernel)
      58
      kernel
      (handle_incoming_packet hw syn_packet kernel)
    × Delivers (syn_answer_frame syn_packet kernel) (syn_answer syn_packet kernel)
unfolding lookup ip_eq target_mac_of test_bit
handle_syn_example = handle_syn hw syn_packet kernel refl refl syn_ack-Fits (placed _)

handle_get_example :
    Sent hw
      (get_answer_frame get_packet kernel)
      (54 + length (get_answer get_packet kernel).body)
      kernel
      (handle_incoming_packet hw get_packet kernel)
    × Delivers (get_answer_frame get_packet kernel) (get_answer get_packet kernel)
    × IsPage (get_answer get_packet kernel).body (page_text kernel.http_payload)
unfolding lookup ip_eq target_mac_of test_bit starts_with_get all_bytes http_body decimal
handle_get_example =
    handle_get hw get_packet kernel refl refl refl refl (http_response-Fits _ refl (omega arith))
      (omega arith) (placed _)
