-- ===== src/E1000/Tests.antt =====
-- Runs of the network card's code, and its theorems at concrete packets.
use qore_os.Base.{ℕ, ◌≡◌, refl, List, [], ◌∷◌, ◌&&◌, ◌||◌, some, arith, if◌then◌else◌}
use qore_os.Ram.{store, load, from_le}
use qore_os.E1000.{Kernel, arp_request, arp_request_frame}
use qore_os.E1000.Arp.{Ip, insert, lookup, ip_eq}
use qore_os.E1000.Arp.Laws.{has_room, is_known, lookup-insert}
use qore_os.E1000.Sample.{router_mac, router_ip, hw, kernel}
use qore_os.E1000.Transmit.{Sent, IsArpRequest, arp_request-Sent}
use qore_os.E1000.Poll.{panic, done, has_packet, received, dispatch, map_outcome, poll}
use qore_os.E1000.Poll.Ring.{PollStep, poll-PollStep}
use qore_os.E1000.Poll.Answer.{IsArpReply, answer_frame, dispatch_asks}
use qore_os.Net.{ip_at}
use qore_os.Net.Craft.{mac_at}

abbrev dns_ip : Ip
dns_ip = record { a = 10; b = 0; c = 2; d = 3 }

-- The router asks for 10.0.2.15.
abbrev question : List ℕ
question =
    0xFF ∷ 0xFF ∷ 0xFF ∷ 0xFF ∷ 0xFF ∷ 0xFF ∷ 0x52 ∷ 0x55 ∷ 10 ∷ 0 ∷ 2 ∷ 2 ∷ 8 ∷ 6 ∷ 0 ∷ 1 ∷ 8 ∷ 0
    ∷ 6 ∷ 4 ∷ 0 ∷ 1 ∷ 0x52 ∷ 0x55 ∷ 10 ∷ 0 ∷ 2 ∷ 2 ∷ 10 ∷ 0 ∷ 2 ∷ 2 ∷ 0 ∷ 0 ∷ 0 ∷ 0 ∷ 0 ∷ 0 ∷ 10 ∷ 0
    ∷ 2 ∷ 15 ∷ []

-- A descriptor for a packet of four bytes.
abbrev runt : Kernel
runt = record kernel {
  machine = record (kernel.machine) {
    ram = store (kernel.machine.ram) 0x8008 (4 ∷ 0 ∷ 0 ∷ 0 ∷ 1 ∷ []);
  };
}

runt_panics : poll hw runt ≡ panic
unfolding poll has_packet received dispatch load store from_le map_outcome
runt_panics = refl

lookup-insert_example : lookup (insert (kernel.arp) dns_ip router_mac) router_ip ≡ (
    if (is_known (kernel.arp) dns_ip || has_room (kernel.arp)) && ip_eq dns_ip router_ip
    then some router_mac
    else lookup (kernel.arp) router_ip)
lookup-insert_example = lookup-insert (kernel.arp) dns_ip router_ip router_mac

arp_request_example :
    Sent hw
      (arp_request_frame (kernel.nic.mac_address) dns_ip)
      60
      kernel
      (arp_request hw dns_ip kernel)
    × IsArpRequest
        (arp_request_frame (kernel.nic.mac_address) dns_ip)
        (kernel.nic.mac_address)
        dns_ip
arp_request_example =
    arp_request-Sent hw dns_ip kernel (record { apart = omega arith; fits = omega arith })

poll_example : PollStep runt (poll hw runt)
poll_example = poll-PollStep hw runt

dispatch_asks_example :
    (k' : Kernel) × ((dispatch hw question kernel ≡ done k')
      × Sent hw (answer_frame question kernel) 60 kernel k'
      × IsArpReply
          (answer_frame question kernel)
          (kernel.nic.mac_address)
          (mac_at question 22)
          (ip_at question 28)
      × (lookup k'.arp (ip_at question 28) ≡ (
          if is_known (kernel.arp) (ip_at question 28) || has_room (kernel.arp)
          then some (mac_at question 22)
          else lookup (kernel.arp) (ip_at question 28))))
unfolding ip_eq
dispatch_asks_example =
    dispatch_asks hw question kernel refl (record { apart = omega arith; fits = omega arith })
