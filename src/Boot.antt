-- ===== src/Boot.antt =====
-- How `_start` of src/main.rs starts the drivers of what the scan has found. The statics NET_CARD,
-- ARP_TABLE, HTTP_PAYLOAD, NVME_DRIVE and AUDIO_DRIVE are the fields of `Boot`.
pub mod Payload
pub mod Setup
pub mod Frames
mod Tests
use qore_os.Base.{ℕ, List, Bool, not, ◌&&◌, Option, none, some, ◌==◌, if◌then◌else◌}
use qore_os.Ram.{Ram}
use qore_os.Text.{codes}
use qore_os.Machine.{Hardware, Machine, print}
use qore_os.E1000.{E1000, Kernel, init_rx_ring, init_tx_ring, arp_request}
use qore_os.E1000.Arp.{ArpCache}
use qore_os.Ecam.{Devices}
use qore_os.Hda.{IntelHda, Audio, play_tone}
use qore_os.Nvme.{Nvme}
use qore_os.Nvme.Start.{start_disk}
use qore_os.E1000
use qore_os.Hda
use qore_os.Nvme

pub record Boot : Type 0 where
  pub net_card : Option E1000
  pub arp_table : ArpCache
  pub http_payload : Option (List ℕ)
  pub nvme_drive : Option Nvme
  pub audio_drive : Option IntelHda
  pub machine : Machine

abbrev pub say : List ℕ → ℕ → Boot → Boot
say text color b = record b { machine = print text color b.machine }

-- What a card does on the statics, and the card that it leaves in NET_CARD.
abbrev pub with_card : (Kernel → Kernel) → E1000 → Boot → Boot
with_card act nic b =
    let k = act (record {
      nic = nic;
      arp = b.arp_table;
      http_payload = b.http_payload;
      machine = b.machine;
    }) in
    record b {
      net_card = some (k.nic);
      arp_table = k.arp;
      http_payload = k.http_payload;
      machine = k.machine;
    }

-- Before the interrupts are set up.
unfoldable pub start_card : Hardware → Option ℕ → Boot → Boot
start_card hw none b = b
start_card hw (some bar0) b =
    with_card (λ k. init_tx_ring hw (init_rx_ring hw k)) (qore_os.E1000.new bar0) b

unfoldable pub start_audio : Hardware → Bool → ℕ → Boot → Boot
start_audio hw hda_found hda_bar0 b =
    let s : Audio = record { hda = qore_os.Hda.new hda_bar0; machine = b.machine } in
    let played = play_tone hw (qore_os.Hda.init hw s) in
    if hda_found && not (hda_bar0 == 0)
    then record b { audio_drive = some (played.hda); machine = played.machine }
    else b

-- The request for the address of the gateway 10.0.2.2.
unfoldable pub ask_gateway : Hardware → Option E1000 → Boot → Boot
ask_gateway hw none b = b
ask_gateway hw (some nic) b =
    with_card (arp_request hw (record { a = 10; b = 0; c = 2; d = 2 })) nic b

abbrev pub announce_card : Option ℕ → Boot → Boot
announce_card none b = b
announce_card (some bar0) b =
    say (codes "ECAM: E1000 Network Card Found & Bus Master Enabled!\n") 0x3B82F6 b

abbrev pub announce_xhci : Bool → Boot → Boot
announce_xhci found b =
    if found then say (codes "ECAM: xHCI Extensible Host Controller Found!\n") 0x3B82F6 b else b

-- The disk, and HTTP_PAYLOAD with the text that it gave.
unfoldable pub load_disk : (List (ℕ × ℕ) → ℕ → Ram → Ram) → Hardware → Bool → ℕ → Boot → Boot
load_disk dma hw nvme_found nvme_bar0 b =
    let disk = start_disk dma hw nvme_found nvme_bar0 b.machine in
    record b {
      http_payload = some (disk.sector_data_str);
      nvme_drive = disk.nvme_drive;
      machine = disk.machine;
    }

-- From the line about the card up to the loop.
unfoldable pub start_drivers : (List (ℕ × ℕ) → ℕ → Ram → Ram) → Hardware → Devices → Boot → Boot
start_drivers dma hw d b0 =
    let b1 = load_disk dma hw d.nvme_found d.nvme_bar0 (announce_card d.e1000_bar0 b0) in
    let b2 = announce_xhci d.xhci_found (start_audio hw d.hda_found d.hda_bar0 b1) in
    let b3 = say (codes "\n> READY: WAITING FOR INCOMING TCP CONNECTIONS\n> ") 0x1E293B b2 in
    ask_gateway hw b3.net_card b3
