-- ===== src/Boot/Payload.antt =====
-- The text that is served after the start of the drivers of src/main.rs.
use qore_os.Base.{
  ℕ, ◌≡◌, refl, ap, ◌∙◌, List, ◌++◌, Bool, true, false, not, ◌&&◌, Option, none, some, ◌==◌,
  if_intro,
}
use qore_os.Ram.{Ram}
use qore_os.Text.{codes}
use qore_os.Machine.{Hardware}
use qore_os.E1000.{E1000, arp_request, transmit}
use qore_os.Ecam.{Devices}
use qore_os.Fat32.Boot.{HasPayload, OnDisk}
use qore_os.Nvme.{new}
use qore_os.Nvme.Read.{Serves}
use qore_os.Nvme.Start.{
  start_disk, found_drive, started_drive, queued, Answers, HeapApart, start_disk_lem,
}
use qore_os.Boot.{
  Boot, start_audio, announce_card, announce_xhci, ask_gateway, load_disk, start_drivers,
}

audio_payload :
    (hw : Hardware) (found : Bool) (bar0 : ℕ) (b : Boot)
    → (start_audio hw found bar0 b).http_payload ≡ b.http_payload
unfolding start_audio
audio_payload hw found bar0 b =
    if_intro (λ (x : Boot). x.http_payload ≡ b.http_payload) (found && not (bar0 == 0)) (λ _. refl)
      λ _. refl

xhci_payload : (found : Bool) (b : Boot) → (announce_xhci found b).http_payload ≡ b.http_payload
xhci_payload true b = refl
xhci_payload false b = refl

gateway_payload :
    (hw : Hardware) (nic : Option E1000) (b : Boot)
    → (ask_gateway hw nic b).http_payload ≡ b.http_payload
unfolding ask_gateway arp_request transmit
gateway_payload hw none b = refl
gateway_payload hw (some nic) b = refl

drivers_payload :
    (dma : List (ℕ × ℕ) → ℕ → Ram → Ram) (hw : Hardware) (d : Devices) (b : Boot)
    → (start_drivers dma hw d b).http_payload
      ≡ some
          (start_disk dma hw d.nvme_found d.nvme_bar0
            (announce_card d.e1000_bar0 b).machine).sector_data_str
unfolding start_drivers load_disk
drivers_payload dma hw d b =
    gateway_payload hw _ _ ∙ xhci_payload d.xhci_found _ ∙ audio_payload hw d.hda_found d.hda_bar0 _

-- Where the scan has found a drive at an address that is not 0, its controller is there and stops within
-- the wait, the heap's blocks for the two queues of reads lie apart from each other and from every later
-- block, the controller serves these queues since the writes of its start, and the disk, with the sectors
-- that are read on it, has PAYLOAD.TXT in the first sector of its root directory, the web server's text
-- after the start of all drivers is the file's first line, behind "FILE CONTENT: ".
pub start_drivers_lem :
    (dma : List (ℕ × ℕ) → ℕ → Ram → Ram) (hw : Hardware) (sectors : ℕ) (disk : ℕ → List ℕ)
    (text : List ℕ) (d : Devices) (b : Boot)
    → d.nvme_found ≡ true
    → ¬ d.nvme_bar0 ≡ 0
    → Answers hw (found_drive d.nvme_bar0 (announce_card d.e1000_bar0 b).machine)
    → HeapApart hw (announce_card d.e1000_bar0 b).machine.blocks
    → Serves dma
        (started_drive dma hw d.nvme_bar0 (announce_card d.e1000_bar0 b).machine).machine.writes
        (queued hw (announce_card d.e1000_bar0 b).machine.blocks (new d.nvme_bar0))
        sectors
        disk
    → (payload : HasPayload disk text) → OnDisk sectors payload
    → (start_drivers dma hw d b).http_payload ≡ some (codes "FILE CONTENT: " ++ text)
start_drivers_lem dma hw sectors disk text d b found there answers heap serves payload on =
    let m = (announce_card d.e1000_bar0 b).machine in
    drivers_payload dma hw d b
    ∙ ap (λ f. some (start_disk dma hw f d.nvme_bar0 m).sector_data_str) found
    ∙ ap some
        (start_disk_lem dma hw sectors disk text d.nvme_bar0 m there answers heap serves payload on)
