-- ===== src/Nvme/Start.antt =====
-- The start of the boot disk, the block of `_start` in src/main.rs behind `nvme_found`.
use mathlib.Core.Path.{subst}
use qore_os.Base.{
  ℕ, zero, suc, ◌+◌, ◌*◌, ◌^◌, ◌<◌, ◌≤◌, ◌≡◌, refl, ap, sym, ◌∙◌, List, [], ◌++◌, Bool, true, false,
  not, ◌&&◌, arith, Option, none, some, bit_and, bit_or, ◌==◌, if◌then◌else◌, if_intro, if_true,
  if_false,
}
use qore_os.Ram.{Ram, Apart}
use qore_os.Text.{codes}
use qore_os.Machine.{Hardware, Machine, leak, print}
use qore_os.Fat32.{load_payload}
use qore_os.Fat32.Boot.{HasPayload, OnDisk}
use qore_os.Nvme.{Nvme, NvmeCmd, Storage, new, zero_page}
use qore_os.Nvme.Read.{created, Serves, wait_done_blocks}
use qore_os.Nvme.Boot.{Ready, nvme_drive, nvme_payload}
use qore_os.Nvme.Init.{
  read_reg, after_read, wait_ready, switch_off, switch_on, allocate_queues, if_ready, if_off, admin,
  create_queues, init, identify_controller, show_identity, command,
}

-- `sector_data_str` and NVME_DRIVE after the block.
pub record Disk : Type 0 where
  pub sector_data_str : List ℕ
  pub nvme_drive : Option Nvme
  pub machine : Machine

abbrev pub found_drive : ℕ → Machine → Storage
found_drive bar0 m = record {
  drive = new bar0;
  machine = print (codes "ECAM: NVMe Direct Storage Controller Found!\n") 0x3B82F6 m;
}

abbrev pub started_drive : (List (ℕ × ℕ) → ℕ → Ram → Ram) → Hardware → ℕ → Machine → Storage
started_drive dma hw bar0 m = identify_controller dma hw (init dma hw (found_drive bar0 m))

unfoldable pub start_disk : (List (ℕ × ℕ) → ℕ → Ram → Ram) → Hardware → Bool → ℕ → Machine → Disk
start_disk dma hw nvme_found nvme_bar0 m =
    let drive = started_drive dma hw nvme_bar0 m in
    let loaded = load_payload (nvme_drive dma hw) drive in
    if nvme_found && not (nvme_bar0 == 0)
    then record {
      sector_data_str = loaded.0;
      nvme_drive = some (loaded.1.drive);
      machine = loaded.1.machine;
    }
    else record { sector_data_str = []; nvme_drive = none; machine = m }

-- The driver, and how many blocks the heap has given.
abbrev shape : Storage → Nvme × ℕ
shape s = (s.drive, s.machine.blocks)

-- The driver with its queues in the four blocks from `first` on.
abbrev pub queued : Hardware → ℕ → Nvme → Nvme
queued hw first d = record d {
  asq_ptr = hw.place first;
  acq_ptr = hw.place (first + 1);
  iosq_ptr = hw.place (first + 2);
  iocq_ptr = hw.place (first + 3);
}

-- The controller is there, and stops within the wait.
pub record Answers (hw : Hardware) (s : Storage) : Type 0 where
  pub there : (read_reg hw 0x1C s == 0xFFFFFFFF) ≡ false
  pub stops : (wait_ready hw 0 10000001 (switch_off hw (after_read s))).0 ≡ true

-- Of the heap's blocks from `first` on, the third and the fourth lie apart, and so do the fourth and
-- every later one, of 4096 bytes; all are below 2^64.
pub record HeapApart (hw : Hardware) (first : ℕ) : Type 0 where
  pub queues : Apart (hw.place (first + 2)) 1024 (hw.place (first + 3)) 256
  pub later : (n : ℕ) → first + 4 ≤ n → Apart (hw.place n) 4096 (hw.place (first + 3)) 256
  pub fits : (n : ℕ) → hw.place n < 2 ^ 64

shape-wait_ready :
    (hw : Hardware) (want left : ℕ) (s : Storage) → shape (wait_ready hw want left s).1 ≡ shape s
unfolding wait_ready
shape-wait_ready hw want zero s = refl
shape-wait_ready hw want (suc left) s =
    choose (bit_and (read_reg hw 0x1C s) 1 == want) (shape-wait_ready hw want left (after_read s))
  where
    choose :
        (b : Bool)
        → shape (wait_ready hw want left (after_read s)).1 ≡ shape s
        → shape
            (elim b as (λ _. Bool × Storage) [
              | true ↦ (true, after_read s)
              | false ↦ wait_ready hw want left (after_read s)
            ]).1
          ≡ shape s
    choose true h = refl
    choose false h = h

show_identity_blocks :
    (model serial : List ℕ) (m : Machine) → (show_identity model serial m).blocks ≡ m.blocks
unfolding show_identity
show_identity_blocks model serial m =
    if_intro (λ (x : Machine). x.blocks ≡ m.blocks) _ (λ _. refl) λ _. refl

module _ (dma : List (ℕ × ℕ) → ℕ → Ram → Ram) where
  shape-admin : (slot : ℕ) (cmd : NvmeCmd) (s : Storage) → shape (admin dma slot cmd s) ≡ shape s
  unfolding admin
  shape-admin slot cmd s = ap (λ n. (s.drive, n)) (wait_done_blocks dma _ 10000001 _)

  shape-create_queues : (s : Storage) → shape (create_queues dma s) ≡ shape s
  unfolding create_queues
  shape-create_queues s = shape-admin 1 _ _ ∙ shape-admin 0 _ s

  shape-if_ready : (r : Bool × Storage) → shape (if_ready dma r) ≡ shape r.1
  shape-if_ready (false, s) = refl
  shape-if_ready (true, s) = shape-create_queues s

  module _ (hw : Hardware) where
    shape-switch_on :
        (s : Storage)
        → shape (switch_on dma hw s) ≡ (queued hw s.machine.blocks s.drive, s.machine.blocks + 4)
    unfolding switch_on allocate_queues
    shape-switch_on s =
        shape-if_ready _
        ∙ shape-wait_ready hw 1 10000001 _
        ∙ ap (λ n. (queued hw s.machine.blocks s.drive, n)) (omega arith)

    shape-if_off :
        (r : Bool × Storage)
        → r.0 ≡ true
        → shape (if_off dma hw r) ≡ (queued hw r.1.machine.blocks r.1.drive, r.1.machine.blocks + 4)
    shape-if_off (true, s) h = shape-switch_on s
    shape-if_off (false, s) h = absurd (ground arith)

    shape-init :
        (s : Storage)
        → Answers hw s
        → shape (init dma hw s) ≡ (queued hw s.machine.blocks s.drive, s.machine.blocks + 4)
    unfolding init
    shape-init s h =
        let off = switch_off hw (after_read s) in
        ap shape (if_false (read_reg hw 0x1C s == 0xFFFFFFFF) _ _ h.there)
        ∙ shape-if_off (wait_ready hw 0 10000001 off) h.stops
        ∙ ap (λ p. (queued hw p.1 p.0, p.1 + 4)) (shape-wait_ready hw 0 10000001 off)

    shape-identify_controller :
        (s : Storage) → shape (identify_controller dma hw s) ≡ (s.drive, s.machine.blocks + 1)
    unfolding identify_controller
    shape-identify_controller s =
        let s1 : Storage = record s { machine = leak hw zero_page s.machine } in
        let cmd = command (bit_or 0x06 (0xAA * 2 ^ 16)) (hw.place s.machine.blocks) 1 0 in
        let s2 = admin dma 2 cmd s1 in
        let asked = shape-admin 2 cmd s1 in
        if_intro (λ x. shape x ≡ (s.drive, s.machine.blocks + 1)) _ (λ _. asked)
          λ _. ap (λ n. (s2.drive, n)) (show_identity_blocks _ _ (s2.machine)) ∙ asked

    shape-identify_controller-init :
        (s : Storage)
        → Answers hw s
        → shape (identify_controller dma hw (init dma hw s))
          ≡ (queued hw s.machine.blocks s.drive, s.machine.blocks + 5)
    shape-identify_controller-init s h =
        shape-identify_controller (init dma hw s)
        ∙ ap (λ p. (p.0, p.1 + 1)) (shape-init s h)
        ∙ ap (λ n. (queued hw s.machine.blocks s.drive, n)) (omega arith)

    queued-Ready :
        (sectors : ℕ) (disk : ℕ → List ℕ) (bar0 first : ℕ) (s : Storage)
        → shape s ≡ (queued hw first (new bar0), first + 5)
        → HeapApart hw first
        → Serves dma s.machine.writes (queued hw first (new bar0)) sectors disk
        → Ready dma hw s.machine.writes sectors disk 3 s
    queued-Ready sectors disk bar0 first s h heap serves =
        let same : s.drive ≡ queued hw first (new bar0) = ap (λ p. p.0) h in
        let blocks : s.machine.blocks ≡ first + 5 = ap (λ p. p.1) h in
        let tail : s.drive.iosq_tail ≡ 0 = ap (λ d. d.iosq_tail) same in
        let head : s.drive.iocq_head ≡ 0 = ap (λ d. d.iocq_head) same in
        let sq : s.drive.iosq_ptr ≡ hw.place (first + 2) = ap (λ d. d.iosq_ptr) same in
        let cq : s.drive.iocq_ptr ≡ hw.place (first + 3) = ap (λ d. d.iocq_ptr) same in
        let queues = heap.queues in
        record {
          count = 0;
          room = omega arith;
          step = record { tail = tail; head = head; history = created };
          queues = omega arith;
          pages = λ n l. let page = heap.later n (omega arith) in omega arith;
          fits = heap.fits;
          serves = subst (λ d. Serves dma s.machine.writes d sectors disk) (sym same) serves;
        }

-- Where a drive is found at an address that is not 0, its controller is there and stops within the wait,
-- the heap's blocks for the two queues of reads lie apart from each other and from every later block,
-- the controller serves these queues since the writes of its start, and the disk, with the sectors that are
-- read on it, has PAYLOAD.TXT in the first sector of its root directory, the start of the disk loads the file's first line, behind "FILE CONTENT: ".
pub start_disk_lem :
    (dma : List (ℕ × ℕ) → ℕ → Ram → Ram) (hw : Hardware) (sectors : ℕ) (disk : ℕ → List ℕ)
    (text : List ℕ) (bar0 : ℕ) (m : Machine)
    → ¬ bar0 ≡ 0
    → Answers hw (found_drive bar0 m)
    → HeapApart hw m.blocks
    → Serves dma
        (started_drive dma hw bar0 m).machine.writes
        (queued hw m.blocks (new bar0))
        sectors
        disk
    → (payload : HasPayload disk text) → OnDisk sectors payload
    → (start_disk dma hw true bar0 m).sector_data_str ≡ codes "FILE CONTENT: " ++ text
unfolding start_disk
start_disk_lem dma hw sectors disk text bar0 m found answers heap serves payload on =
    let s = identify_controller dma hw (init dma hw (found_drive bar0 m)) in
    let ready =
      queued-Ready dma hw sectors disk bar0 m.blocks s
        (shape-identify_controller-init dma hw (found_drive bar0 m) answers) heap serves in
    ap (λ (d : Disk). d.sector_data_str) (if_true (not (bar0 == 0)) _ _ (ground arith))
    ∙ nvme_payload dma hw s.machine.writes sectors disk text s ready payload on
