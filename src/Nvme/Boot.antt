-- ===== src/Nvme/Boot.antt =====
-- The NVMe driver as the drive that the boot code of src/main.rs reads PAYLOAD.TXT from.
use mathlib.Core.Path.{subst}
use qore_os.Base.{ℕ, suc, ◌+◌, ◌^◌, ◌<◌, ◌≤◌, ◌≡◌, sym, ap, ◌∙◌, List, ◌++◌, arith}
use qore_os.Ram.{Ram, Apart}
use qore_os.Text.{codes}
use qore_os.Machine.{Hardware, print}
use qore_os.Fat32.{Drive, load_payload}
use qore_os.Fat32.Boot.{Reads, HasPayload, OnDisk, load_payload_lem}
use qore_os.Nvme.{Storage, read_sector}
use qore_os.Nvme.Read.{History, InStep, QueuesApart, Serves, read_sector_lem, read_sector_blocks}

unfoldable pub nvme_drive : (List (ℕ × ℕ) → ℕ → Ram → Ram) → Hardware → Drive Storage
nvme_drive dma hw = record {
  read_sector = read_sector dma hw;
  terminal_print = λ text color s. record s { machine = print text color s.machine };
}

-- The queue is in step with `left` commands or more to go on the first pass through its sixteen slots,
-- its two halves are apart from each other, the completions are apart from every page that the heap gives
-- from now on, and the controller serves the queue since the register writes `start`.
pub record Ready (dma : List (ℕ × ℕ) → ℕ → Ram → Ram) (hw : Hardware) (start : List (ℕ × ℕ))
    (sectors : ℕ) (disk : ℕ → List ℕ) (left : ℕ) (s : Storage) : Type 0 where
  pub count : ℕ
  pub room : count + left ≤ 16
  pub step : InStep start count s
  pub queues : QueuesApart s.drive
  pub pages : (n : ℕ) → s.machine.blocks ≤ n → Apart (hw.place n) 4096 s.drive.iocq_ptr 256
  pub fits : (n : ℕ) → hw.place n < 2 ^ 64
  pub serves : Serves dma start s.drive sectors disk

-- The driver stays ready in states with more blocks given, and the same writes.
pub Ready-keep :
    {dma : List (ℕ × ℕ) → ℕ → Ram → Ram} {hw : Hardware} {start : List (ℕ × ℕ)} {sectors : ℕ}
    {disk : ℕ → List ℕ} {left : ℕ} {s s' : Storage}
    → Ready dma hw start sectors disk left s
    → s'.drive ≡ s.drive
    → s'.machine.writes ≡ s.machine.writes
    → s.machine.blocks ≤ s'.machine.blocks
    → Ready dma hw start sectors disk left s'
Ready-keep {dma} {hw} {start} {sectors} {disk} {s' = s'} ready drive writes more = record {
  count = ready.count;
  room = ready.room;
  step = record {
    tail = ap (λ d. d.iosq_tail) drive ∙ ready.step.tail;
    head = ap (λ d. d.iocq_head) drive ∙ ready.step.head;
    history =
        subst (λ d. History d.bar0 start ready.count s'.machine.writes) (sym drive)
          (rw writes ready.step.history);
  };
  queues = rw drive ready.queues;
  pages = λ n l. rw drive (ready.pages n (omega (arith, more, l)));
  fits = ready.fits;
  serves = subst (λ d. Serves dma start d sectors disk) (sym drive) ready.serves;
}

-- A read of a sector gives its bytes, and takes one off the commands to go.
pub read_sector-Ready :
    (dma : List (ℕ × ℕ) → ℕ → Ram → Ram) (hw : Hardware) (start : List (ℕ × ℕ)) (sectors : ℕ)
    (disk : ℕ → List ℕ) (left : ℕ) (s : Storage) (lba : ℕ)
    → lba < sectors
    → Ready dma hw start sectors disk (suc left) s
    → ((read_sector dma hw s lba).0 ≡ disk lba)
      × Ready dma hw start sectors disk left (read_sector dma hw s lba).1
read_sector-Ready dma hw start sectors disk left s lba small ready =
    let room : ready.count + suc left ≤ 16 = ready.room in
    let read =
      read_sector_lem dma hw start ready.count s lba sectors disk ready.step (omega arith)
        ready.queues (ready.pages s.machine.blocks (omega arith)) small
        (ready.fits s.machine.blocks) ready.serves in
    (
      read.0,
      unfold read_sector in
          record {
            count = suc ready.count;
            room = omega (arith, room);
            step = read.1;
            queues = ready.queues;
            pages = λ n l. ready.pages n (omega (arith, read_sector_blocks dma hw s lba, l));
            fits = ready.fits;
            serves = ready.serves;
          },
    )

nvme_drive-Reads :
    (dma : List (ℕ × ℕ) → ℕ → Ram → Ram) (hw : Hardware) (start : List (ℕ × ℕ)) (sectors : ℕ)
    (disk : ℕ → List ℕ)
    → Reads (nvme_drive dma hw) sectors disk (Ready dma hw start sectors disk)
unfolding nvme_drive
nvme_drive-Reads dma hw start sectors disk n s lba small ready =
    read_sector-Ready dma hw start sectors disk n s lba small ready

-- From an NVMe drive whose queue is ready for three commands, and whose disk has PAYLOAD.TXT in the first
-- sector of its root directory, the boot code loads the file's first line, behind "FILE CONTENT: ".
pub nvme_payload :
    (dma : List (ℕ × ℕ) → ℕ → Ram → Ram) (hw : Hardware) (start : List (ℕ × ℕ)) (sectors : ℕ)
    (disk : ℕ → List ℕ) (text : List ℕ) (s : Storage)
    → Ready dma hw start sectors disk 3 s
    → (h : HasPayload disk text) → OnDisk sectors h
    → (load_payload (nvme_drive dma hw) s).0 ≡ codes "FILE CONTENT: " ++ text
nvme_payload dma hw start sectors disk text s ready h on =
    load_payload_lem (nvme_drive dma hw) sectors disk text (Ready dma hw start sectors disk) s
      (nvme_drive-Reads dma hw start sectors disk) ready h on
