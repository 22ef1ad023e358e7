-- ===== src/Syscall/Calls.antt =====
-- The call that reads a sector, over the driver that it uses.
use qore_os.Base.{
  ℕ, zero, suc, ◌+◌, ◌<◌, ◌≡◌, refl, ap, sym, ◌∙◌, arith, List, ◌∷◌, Bool, true, false, some,
  bit_and, length, ◌==◌,
}
use qore_os.Ram.{Ram, load, length-load, load-store_self}
use qore_os.Text.{codes}
use qore_os.Machine.{Hardware, Machine}
use qore_os.Nvme.{Nvme, Storage, read_sector, submit, wait_done, status_addr}
use qore_os.Nvme.Boot.{Ready, Ready-keep, read_sector-Ready}
use qore_os.Syscall.{System, Outside, say, sys_read, read_with, read_done, syscall_handler}

wait_done_console :
    (dma : List (ℕ × ℕ) → ℕ → Ram → Ram) (status left : ℕ) (m : Machine)
    → (wait_done dma status left m).console ≡ m.console
unfolding wait_done
wait_done_console dma status zero m = refl
wait_done_console dma status (suc left) m =
    let m1 = record m { ram = dma m.writes m.reads m.ram; reads = m.reads + 1 } in
    choose m1 (bit_and (m1.ram status) 0x01 == 0) (wait_done_console dma status left m1)
  where
    choose :
        (m1 : Machine) (b : Bool)
        → (wait_done dma status left m1).console ≡ m1.console
        → (elim b as (λ _. Machine) [ true ↦ wait_done dma status left m1 | false ↦ m1 ]).console
          ≡ m1.console
    choose m1 true h = h
    choose m1 false h = refl

read_sector_console :
    (dma : List (ℕ × ℕ) → ℕ → Ram → Ram) (hw : Hardware) (s : Storage) (lba : ℕ)
    → (read_sector dma hw s lba).1.machine.console ≡ s.machine.console
unfolding read_sector submit
read_sector_console dma hw s lba =
    let d = s.drive in wait_done_console dma (status_addr d d.iocq_head) 20000001 (submit hw lba s)

length-read_sector :
    (dma : List (ℕ × ℕ) → ℕ → Ram → Ram) (hw : Hardware) (s : Storage) (lba : ℕ)
    → length ((read_sector dma hw s lba).0) ≡ 512
unfolding read_sector
length-read_sector dma hw s lba = length-load _ (hw.place s.machine.blocks) 512

-- The system after the line that a read begins with.
abbrev accepted : System → System
accepted s = say (codes "\n> SYS: RING-3 NVME READ REQUEST ACCEPTED.\n") 0xF59E0B s

sys_read_found :
    (o : Outside) (lba : ℕ) (s : System) (drive : Nvme)
    → s.nvme_drive ≡ some drive
    → sys_read o lba s ≡ read_with o lba (accepted s) (some drive)
unfolding sys_read
sys_read_found o lba s drive h = ap (read_with o lba (accepted s)) h

-- The disk's driver as it stands in the system.
abbrev pub storage_of : System → Nvme → Storage
storage_of s drive = record { drive = drive; machine = s.machine }

-- A sector in memory at `buffer`, the driver ready for `left` more commands, and two more lines on the
-- console.
pub record IsRead (o : Outside) (start : List (ℕ × ℕ)) (sectors : ℕ) (disk : ℕ → List ℕ)
    (left lba : ℕ) (s : System) (buffer : ℕ) (s' : System) : Type 0 where
  pub bytes : load s'.machine.ram buffer 512 ≡ disk lba
  pub drive : Nvme
  pub found : s'.nvme_drive ≡ some drive
  pub ready : Ready (o.dma) (o.hw) start sectors disk left (storage_of s' drive)
  pub card : s'.net_card ≡ s.net_card
  pub console :
      s'.machine.console
      ≡ (codes "> SYS: NVME DMA COMPLETE. PASSING POINTER TO RING-3.\n", 0x10B981)
        ∷ (codes "\n> SYS: RING-3 NVME READ REQUEST ACCEPTED.\n", 0xF59E0B)
        ∷ s.machine.console

-- Where the system has a drive whose queue is ready for a command and more of its first sixteen, the pass
-- on which the phase bit of a completion is 1, call 4 with the number of one of the disk's sectors returns
-- the address of 512 bytes in memory that are this sector, prints two lines, and leaves the drive ready for
-- one command less.
pub syscall_handler-IsRead :
    (o : Outside) (start : List (ℕ × ℕ)) (sectors : ℕ) (disk : ℕ → List ℕ) (left lba arg2 arg3 : ℕ)
    (s : System) (drive : Nvme)
    → s.nvme_drive ≡ some drive
    → Ready (o.dma) (o.hw) start sectors disk (suc left) (storage_of s drive)
    → lba < sectors
    → (buffer : ℕ) × (s' : System) × (syscall_handler o 4 lba arg2 arg3 s ≡ some (buffer, s'))
      × IsRead o start sectors disk left lba s buffer s'
unfolding syscall_handler
syscall_handler-IsRead o start sectors disk left lba arg2 arg3 s drive found ready small =
    let s1 = storage_of (accepted s) drive in
    let dma = o.dma in
    let hw = o.hw in
    let ready1 : Ready dma hw start sectors disk (suc left) s1 =
      Ready-keep ready refl refl (omega arith) in
    let read = read_sector-Ready dma hw start sectors disk left s1 lba small ready1 in
    let after = read_sector dma hw s1 lba in
    let buffer = hw.place after.1.machine.blocks in
    let (buffer', s') = read_done o lba (accepted s) after in
    (
      buffer',
      s',
      ap some (sys_read_found o lba s drive found),
      record {
        bytes =
            ap (load s'.machine.ram buffer) (sym (length-read_sector dma hw s1 lba))
            ∙ load-store_self after.1.machine.ram buffer after.0
            ∙ read.0;
        drive = after.1.drive;
        found = refl;
        ready = Ready-keep read.1 refl refl (omega arith);
        card = refl;
        console =
            ap (λ c. (codes "> SYS: NVME DMA COMPLETE. PASSING POINTER TO RING-3.\n", 0x10B981) ∷ c)
              (read_sector_console dma hw s1 lba);
      },
    )
