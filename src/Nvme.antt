-- ===== src/Nvme.antt =====
-- src/nvme.rs: the queues of the NVMe driver and `read_sector`. The controller works on memory while
-- the driver waits: `dma writes k` is what it has done to memory by the k-th read of a status, after
-- the register writes `writes`, the latest first.
pub mod Read
pub mod Boot
pub mod Init
pub mod Start
pub mod Controller
mod Tests
use qore_os.Base.{
  ℕ, zero, suc, ◌+◌, ◌*◌, ◌/◌, ◌%◌, ◌^◌, List, [], ◌∷◌, ◌++◌, true, false, bit_and, bit_or,
  replicate, ◌==◌,
}
use qore_os.Ram.{Ram, load, le_bytes}
use qore_os.Machine.{Hardware, Machine, leak, write_ram, write_mmio}

pub record Nvme : Type 0 where
  pub bar0 : ℕ
  pub asq_ptr : ℕ
  pub acq_ptr : ℕ
  pub iosq_ptr : ℕ
  pub iocq_ptr : ℕ
  pub iosq_tail : ℕ
  pub iocq_head : ℕ

pub record NvmeCmd : Type 0 where
  pub cdw0 : ℕ
  pub nsid : ℕ
  pub reserved : ℕ
  pub mptr : ℕ
  pub prp1 : ℕ
  pub prp2 : ℕ
  pub cdw10 : ℕ
  pub cdw11 : ℕ
  pub cdw12 : ℕ
  pub cdw13 : ℕ
  pub cdw14 : ℕ
  pub cdw15 : ℕ

-- The packed struct in memory.
unfoldable pub cmd_bytes : NvmeCmd → List ℕ
cmd_bytes c =
    le_bytes 4 c.cdw0
    ++ (le_bytes 4 c.nsid
        ++ (le_bytes 8 c.reserved
            ++ (le_bytes 8 c.mptr
                ++ (le_bytes 8 c.prp1
                    ++ (le_bytes 8 c.prp2
                        ++ (le_bytes 4 c.cdw10
                            ++ (le_bytes 4 c.cdw11
                                ++ (le_bytes 4 c.cdw12
                                    ++ (le_bytes 4 c.cdw13
                                        ++ (le_bytes 4 c.cdw14 ++ le_bytes 4 c.cdw15))))))))))

-- `Nvme::new`
abbrev pub new : ℕ → Nvme
new bar0 = record {
  bar0 = bar0;
  asq_ptr = 0;
  acq_ptr = 0;
  iosq_ptr = 0;
  iocq_ptr = 0;
  iosq_tail = 0;
  iocq_head = 0;
}

pub record Storage : Type 0 where
  pub drive : Nvme
  pub machine : Machine

-- The command that reads the sector `lba` to `data_ptr`, with the slot for its identifier.
unfoldable pub read_command : ℕ → ℕ → ℕ → NvmeCmd
read_command cmd_idx lba data_ptr = record {
  cdw0 = bit_or 0x02 (cmd_idx * 2 ^ 16 % 2 ^ 32);
  nsid = 1;
  reserved = 0;
  mptr = 0;
  prp1 = data_ptr;
  prp2 = 0;
  cdw10 = bit_and lba 0xFFFFFFFF;
  cdw11 = lba / 2 ^ 32;
  cdw12 = 0;
  cdw13 = 0;
  cdw14 = 0;
  cdw15 = 0;
}

-- Where a completion has its status.
abbrev pub status_addr : Nvme → ℕ → ℕ
status_addr d index = d.iocq_ptr + index * 16 + 14

-- `while (iocq[..].status & 0x01) == 0 { .. }`, with the reads of the status left.
unfoldable pub wait_done : (List (ℕ × ℕ) → ℕ → Ram → Ram) → ℕ → ℕ → Machine → Machine
wait_done dma status zero m = m
wait_done dma status (suc left) m =
    let m1 = record m { ram = dma m.writes m.reads m.ram; reads = m.reads + 1 } in
    elim (bit_and (m1.ram status) 0x01 == 0) [ true ↦ wait_done dma status left m1 | false ↦ m1 ]

-- The block that `alloc_zeroed` gives.
unfoldable pub zero_page : List ℕ
zero_page = replicate 4096 0

-- Up to the doorbell: a page for the data, the status of the slot cleared, the command in the slot.
unfoldable pub submit : Hardware → ℕ → Storage → Machine
submit hw lba s =
    let d = s.drive in
    let m1 = leak hw zero_page s.machine in
    let cmd_idx = d.iosq_tail in
    let m2 = write_ram (status_addr d cmd_idx) (0 ∷ 0 ∷ []) m1 in
    let command = read_command cmd_idx lba (hw.place s.machine.blocks) in
    let m3 = write_ram (d.iosq_ptr + cmd_idx * 64) (cmd_bytes command) m2 in
    write_mmio (d.bar0 + 0x1008) ((d.iosq_tail + 1) % 16) m3

-- The loop gives up once its count is above 20_000_000.
unfoldable pub read_sector :
    (List (ℕ × ℕ) → ℕ → Ram → Ram) → Hardware → Storage → ℕ → List ℕ × Storage
read_sector dma hw s lba =
    let d = s.drive in
    let m1 = wait_done dma (status_addr d d.iocq_head) 20000001 (submit hw lba s) in
    let m2 = write_mmio (d.bar0 + 0x100C) ((d.iocq_head + 1) % 16) m1 in
    (
      load m2.ram (hw.place s.machine.blocks) 512,
      record {
        drive = record d { iosq_tail = (d.iosq_tail + 1) % 16; iocq_head = (d.iocq_head + 1) % 16 };
        machine = m2;
      },
    )
