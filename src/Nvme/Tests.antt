-- ===== src/Nvme/Tests.antt =====
-- Reads from a small disk behind a controller that serves the queue.
use qore_os.Base.{ℕ, ◌+◌, ◌*◌, ◌%◌, ◌≡◌, refl, List, [], arith}
use qore_os.Ram.{Ram}
use qore_os.Machine.{Hardware}
use qore_os.Fat32.Sample.{disk, length-disk}
use qore_os.Nvme.{Storage, read_sector}
use qore_os.Nvme.Read.{InStep, created, read_sector_lem}
use qore_os.Nvme.Controller.{controller, controller-Serves}

-- The heap gives sixteen pages in turn.
abbrev hw : Hardware
hw = record { device = λ n a. 0; place = λ n. 0x100000 + n % 16 * 4096 }

abbrev storage : Storage
storage = record {
  drive = record {
    bar0 = 0xFEBF0000;
    asq_ptr = 0x10000;
    acq_ptr = 0x11000;
    iosq_ptr = 0x12000;
    iocq_ptr = 0x13000;
    iosq_tail = 0;
    iocq_head = 0;
  };
  machine = record { ram = λ a. 0; reads = 0; writes = []; blocks = 0; console = [] };
}

abbrev dma : List (ℕ × ℕ) → ℕ → Ram → Ram
dma = controller (storage.drive) disk

storage-InStep : InStep [] 0 storage
storage-InStep = record { tail = refl; head = refl; history = created }

sector_154 :
    ((read_sector dma hw storage 154).0 ≡ disk 154) × InStep [] 1 (read_sector dma hw storage 154).1
sector_154 =
    read_sector_lem dma hw [] 0 storage 154 1000 disk storage-InStep (omega arith) (omega arith)
      (omega arith) (omega arith) (omega arith)
      (controller-Serves (storage.drive) 1000 disk (omega arith) length-disk)
