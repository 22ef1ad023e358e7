-- ===== src/Syscall/Tests.antt =====
-- A system with a card and a drive, and the task that runs on it.
use qore_os.Base.{ℕ, ◌+◌, ◌*◌, ◌%◌, ◌≡◌, ◌≤◌, refl, [], ◌∷◌, none, some, arith, take, drop}
use qore_os.Ram.{store, load-store_self}
use qore_os.Compositor.Screen.{init}
use qore_os.E1000.Sample.{kernel}
use qore_os.Fat32.Sample.{disk, length-disk}
use qore_os.Nvme.{Nvme}
use qore_os.Nvme.Boot.{Ready}
use qore_os.Nvme.Read.{created}
use qore_os.Nvme.Controller.{controller, controller-Serves}
use qore_os.Syscall.{System, Outside, star, canvas_at, sys_print, sys_canvas, syscall_handler}
use qore_os.Syscall.Calls.{storage_of, IsRead, syscall_handler-IsRead}
use qore_os.Cpu.{Cpu, Msrs, Scratch, syscall}
use qore_os.Syscall.Entry.{syscall_entry, resumed, syscall_entry_lem}
use qore_os.Syscall.Task.{Texts, msg, ring3_user_task, Reports, ring3_user_task-Reports}

abbrev drive : Nvme
drive = record {
  bar0 = 0xFEBF0000;
  asq_ptr = 0x10000;
  acq_ptr = 0x11000;
  iosq_ptr = 0x12000;
  iocq_ptr = 0x13000;
  iosq_tail = 0;
  iocq_head = 0;
}

abbrev outside : Outside
outside = record {
  dma = controller drive disk;
  hw = record { device = λ n a. 0; place = λ n. 0x100000 + n % 16 * 4096 };
}

abbrev texts : Texts
texts = record { msg = 0x400000; success_msg = 0x401000 }

abbrev system : System
system = record {
  net_card = some kernel.nic;
  arp_table = kernel.arp;
  http_payload = none;
  nvme_drive = some drive;
  canvases = [];
  screen =
      init (record { framebuffer_base = 0x80000000; width = 1024; height = 768; stride = 1024 });
  pixels = [];
  machine = record {
    ram = store (λ a. 0) 0x400000 msg;
    reads = 0;
    writes = [];
    blocks = 0;
    console = [];
  };
}

drive-Ready :
    (left : ℕ)
    → left ≤ 16
    → Ready (outside.dma) (outside.hw) [] 1000 disk left (storage_of system drive)
drive-Ready left h = record {
  count = 0;
  room = omega arith;
  step = record { tail = refl; head = refl; history = created };
  queues = omega arith;
  pages = λ n l. omega arith;
  fits = λ n. omega arith;
  serves = controller-Serves drive 1000 disk (omega arith) length-disk;
}

-- The selectors of src/gdt.rs: kernel code is 0x08 and user code 0x2B.
star_value : star 0x08 0x2B ≡ 0x0018_0008_0000_0000
unfolding star
star_value = refl

-- A canvas that call 2 has made is found by call 3.
drawn :
    canvas_at (sys_canvas outside 5 6 2 system).1.canvases (sys_canvas outside 5 6 2 system).0
    ≡ some (record { x = 5; y = 6; width = 2; height = 2; pixels = 0 ∷ 0 ∷ 0 ∷ 0 ∷ [] })
unfolding canvas_at sys_canvas
drawn = refl

syscall_handler-IsRead_example :
    (buffer : ℕ) × (s' : System) × (syscall_handler outside 4 154 0 0 system ≡ some (buffer, s'))
    × IsRead outside [] 1000 disk 15 154 system buffer s'
syscall_handler-IsRead_example =
    syscall_handler-IsRead outside [] 1000 disk 15 154 0 0 system drive refl
      (drive-Ready 16 (omega arith)) (omega arith)

ring3_user_task_example :
    (s' : System) × (ring3_user_task outside texts system ≡ some s')
    × Reports (take 8 (drop 3 (disk 0))) system s'
ring3_user_task_example =
    ring3_user_task-Reports outside texts [] 1000 disk system drive kernel.nic refl refl
      (drive-Ready 1 (omega arith)) (omega arith) (load-store_self (λ a. 0) 0x400000 msg)

abbrev task : Cpu
task = record {
  rax = 1;
  rcx = 0;
  rdx = 0xF59E0B;
  rsi = 3;
  rdi = 0x400000;
  r8 = 8;
  r9 = 9;
  r10 = 10;
  r11 = 11;
  r12 = 12;
  cs = 0x2B;
  ss = 0x33;
  ds = 0x33;
  es = 0x33;
  fs = 0x33;
  gs = 0x33;
  rip = 0x600002;
  rflags = 2;
  stack_base = 0x900000;
  stack = 7 ∷ [];
}

abbrev msrs : Msrs
msrs = record { efer = 0xD01; star = star 0x08 0x2B; lstar = 0x2000; fmask = 0x200 }

abbrev scratch : Scratch
scratch = record { rcx = 1; rdx = 2; rsi = 3; rdi = 4; r8 = 5; r9 = 6; r10 = 7; r11 = 8 }

syscall_entry_example :
    syscall_entry (syscall_handler outside) scratch msrs (syscall msrs task) system
    ≡ some (resumed msrs 0 task, sys_print 0x400000 3 0xF59E0B system)
unfolding syscall_handler
syscall_entry_example =
    syscall_entry_lem (syscall_handler outside) scratch msrs task system
      (sys_print 0x400000 3 0xF59E0B system) 0 (omega arith) refl
