-- ===== src/Gdt/Tests.antt =====
-- A table that counts its slots.
use qore_os.Base.{ℕ, ◌+◌, ◌*◌, refl, []}
use qore_os.Cpu.{Cpu, Msrs}
use qore_os.Gdt.{GlobalDescriptorTable, gdt, init, ring3_selector, privilege, slots}
use qore_os.Gdt.Rings.{Rings, gdt-Rings}
use qore_os.Usermode.{drop_to_usermode}
use qore_os.Syscall.Entry

abbrev table : GlobalDescriptorTable
table = record {
  Table = ℕ;
  new = 1;
  add_entry = λ d t. (t * 8 + privilege d, t + slots d);
  next = λ t. t;
  next-new = refl;
  next-add_entry = λ d t. refl;
  selector = λ d t. refl;
}

abbrev cpu : Cpu
cpu = record {
  rax = 0;
  rcx = 0;
  rdx = 0;
  rsi = 0;
  rdi = 0;
  r8 = 0;
  r9 = 0;
  r10 = 0;
  r11 = 0;
  r12 = 0;
  cs = 0x38;
  ss = 0x30;
  ds = 0x30;
  es = 0x30;
  fs = 0x30;
  gs = 0x30;
  rip = 0x1000;
  rflags = 0x202;
  stack_base = 0x8000;
  stack = [];
}

abbrev msrs : Msrs
msrs = record { efer = 0xD00; star = 0; lstar = 0; fmask = 0 }

gdt-Rings_example :
    Rings
      (qore_os.Syscall.Entry.init 0x2000 (gdt table).code_selector (gdt table).user_code msrs)
      (init (gdt table) cpu)
      (drop_to_usermode
        (ring3_selector (gdt table).user_code)
        (ring3_selector (gdt table).user_data)
        0x3000
        0x9000
        cpu)
      0x3000
      0x9000
gdt-Rings_example = gdt-Rings table msrs cpu cpu 0x2000 0x3000 0x9000
