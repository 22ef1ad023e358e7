-- ===== src/Loop/Sample.antt =====
-- A processor, a screen and surroundings to run the loop in.
use qore_os.Base.{[], false, arith}
use qore_os.Machine.{Hardware}
use qore_os.Cpu.{Cpu}
use qore_os.Compositor.Screen.{Screen, init}
use qore_os.Loop.{Surroundings}
use qore_os.Loop.Run.{IsDisplay}

abbrev pub screen : Screen
screen = init (record { framebuffer_base = 0x80000000; width = 1024; height = 768; stride = 1024 })

abbrev pub cpu : Cpu
cpu = record {
  rax = 0;
  rcx = 0;
  rdx = 0;
  rsi = 0;
  rdi = 0;
  r8 = 0;
  r9 = 0;
  r10 = 0;
  r11 = 0;
  r12 = 0;
  cs = 8;
  ss = 16;
  ds = 16;
  es = 16;
  fs = 16;
  gs = 16;
  rip = 0x200000;
  rflags = 0x202;
  stack_base = 0x8000;
  stack = [];
}

abbrev pub env : Hardware → Surroundings
env hw = record {
  hw = hw;
  status = record { nvme_found = false; hda_found = false; sector_data_str = [] };
  cr3 = 0x1000;
  cpu = cpu;
  user_code = 0x2B;
  user_data = 0x33;
  ring3_user_task = 0x201000;
  user_stack = 0x214000;
}

pub screen-IsDisplay : IsDisplay screen
unfolding init
screen-IsDisplay = record { room = omega arith; framebuffer = omega arith; terminal = omega arith }
