-- ===== src/Cpu.antt =====
-- The processor as the assembly of src/syscall.rs and src/usermode.rs sees it: its 64-bit registers,
-- its segment registers and the stack, and the instructions that the two files use, after the
-- processor's manual.
use qore_os.Base.{ℕ, ◌+◌, ◌-◌, ◌*◌, ◌/◌, ◌%◌, ◌^◌, List, [], ◌∷◌, bit_and, bit_or}

-- The stack pointer is `stack_base` less 8 for each word of `stack`, the last pushed first.
pub record Cpu : Type 0 where
  pub rax : ℕ
  pub rcx : ℕ
  pub rdx : ℕ
  pub rsi : ℕ
  pub rdi : ℕ
  pub r8 : ℕ
  pub r9 : ℕ
  pub r10 : ℕ
  pub r11 : ℕ
  pub r12 : ℕ
  pub cs : ℕ
  pub ss : ℕ
  pub ds : ℕ
  pub es : ℕ
  pub fs : ℕ
  pub gs : ℕ
  pub rip : ℕ
  pub rflags : ℕ
  pub stack_base : ℕ
  pub stack : List ℕ

pub data Reg : Type 0 where
  rax rcx rdx rsi rdi r8 r9 r10 r11 r12 : Reg

pub data Seg : Type 0 where
  ds es fs gs : Seg

-- In Intel's order, the target first.
pub data Instr : Type 0 where
  push : Reg → Instr
  push_imm : ℕ → Instr
  pop : Reg → Instr
  mov : Reg → Reg → Instr
  mov_ax_ds : Instr
  mov_ax : ℕ → Instr
  mov_seg : Seg → Reg → Instr
  iretq : Instr

unfoldable pub get : Reg → Cpu → ℕ
get Reg.rax c = c.rax
get Reg.rcx c = c.rcx
get Reg.rdx c = c.rdx
get Reg.rsi c = c.rsi
get Reg.rdi c = c.rdi
get Reg.r8 c = c.r8
get Reg.r9 c = c.r9
get Reg.r10 c = c.r10
get Reg.r11 c = c.r11
get Reg.r12 c = c.r12

unfoldable pub put : Reg → ℕ → Cpu → Cpu
put Reg.rax v c = record c { rax = v }
put Reg.rcx v c = record c { rcx = v }
put Reg.rdx v c = record c { rdx = v }
put Reg.rsi v c = record c { rsi = v }
put Reg.rdi v c = record c { rdi = v }
put Reg.r8 v c = record c { r8 = v }
put Reg.r9 v c = record c { r9 = v }
put Reg.r10 v c = record c { r10 = v }
put Reg.r11 v c = record c { r11 = v }
put Reg.r12 v c = record c { r12 = v }

unfoldable pub put_seg : Seg → ℕ → Cpu → Cpu
put_seg Seg.ds v c = record c { ds = v }
put_seg Seg.es v c = record c { es = v }
put_seg Seg.fs v c = record c { fs = v }
put_seg Seg.gs v c = record c { gs = v }

-- A write to the low 16 bits of a register leaves the others.
abbrev pub low16 : ℕ → ℕ → ℕ
low16 old v = old / 2 ^ 16 * 2 ^ 16 + v % 2 ^ 16

-- What lies above `stack_base` is not read by the two files.
abbrev pub pop_to : Reg → List ℕ → Cpu → Cpu
pop_to r [] c = c
pop_to r (w ∷ ws) c = put r w (record c { stack = ws })

-- The five words from the top are the new RIP, CS, RFLAGS, RSP and SS.
abbrev pub return_to : List ℕ → Cpu → Cpu
return_to (rip ∷ cs ∷ rflags ∷ rsp ∷ ss ∷ ws) c = record c {
  rip = rip;
  cs = cs % 2 ^ 16;
  rflags = rflags;
  stack_base = rsp;
  ss = ss % 2 ^ 16;
  stack = [];
}
return_to _ c = c

unfoldable pub step : Instr → Cpu → Cpu
unfolding get put put_seg
step (push r) c = record c { stack = get r c ∷ c.stack }
step (push_imm v) c = record c { stack = v ∷ c.stack }
step (pop r) c = pop_to r c.stack c
step (mov r from) c = put r (get from c) c
step mov_ax_ds c = record c { rax = low16 c.rax c.ds }
step (mov_ax v) c = record c { rax = low16 c.rax v }
step (mov_seg s from) c = put_seg s (get from c % 2 ^ 16) c
step iretq c = return_to c.stack c

unfoldable pub run : List Instr → Cpu → Cpu
unfolding step
run [] c = c
run (i ∷ is) c = run is (step i c)

-- What a function with the calling convention of System V may change besides RAX.
pub record Scratch : Type 0 where
  pub rcx : ℕ
  pub rdx : ℕ
  pub rsi : ℕ
  pub rdi : ℕ
  pub r8 : ℕ
  pub r9 : ℕ
  pub r10 : ℕ
  pub r11 : ℕ

-- The return of such a function with a result.
abbrev pub returned : Scratch → ℕ → Cpu → Cpu
returned s result c = record c {
  rax = result;
  rcx = s.rcx;
  rdx = s.rdx;
  rsi = s.rsi;
  rdi = s.rdi;
  r8 = s.r8;
  r9 = s.r9;
  r10 = s.r10;
  r11 = s.r11;
}

-- The registers that `syscall` and `sysretq` take their targets from.
pub record Msrs : Type 0 where
  pub efer : ℕ
  pub star : ℕ
  pub lstar : ℕ
  pub fmask : ℕ

-- The instruction at the end of which RIP is `c.rip`.
abbrev pub syscall : Msrs → Cpu → Cpu
syscall m c = record c {
  rcx = c.rip;
  r11 = c.rflags;
  rip = m.lstar;
  rflags = bit_and c.rflags (2 ^ 64 - 1 - m.fmask);
  cs = bit_and (m.star / 2 ^ 32 % 2 ^ 16) 0xFFFC;
  ss = m.star / 2 ^ 32 % 2 ^ 16 + 8;
}

abbrev pub sysretq : Msrs → Cpu → Cpu
sysretq m c = record c {
  rip = c.rcx;
  rflags = bit_or (bit_and c.r11 0x3C7FD7) 2;
  cs = bit_or (m.star / 2 ^ 48 + 16) 3;
  ss = bit_or (m.star / 2 ^ 48 + 8) 3;
}
