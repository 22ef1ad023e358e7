-- ===== src/Syscall/Entry.antt =====
-- The way into a system call and back, `syscall_entry` and `init` of src/syscall.rs. The handler is
-- called by the convention of System V; `lstar` is the address of `syscall_entry`.
use qore_os.Base.{
  ℕ, ◌+◌, ◌/◌, ◌%◌, ◌^◌, ◌<◌, ◌≡◌, ap, List, [], ◌∷◌, Option, none, some, bit_and, bit_or, arith,
}
use qore_os.Cpu.{
  Cpu, rax, rcx, rdx, rsi, rdi, r8, r9, r10, r11, r12, ds, es, fs, gs, Instr, push, pop, mov,
  mov_ax_ds, mov_ax, mov_seg, low16, run, Scratch, returned, Msrs, syscall, sysretq,
}
use qore_os.Syscall.{star}

-- `init` on the model-specific registers; of EFER it reads the low half.
unfoldable pub init : ℕ → ℕ → ℕ → Msrs → Msrs
init lstar kernel_code_sel user_code_sel m = record {
  efer = bit_or (m.efer % 2 ^ 32) 1;
  star = star kernel_code_sel user_code_sel;
  lstar = lstar;
  fmask = 0x200;
}

abbrev load_segments : List Instr → List Instr
load_segments rest = mov_seg ds rax ∷ mov_seg es rax ∷ mov_seg fs rax ∷ mov_seg gs rax ∷ rest

unfoldable pub before_call : List Instr
before_call =
    push rcx
    ∷ push r11
    ∷ push rax
    ∷ push rdi
    ∷ push rsi
    ∷ push rdx
    ∷ push r8
    ∷ push r9
    ∷ push r10
    ∷ mov rcx rdx
    ∷ mov rdx rsi
    ∷ mov rsi rdi
    ∷ mov rdi rax
    ∷ mov_ax_ds
    ∷ push rax
    ∷ mov_ax 0x10
    ∷ load_segments []

unfoldable pub after_call : List Instr
after_call =
    mov r12 rax
    ∷ pop rax
    ∷ load_segments (
        pop r10
        ∷ pop r9
        ∷ pop r8
        ∷ pop rdx
        ∷ pop rsi
        ∷ pop rdi
        ∷ pop rax
        ∷ mov rax r12
        ∷ pop r11
        ∷ pop rcx
        ∷ [])

-- The whole stub, around a handler that takes its arguments in RDI, RSI, RDX and RCX. The handler may
-- halt the machine, and then gives nothing.
module _ {S : Type 0} (handler : ℕ → ℕ → ℕ → ℕ → S → Option (ℕ × S)) (scratch : Scratch)
    (m : Msrs) where
  abbrev resume : Cpu → Option (ℕ × S) → Option (Cpu × S)
  resume c none = none
  resume c (some (result, s)) = some (sysretq m (run after_call (returned scratch result c)), s)

  unfoldable pub syscall_entry : Cpu → S → Option (Cpu × S)
  syscall_entry c s =
      let called = run before_call c in
      resume called (handler called.rdi called.rsi called.rdx called.rcx s)

-- The task behind the instruction.
abbrev pub resumed : Msrs → ℕ → Cpu → Cpu
resumed m result c = record c {
  rax = result;
  rcx = c.rip;
  r11 = c.rflags;
  r12 = result;
  es = c.ds;
  fs = c.ds;
  gs = c.ds;
  rflags = bit_or (bit_and c.rflags 0x3C7FD7) 2;
  cs = bit_or (m.star / 2 ^ 48 + 16) 3;
  ss = bit_or (m.star / 2 ^ 48 + 8) 3;
}

-- A system call of a task with number and arguments in RAX, RDI, RSI and RDX, its DS below 2^16,
-- reaches the handler with these four, and where that returns, the task goes on behind the instruction
-- with its stack, and with the result in RAX. Of its other registers R12 has the result too, RCX and
-- R11 are as `syscall` leaves them, the flags lose their resume bit and their reserved bits, CS and SS
-- come from STAR, and ES, FS and GS are equal to DS; all others are as before.
pub syscall_entry_lem :
    {S : Type 0} (handler : ℕ → ℕ → ℕ → ℕ → S → Option (ℕ × S)) (scratch : Scratch) (m : Msrs)
    (c : Cpu) (s s' : S) (result : ℕ)
    → c.ds < 2 ^ 16
    → handler c.rax c.rdi c.rsi c.rdx s ≡ some (result, s')
    → syscall_entry handler scratch m (syscall m c) s ≡ some (resumed m result c, s')
unfolding syscall_entry before_call after_call run
syscall_entry_lem handler scratch m c s s' result small h =
    let same : low16 c.rax c.ds % 2 ^ 16 ≡ c.ds = omega arith in
    rw h (ap (λ d. some (record (resumed m result c) { ds = d; es = d; fs = d; gs = d }, s')) same)
