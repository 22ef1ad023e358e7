-- ===== src/Usermode.antt =====
-- src/usermode.rs: the instructions of `drop_to_usermode`, which has its arguments in RDI, RSI, RDX
-- and RCX.
use qore_os.Base.{ℕ, List, [], ◌∷◌}
use qore_os.Cpu.{
  Cpu, rdi, rsi, rdx, rcx, ds, es, fs, gs, Instr, push, push_imm, mov_seg, iretq, run,
}

unfoldable pub instructions : List Instr
instructions =
    mov_seg ds rsi
    ∷ mov_seg es rsi
    ∷ mov_seg fs rsi
    ∷ mov_seg gs rsi
    ∷ push rsi
    ∷ push rcx
    ∷ push_imm 0x002
    ∷ push rdi
    ∷ push rdx
    ∷ iretq
    ∷ []

unfoldable pub drop_to_usermode : ℕ → ℕ → ℕ → ℕ → Cpu → Cpu
unfolding instructions
drop_to_usermode code_selector data_selector instruction_ptr stack_ptr c =
    run instructions (record c {
      rdi = code_selector;
      rsi = data_selector;
      rdx = instruction_ptr;
      rcx = stack_ptr;
    })
