-- ===== src/Gdt/Rings.antt =====
-- The selectors that the kernel and its task in ring 3 run with.
use qore_os.Base.{ℕ, ◌≡◌, refl}
use qore_os.Cpu.{Cpu, Msrs, syscall, run}
use qore_os.Gdt.{GlobalDescriptorTable, Selectors, gdt, init, ring3_selector}
use qore_os.Syscall.{star}
use qore_os.Syscall.Entry.{resumed}
use qore_os.Usermode.{drop_to_usermode}
use qore_os.Syscall.Entry

abbrev pub expected : Selectors
expected = record {
  code_selector = 0x08;
  data_selector = 0x10;
  tss_selector = 0x18;
  user_code = 0x2B;
  user_data = 0x33;
}

gdt-expected : (g : GlobalDescriptorTable) → gdt g ≡ expected
unfolding gdt
gdt-expected g = simp (g.selector, g.next-add_entry, g.next-new)

-- What holds of the segments of the kernel and of a task, where `m` are the registers after `init`.
pub record Rings (m : Msrs) (kernel task : Cpu) (instruction_ptr stack_ptr : ℕ) : Type 0 where
  pub starts : task.rip ≡ instruction_ptr
  pub stack : task.stack_base ≡ stack_ptr
  pub masked : task.rflags ≡ 2
  pub task_cs : task.cs ≡ 0x2B
  pub task_ss : task.ss ≡ 0x33
  pub into_cs : (syscall m task).cs ≡ kernel.cs
  pub into_ss : (syscall m task).ss ≡ kernel.ss
  pub back_cs : (result : ℕ) → (resumed m result task).cs ≡ task.cs
  pub back_ss : (result : ℕ) → (resumed m result task).ss ≡ 0x23

module _ (m : Msrs) (c d : Cpu) (lstar instruction_ptr stack_ptr : ℕ) where
  rings :
      (s : Selectors)
      → s ≡ expected
      → Rings
          (qore_os.Syscall.Entry.init lstar s.code_selector s.user_code m)
          (init s c)
          (drop_to_usermode
            (ring3_selector s.user_code)
            (ring3_selector s.user_data)
            instruction_ptr
            stack_ptr
            d)
          instruction_ptr
          stack_ptr
  unfolding qore_os.Syscall.Entry.init init star drop_to_usermode run
  rings s h = rw h (record {
    starts = refl;
    stack = refl;
    masked = refl;
    task_cs = refl;
    task_ss = refl;
    into_cs = refl;
    into_ss = refl;
    back_cs = λ r. refl;
    back_ss = λ r. refl;
  })

-- On the crate's table, the kernel runs with the selectors 0x08 and 0x10, and the task in ring 3 starts
-- at its instruction and stack, with no flag set but the reserved one, and with 0x2B and 0x33. Its system
-- calls bring the processor to the kernel's two selectors, and back to 0x2B, but with 0x23 for the stack.
pub gdt-Rings :
    (g : GlobalDescriptorTable) (m : Msrs) (c d : Cpu) (lstar instruction_ptr stack_ptr : ℕ)
    → Rings
        (qore_os.Syscall.Entry.init lstar (gdt g).code_selector (gdt g).user_code m)
        (init (gdt g) c)
        (drop_to_usermode
          (ring3_selector (gdt g).user_code)
          (ring3_selector (gdt g).user_data)
          instruction_ptr
          stack_ptr
          d)
        instruction_ptr
        stack_ptr
gdt-Rings g m c d lstar instruction_ptr stack_ptr =
    rings m c d lstar instruction_ptr stack_ptr (gdt g) (gdt-expected g)
