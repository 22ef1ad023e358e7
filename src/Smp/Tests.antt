-- ===== src/Smp/Tests.antt =====
-- A processor whose level 4 table is empty: both static tables are injected.
use qore_os.Base.{ℕ, ◌≡◌, ◌+◌, refl, some, true, false, arith, length, drop, take}
use qore_os.Ram.{Ram, load, store, from_le, le_bytes, load64}
use qore_os.Memory.{is_huge, walk_page_table}
use qore_os.Smp.{Statics, inject, real_mode, protected_mode, copy_trampoline}
use qore_os.Smp.Processor.{
  program, next, exec, Regs, System, Reach, here, later, pick, instruction, awake,
}
use qore_os.Smp.Instructions.{StacksHigh, first_stack}
use qore_os.Smp.Stacks.{in_main, waiting, awake-OneStack}
use qore_os.Smp.Handover.{Handover, copy_trampoline-Handover}
use qore_os.Smp.Identity.{
  pml4_of, pdpt_of, pd_of, injected, IsReady, copy_trampoline-walk_page_table,
}

abbrev statics : Statics
statics = record {
  smp_pdpt = 0x200000;
  smp_pd = 0x201000;
  ap_stacks = 0x300000;
  ap_main = 0x400000;
}

abbrev ram : Ram
ram a = 0

-- The far jumps of the code lead to where its parts begin.
jump32 : from_le (take 4 (drop 28 real_mode)) ≡ 0x8000 + length real_mode
unfolding real_mode from_le
jump32 = refl

jump64 :
    from_le (take 4 (drop 58 protected_mode)) ≡ 0x8000 + length real_mode + length protected_mode
unfolding real_mode protected_mode from_le
jump64 = refl

third : pdpt_of statics ram 0x100000 ≡ 0x200000
unfolding inject load store from_le le_bytes
third = refl

second : pd_of statics ram 0x100000 ≡ 0x201000
unfolding inject load store from_le le_bytes
second = refl

small : is_huge (load64 (injected statics ram 0x100000) (pdpt_of statics ram 0x100000)) ≡ false
unfolding inject load store from_le le_bytes
small = refl

ready : IsReady statics ram 0x100000
ready = record {
  pdpt_aligned = refl;
  pdpt_small = omega arith;
  pd_aligned = refl;
  pd_small = omega arith;
  not_huge = small;
  apart43 = rw third (omega arith);
  apart42 = rw second (omega arith);
  apart32 = rw (second, third) (omega arith);
  high4 = omega arith;
  high3 = rw third (omega arith);
  high2 = rw second (omega arith);
}

copy_trampoline-walk_page_table_example :
    walk_page_table (copy_trampoline statics ram 0x100000) (pml4_of 0x100000) 0x8022 ≡ some 0x8022
copy_trampoline-walk_page_table_example =
    copy_trampoline-walk_page_table statics ram 0x100000 0x8022 ready (omega arith)

handed_over : Handover statics 0x100000 (copy_trampoline statics ram 0x100000)
handed_over =
    copy_trampoline-Handover statics ram 0x100000 (omega arith) (omega arith) (omega arith)

abbrev high : StacksHigh statics
high = record { above = omega arith; below = omega arith }

abbrev regs : ℕ → Regs
regs i = record { rax = 0; rbx = 0; rsp = 0; rbp = 0 }

entered :
    (t : System) × Reach statics 2 (awake (copy_trampoline statics ram 0x100000) regs) t
    × (in_main (t.cores 0).place ≡ true)
unfolding program next exec
entered = (
  _,
  later
      (later
        (later
          (later
            (later
              (later
                (later
                  (later
                    (later
                      (later
                        (later
                          (later
                            (later
                              (later
                                (later (later here (pick 0 (omega arith) (instruction _ _ _)))
                                  (pick 0 (omega arith) (instruction _ _ _)))
                                (pick 0 (omega arith) (instruction _ _ _)))
                              (pick 0 (omega arith) (instruction _ _ _)))
                            (pick 0 (omega arith) (instruction _ _ _)))
                          (pick 0 (omega arith) (instruction _ _ _)))
                        (pick 0 (omega arith) (instruction _ _ _)))
                      (pick 0 (omega arith) (instruction _ _ _)))
                    (pick 0 (omega arith) (instruction _ _ _)))
                  (pick 0 (omega arith) (instruction _ _ _)))
                (pick 0 (omega arith) (instruction _ _ _)))
              (pick 0 (omega arith) (instruction _ _ _)))
            (pick 0 (omega arith) (instruction _ _ _)))
          (pick 0 (omega arith) (instruction _ _ _)))
        (pick 0 (omega arith) (instruction _ _ _)))
      (pick 1 (omega arith) (instruction _ _ _)),
  refl,
)

awake-OneStack_example :
    ((i : ℕ)
      → in_main (entered.0.cores i).place ≡ true
      → (entered.0.cores i).regs.rsp ≡ first_stack statics)
    × (entered.0.shared.ap_count ≡ waiting 2 entered.0.cores)
awake-OneStack_example =
    awake-OneStack statics high 2 0x100000 ram regs (omega arith) (omega arith) (omega arith)
      entered.1
