-- ===== src/Smp/Instructions.antt =====
-- What one instruction of another processor of src/smp.rs keeps.
use qore_os.Base.{ℕ, ◌+◌, ◌-◌, ◌%◌, ◌^◌, ◌≤◌, ◌<◌, ◌≡◌, refl, sym, ap, ◌∙◌, List, [], ◌∷◌, arith}
use mathlib.Core.Path.{subst}
use qore_os.Ram.{
  Ram, store, le_bytes, from_le, load-store_self, load-store-Apart, length-le_bytes,
  from_le-le_bytes,
}
use qore_os.Smp.{Statics}
use qore_os.Smp.Processor.{
  Cell, counter, stack_top, entry, read, Instr, mov_eax, mov_seg, lock_xadd_eax, shl_eax, mov_rbx,
  sub_rbx_rax, mov_rsp_rbx, xor_rbp_rbp, mov_rax, call_rax, cli, hlt, jmp_hlt, program, Regs, exec,
  effect, Place, code, called, halted, next,
}

-- The words as `copy_trampoline` leaves them.
abbrev pub words : Statics → Cell → ℕ
words s counter = 0
words s stack_top = s.ap_stacks + 65536
words s entry = s.ap_main

-- The stack pointer in `ap_main`: below the end of all the stacks, with the return address.
abbrev pub first_stack : Statics → ℕ
first_stack s = s.ap_stacks + 65528

-- The rest of the program adds nothing to the counter, and calls `ap_main` on the first stack.
abbrev pub Goes : Statics → List Instr → Regs → Type 0
Goes s [] r = ⊥
Goes s (call_rax ∷ is) r = (r.rax ≡ s.ap_main) × (r.rsp ≡ s.ap_stacks + 65536)
Goes s (lock_xadd_eax ∷ is) r = (r.rax ≡ 0) × Goes s is (exec (words s) lock_xadd_eax r)
Goes s (i ∷ is) r = Goes s is (exec (words s) i r)

abbrev pub PlaceFits : Statics → Place → Regs → Type 0
PlaceFits s (code is) r = Goes s is r
PlaceFits s (called target) r = (target ≡ s.ap_main) × (r.rsp ≡ first_stack s)
PlaceFits s halted r = r.rsp ≡ first_stack s

-- The stacks lie above the trampoline's words, and below 2^64.
pub record StacksHigh (s : Statics) : Type 0 where
  pub above : 0x10000 ≤ s.ap_stacks
  pub below : s.ap_stacks + 65536 < 2 ^ 64

module _ (s : Statics) (high : StacksHigh s) where
  pub exec-PlaceFits :
      (i : Instr) (is : List Instr) (r : Regs)
      → Goes s (i ∷ is) r
      → PlaceFits s (next i is r) (exec (words s) i r)
  unfolding next exec
  exec-PlaceFits (mov_eax v) is r h = h
  exec-PlaceFits (mov_seg v) is r h = h
  exec-PlaceFits lock_xadd_eax is r h = h.1
  exec-PlaceFits (shl_eax k) is r h = h
  exec-PlaceFits (mov_rbx x) is r h = h
  exec-PlaceFits sub_rbx_rax is r h = h
  exec-PlaceFits mov_rsp_rbx is r h = h
  exec-PlaceFits xor_rbp_rbp is r h = h
  exec-PlaceFits (mov_rax x) is r h = h
  exec-PlaceFits call_rax is r h = (h.0, omega (arith, h.1, high.above, high.below))
  exec-PlaceFits cli is r h = h
  exec-PlaceFits hlt is r h = h
  exec-PlaceFits jmp_hlt is r h = h

  abbrev pub Kept : Ram → Type 0
  Kept ram = (x : Cell) → read ram x ≡ words s x

  store-Kept : (ram : Ram) (p : ℕ) (bs : List ℕ) → 0x8618 ≤ p → Kept ram → Kept (store ram p bs)
  store-Kept ram p bs h k counter =
      ap from_le (load-store-Apart ram p bs 0x8600 4 (omega arith)) ∙ k counter
  store-Kept ram p bs h k stack_top =
      ap from_le (load-store-Apart ram p bs 0x8608 8 (omega arith)) ∙ k stack_top
  store-Kept ram p bs h k entry =
      ap from_le (load-store-Apart ram p bs 0x8610 8 (omega arith)) ∙ k entry

  add-Kept : (ram : Ram) → Kept ram → Kept (store ram 0x8600 (le_bytes 4 0))
  unfolding le_bytes
  add-Kept ram k counter =
      ap from_le (load-store_self ram 0x8600 (le_bytes 4 0)) ∙ from_le-le_bytes 4 0 (omega arith)
  add-Kept ram k stack_top =
      ap from_le
        (load-store-Apart ram 0x8600 (le_bytes 4 0) 0x8608 8 (omega (arith, length-le_bytes 4 0)))
      ∙ k stack_top
  add-Kept ram k entry =
      ap from_le
        (load-store-Apart ram 0x8600 (le_bytes 4 0) 0x8610 8 (omega (arith, length-le_bytes 4 0)))
      ∙ k entry

  pub effect-Kept :
      (i : Instr) (is : List Instr) (r : Regs) (ram : Ram)
      → Goes s (i ∷ is) r
      → Kept ram
      → Kept (effect i r ram)
  unfolding effect
  effect-Kept (mov_eax v) is r ram h k = k
  effect-Kept (mov_seg v) is r ram h k = k
  effect-Kept lock_xadd_eax is r ram h k =
      let none_added : (read ram counter + r.rax) % 2 ^ 32 ≡ 0 = omega (arith, k counter, h.0) in
      subst (λ v. Kept (store ram 0x8600 (le_bytes 4 v))) (sym none_added) (add-Kept ram k)
  effect-Kept (shl_eax v) is r ram h k = k
  effect-Kept (mov_rbx x) is r ram h k = k
  effect-Kept sub_rbx_rax is r ram h k = k
  effect-Kept mov_rsp_rbx is r ram h k = k
  effect-Kept xor_rbp_rbp is r ram h k = k
  effect-Kept (mov_rax x) is r ram h k = k
  effect-Kept call_rax is r ram h k =
      store-Kept ram ((r.rsp + 2 ^ 64 - 8) % 2 ^ 64) _ (omega (arith, h.1, high.above, high.below))
        k
  effect-Kept cli is r ram h k = k
  effect-Kept hlt is r ram h k = k
  effect-Kept jmp_hlt is r ram h k = k

  pub program-Goes : (r : Regs) → Goes s program r
  unfolding program exec
  program-Goes r = (refl, (refl, omega (arith, high.below)))
