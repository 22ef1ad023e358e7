-- ===== src/Smp/Stacks.antt =====
-- On which stacks the other processors of src/smp.rs run, whatever the order of their steps.
use qore_os.Base.{
  ℕ, zero, suc, ◌+◌, ◌%◌, ◌^◌, ◌≤◌, ◌<◌, ◌≡◌, refl, sym, ap, List, Bool, true, false, Bool-cases,
  inl, inr, arith, ◌==◌, ==→eq, ne→==, if_intro,
}
use mathlib.Core.Path.{subst, fun_ext}
use qore_os.Ram.{Ram}
use qore_os.Smp.{Statics, copy_trampoline}
use qore_os.Smp.Handover.{Handover, copy_trampoline-Handover}
use qore_os.Smp.Processor.{
  counter, stack_top, entry, read, Instr, call_rax, Regs, exec, Place, code, called, halted, Core,
  next, Shared, Move, instruction, fetch_add, System, update, Step, pick, awake, Reach, here, later,
}
use qore_os.Smp.Instructions.{
  words, first_stack, PlaceFits, StacksHigh, Kept, exec-PlaceFits, effect-Kept, program-Goes,
}

abbrev place_waits : Place → ℕ
place_waits halted = 1
place_waits _ = 0

waits_le : (p : Place) → place_waits p ≤ 1
waits_le halted = omega arith
waits_le (code is) = omega arith
waits_le (called target) = omega arith

-- How many of the first `n` processors wait in `ap_main`.
unfoldable pub waiting : ℕ → (ℕ → Core) → ℕ
waiting zero cores = 0
waiting (suc n) cores = waiting n cores + place_waits (cores n).place

waiting_above :
    (n : ℕ) (cores : ℕ → Core) (i : ℕ) (c : Core)
    → n ≤ i
    → waiting n (update cores i c) ≡ waiting n cores
unfolding waiting
waiting_above zero cores i c h = refl
waiting_above (suc n) cores i c h =
    rw (ne→== n i (omega arith))
      (ap (λ k. k + place_waits (cores n).place) (waiting_above n cores i c (omega arith)))

waiting-update :
    (n : ℕ) (cores : ℕ → Core) (i : ℕ) (c : Core)
    → i < n
    → waiting n (update cores i c) + place_waits (cores i).place
      ≡ waiting n cores + place_waits c.place
unfolding waiting
waiting-update zero cores i c h = absurd (omega arith)
waiting-update (suc n) cores i c h = elim (Bool-cases (n == i)) [
  | inl last ↦
      let same : n ≡ i = ==→eq n i last in
      rw last (
        omega (
          arith,
          waiting_above n cores i c (omega arith),
          ap (λ j. place_waits (cores j).place) same,
        ))
  | inr below ↦ rw below (omega (arith, waiting-update n cores i c (ground arith)))
]

module _ (s : Statics) (high : StacksHigh s) (n : ℕ) where
  record Inv (t : System) : Type 0 where
    kept : Kept s high t.shared.ram
    fits : (i : ℕ) → PlaceFits s (t.cores i).place (t.cores i).regs
    counted : t.shared.ap_count ≡ waiting n t.cores

  -- What one step of one processor does to the words, the processor and the count.
  record Moved (m m' : Shared) (c c' : Core) : Type 0 where
    kept : Kept s high m'.ram
    fits : PlaceFits s c'.place c'.regs
    counted : m'.ap_count + place_waits c.place ≡ (m.ap_count + place_waits c'.place) % 2 ^ 64

  next_waits : (i : Instr) (is : List Instr) (r : Regs) → place_waits (next i is r) ≡ 0
  unfolding next
  next_waits call_rax is r = refl
  next_waits _ is r = refl

  Move-Moved :
      {m m' : Shared} {c c' : Core}
      → Move s m c m' c'
      → Kept s high m.ram
      → PlaceFits s c.place c.regs
      → m.ap_count < 2 ^ 64
      → Moved m m' c c'
  Move-Moved {m} (instruction i is r) k f l =
      let same : read m.ram ≡ words s = fun_ext k in
      record {
        kept = effect-Kept s high i is r m.ram f k;
        fits =
            subst (λ w. PlaceFits s (next i is r) (exec w i r)) (sym same)
              (exec-PlaceFits s high i is r f);
        counted = rw (next_waits i is r) (omega arith);
      }
  Move-Moved {m} (fetch_add target r e) k f l = record {
    kept = k;
    fits = f.1;
    counted = omega arith;
  }

  waiting-le : (k : ℕ) (cores : ℕ → Core) → waiting k cores ≤ k
  unfolding waiting
  waiting-le zero cores = omega arith
  waiting-le (suc k) cores = omega (arith, waiting-le k cores, waits_le (cores k).place)

  Step-Inv : {t u : System} → n < 2 ^ 32 → Step s n t u → Inv t → Inv u
  Step-Inv {t} small (pick i {m} {c} l move) v =
      let before = waiting-le n t.cores in
      let moved = Move-Moved move v.kept (v.fits i) (omega (arith, v.counted, before)) in
      record {
        kept = moved.kept;
        fits = λ j.
            if_intro (λ (x : Core). PlaceFits s x.place x.regs) (j == i) (λ _. moved.fits)
              λ _. v.fits j;
        counted = omega (
          arith,
          moved.counted,
          v.counted,
          before,
          waits_le c.place,
          waiting-update n t.cores i c l,
        );
      }

  Reach-Inv : {t u : System} → n < 2 ^ 32 → Reach s n t u → Inv t → Inv u
  Reach-Inv small here v = v
  Reach-Inv small (later r step) v = Step-Inv small step (Reach-Inv small r v)

  waiting-awake : (k : ℕ) (ram : Ram) (regs : ℕ → Regs) → waiting k (awake ram regs).cores ≡ 0
  unfolding waiting
  waiting-awake zero ram regs = refl
  waiting-awake (suc k) ram regs = omega (arith, waiting-awake k ram regs)

  Handover-Inv : (cr3 : ℕ) (ram : Ram) (regs : ℕ → Regs) → Handover s cr3 ram → Inv (awake ram regs)
  Handover-Inv cr3 ram regs h = record {
    kept = words_kept;
    fits = λ i. program-Goes s high (regs i);
    counted = sym (waiting-awake n ram regs);
  }
    where
      words_kept : Kept s high ram
      words_kept counter = h.count
      words_kept stack_top = h.stack_top
      words_kept entry = h.entry

abbrev pub in_main : Place → Bool
in_main (code is) = false
in_main _ = true

main_stack :
    (s : Statics) (p : Place) (r : Regs)
    → PlaceFits s p r
    → in_main p ≡ true
    → r.rsp ≡ first_stack s
main_stack s (code is) r f there = absurd (ground arith)
main_stack s (called target) r f there = f.1
main_stack s halted r f there = f

-- Whatever the order of the steps of fewer than 2^32 processors that enter long mode after
-- `copy_trampoline` (CR3 below 2^32, stacks above the trampoline, addresses below 2^64): each that is in
-- `ap_main` is on the first stack, none on another, and AP_COUNT is the number of those that have counted
-- themselves.
pub awake-OneStack :
    (s : Statics) (high : StacksHigh s) (n cr3 : ℕ) (ram : Ram) (regs : ℕ → Regs) {t : System}
    → n < 2 ^ 32
    → cr3 < 2 ^ 32
    → s.ap_main < 2 ^ 64
    → Reach s n (awake (copy_trampoline s ram cr3) regs) t
    → ((i : ℕ) → in_main (t.cores i).place ≡ true → (t.cores i).regs.rsp ≡ first_stack s)
      × (t.shared.ap_count ≡ waiting n t.cores)
awake-OneStack s high n cr3 ram regs {t} few root main reach =
    let handed = copy_trampoline-Handover s ram cr3 root (high.below) main in
    let inv = Reach-Inv s high n few reach (Handover-Inv s high n cr3 _ regs handed) in
    (λ i. main_stack s (t.cores i).place (t.cores i).regs (inv.fits i), inv.counted)
