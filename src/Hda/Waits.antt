-- ===== src/Hda/Waits.antt =====
-- The waits end, and what `init` comes to by what the reset register reads as.
use mathlib.Core.Path.{subst}
use qore_os.Base.{
  ℕ, zero, suc, ◌+◌, ◌%◌, ◌^◌, ◌<◌, ◌≡◌, ap, sym, ◌∙◌, Bool, true, false, not, arith, bit_and,
  bit_and_low, ◌==◌,
}
use qore_os.Text.{codes}
use qore_os.Machine.{Hardware}
use qore_os.Hda.{
  Audio, read_reg, after_read, write_reg, say, wait_bit, map_rings, after_reset, init,
}

-- Bit 0 of the `i`-th read from now on, of the register at `offset`.
abbrev pub bit_at : Hardware → ℕ → Audio → ℕ → Bool
bit_at hw offset s i = hw.device (s.machine.reads + i) (s.hda.bar0 + offset) % 2 == 1

-- `n` reads later.
abbrev pub later : ℕ → Audio → Audio
later n s =
    let machine = s.machine in record s { machine = record machine { reads = machine.reads + n } }

-- A wait for bit 0 of a 32-bit register, with `left` reads.
pub data Waited (hw : Hardware) (offset left : ℕ) (s : Audio) : Bool × Audio → Type 0 where
  timed_out :
      ((i : ℕ) → i < left → bit_at hw offset s i ≡ false)
      → Waited hw offset left s (false, later left s)
  came :
      (i : ℕ)
      → i < left
      → ((j : ℕ) → j < i → bit_at hw offset s j ≡ false)
      → bit_at hw offset s i ≡ true
      → Waited hw offset left s (true, later (i + 1) s)

set_test : (v : ℕ) → not (bit_and (v % 2 ^ 32) 1 == 0) ≡ (v % 2 == 1)
set_test v = ground (arith, bit_and_low 1 (v % 2 ^ 32))

at_reads :
    (s : Audio) (m n : ℕ)
    → m ≡ n
    → record s { machine = record s.machine { reads = m } }
      ≡ record s { machine = record s.machine { reads = n } }
at_reads s m n h = ap (λ r. record s { machine = record s.machine { reads = r } }) h

bit_at-suc :
    (hw : Hardware) (offset i : ℕ) (s : Audio)
    → bit_at hw offset s (suc i) ≡ bit_at hw offset (after_read s) i
bit_at-suc hw offset i s = ap (λ r. hw.device r (s.hda.bar0 + offset) % 2 == 1) (omega arith)

bit_at-zero :
    (hw : Hardware) (offset : ℕ) (s : Audio)
    → not (bit_and (read_reg hw 32 offset s) 1 == 0) ≡ bit_at hw offset s 0
unfolding read_reg
bit_at-zero hw offset s =
    set_test (hw.device s.machine.reads (s.hda.bar0 + offset))
    ∙ ap (λ r. hw.device r (s.hda.bar0 + offset) % 2 == 1) (omega arith)

wait_bit-Waited :
    (hw : Hardware) (offset left : ℕ) (s : Audio)
    → Waited hw offset left s (wait_bit hw true 32 offset left s)
unfolding wait_bit
wait_bit-Waited hw offset zero s =
    let e = at_reads s (s.machine.reads + 0) s.machine.reads (omega arith) in
    subst (λ x. Waited hw offset 0 s (false, x)) e (timed_out λ i l. absurd (omega arith))
wait_bit-Waited hw offset (suc left) s =
    step (not (bit_and (read_reg hw 32 offset s) 1 == 0)) (bit_at-zero hw offset s)
      (wait_bit-Waited hw offset left (after_read s))
  where
    early :
        (i : ℕ)
        → bit_at hw offset s 0 ≡ false
        → ((j : ℕ) → j < i → bit_at hw offset (after_read s) j ≡ false)
        → (j : ℕ) → j < suc i
        → bit_at hw offset s j ≡ false
    early i b h zero l = b
    early i b h (suc j) l = bit_at-suc hw offset j s ∙ h j (omega arith)

    step :
        (b : Bool)
        → b ≡ bit_at hw offset s 0
        → {o : Bool × Audio} → Waited hw offset left (after_read s) o
        → Waited hw offset
            (suc left)
            s
            (elim b as (λ _. Bool × Audio) [ true ↦ (true, after_read s) | false ↦ o ])
    step true e w = came 0 (omega arith) (λ j l. absurd (omega arith)) (sym e)
    step false e (timed_out h) =
        let r =
          at_reads s (s.machine.reads + suc left) (s.machine.reads + 1 + left) (omega arith) in
        subst (λ x. Waited hw offset (suc left) s (false, x)) r (timed_out (early left (sym e) h))
    step false e (came i l h b) =
        let r =
          at_reads s (s.machine.reads + (suc i + 1)) (s.machine.reads + 1 + (i + 1))
            (omega arith) in
        subst (λ x. Waited hw offset (suc left) s (true, x)) r
          (came (suc i) (omega arith) (early i (sym e) h) (bit_at-suc hw offset i s ∙ b))

-- The system as `init` resets the card.
abbrev pub resetting : Audio → Audio
resetting s =
    write_reg 0x08 1
      (say (codes "\n> HDA: AUDIO SILICON DETECTED AND MAPPED.\n") 0x3B82F6 (after_read s))

-- What `init` comes to.
pub data InitDone (hw : Hardware) (s : Audio) : Audio → Type 0 where
  gave_up :
      ((i : ℕ) → i < 10000001 → bit_at hw 0x08 (resetting s) i ≡ false)
      → InitDone hw s (
          say
            (codes "> HDA ERROR: CONTROLLER RESET TIMEOUT!\n")
            0xEF4444
            (later 10000001 (resetting s)))
  woke :
      (i : ℕ)
      → i < 10000001
      → ((j : ℕ) → j < i → bit_at hw 0x08 (resetting s) j ≡ false)
      → bit_at hw 0x08 (resetting s) i ≡ true
      → InitDone hw s (map_rings hw (later (i + 1) (resetting s)))

-- `init` ends after at most 10000001 reads of the reset register. If bit 0 is clear in all of them it
-- prints an error and maps no rings; otherwise it maps the rings after the first read in which the bit
-- is set.
pub init-InitDone : (hw : Hardware) (s : Audio) → InitDone hw s (init hw s)
unfolding init
init-InitDone hw s = outcome (wait_bit-Waited hw 0x08 10000001 (resetting s))
  where
    outcome :
        {o : Bool × Audio}
        → Waited hw 0x08 10000001 (resetting s) o
        → InitDone hw s (after_reset hw o)
    outcome (timed_out h) = gave_up h
    outcome (came i l h b) = woke i l h b
