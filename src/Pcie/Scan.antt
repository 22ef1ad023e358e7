-- ===== src/Pcie/Scan.antt =====
-- Which address the scan of the bus hands on.
use qore_os.Base.{
  ℕ, zero, suc, ◌+◌, ◌*◌, ◌/◌, ◌%◌, ◌^◌, ◌≤◌, ◌<◌, ◌≡◌, refl, ◌∙◌, Bool, true, false, ◌&&◌, Option,
  none, some, arith, bit_and_low, bit_and_high, ◌==◌, if◌then◌else◌, Bool-cases, inl, inr,
}
use qore_os.Pcie.{scan_slot, scan_slots, scan_bus_zero}

-- The slot holds an Intel 82574L, by its vendor and device numbers.
abbrev pub is_e1000 : (ℕ → ℕ) → ℕ → ℕ → Bool
is_e1000 config base i =
    config (base + i * 32768) % 65536 == 0x8086
    && config (base + i * 32768) / 65536 % 65536 == 0x10D3

-- BAR0 of the slot, without its four low bits.
abbrev pub bar0_of : (ℕ → ℕ) → ℕ → ℕ → ℕ
bar0_of config base i = config (base + i * 32768 + 16) / 16 % 2 ^ 28 * 16

-- What a scan of `n` slots from `first` on makes of `before`: the address of the last card among them.
pub data Scanned (config : ℕ → ℕ) (base n first : ℕ) (before : Option ℕ) : Option ℕ → Type 0 where
  none_there :
      ((i : ℕ) → first ≤ i → i < first + n → is_e1000 config base i ≡ false)
      → Scanned config base n first before before
  last_at :
      (i : ℕ)
      → first ≤ i
      → i < first + n
      → is_e1000 config base i ≡ true
      → ((j : ℕ) → i < j → j < first + n → is_e1000 config base j ≡ false)
      → Scanned config base n first before (some (bar0_of config base i))

scan_slot_lem :
    (config : ℕ → ℕ) (base i : ℕ) (before : Option ℕ)
    → scan_slot config base i before
      ≡ (if is_e1000 config base i then some (bar0_of config base i) else before)
unfolding scan_slot
scan_slot_lem config base i before =
    rw
      (
        bit_and_low 16 (config (base + i * 32768)),
        bit_and_high 4 (config (base + i * 32768 + 16)) 0xFFFFFFF,
        bit_and_low 28 (config (base + i * 32768 + 16) / 16),
      )
      (ground arith)

scan_slots-Scanned :
    (config : ℕ → ℕ) (base n first : ℕ) (before : Option ℕ)
    → Scanned config base n first before (scan_slots config base n first before)
unfolding scan_slots
scan_slots-Scanned config base zero first before = none_there λ i l r. absurd (omega arith)
scan_slots-Scanned config base (suc n) first before =
    step (scan_slots-Scanned config base n (first + 1) (scan_slot config base first before))
  where
    later :
        (i : ℕ)
        → ((j : ℕ) → first + 1 ≤ j → j < first + 1 + n → is_e1000 config base j ≡ false)
        → first < i
        → i < first + suc n
        → is_e1000 config base i ≡ false
    later i h l r = h i (omega arith) (omega arith)

    step :
        {o : Option ℕ}
        → Scanned config base n (first + 1) (scan_slot config base first before) o
        → Scanned config base (suc n) first before o
    step (last_at i l r e h) = last_at i (omega arith) (omega arith) e λ j p q. h j p (omega arith)
    step (none_there h) = elim (Bool-cases (is_e1000 config base first)) [
      | inl here ↦
          let e : scan_slot config base first before ≡ some (bar0_of config base first) =
            scan_slot_lem config base first before ∙ rw here refl in
          rw e (last_at first (omega arith) (omega arith) here λ j p q. later j h p q)
      | inr other ↦
          let e : scan_slot config base first before ≡ before =
            scan_slot_lem config base first before ∙ rw other refl in
          rw e (
            none_there λ i l r. elim (Bool-cases (i == first)) [
              | inl same ↦ let s : i ≡ first = ground arith in rw s other
              | inr differs ↦ later i h (ground arith) r
            ])
    ]

-- `scan_bus_zero` returns nothing if none of the 32 slots holds the card, and otherwise the address in
-- BAR0 of the last slot that does, with the four low bits cleared.
pub scan_bus_zero-Scanned :
    (config : ℕ → ℕ) (base : ℕ) → Scanned config base 32 0 none (scan_bus_zero config base)
unfolding scan_bus_zero
scan_bus_zero-Scanned config base = scan_slots-Scanned config base 32 0 none
