-- ===== src/Memory/Words.antt =====
-- The bits of a page table entry as arithmetic.
use qore_os.Base.{
  ℕ, ◌+◌, ◌-◌, ◌*◌, ◌/◌, ◌%◌, ◌^◌, ◌<◌, ◌≡◌, refl, ◌∙◌, true, bit_and, bit_or, arith, bit_and_low,
  bit_and_high, bit_or_low, bit_and-pow, bit_or_step, test_bit, test_bit-bit_or, test_bit-pow,
  bit_or_zero,
}
use qore_os.Memory.{addr_mask, table_index, is_present, is_huge}

pub table_index-lt : (s v : ℕ) → table_index s v < 512
unfolding table_index
table_index-lt s v = omega (arith, bit_and_low 9 (v / 2 ^ s))

-- The address field of an entry: its bits from 12 up to 51.
pub addr_mask_lem : (e : ℕ) → bit_and e addr_mask ≡ e / 4096 % 2 ^ 40 * 4096
addr_mask_lem e = bit_and_high 12 e (2 ^ 40 - 1) ∙ rw (bit_and_low 40 (e / 2 ^ 12)) refl

-- An address field is aligned to a page.
pub addr_mask_aligned : (e : ℕ) → bit_and e addr_mask % 8 ≡ 0
addr_mask_aligned e = omega (arith, addr_mask_lem e)

-- `phys_frame | 0b11` for a page-aligned frame.
pub bit_or_three : (q : ℕ) → bit_or (q * 4096) 3 ≡ q * 4096 + 3
bit_or_three q = bit_or_low 12 q 3 (omega arith)

pub is_present-test : (e : ℕ) → is_present e ≡ test_bit 0 e
is_present-test e = ground (arith, bit_and-pow 0 e)

pub is_huge-test : (e : ℕ) → is_huge e ≡ test_bit 7 e
is_huge-test e = ground (arith, bit_and-pow 7 e)

-- `| 4` changes none of the bits above bit 2.
pub bit_or_four_high : (e : ℕ) → bit_or e 4 / 8 ≡ e / 8
bit_or_four_high e = omega (
  arith,
  bit_or_step e 4,
  bit_or_step (e / 2) 2,
  bit_or_step (e / 2 / 2) 1,
  bit_or_zero (e / 2 / 2 / 2),
)

pub bit_or_four-lt : (e : ℕ) → e < 2 ^ 64 → bit_or e 4 < 2 ^ 64
bit_or_four-lt e h = omega (arith, bit_or_four_high e)

pub bit_or_four_low : (e : ℕ) → bit_or e 4 % 4 ≡ e % 4
bit_or_four_low e = omega (arith, bit_or_step e 4, bit_or_step (e / 2) 2, bit_or_step (e / 2 / 2) 1)

-- After `| 4` the user bit is set.
pub bit_or_four_user : (e : ℕ) → test_bit 2 (bit_or e 4) ≡ true
bit_or_four_user e = test_bit-bit_or 2 e 4 ∙ rw (test_bit-pow 2 2) (ground arith)

-- The entry that `map_page` writes is present, small and holds the frame.
pub page_entry :
    (frame : ℕ)
    → frame % 4096 ≡ 0
    → frame < 2 ^ 52
    → (bit_or frame 3 < 2 ^ 64)
      × (is_present (bit_or frame 3) ≡ true)
      × (bit_and (bit_or frame 3) addr_mask ≡ frame)
page_entry frame aligned small =
    let split : frame ≡ frame / 4096 * 4096 = omega arith in
    let value : bit_or frame 3 ≡ frame + 3 = rw split (bit_or_three (frame / 4096)) in
    (
      omega (arith, value),
      rw value (is_present-test (frame + 3) ∙ unfold test_bit in ground arith),
      rw value (addr_mask_lem (frame + 3) ∙ omega arith),
    )
