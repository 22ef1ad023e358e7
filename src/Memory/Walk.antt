-- ===== src/Memory/Walk.antt =====
-- `map_page` and `walk_page_table` against each other.
use qore_os.Base.{
  ℕ, ◌+◌, ◌*◌, ◌%◌, ◌^◌, ◌<◌, ◌≡◌, refl, ◌∙◌, true, false, if◌then◌else◌, bit_and, bit_or, arith,
  none, some, bit_and_low,
}
use qore_os.Ram.{Ram, load64, store64, Apart, load64-store64, load64-store64-Apart}
use qore_os.Memory.{
  addr_mask, table_index, indices, entry_of, is_present, is_huge, walk_levels, walk_page_table,
  page_slot, map_page,
}
use qore_os.Memory.Words.{page_entry}

-- The slots of the three upper tables that the walk of `virt` reads.
abbrev pub pml4_slot : ℕ → ℕ → ℕ
pml4_slot cr3 virt = cr3 + 8 * table_index 39 virt

abbrev pub pdpt_slot : Ram → ℕ → ℕ → ℕ
pdpt_slot ram cr3 virt =
    bit_and (load64 ram (pml4_slot cr3 virt)) addr_mask + 8 * table_index 30 virt

abbrev pub pd_slot : Ram → ℕ → ℕ → ℕ
pd_slot ram cr3 virt =
    bit_and (load64 ram (pdpt_slot ram cr3 virt)) addr_mask + 8 * table_index 21 virt

-- The path to the slot of `virt`: three present tables, of which none maps a huge page below the top.
record IsPath (ram : Ram) (cr3 virt slot : ℕ) : Type 0 where
  top : is_present (load64 ram (pml4_slot cr3 virt)) ≡ true
  middle : is_present (load64 ram (pdpt_slot ram cr3 virt)) ≡ true
  middle_small : is_huge (load64 ram (pdpt_slot ram cr3 virt)) ≡ false
  low : is_present (load64 ram (pd_slot ram cr3 virt)) ≡ true
  low_small : is_huge (load64 ram (pd_slot ram cr3 virt)) ≡ false
  at : slot ≡ bit_and (load64 ram (pd_slot ram cr3 virt)) addr_mask + 8 * table_index 12 virt

page_slot-IsPath :
    (ram : Ram) (cr3 virt slot : ℕ) → page_slot ram cr3 virt ≡ some slot → IsPath ram cr3 virt slot
unfolding page_slot entry_of
page_slot-IsPath ram cr3 virt slot h = ground arith

walk_path :
    (ram : Ram) (cr3 virt slot : ℕ)
    → IsPath ram cr3 virt slot
    → walk_page_table ram cr3 virt ≡ (
        if is_present (load64 ram slot)
        then some (bit_and (load64 ram slot) addr_mask + bit_and virt 0xFFF)
        else none)
unfolding walk_page_table walk_levels indices entry_of
walk_path ram cr3 virt slot p = ground arith

-- A write apart from the three upper slots leaves the path in place.
IsPath-store :
    (ram : Ram) (cr3 virt slot v : ℕ)
    → Apart slot 8 (pml4_slot cr3 virt) 8
    → Apart slot 8 (pdpt_slot ram cr3 virt) 8
    → Apart slot 8 (pd_slot ram cr3 virt) 8
    → IsPath ram cr3 virt slot
    → IsPath (store64 ram slot v) cr3 virt slot
IsPath-store ram cr3 virt slot v apart4 apart3 apart2 p =
    let e4 = load64-store64-Apart ram slot (pml4_slot cr3 virt) v apart4 in
    let e3 = load64-store64-Apart ram slot (pdpt_slot ram cr3 virt) v apart3 in
    let e2 = load64-store64-Apart ram slot (pd_slot ram cr3 virt) v apart2 in
    record {
      top = rw e4 p.top;
      middle = rw (e4, e3) p.middle;
      middle_small = rw (e4, e3) p.middle_small;
      low = rw (e4, e3, e2) p.low;
      low_small = rw (e4, e3, e2) p.low_small;
      at = rw (e4, e3, e2) p.at;
    }

map_page_at :
    (ram : Ram) (cr3 virt frame slot : ℕ)
    → page_slot ram cr3 virt ≡ some slot
    → map_page ram cr3 virt frame ≡ store64 ram slot (bit_or frame 3)
unfolding map_page
map_page_at ram cr3 virt frame slot found = rw (found, map_page)

-- Where `map_page` does not abort, the frame is page-aligned and below 2 ^ 52, and the slot that it writes
-- is none of the upper table entries of the same walk, `walk_page_table` then takes the address to the
-- frame, at the same offset in the page.
pub map_page-walk_page_table :
    (ram : Ram) (cr3 virt frame slot : ℕ)
    → page_slot ram cr3 virt ≡ some slot
    → frame % 4096 ≡ 0
    → frame < 2 ^ 52
    → Apart slot 8 (pml4_slot cr3 virt) 8
    → Apart slot 8 (pdpt_slot ram cr3 virt) 8
    → Apart slot 8 (pd_slot ram cr3 virt) 8
    → walk_page_table (map_page ram cr3 virt frame) cr3 virt ≡ some (frame + virt % 4096)
map_page-walk_page_table ram cr3 virt frame slot found aligned small apart4 apart3 apart2 =
    let (fits, present, kept) = page_entry frame aligned small in
    let path =
      IsPath-store ram cr3 virt slot (bit_or frame 3) apart4 apart3 apart2
        (page_slot-IsPath ram cr3 virt slot found) in
    let e = load64-store64 ram slot (bit_or frame 3) fits in
    rw (map_page_at ram cr3 virt frame slot found) (
      walk_path (store64 ram slot (bit_or frame 3)) cr3 virt slot path
      ∙ rw (e, present, kept, bit_and_low 12 virt) refl)
