-- ===== src/FrameAllocator/Init.antt =====
-- What `init` leaves free: the frames of conventional memory below the limit, and no others.
use qore_os.Base.{
  ℕ, zero, suc, ◌+◌, ◌/◌, ◌%◌, ◌≡◌, sym, ◌∙◌, Bool, true, false, ◌&&◌, ◌||◌, ◌==◌, ltb, leb, inl,
  inr, Bool-cases, arith, get_or-replicate, length-replicate, test_bit-zero,
}
use qore_os.FrameAllocator.{
  BitmapAllocator, UefiMemoryDescriptor, frame_allocator, mark, mark_range, start_frame, end_frame,
  mark_descriptor, init_entries,
}
use qore_os.FrameAllocator.Bitmap.{is_free, IsValid, mark-IsValid}

-- Frame `f` lies in the conventional memory that `d` describes.
abbrev pub covers : UefiMemoryDescriptor → ℕ → Bool
covers d f = d.ty == 7 && (leb (start_frame d) f && ltb f (end_frame d))

-- One of the `n` entries from `i` on covers frame `f`.
unfoldable pub any_covers : (ℕ → UefiMemoryDescriptor) → ℕ → ℕ → ℕ → Bool
any_covers memory_map zero i f = false
any_covers memory_map (suc n) i f = covers (memory_map i) f || any_covers memory_map n (i + 1) f

mark_range-IsValid : (a : BitmapAllocator) (n s : ℕ) → IsValid a → IsValid (mark_range a n s)
unfolding mark_range
mark_range-IsValid a zero s v = v
mark_range-IsValid a (suc n) s v = mark_range-IsValid (mark a s) n (s + 1) (mark-IsValid a s v)

mark_descriptor-IsValid :
    (a : BitmapAllocator) (d : UefiMemoryDescriptor) → IsValid a → IsValid (mark_descriptor a d)
unfolding mark_descriptor
mark_descriptor-IsValid a d v = elim (Bool-cases (d.ty == 7)) [
  | inl e ↦ rw e (mark_range-IsValid a _ _ v)
  | inr e ↦ rw e v
]

pub init_entries-IsValid :
    (memory_map : ℕ → UefiMemoryDescriptor) (a : BitmapAllocator) (n i : ℕ)
    → IsValid a
    → IsValid (init_entries memory_map a n i)
unfolding init_entries
init_entries-IsValid memory_map a zero i v = v
init_entries-IsValid memory_map a (suc n) i v =
    init_entries-IsValid memory_map (mark_descriptor a (memory_map i)) n (i + 1)
      (mark_descriptor-IsValid a (memory_map i) v)

frame_allocator-empty : (f : ℕ) → is_free frame_allocator f ≡ false
unfolding frame_allocator
frame_allocator-empty f = rw (get_or-replicate {A = ℕ} 1024 (f / 64) 0) (test_bit-zero (f % 64))

pub frame_allocator-IsValid : IsValid frame_allocator
frame_allocator-IsValid = record {
  words = unfold frame_allocator in length-replicate {A = ℕ} 1024 0;
  highest = unfold frame_allocator in omega arith;
  below = λ f h free. absurd (false_true (sym (frame_allocator-empty f) ∙ free));
}
  where
    false_true : false ≡ true → ⊥
    false_true e = cc
