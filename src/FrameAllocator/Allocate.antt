-- ===== src/FrameAllocator/Allocate.antt =====
-- What `allocate_frame` returns, on both branches, and over a run of calls.
use qore_os.Base.{
  ℕ, zero, suc, ◌+◌, ◌-◌, ◌*◌, ◌%◌, ◌^◌, ◌<◌, ◌≡◌, refl, true, false, ◌==◌, if◌then◌else◌, inl, inr,
  ==→eq, Bool-cases, Option, none, some, arith,
}
use qore_os.FrameAllocator.{BitmapAllocator, allocate_from, allocate_frame, take_frame, page_size}
use qore_os.FrameAllocator.Bitmap.{
  is_free, limit, IsValid, test_reads_bit, is_free-take_frame, take_frame-IsValid,
}

-- `none` says that no frame is free and changes nothing. `some p` is the address of the lowest free
-- frame, which is reserved, alone, and counted.
pub data Allocated (a : BitmapAllocator) : Option ℕ × BitmapAllocator → Type 0 where
  exhausted : ((f : ℕ) → f < limit → is_free a f ≡ false) → Allocated a (none, a)
  taken :
      (f : ℕ) {b : BitmapAllocator}
      → f < limit
      → is_free a f ≡ true
      → ((g : ℕ) → g < f → is_free a g ≡ false)
      → ((g : ℕ) → is_free b g ≡ (if g == f then false else is_free a g))
      → b.free_frames ≡ (a.free_frames + 2 ^ 64 - 1) % 2 ^ 64
      → IsValid b
      → Allocated a (some (f * page_size), b)

allocate_from-suc :
    (a : BitmapAllocator) (n i : ℕ)
    → allocate_from a (suc n) i
      ≡ (if is_free a i then (some (i * page_size), take_frame a i) else allocate_from a n (i + 1))
unfolding allocate_from
allocate_from-suc a n i = ground (arith, test_reads_bit a i)

allocate_from-Allocated :
    (a : BitmapAllocator) (n i : ℕ)
    → IsValid a
    → i + n ≡ a.highest_frame + 1
    → ((g : ℕ) → g < i → is_free a g ≡ false)
    → Allocated a (allocate_from a n i)
allocate_from-Allocated a zero i v e low =
    unfold allocate_from in
    exhausted λ f h. elim (Bool-cases (is_free a f)) [
      | inl free ↦ low f (omega (arith, v.below f h free))
      | inr used ↦ used
    ]
allocate_from-Allocated a (suc n) i v e low = elim (Bool-cases (is_free a i)) [
  | inl free ↦
      let h : i < limit = omega (arith, v.highest) in
      rw (allocate_from-suc a n i, free)
        (taken i {b = take_frame a i} h free low (λ g. is_free-take_frame a i g v h)
          (unfold take_frame in refl) (take_frame-IsValid a i h v))
  | inr used ↦
      rw (allocate_from-suc a n i, used)
        (allocate_from-Allocated a n (i + 1) v (omega arith) λ g h. elim (Bool-cases (g == i)) [
          | inl same ↦ rw (==→eq g i same) used
          | inr other ↦ low g (ground arith)
        ])
]

-- On a well-formed allocator `allocate_frame` returns `none` only if no frame below the limit is
-- free, and then changes nothing. Otherwise it returns the address of the lowest free frame,
-- reserves that frame and no other, takes one off the count modulo 2 ^ 64, and keeps the allocator well
-- formed.
pub allocate_frame-Allocated : (a : BitmapAllocator) → IsValid a → Allocated a (allocate_frame a)
unfolding allocate_frame
allocate_frame-Allocated a v =
    allocate_from-Allocated a (a.highest_frame + 1) 0 v (omega arith) λ g h. absurd (omega arith)
