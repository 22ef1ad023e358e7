-- ===== src/FrameAllocator/Bitmap.antt =====
-- What the bitmap says of each frame, and how marking and taking one frame change it.
use qore_os.Base.{
  ℕ, ◌-◌, ◌/◌, ◌%◌, ◌^◌, ◌≤◌, ◌<◌, ◌≡◌, Bool, true, false, ◌||◌, ◌==◌, if◌then◌else◌, inl, inr,
  Bool-cases, bit_and, arith, length, get_or, set, length-set, get_or-set_self, get_or-set_ne,
  ==→eq, test_bit, test_bit-bit_and, test_bit-bit_or, test_bit-pow, test_bit_complement, two-pow-lt,
  bit_and-pow, one-le-pow, sym, ◌∙◌, ◌≢◌, List, ltb, lt→ltb, le→ltb, ltb→lt,
}
use qore_os.FrameAllocator.{BitmapAllocator, mark, take_frame}

-- Whether frame `f` is free: bit `f % 64` of word `f / 64`.
abbrev pub is_free : BitmapAllocator → ℕ → Bool
is_free a f = test_bit (f % 64) (get_or a.bitmap (f / 64) 0)

abbrev pub limit : ℕ
limit = 65536

-- The bitmap has its 1024 words, no frame above `highest_frame` is free, and that index is in the
-- bitmap.
pub record IsValid (a : BitmapAllocator) : Type 0 where
  pub words : length a.bitmap ≡ 1024
  pub highest : a.highest_frame < limit
  pub below : (f : ℕ) → f < limit → is_free a f ≡ true → f ≤ a.highest_frame

-- The test of `allocate_frame` reads the frame's bit.
pub test_reads_bit :
    (a : BitmapAllocator) (f : ℕ)
    → (bit_and (get_or a.bitmap (f / 64) 0) (2 ^ (f % 64)) == 0)
      ≡ (if is_free a f then false else true)
test_reads_bit a f =
    rw (bit_and-pow (f % 64) (get_or a.bitmap (f / 64) 0)) (ground (arith, one-le-pow (f % 64) 2))

-- One word is written: the other frames of that word keep their bits by `same`, those of other
-- words are not touched.
write_word :
    (xs : List ℕ) (f g w : ℕ) (b : Bool)
    → f / 64 < length xs
    → test_bit (g % 64) w
      ≡ (if g % 64 == f % 64 then b else test_bit (g % 64) (get_or xs (f / 64) 0))
    → test_bit (g % 64) (get_or (set xs (f / 64) w) (g / 64) 0)
      ≡ (if g == f then b else test_bit (g % 64) (get_or xs (g / 64) 0))
write_word xs f g w b room same = elim (Bool-cases (g / 64 == f / 64)) [
  | inl e ↦
      let q : g / 64 ≡ f / 64 = ==→eq _ _ e in
      rw (q, get_or-set_self xs (f / 64) w 0 room) (same ∙ ground arith)
  | inr e ↦
      let q : f / 64 ≢ g / 64 = ground arith in
      rw (get_or-set_ne xs (f / 64) (g / 64) w 0 q) (ground arith)
]

-- Marking frame `f` frees it and no other.
pub is_free-mark :
    (a : BitmapAllocator) (f g : ℕ)
    → IsValid a
    → f < limit
    → is_free (mark a f) g ≡ (g == f || is_free a g)
unfolding mark
is_free-mark a f g v h = rw (lt→ltb f 65536 h) (
    write_word a.bitmap f g _ true (omega (arith, v.words)) (
      test_bit-bit_or (g % 64) (get_or a.bitmap (f / 64) 0) (2 ^ (f % 64))
      ∙ rw (test_bit-pow (g % 64) (f % 64)) (ground arith))
    ∙ ground arith)

pub is_free-mark_past :
    (a : BitmapAllocator) (f g : ℕ) → limit ≤ f → is_free (mark a f) g ≡ is_free a g
unfolding mark
is_free-mark_past a f g h = rw (le→ltb f 65536 h)

-- Taking frame `f` reserves it and no other.
pub is_free-take_frame :
    (a : BitmapAllocator) (f g : ℕ)
    → IsValid a
    → f < limit
    → is_free (take_frame a f) g ≡ (if g == f then false else is_free a g)
unfolding take_frame
is_free-take_frame a f g v h = write_word a.bitmap f g _ false (omega (arith, v.words)) (
    test_bit-bit_and (g % 64) (get_or a.bitmap (f / 64) 0) (2 ^ 64 - 1 - 2 ^ (f % 64))
    ∙ rw
        (
          test_bit_complement 64 (g % 64) (2 ^ (f % 64)) (two-pow-lt (f % 64) 64 (omega arith))
              (omega arith),
          test_bit-pow (g % 64) (f % 64),
        )
        (ground arith))

pub mark-IsValid : (a : BitmapAllocator) (f : ℕ) → IsValid a → IsValid (mark a f)
mark-IsValid a f v = elim (Bool-cases (ltb f 65536)) [
  | inl h ↦ record {
    words = unfold mark in rw h (length-set a.bitmap (f / 64) _ ∙ v.words);
    highest = unfold mark in rw h (ground (arith, v.highest, ltb→lt f 65536 h));
    below = λ g hg free.
        mark_below g hg (ltb→lt f 65536 h) (sym (is_free-mark a f g v (ltb→lt f 65536 h)) ∙ free);
  }
  | inr h ↦ unfold mark in rw h v
]
  where
    mark_below :
        (g : ℕ)
        → g < limit
        → f < limit
        → (g == f || is_free a g) ≡ true
        → g ≤ (mark a f).highest_frame
    mark_below g hg hf free = unfold mark in ground (arith, v.below g)

pub take_frame-IsValid :
    (a : BitmapAllocator) (f : ℕ) → f < limit → IsValid a → IsValid (take_frame a f)
take_frame-IsValid a f h v = record {
  words = unfold take_frame in (length-set a.bitmap (f / 64) _ ∙ v.words);
  highest = unfold take_frame in v.highest;
  below = λ g hg free.
      unfold take_frame in v.below g hg (kept g (sym (is_free-take_frame a f g v h) ∙ free));
}
  where
    kept : (g : ℕ) → (if g == f then false else is_free a g) ≡ true → is_free a g ≡ true
    kept g e = ground arith
