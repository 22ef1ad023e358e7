-- ===== src/FrameAllocator/Run.antt =====
-- A run of calls of `allocate_frame`: only free frames are handed out, and none twice.
use qore_os.Base.{
  ℕ, zero, suc, ◌+◌, ◌*◌, ◌<◌, ◌≤◌, min, ◌≡◌, refl, sym, ap, ◌∙◌, Bool, true, false, ◌==◌,
  if◌then◌else◌, inl, inr, Bool-cases, Option, none, some, List, [], ◌∷◌, arith, length, ==→eq, ltb,
  ltb→lt, ltb→le,
}
use qore_os.FrameAllocator.{BitmapAllocator, allocate_frame, page_size}
use qore_os.FrameAllocator.Bitmap.{is_free, limit, IsValid}
use qore_os.FrameAllocator.Allocate.{Allocated, exhausted, taken, allocate_frame-Allocated}

-- The addresses that up to `n` calls in a row return.
unfoldable pub allocations : ℕ → BitmapAllocator → List ℕ
allocations zero a = []
allocations (suc n) a =
    let r = allocate_frame a in elim r.0 [ none ↦ [] | some p ↦ p ∷ allocations n r.1 ]

-- Each address is at least the bound, and a whole page past the one before it.
abbrev pub Ascending : ℕ → List ℕ → Type 0
Ascending low [] = Unit {0}
Ascending low (p ∷ ps) = (low ≤ p) × Ascending (p + page_size) ps

-- How many of the numbers below `n` pass the test.
unfoldable pub count : (ℕ → Bool) → ℕ → ℕ
count p zero = 0
count p (suc n) = (if p n then 1 else 0) + count p n

count_ext : (p q : ℕ → Bool) (n : ℕ) → ((g : ℕ) → g < n → p g ≡ q g) → count p n ≡ count q n
unfolding count
count_ext p q zero h = refl
count_ext p q (suc n) h = rw (h n (omega arith), count_ext p q n (λ g l. h g (omega arith))) refl

count-none : (p : ℕ → Bool) (n : ℕ) → ((g : ℕ) → g < n → p g ≡ false) → count p n ≡ 0
unfolding count
count-none p zero h = refl
count-none p (suc n) h = rw (h n (omega arith), count-none p n (λ g l. h g (omega arith))) refl

count-remove :
    (p q : ℕ → Bool) (f n : ℕ)
    → f < n
    → p f ≡ true
    → ((g : ℕ) → q g ≡ (if g == f then false else p g))
    → count p n ≡ suc (count q n)
unfolding count
count-remove p q f zero h pf rest = absurd (omega arith)
count-remove p q f (suc n) h pf rest = elim (Bool-cases (f == n)) [
  | inl same ↦
      let e : f ≡ n = ==→eq f n same in
      let below : count p n ≡ count q n = count_ext p q n λ g l. sym (rest g ∙ ground arith) in
      ground (arith, below, rest n, ap p e)
  | inr other ↦ ground (arith, count-remove p q f n (ground arith) pf rest, rest n)
]

-- Each address is that of a frame below the limit which is free.
abbrev pub AllFree : BitmapAllocator → List ℕ → Type 0
AllFree a [] = Unit {0}
AllFree a (p ∷ ps) =
    ((f : ℕ) × (f < limit) × (is_free a f ≡ true) × (p ≡ f * page_size)) × AllFree a ps

-- What a run of up to `n` calls gives, from a state in which no frame below `low` is free.
abbrev IsRun : ℕ → ℕ → BitmapAllocator → List ℕ → Type 0
IsRun n low a ps =
    Ascending (low * page_size) ps × (length ps ≡ min n (count (is_free a) limit)) × AllFree a ps

AllFree-weaken :
    (a b : BitmapAllocator) (f : ℕ) (ps : List ℕ)
    → ((g : ℕ) → is_free b g ≡ (if g == f then false else is_free a g))
    → AllFree b ps
    → AllFree a ps
AllFree-weaken a b f [] after h = tt
AllFree-weaken a b f (p ∷ ps) after ((g, small, free, e), rest) =
    ((g, small, still (g == f) (sym (after g) ∙ free), e), AllFree-weaken a b f ps after rest)
  where
    still : (t : Bool) → (if t then false else is_free a g) ≡ true → is_free a g ≡ true
    still true e = cc
    still false e = e

abbrev NoneBelow : ℕ → BitmapAllocator → Type 0
NoneBelow low a = (g : ℕ) → g < low → is_free a g ≡ false

Ascending-weaken : (l k : ℕ) (ps : List ℕ) → l ≤ k → Ascending k ps → Ascending l ps
Ascending-weaken l k [] h asc = tt
Ascending-weaken l k (p ∷ ps) h asc = (omega arith, asc.1)

allocations_step :
    (n low : ℕ) {a : BitmapAllocator} {r : Option ℕ × BitmapAllocator}
    → ((k : ℕ) (b : BitmapAllocator) → IsValid b → NoneBelow k b → IsRun n k b (allocations n b))
    → NoneBelow low a
    → Allocated a r
    → IsRun (suc n) low a (elim r.0 [ none ↦ [] | some p ↦ p ∷ allocations n r.1 ])
allocations_step n low {a} ih low_used (exhausted all_used) =
    (tt, omega (arith, count-none (is_free a) limit all_used), tt)
allocations_step n low {a} ih low_used (taken f {b} h free lowest after frames v) =
    let rest = ih (suc f) b v (λ g l. after g ∙ used g l) in
    let past : low ≤ f = elim (Bool-cases (ltb f low)) [
      | inl lt ↦ absurd (false_true (sym (low_used f (ltb→lt f low lt)) ∙ free))
      | inr ge ↦ ltb→le f low ge
    ] in
    (
      (
        omega arith,
        Ascending-weaken (f * page_size + page_size) (suc f * page_size) (allocations n b)
            (omega arith) rest.0,
      ),
      omega (arith, rest.1, count-remove (is_free a) (is_free b) f limit h free after),
      ((f, h, free, refl), AllFree-weaken a b f (allocations n b) after rest.2),
    )
  where
    false_true : false ≡ true → ⊥
    false_true e = cc

    used : (g : ℕ) → g < suc f → (if g == f then false else is_free a g) ≡ false
    used g l = ground (arith, lowest g)

allocations-IsRun :
    (n low : ℕ) (a : BitmapAllocator)
    → IsValid a
    → NoneBelow low a
    → IsRun n low a (allocations n a)
unfolding allocations
allocations-IsRun zero low a v h = (tt, omega arith, tt)
allocations-IsRun (suc n) low a v h =
    allocations_step n low (allocations-IsRun n) h (allocate_frame-Allocated a v)

-- On a well-formed allocator a run of up to `n` calls returns addresses of free frames below the limit,
-- which rise by at least a page each, so that no frame is handed out twice, and exactly `n` of them or, if
-- fewer frames are free, as many as are free.
pub allocations_lem :
    (n : ℕ) (a : BitmapAllocator)
    → IsValid a
    → Ascending 0 (allocations n a)
      × (length (allocations n a) ≡ min n (count (is_free a) limit))
      × AllFree a (allocations n a)
allocations_lem n a v = allocations-IsRun n 0 a v λ g h. absurd (omega arith)
