-- ===== src/Ram/Writes.antt =====
-- Several writes to memory in order, where none disturbs another.
use qore_os.Base.{ℕ, ◌+◌, ◌≤◌, ◌<◌, ◌≡◌, refl, ◌∙◌, ◌⊎◌, List, [], ◌∷◌, length}
use qore_os.Ram.{Ram, Apart, load, store, load-store-Apart, load-store_self, store-outside}

unfoldable pub write_all : List (ℕ × List ℕ) → Ram → Ram
write_all [] ram = ram
write_all ((address, bytes) ∷ writes) ram = write_all writes (store ram address bytes)

abbrev pub AllApart : ℕ → ℕ → List (ℕ × List ℕ) → Type 0
AllApart p n [] = Unit {0}
AllApart p n ((q, bytes) ∷ writes) = Apart q (length bytes) p n × AllApart p n writes

-- Each write lies apart from those after it.
abbrev pub Ordered : List (ℕ × List ℕ) → Type 0
Ordered [] = Unit {0}
Ordered ((p, bytes) ∷ writes) = AllApart p (length bytes) writes × Ordered writes

abbrev pub AllRead : Ram → List (ℕ × List ℕ) → Type 0
AllRead ram [] = Unit {0}
AllRead ram ((p, bytes) ∷ writes) = (load ram p (length bytes) ≡ bytes) × AllRead ram writes

pub load-write_all :
    (writes : List (ℕ × List ℕ)) (ram : Ram) (p n : ℕ)
    → AllApart p n writes
    → load (write_all writes ram) p n ≡ load ram p n
unfolding write_all
load-write_all [] ram p n h = refl
load-write_all ((q, bytes) ∷ writes) ram p n h =
    load-write_all writes (store ram q bytes) p n h.1 ∙ load-store-Apart ram q bytes p n h.0

pub write_all-AllRead :
    (writes : List (ℕ × List ℕ)) (ram : Ram)
    → Ordered writes
    → AllRead (write_all writes ram) writes
unfolding write_all
write_all-AllRead [] ram h = tt
write_all-AllRead ((p, bytes) ∷ writes) ram h = (
  load-write_all writes (store ram p bytes) p (length bytes) h.0 ∙ load-store_self ram p bytes,
  write_all-AllRead writes (store ram p bytes) h.1,
)

-- The address lies in none of the ranges that are written.
abbrev pub AllOutside : ℕ → List (ℕ × List ℕ) → Type 0
AllOutside a [] = Unit {0}
AllOutside a ((p, bytes) ∷ writes) = ((a < p) ⊎ (p + length bytes ≤ a)) × AllOutside a writes

pub write_all-outside :
    (writes : List (ℕ × List ℕ)) (ram : Ram) (a : ℕ)
    → AllOutside a writes
    → write_all writes ram a ≡ ram a
unfolding write_all
write_all-outside [] ram a h = refl
write_all-outside ((p, bytes) ∷ writes) ram a h =
    write_all-outside writes (store ram p bytes) a h.1 ∙ store-outside ram p bytes a h.0
