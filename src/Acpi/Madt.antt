-- ===== src/Acpi/Madt.antt =====
-- The walk over the MADT: it reads back the table that a list of entries is laid out as, and has no end
-- where it comes to an entry of length 0.
use qore_os.Base.{
  ℕ, zero, suc, ◌+◌, ◌%◌, ◌^◌, ◌≤◌, ◌<◌, ◌≡◌, ◌≢◌, refl, ap, ap₂, sym, ◌∙◌, List, [], ◌∷◌, ◌++◌,
  none, some, arith, length, length-append, ltb, ◌==◌, if_true, if_false, lt→ltb, le→ltb, ne→==,
  eq→==,
}
use qore_os.Ram.{Ram, load, from_le, le_bytes, length-le_bytes, from_le-le_bytes}
use qore_os.Acpi.{load32, note_ioapic, walk_madt, io_apic}

walk_madt_done :
    (fuel : ℕ) (ram : Ram) (madt len offset base : ℕ)
    → len ≤ offset
    → walk_madt (suc fuel) ram madt len offset base ≡ some base
unfolding walk_madt
walk_madt_done fuel ram madt len offset base h = if_false (ltb offset len) _ _ (le→ltb offset len h)

walk_madt_step :
    (fuel : ℕ) (ram : Ram) (madt len offset base : ℕ)
    → offset < len
    → walk_madt (suc fuel) ram madt len offset base
      ≡ walk_madt fuel ram madt len
          ((offset + ram (madt + offset + 1)) % 2 ^ 32)
          (note_ioapic ram (madt + offset) base)
unfolding walk_madt
walk_madt_step fuel ram madt len offset base h = if_true (ltb offset len) _ _ (lt→ltb offset len h)

-- At an entry of length 0 the loop has no end: no number of rounds gives a result.
pub walk_madt_stuck :
    (fuel : ℕ) (ram : Ram) (madt len offset base : ℕ)
    → offset < len
    → len ≤ 2 ^ 32
    → ram (madt + offset + 1) ≡ 0
    → walk_madt fuel ram madt len offset base ≡ none
unfolding walk_madt
walk_madt_stuck zero ram madt len offset base h l z = refl
walk_madt_stuck (suc fuel) ram madt len offset base h l z =
    let still : (offset + ram (madt + offset + 1)) % 2 ^ 32 ≡ offset = omega (arith, z) in
    walk_madt_step fuel ram madt len offset base h
    ∙ ap (λ o. walk_madt fuel ram madt len o (note_ioapic ram (madt + offset) base)) still
    ∙ walk_madt_stuck fuel ram madt len offset (note_ioapic ram (madt + offset) base) h l z

-- An entry of the table: an I/O APIC with its number, address and first interrupt, or one of another
-- kind.
pub data Entry : Type 0 where
  controller : ℕ → ℕ → ℕ → Entry
  other : ℕ → List ℕ → Entry

abbrev pub entry_bytes : Entry → List ℕ
entry_bytes (controller id address first) =
    1 ∷ 12 ∷ id ∷ 0 ∷ (le_bytes 4 address ++ le_bytes 4 first)
entry_bytes (other kind body) = kind ∷ (2 + length body) ∷ body

abbrev pub table_bytes : List Entry → List ℕ
table_bytes [] = []
table_bytes (e ∷ es) = entry_bytes e ++ table_bytes es

abbrev pub IsEntry : Entry → Type 0
IsEntry (controller id address first) = address < 2 ^ 32
IsEntry (other kind body) = (kind ≢ 1) × (length body ≤ 253)

abbrev pub AllEntries : List Entry → Type 0
AllEntries [] = Unit {0}
AllEntries (e ∷ es) = IsEntry e × AllEntries es

-- The address in the last I/O APIC entry.
abbrev pub last_controller : ℕ → List Entry → ℕ
last_controller base [] = base
last_controller base (controller id address first ∷ es) = last_controller address es
last_controller base (other kind body ∷ es) = last_controller base es

-- Memory holds `bs` from `p` on.
abbrev pub Holds : Ram → ℕ → List ℕ → Type 0
Holds ram p [] = Unit {0}
Holds ram p (b ∷ bs) = (ram p ≡ b) × Holds ram (p + 1) bs

Holds-append :
    (ram : Ram) (p : ℕ) (xs ys : List ℕ)
    → Holds ram p (xs ++ ys)
    → Holds ram p xs × Holds ram (p + length xs) ys
Holds-append ram p [] ys h = let e : p + 0 ≡ p = omega arith in (tt, rw e h)
Holds-append ram p (x ∷ xs) ys h =
    let rest = Holds-append ram (p + 1) xs ys h.1 in
    let e : p + suc (length xs) ≡ p + 1 + length xs = omega arith in ((h.0, rest.0), rw e rest.1)

load-Holds : (ram : Ram) (p : ℕ) (bs : List ℕ) → Holds ram p bs → load ram p (length bs) ≡ bs
unfolding load
load-Holds ram p [] h = refl
load-Holds ram p (b ∷ bs) h = ap₂ ◌∷◌ h.0 (load-Holds ram (p + 1) bs h.1)

length-entry_bytes :
    (e : Entry) → IsEntry e → (2 ≤ length (entry_bytes e)) × (length (entry_bytes e) < 256)
length-entry_bytes (controller id address first) h =
    let n = length-append (le_bytes 4 address) (le_bytes 4 first) in
    omega (arith, n, length-le_bytes 4 address, length-le_bytes 4 first)
length-entry_bytes (other kind body) h = omega (arith, h.1)

entry_length :
    (ram : Ram) (p : ℕ) (e : Entry)
    → Holds ram p (entry_bytes e)
    → ram (p + 1) ≡ length (entry_bytes e)
entry_length ram p (controller id address first) h =
    let n = length-append (le_bytes 4 address) (le_bytes 4 first) in
    omega (arith, h.1.0, n, length-le_bytes 4 address, length-le_bytes 4 first)
entry_length ram p (other kind body) h = omega (arith, h.1.0)

note_ioapic_lem :
    (ram : Ram) (p base : ℕ) (e : Entry)
    → IsEntry e
    → Holds ram p (entry_bytes e)
    → note_ioapic ram p base ≡ last_controller base (e ∷ [])
unfolding note_ioapic
note_ioapic_lem ram p base (controller id address first) h k =
    let field =
      Holds-append ram (p + 1 + 1 + 1 + 1) (le_bytes 4 address) (le_bytes 4 first) k.1.1.1.1 in
    let e : p + 1 + 1 + 1 + 1 ≡ p + 4 = omega arith in
    let bytes : load ram (p + 4) 4 ≡ le_bytes 4 address = rw (← e) (
      ap (load ram _) (sym (length-le_bytes 4 address))
      ∙ load-Holds ram _ (le_bytes 4 address) field.0) in
    if_true (ram p == 1) _ _ (eq→== (ram p) 1 k.0) ∙ ap from_le bytes ∙ from_le-le_bytes 4 address h
note_ioapic_lem ram p base (other kind body) h k =
    if_false (ram p == 1) _ _ (ne→== (ram p) 1 λ e. h.0 (sym k.0 ∙ e))

length-table_bytes : (es : List Entry) → AllEntries es → length es ≤ length (table_bytes es)
length-table_bytes [] h = omega arith
length-table_bytes (e ∷ es) h = omega (
  arith,
  length-append (entry_bytes e) (table_bytes es),
  length-entry_bytes e h.0,
  length-table_bytes es h.1,
)

last_controller_step :
    (base : ℕ) (e : Entry) (es : List Entry)
    → last_controller (last_controller base (e ∷ [])) es ≡ last_controller base (e ∷ es)
last_controller_step base (controller id address first) es = refl
last_controller_step base (other kind body) es = refl

walk_madt_lem :
    (es : List Entry) (fuel : ℕ) (ram : Ram) (madt len offset base : ℕ)
    → AllEntries es
    → Holds ram (madt + offset) (table_bytes es)
    → offset + length (table_bytes es) ≡ len
    → len < 2 ^ 32
    → length es ≤ fuel
    → walk_madt (suc fuel) ram madt len offset base ≡ some (last_controller base es)
walk_madt_lem [] fuel ram madt len offset base v h e s f =
    walk_madt_done fuel ram madt len offset base (omega arith)
walk_madt_lem (x ∷ es) zero ram madt len offset base v h e s f = absurd (omega arith)
walk_madt_lem (x ∷ es) (suc fuel) ram madt len offset base v h e s f =
    let (here, rest) = Holds-append ram (madt + offset) (entry_bytes x) (table_bytes es) h in
    let total = length-append (entry_bytes x) (table_bytes es) in
    let bounds = length-entry_bytes x v.0 in
    let size : ram (madt + offset + 1) ≡ length (entry_bytes x) =
      entry_length ram (madt + offset) x here in
    let next : (offset + ram (madt + offset + 1)) % 2 ^ 32 ≡ offset + length (entry_bytes x) =
      omega (arith, size, total, e, s) in
    let noted = note_ioapic_lem ram (madt + offset) base x v.0 here in
    let place : madt + offset + length (entry_bytes x) ≡ madt + (offset + length (entry_bytes x)) =
      omega arith in
    walk_madt_step (suc fuel) ram madt len offset base (omega (arith, total, e, bounds))
    ∙ ap₂ (walk_madt (suc fuel) ram madt len) next noted
    ∙ walk_madt_lem es fuel ram madt len (offset + length (entry_bytes x))
        (last_controller base (x ∷ [])) v.1 (rw (← place) rest) (omega (arith, total, e)) s
        (omega arith)
    ∙ ap some (last_controller_step base x es)

-- A MADT in memory that is laid out as a list of entries reads back: the loop ends, with the address in
-- its last I/O APIC entry, or 0 if it has none.
pub io_apic_lem :
    (ram : Ram) (madt : ℕ) (es : List Entry)
    → AllEntries es
    → Holds ram (madt + 0x2C) (table_bytes es)
    → load32 ram (madt + 4) ≡ 0x2C + length (table_bytes es)
    → 0x2C + length (table_bytes es) < 2 ^ 32
    → io_apic ram madt ≡ some (last_controller 0 es)
unfolding io_apic
io_apic_lem ram madt es v h e s =
    walk_madt_lem es (load32 ram (madt + 4)) ram madt (load32 ram (madt + 4)) 0x2C 0 v h (sym e)
      (omega arith) (omega (arith, e, length-table_bytes es v))
