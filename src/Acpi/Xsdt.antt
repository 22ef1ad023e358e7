-- ===== src/Acpi/Xsdt.antt =====
-- The search of the XSDT, for a table that points to a list of tables.
use qore_os.Base.{
  ℕ, ◌+◌, ◌*◌, ◌^◌, ◌<◌, ◌≡◌, ◌≢◌, refl, ap, ap₂, sym, ◌∙◌, List, [], ◌∷◌, Bool, true, false, arith,
  length, ◌==◌, if◌then◌else◌, if_true, &&→both, ==→eq,
}
use qore_os.Ram.{Ram, load, load64}
use qore_os.Fat32.Utf8.{is_utf8, is_utf8_from}
use qore_os.Acpi.{
  load32, Tables, no_tables, same_text, mcfg, apic, note_table, note_tables, entry_count,
  find_tables,
}

-- The table at `address` has the four letters `name` for its signature.
abbrev pub is_named : Ram → List ℕ → ℕ → Bool
is_named ram name address = same_text (load ram address 4) name

-- The last of the addresses whose table has that name, or `before`.
abbrev pub last_named : Ram → List ℕ → ℕ → List ℕ → ℕ
last_named ram name before [] = before
last_named ram name before (a ∷ entries) =
    last_named ram name (if is_named ram name a then a else before) entries

-- An array of addresses in memory.
abbrev pub Pointers : Ram → ℕ → List ℕ → Type 0
Pointers ram p [] = Unit {0}
Pointers ram p (a ∷ entries) = (load64 ram p ≡ a) × Pointers ram (p + 8) entries

true-ne-false : true ≢ false
true-ne-false h = cc

same_text→eq : (xs ys : List ℕ) → same_text xs ys ≡ true → xs ≡ ys
unfolding same_text
same_text→eq [] [] h = refl
same_text→eq [] (y ∷ ys) h = absurd (true-ne-false (sym h))
same_text→eq (x ∷ xs) [] h = absurd (true-ne-false (sym h))
same_text→eq (x ∷ xs) (y ∷ ys) h =
    let (e, es) = &&→both (x == y) (same_text xs ys) h in
    ap₂ ◌∷◌ (==→eq x y e) (same_text→eq xs ys es)

named_text :
    (ram : Ram) (a : ℕ) (name : List ℕ)
    → is_utf8 name ≡ true
    → is_named ram name a ≡ true
    → is_utf8 (load ram a 4) ≡ true
named_text ram a name u h = ap is_utf8 (same_text→eq (load ram a 4) name h) ∙ u

mcfg_text : is_utf8 mcfg ≡ true
unfolding mcfg is_utf8_from
mcfg_text = refl

apic_text : is_utf8 apic ≡ true
unfolding apic is_utf8_from
apic_text = refl

note_table_lem :
    (ram : Ram) (a : ℕ) (t : Tables)
    → note_table ram a t ≡ record {
      mcfg_address = if is_named ram mcfg a then a else t.mcfg_address;
      madt_address = if is_named ram apic a then a else t.madt_address;
    }
unfolding note_table
note_table_lem ram a t =
    choose (is_utf8 (load ram a 4)) (is_named ram mcfg a) (is_named ram apic a) refl
      (named_text ram a mcfg mcfg_text) (named_text ram a apic apic_text)
  where
    choose :
        (text is_mcfg is_apic : Bool)
        → is_utf8 (load ram a 4) ≡ text
        → (is_mcfg ≡ true → is_utf8 (load ram a 4) ≡ true)
        → (is_apic ≡ true → is_utf8 (load ram a 4) ≡ true)
        → (let t1 = if is_mcfg then record t { mcfg_address = a } else t in
            let t2 = if is_apic then record t1 { madt_address = a } else t1 in
            if text then t2 else t)
          ≡ record {
            mcfg_address = if is_mcfg then a else t.mcfg_address;
            madt_address = if is_apic then a else t.madt_address;
          }
    choose true true true u f g = refl
    choose true true false u f g = refl
    choose true false true u f g = refl
    choose true false false u f g = refl
    choose false true b u f g = absurd (true-ne-false (sym (f refl) ∙ u))
    choose false false true u f g = absurd (true-ne-false (sym (g refl) ∙ u))
    choose false false false u f g = refl

note_tables_lem :
    (ram : Ram) (entries : List ℕ) (p : ℕ) (t : Tables)
    → Pointers ram p entries
    → note_tables ram (length entries) p t ≡ record {
      mcfg_address = last_named ram mcfg t.mcfg_address entries;
      madt_address = last_named ram apic t.madt_address entries;
    }
unfolding note_tables
note_tables_lem ram [] p t h = refl
note_tables_lem ram (a ∷ entries) p t h =
    ap (λ e. note_tables ram (length entries) (p + 8) (note_table ram e t)) h.0
    ∙ ap (note_tables ram (length entries) (p + 8)) (note_table_lem ram a t)
    ∙ note_tables_lem ram entries (p + 8) _ h.1

-- From a root pointer whose signature is a text, the search gives the last table of each of the two
-- names, MCFG and APIC, among those that the XSDT points to, and 0 for a name that none has.
pub find_tables_lem :
    (ram : Ram) (rsdp xsdt : ℕ) (entries : List ℕ)
    → is_utf8 (load ram rsdp 8) ≡ true
    → load64 ram (rsdp + 24) ≡ xsdt
    → load32 ram (xsdt + 4) ≡ 36 + 8 * length entries
    → 36 + 8 * length entries < 2 ^ 32
    → Pointers ram (xsdt + 36) entries
    → find_tables ram rsdp ≡ record {
      mcfg_address = last_named ram mcfg 0 entries;
      madt_address = last_named ram apic 0 entries;
    }
unfolding find_tables entry_count
find_tables_lem ram rsdp xsdt entries u at size small h =
    let count : entry_count (load32 ram (xsdt + 4)) ≡ length entries = omega (arith, size) in
    if_true (is_utf8 (load ram rsdp 8)) _ _ u
    ∙ ap (λ x. note_tables ram (entry_count (load32 ram (x + 4))) (x + 36) no_tables) at
    ∙ ap (λ n. note_tables ram n (xsdt + 36) no_tables) count
    ∙ note_tables_lem ram entries (xsdt + 36) no_tables h
