-- ===== src/Ecam/Found.antt =====
-- What the scan of all functions finds, and what it writes.
use qore_os.Base.{
  ℕ, ◌+◌, ◌*◌, ◌<◌, ◌≡◌, refl, inl, inr, Bool, true, false, ◌&&◌, ◌||◌, not, Option, none, some,
  arith, ◌==◌, if◌then◌else◌, Bool-cases,
}
use qore_os.Ram.{Ram}
use qore_os.Ecam.{
  Devices, Scan, load16, bar_low, bar_address, enable, note_e1000, note_nvme, note_hda, note_xhci,
  scan_function,
}

-- The four tests on the function at an address.
abbrev pub is_present : Ram → ℕ → Bool
is_present ram a = not (load16 ram a == 0xFFFF)

abbrev pub is_class : Ram → ℕ → ℕ → ℕ → Bool
is_class ram class sub a = ram (a + 0x0B) == class && ram (a + 0x0A) == sub

abbrev pub is_e1000 : Ram → ℕ → Bool
is_e1000 ram a = is_present ram a && is_class ram 0x02 0x00 a

abbrev pub is_nvme : Ram → ℕ → Bool
is_nvme ram a = is_present ram a && is_class ram 0x01 0x08 a

abbrev pub is_hda : Ram → ℕ → Bool
is_hda ram a = is_present ram a && is_class ram 0x04 0x03 a

abbrev pub is_xhci : Ram → ℕ → Bool
is_xhci ram a = is_present ram a && (is_class ram 0x0C 0x03 a && ram (a + 0x09) == 0x30)

-- A function that is made a bus master.
abbrev pub is_master : Ram → ℕ → Bool
is_master ram a = is_e1000 ram a || (is_nvme ram a || is_hda ram a)

abbrev pub note : Bool → ℕ → Option ℕ → Option ℕ
note matches bar before = if matches then some bar else before

abbrev pub found : Bool → ℕ → Option ℕ
found is_found bar = if is_found then some bar else none

-- One round, where the four tests come out so.
pub record Noted (ram : Ram) (a : ℕ) (d : Devices) (e n h x : Bool) (s : Scan) : Type 0 where
  pub memory : s.ram ≡ (if e || (n || h) then enable ram a else ram)
  pub e1000 : s.devices.e1000_bar0 ≡ note e (bar_low ram a) d.e1000_bar0
  pub nvme :
      found s.devices.nvme_found s.devices.nvme_bar0
      ≡ note n (bar_address ram a) (found d.nvme_found d.nvme_bar0)
  pub hda :
      found s.devices.hda_found s.devices.hda_bar0
      ≡ note h (bar_address ram a) (found d.hda_found d.hda_bar0)
  pub xhci :
      found s.devices.xhci_found s.devices.xhci_bar0
      ≡ note x (bar_low ram a) (found d.xhci_found d.xhci_bar0)

-- The tests exclude each other.
Excludes : Bool → Bool → Type 0
Excludes a b = (a && b) ≡ false

both : {A : Type 0} → Excludes true true → A
unfolding Excludes
both h = absurd (ground (arith, h))

pub scan_function-Noted :
    (a : ℕ) (s : Scan)
    → Noted s.ram a s.devices
        (is_e1000 s.ram a)
        (is_nvme s.ram a)
        (is_hda s.ram a)
        (is_xhci s.ram a)
        (scan_function a s)
unfolding scan_function Excludes
scan_function-Noted a s =
    choose (is_present s.ram a) (is_class s.ram 0x02 0x00 a) (is_class s.ram 0x01 0x08 a)
      (is_class s.ram 0x04 0x03 a) (is_class s.ram 0x0C 0x03 a && s.ram (a + 0x09) == 0x30)
      (ground arith) (ground arith) (ground arith) (ground arith) (ground arith) (ground arith)
  where
    choose :
        (p e n h x : Bool)
        → Excludes e n
        → Excludes e h
        → Excludes e x
        → Excludes n h
        → Excludes n x
        → Excludes h x
        → Noted s.ram a s.devices
            (p && e)
            (p && n)
            (p && h)
            (p && x)
            (if p then note_xhci x a (note_hda h a (note_nvme n a (note_e1000 e a s))) else s)
    choose false e n h x en eh ex nh nx hx = record {
      memory = refl;
      e1000 = refl;
      nvme = refl;
      hda = refl;
      xhci = refl;
    }
    choose true true true h x en eh ex nh nx hx = both en
    choose true true false true x en eh ex nh nx hx = both eh
    choose true true false false true en eh ex nh nx hx = both ex
    choose true false true true x en eh ex nh nx hx = both nh
    choose true false true false true en eh ex nh nx hx = both nx
    choose true false false true true en eh ex nh nx hx = both hx
    choose true true false false false en eh ex nh nx hx = record {
      memory = refl;
      e1000 = refl;
      nvme = refl;
      hda = refl;
      xhci = refl;
    }
    choose true false true false false en eh ex nh nx hx = record {
      memory = refl;
      e1000 = refl;
      nvme = refl;
      hda = refl;
      xhci = refl;
    }
    choose true false false true false en eh ex nh nx hx = record {
      memory = refl;
      e1000 = refl;
      nvme = refl;
      hda = refl;
      xhci = refl;
    }
    choose true false false false true en eh ex nh nx hx = record {
      memory = refl;
      e1000 = refl;
      nvme = refl;
      hda = refl;
      xhci = refl;
    }
    choose true false false false false en eh ex nh nx hx = record {
      memory = refl;
      e1000 = refl;
      nvme = refl;
      hda = refl;
      xhci = refl;
    }

-- The last of the first `k` functions that passes the test, by what is noted of it.
pub data Last (test : ℕ → Bool) (value : ℕ → ℕ) (k : ℕ) : Option ℕ → Type 0 where
  none_yet : ((i : ℕ) → i < k → test i ≡ false) → Last test value k none
  last_at :
      (i : ℕ)
      → i < k
      → test i ≡ true
      → ((j : ℕ) → i < j → j < k → test j ≡ false)
      → Last test value k (some (value i))

pub Last-suc :
    (test : ℕ → Bool) (value : ℕ → ℕ) (k : ℕ) {o : Option ℕ}
    → Last test value k o
    → Last test value (k + 1) (note (test k) (value k) o)
Last-suc test value k l = step (test k) refl l
  where
    upto : (i : ℕ) → test k ≡ false → (i < k → test i ≡ false) → i < k + 1 → test i ≡ false
    upto i e h l = elim (Bool-cases (i == k)) [
      | inl same ↦ let s : i ≡ k = ground arith in rw s e
      | inr differs ↦ h (ground arith)
    ]

    step :
        (b : Bool)
        → test k ≡ b
        → {o : Option ℕ} → Last test value k o
        → Last test value (k + 1) (note b (value k) o)
    step true e l = last_at k (omega arith) e λ j p q. absurd (omega arith)
    step false e (none_yet h) = none_yet λ i l. upto i e (h i) l
    step false e (last_at i l t h) = last_at i (omega arith) t λ j p q. upto j e (h j p) q

-- The address of the `i`-th function of the segment.
abbrev pub function_at : ℕ → ℕ → ℕ
function_at base i = base + i * 4096
