-- ===== src/Nvme/Controller.antt =====
-- A controller that serves the queue, and the boot from a disk behind it.
use qore_os.Base.{
  ℕ, zero, suc, ◌+◌, ◌*◌, ◌/◌, ◌%◌, ◌^◌, ◌<◌, ◌≤◌, ◌≡◌, refl, ap, ap₂, sym, ◌∙◌, List, [], ◌∷◌,
  arith, bit_and, bit_and_low, length, ◌==◌, take, drop, ◌-◌, if◌then◌else◌, if_true, eq→==,
}
use qore_os.Ram.{
  Ram, store, load, from_le, le_bytes, load-store_self, load-store-Apart, from_le-le_bytes,
}
use qore_os.Nvme.{Nvme, cmd_bytes, read_command, status_addr}
use qore_os.Nvme.Read.{after_reads, History, created, elsewhere, acknowledged, Serves}

-- How often the doorbell of the drive at `bar0` was rung.
unfoldable pub rings : ℕ → List (ℕ × ℕ) → ℕ
rings bar0 [] = 0
rings bar0 (w ∷ earlier) = (if w.0 == bar0 + 0x1008 then 1 else 0) + rings bar0 earlier

-- On the first pass through the queue the phase bit is 1, and it is the other one on each next pass.
abbrev pub phase : ℕ → ℕ
phase n = 1 - n / 16 % 2

rings-History :
    {bar0 n : ℕ} {earlier : List (ℕ × ℕ)} → History bar0 [] n earlier → rings bar0 earlier ≡ n
unfolding rings
rings-History created = refl
rings-History {bar0} (elsewhere address value out h) = ground (arith, rings-History h)
rings-History {bar0} (acknowledged h) = ground (arith, rings-History h)

-- The slot that the doorbell announced is served at once.
module _ (d : Nvme) (disk : ℕ → List ℕ) where
  abbrev command_at : ℕ → ℕ
  command_at slot = d.iosq_ptr + slot * 64

  abbrev lba_in : Ram → ℕ → ℕ
  lba_in ram slot =
      from_le (load ram (command_at slot + 40) 4)
      + 2 ^ 32 * from_le (load ram (command_at slot + 44) 4)

  unfoldable pub serve_slot : ℕ → ℕ → Ram → Ram
  serve_slot phase_bit slot ram =
      store (store ram (from_le (load ram (command_at slot + 24) 8)) (disk (lba_in ram slot)))
        (status_addr d slot) (phase_bit ∷ [])

  unfoldable pub controller : List (ℕ × ℕ) → ℕ → Ram → Ram
  controller [] k ram = ram
  controller (w ∷ earlier) k ram =
      if w.0 == d.bar0 + 0x1008
      then serve_slot (phase (rings d.bar0 earlier)) ((w.1 + 15) % 16) ram
      else ram

drop-load : (ram : Ram) (p i m : ℕ) → drop i (load ram p (i + m)) ≡ load ram (p + i) m
unfolding load
drop-load ram p zero m = ap₂ (load ram) (omega arith) (omega arith)
drop-load ram p (suc i) m =
    let n : suc i + m ≡ suc (i + m) = omega arith in
    let q : p + 1 + i ≡ p + suc i = omega arith in
    rw n (drop-load ram (p + 1) i m ∙ ap (λ a. load ram a m) q)

take-load : (ram : Ram) (p n r : ℕ) → take n (load ram p (n + r)) ≡ load ram p n
unfolding load
take-load ram p zero r = refl
take-load ram p (suc n) r =
    let m : suc n + r ≡ suc (n + r) = omega arith in
    rw m (ap (λ bs. ram p ∷ bs) (take-load ram (p + 1) n r))

pub load-slice :
    (ram : Ram) (p i n r : ℕ) → load ram (p + i) n ≡ take n (drop i (load ram p (i + (n + r))))
load-slice ram p i n r = sym (ap (take n) (drop-load ram p i (n + r)) ∙ take-load ram (p + i) n r)

module _ (ram : Ram) (p slot lba data_ptr : ℕ)
    (h : load ram p 64 ≡ cmd_bytes (read_command slot lba data_ptr)) where
  data_ptr_lem : data_ptr < 2 ^ 64 → from_le (load ram (p + 24) 8) ≡ data_ptr
  unfolding cmd_bytes read_command le_bytes
  data_ptr_lem l =
      ap from_le (load-slice ram p 24 8 32 ∙ ap (λ bs. take 8 (drop 24 bs)) h)
      ∙ from_le-le_bytes 8 data_ptr (omega arith)

  lba_lem :
      lba < 2 ^ 64 → from_le (load ram (p + 40) 4) + 2 ^ 32 * from_le (load ram (p + 44) 4) ≡ lba
  unfolding cmd_bytes read_command le_bytes
  lba_lem l =
      let low =
        ap from_le (load-slice ram p 40 4 20 ∙ ap (λ bs. take 4 (drop 40 bs)) h)
        ∙ from_le-le_bytes 4 (bit_and lba 0xFFFFFFFF) (omega (arith, bit_and_low 32 lba)) in
      let high =
        ap from_le (load-slice ram p 44 4 16 ∙ ap (λ bs. take 4 (drop 44 bs)) h)
        ∙ from_le-le_bytes 4 (lba / 2 ^ 32) (omega arith) in
      omega (arith, low, high, bit_and_low 32 lba)

store_one : (m : Ram) (p b : ℕ) → store m p (b ∷ []) p ≡ b
unfolding store
store_one m p b = ground arith

pub controller-Serves :
    (d : Nvme) (sectors : ℕ) (disk : ℕ → List ℕ)
    → sectors ≤ 2 ^ 64
    → ((lba : ℕ) → length (disk lba) ≡ 512)
    → Serves (controller d disk) [] d sectors disk
unfolding controller serve_slot after_reads
controller-Serves d sectors disk bound sized earlier k slot lba data_ptr ram history small sector
      fits apart command pending =
    let p = data_ptr_lem ram (d.iosq_ptr + slot * 64) slot lba data_ptr command fits in
    let l =
      lba_lem ram (d.iosq_ptr + slot * 64) slot lba data_ptr command
        (omega (arith, sector, bound)) in
    let ring : ℕ × ℕ = (d.bar0 + 0x1008, (slot + 1) % 16) in
    let one : phase (rings d.bar0 earlier) ≡ 1 = omega (arith, rings-History history) in
    let same : ((slot + 1) % 16 + 15) % 16 ≡ slot = omega arith in
    let served : controller d disk (ring ∷ earlier) k ram
        ≡ store (store ram data_ptr (disk lba)) (status_addr d slot) (1 ∷ []) =
      if_true (d.bar0 + 0x1008 == d.bar0 + 0x1008) _ _ (eq→== _ _ refl)
      ∙ ap₂ (λ b s. serve_slot d disk b s ram) one same
      ∙ ap₂ (λ ptr n. store (store ram ptr (disk n)) (status_addr d slot) (1 ∷ [])) p l in
    let status : controller d disk (ring ∷ earlier) k ram (status_addr d slot) ≡ 1 =
      ap (λ (r : Ram). r (status_addr d slot)) served
      ∙ store_one (store ram data_ptr (disk lba)) (status_addr d slot) 1 in
    record {
      n = 0;
      in_time = omega arith;
      pending = λ j l. absurd (omega arith);
      completed = ap (λ b. bit_and b 0x01 == 0) status;
      delivered =
          ap (λ r. load r data_ptr 512) served
          ∙ load-store-Apart (store ram data_ptr (disk lba)) (status_addr d slot) (1 ∷ []) data_ptr
              512 (omega (arith, apart, small))
          ∙ ap (load (store ram data_ptr (disk lba)) data_ptr) (sym (sized lba))
          ∙ load-store_self ram data_ptr (disk lba);
    }
