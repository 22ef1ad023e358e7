-- ===== src/Nvme/Read.antt =====
-- A read of a sector against a controller that serves the queue.
use mathlib.Core.Path.{subst}
use qore_os.Base.{
  ℕ, zero, suc, ◌+◌, ◌*◌, ◌%◌, ◌^◌, ◌≤◌, ◌<◌, ◌≡◌, refl, ap, ap₂, sym, ◌∙◌, List, [], ◌∷◌, Bool,
  true, false, arith, bit_and, length, ◌==◌, Bool-cases, inl, inr, ◌⊎◌,
}
use qore_os.Ram.{Ram, store, load, Apart, le_bytes, load-store_self, store-outside}
use qore_os.Machine.{Hardware, Machine}
use qore_os.Nvme.{
  Nvme, NvmeCmd, Storage, cmd_bytes, read_command, status_addr, wait_done, zero_page, submit,
  read_sector,
}

-- Memory after `n` more reads of a status, the first of which is the k-th.
unfoldable pub after_reads : (ℕ → Ram → Ram) → ℕ → ℕ → Ram → Ram
after_reads dma k zero ram = ram
after_reads dma k (suc n) ram = after_reads dma (k + 1) n (dma k ram)

abbrev pub is_pending : Ram → ℕ → Bool
is_pending ram status = bit_and (ram status) 0x01 == 0

-- The controller completes what is in `slot` with the read after `n` pending ones, and has then put
-- `sector` where the command asks for it.
pub record Completes (dma : ℕ → Ram → Ram) (status k : ℕ) (ram : Ram) (data_ptr : ℕ)
    (sector : List ℕ) : Type 0 where
  pub n : ℕ
  pub in_time : n ≤ 20000000
  pub pending : (j : ℕ) → j < n → is_pending (after_reads dma k (suc j) ram) status ≡ true
  pub completed : is_pending (after_reads dma k (suc n) ram) status ≡ false
  pub delivered : load (after_reads dma k (suc n) ram) data_ptr 512 ≡ sector

-- The register writes since `start` that leave the queues of the drive at `bar0` to `n` commands, each
-- announced and acknowledged before the next: all other writes are outside the drive's registers.
pub data History (bar0 : ℕ) (start : List (ℕ × ℕ)) : ℕ → List (ℕ × ℕ) → Type 0 where
  created : History bar0 start 0 start
  elsewhere :
      {n : ℕ} {earlier : List (ℕ × ℕ)} (address value : ℕ)
      → (address < bar0) ⊎ (bar0 + 0x4000 ≤ address)
      → History bar0 start n earlier
      → History bar0 start n ((address, value) ∷ earlier)
  acknowledged :
      {n : ℕ} {earlier : List (ℕ × ℕ)}
      → History bar0 start n earlier
      → History bar0 start
          (suc n)
          ((bar0 + 0x100C, suc n % 16) ∷ (bar0 + 0x1008, suc n % 16) ∷ earlier)

-- A controller that has the queues of `d` since the register writes `start`, and the first `sectors` sectors `disk`, on its
-- first pass through the queues, where it completes with phase bit 1: when the doorbell is rung for the
-- next slot of the sixteen, which holds a read command and whose status is clear, it serves that slot,
-- where the page for the data is apart from the completions and the numbers fit 64 bits.
abbrev pub Serves : (List (ℕ × ℕ) → ℕ → Ram → Ram) → List (ℕ × ℕ) → Nvme → ℕ → (ℕ → List ℕ) → Type 0
Serves dma start d sectors disk =
    (earlier : List (ℕ × ℕ)) (k slot lba data_ptr : ℕ) (ram : Ram)
    → History d.bar0 start slot earlier
    → slot < 16
    → lba < sectors
    → data_ptr < 2 ^ 64
    → Apart data_ptr 4096 d.iocq_ptr 256
    → load ram (d.iosq_ptr + slot * 64) 64 ≡ cmd_bytes (read_command slot lba data_ptr)
    → is_pending ram (status_addr d slot) ≡ true
    → Completes (dma ((d.bar0 + 0x1008, (slot + 1) % 16) ∷ earlier)) (status_addr d slot) k ram
        data_ptr (disk lba)

wait_done_lem :
    (dma : List (ℕ × ℕ) → ℕ → Ram → Ram) (status n left : ℕ) (m : Machine)
    → n < left
    → ((j : ℕ)
        → j < n
        → is_pending (after_reads (dma m.writes) m.reads (suc j) m.ram) status ≡ true)
    → is_pending (after_reads (dma m.writes) m.reads (suc n) m.ram) status ≡ false
    → (wait_done dma status left m).ram ≡ after_reads (dma m.writes) m.reads (suc n) m.ram
unfolding wait_done after_reads
wait_done_lem dma status n zero m h pending completed = absurd (omega arith)
wait_done_lem dma status zero (suc left) m h pending completed = rw (wait_done, completed) refl
wait_done_lem dma status (suc n) (suc left) m h pending completed =
    let m1 = record m { ram = dma m.writes m.reads m.ram; reads = m.reads + 1 } in
    let first : is_pending (dma m.writes m.reads m.ram) status ≡ true = pending 0 (omega arith) in
    rw (wait_done, first)
      (wait_done_lem dma status n left m1 (omega arith) (λ j l. pending (suc j) (omega arith))
        completed)

wait_done_writes :
    (dma : List (ℕ × ℕ) → ℕ → Ram → Ram) (status left : ℕ) (m : Machine)
    → (wait_done dma status left m).writes ≡ m.writes
unfolding wait_done
wait_done_writes dma status zero m = refl
wait_done_writes dma status (suc left) m =
    let m1 = record m { ram = dma m.writes m.reads m.ram; reads = m.reads + 1 } in
    elim (Bool-cases (is_pending m1.ram status)) [
      | inl pending ↦ rw (wait_done, pending) (wait_done_writes dma status left m1)
      | inr completed ↦ rw (wait_done, completed) refl
    ]

pub wait_done_blocks :
    (dma : List (ℕ × ℕ) → ℕ → Ram → Ram) (status left : ℕ) (m : Machine)
    → (wait_done dma status left m).blocks ≡ m.blocks
unfolding wait_done
wait_done_blocks dma status zero m = refl
wait_done_blocks dma status (suc left) m =
    let m1 = record m { ram = dma m.writes m.reads m.ram; reads = m.reads + 1 } in
    elim (Bool-cases (is_pending m1.ram status)) [
      | inl pending ↦ rw (wait_done, pending) (wait_done_blocks dma status left m1)
      | inr completed ↦ rw (wait_done, completed) refl
    ]

pub read_sector_blocks :
    (dma : List (ℕ × ℕ) → ℕ → Ram → Ram) (hw : Hardware) (s : Storage) (lba : ℕ)
    → (read_sector dma hw s lba).1.machine.blocks ≡ s.machine.blocks + 1
unfolding read_sector submit
read_sector_blocks dma hw s lba = wait_done_blocks dma _ 20000001 (submit hw lba s)

submit-writes :
    (hw : Hardware) (lba : ℕ) (s : Storage)
    → (submit hw lba s).writes
      ≡ (s.drive.bar0 + 0x1008, (s.drive.iosq_tail + 1) % 16) ∷ s.machine.writes
unfolding submit
submit-writes hw lba s = refl

-- After `n` commands the queue is in step: the next command's slot is where the next completion is
-- expected.
pub record InStep (start : List (ℕ × ℕ)) (n : ℕ) (s : Storage) : Type 0 where
  pub tail : s.drive.iosq_tail ≡ n % 16
  pub head : s.drive.iocq_head ≡ n % 16
  pub history : History s.drive.bar0 start n s.machine.writes

-- The two queues stand apart from each other.
abbrev pub QueuesApart : Nvme → Type 0
QueuesApart d = Apart d.iosq_ptr 1024 d.iocq_ptr 256

length-cmd_bytes : (c : NvmeCmd) → length (cmd_bytes c) ≡ 64
unfolding cmd_bytes le_bytes
length-cmd_bytes c = refl

submit-command :
    (hw : Hardware) (lba : ℕ) (s : Storage)
    → load (submit hw lba s).ram (s.drive.iosq_ptr + s.drive.iosq_tail * 64) 64
      ≡ cmd_bytes (read_command s.drive.iosq_tail lba (hw.place s.machine.blocks))
unfolding submit
submit-command hw lba s =
    let c = read_command s.drive.iosq_tail lba (hw.place s.machine.blocks) in
    ap (λ n. load (submit hw lba s).ram (s.drive.iosq_ptr + s.drive.iosq_tail * 64) n)
      (sym (length-cmd_bytes c))
    ∙ load-store_self _ (s.drive.iosq_ptr + s.drive.iosq_tail * 64) (cmd_bytes c)

store_first : (m : Ram) (p b : ℕ) (bs : List ℕ) → store m p (b ∷ bs) p ≡ b
unfolding store
store_first m p b bs = ground arith

submit-pending :
    (hw : Hardware) (lba : ℕ) (s : Storage)
    → s.drive.iosq_tail < 16
    → QueuesApart s.drive
    → is_pending (submit hw lba s).ram (status_addr s.drive s.drive.iosq_tail) ≡ true
unfolding submit
submit-pending hw lba s h apart =
    let d = s.drive in
    let c = read_command d.iosq_tail lba (hw.place s.machine.blocks) in
    let status = status_addr d d.iosq_tail in
    let cleared = store s.machine.ram (hw.place s.machine.blocks) zero_page in
    let none_there : store (store cleared status (0 ∷ 0 ∷ [])) (d.iosq_ptr + d.iosq_tail * 64)
          (cmd_bytes c) status
        ≡ 0 =
      store-outside (store cleared status (0 ∷ 0 ∷ [])) (d.iosq_ptr + d.iosq_tail * 64)
        (cmd_bytes c) status (omega (arith, length-cmd_bytes c, apart))
      ∙ store_first cleared status 0 (0 ∷ []) in
    rw none_there refl

-- With the queue in step after fewer than sixteen commands, its two halves and the data page apart, and a
-- controller that serves it, `read_sector` returns the sector asked for, and leaves the queue in step after
-- one more command.
pub read_sector_lem :
    (dma : List (ℕ × ℕ) → ℕ → Ram → Ram) (hw : Hardware) (start : List (ℕ × ℕ)) (n : ℕ)
    (s : Storage) (lba sectors : ℕ) (disk : ℕ → List ℕ)
    → InStep start n s
    → n < 16
    → QueuesApart s.drive
    → Apart (hw.place s.machine.blocks) 4096 s.drive.iocq_ptr 256
    → lba < sectors
    → hw.place s.machine.blocks < 2 ^ 64
    → Serves dma start s.drive sectors disk
    → ((read_sector dma hw s lba).0 ≡ disk lba) × InStep start (suc n) (read_sector dma hw s lba).1
unfolding read_sector
read_sector_lem dma hw start n s lba sectors disk step small apart page sector fits serves =
    let m = submit hw lba s in
    let d = s.drive in
    let slot : d.iosq_tail ≡ n = omega (arith, step.tail) in
    let same : d.iocq_head ≡ d.iosq_tail = step.head ∙ sym step.tail in
    let next : (d.iosq_tail + 1) % 16 ≡ suc n % 16 = omega (arith, slot) in
    let c : Completes (dma m.writes) (status_addr d d.iosq_tail) m.reads m.ram
        (hw.place s.machine.blocks) (disk lba) =
      rw (submit-writes hw lba s) (
        serves s.machine.writes m.reads d.iosq_tail lba (hw.place s.machine.blocks) m.ram
          (rw slot step.history) (omega arith) sector fits page (submit-command hw lba s)
          (submit-pending hw lba s (omega arith) apart)) in
    let waited =
      wait_done_lem dma (status_addr d d.iosq_tail) c.n 20000001 m (omega (arith, c.in_time))
        c.pending c.completed in
    let rung : (wait_done dma (status_addr d d.iocq_head) 20000001 m).writes
        ≡ (d.bar0 + 0x1008, suc n % 16) ∷ s.machine.writes =
      wait_done_writes dma (status_addr d d.iocq_head) 20000001 m
      ∙ submit-writes hw lba s
      ∙ ap (λ i. (d.bar0 + 0x1008, i) ∷ s.machine.writes) next in
    let both : (d.bar0 + 0x100C, (d.iocq_head + 1) % 16)
          ∷ (wait_done dma (status_addr d d.iocq_head) 20000001 m).writes
        ≡ (d.bar0 + 0x100C, suc n % 16) ∷ (d.bar0 + 0x1008, suc n % 16) ∷ s.machine.writes =
      ap₂ (λ i ws. (d.bar0 + 0x100C, i) ∷ ws) (ap (λ i. (i + 1) % 16) same ∙ next) rung in
    (
      ap (λ ram. load ram (hw.place s.machine.blocks) 512)
            (ap (λ h. (wait_done dma (status_addr d h) 20000001 m).ram) same ∙ waited)
          ∙ c.delivered,
      record {
        tail = next;
        head = ap (λ i. (i + 1) % 16) same ∙ next;
        history = subst (History d.bar0 start (suc n)) (sym both) (acknowledged step.history);
      },
    )
