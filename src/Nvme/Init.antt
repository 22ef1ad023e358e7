-- ===== src/Nvme/Init.antt =====
-- The start of the controller and its identification, of src/nvme.rs. A register that is read gives
-- `device` of the machine's count of reads.
use qore_os.Base.{
  ℕ, zero, suc, ◌+◌, ◌-◌, ◌*◌, ◌%◌, ◌^◌, ◌≡◌, refl, List, [], ◌∷◌, Bool, true, false, ◌&&◌, bit_and,
  bit_or, replicate, arith, take, drop, leb, ltb, ◌==◌, if◌then◌else◌, if_intro, if_true, ◌∙◌, ap,
}
use qore_os.Ram.{Ram, load}
use qore_os.Text.{codes}
use qore_os.Fat32.Utf8.{is_utf8, is_utf8_from}
use qore_os.Machine.{Hardware, Machine, leak, write_ram, write_mmio, print}
use qore_os.Nvme.{NvmeCmd, Storage, cmd_bytes, wait_done, zero_page}

abbrev pub read_reg : Hardware → ℕ → Storage → ℕ
read_reg hw offset s = hw.device s.machine.reads (s.drive.bar0 + offset) % 2 ^ 32

abbrev pub after_read : Storage → Storage
after_read s =
    let machine = s.machine in record s { machine = record machine { reads = machine.reads + 1 } }

-- `write_reg` and `write_reg64`
abbrev pub write_reg : ℕ → ℕ → Storage → Storage
write_reg offset val s = record s { machine = write_mmio (s.drive.bar0 + offset) val s.machine }

-- Reads of the status register until its ready bit is `want`, with the reads left; false where it did
-- not come.
unfoldable pub wait_ready : Hardware → ℕ → ℕ → Storage → Bool × Storage
wait_ready hw want zero s = (false, s)
wait_ready hw want (suc left) s = elim (bit_and (read_reg hw 0x1C s) 1 == want) [
  | true ↦ (true, after_read s)
  | false ↦ wait_ready hw want left (after_read s)
]

-- The four queues, of 16 entries each.
unfoldable pub allocate_queues : Hardware → Storage → Storage
allocate_queues hw s =
    let drive = s.drive in
    let machine = s.machine in
    let first = machine.blocks in
    record {
      drive = record drive {
        asq_ptr = hw.place first;
        acq_ptr = hw.place (first + 1);
        iosq_ptr = hw.place (first + 2);
        iocq_ptr = hw.place (first + 3);
      };
      machine = leak hw (replicate 256 0) (
          leak hw (replicate 1024 0)
            (leak hw (replicate 256 0) (leak hw (replicate 1024 0) machine)));
    }

-- A command that only has a number, a page and two words.
abbrev pub command : ℕ → ℕ → ℕ → ℕ → NvmeCmd
command cdw0 prp1 cdw10 cdw11 = record {
  cdw0 = cdw0;
  nsid = 0;
  reserved = 0;
  mptr = 0;
  prp1 = prp1;
  prp2 = 0;
  cdw10 = cdw10;
  cdw11 = cdw11;
  cdw12 = 0;
  cdw13 = 0;
  cdw14 = 0;
  cdw15 = 0;
}

-- The status of a completion of the admin queue.
abbrev pub admin_status : Storage → ℕ → ℕ
admin_status s slot = s.drive.acq_ptr + slot * 16 + 14

-- A command in a slot of the admin queue, its doorbell, and the wait for its completion.
unfoldable pub admin : (List (ℕ × ℕ) → ℕ → Ram → Ram) → ℕ → NvmeCmd → Storage → Storage
admin dma slot cmd s0 =
    let filled = record s0 {
      machine = write_ram (s0.drive.asq_ptr + slot * 64) (cmd_bytes cmd) s0.machine;
    } in
    let s = write_reg 0x1000 (slot + 1) filled in
    record s { machine = wait_done dma (admin_status s slot) 10000001 s.machine }

-- Both queues for reads, of 16 entries, each by an admin command.
unfoldable pub create_queues : (List (ℕ × ℕ) → ℕ → Ram → Ram) → Storage → Storage
create_queues dma s0 =
    let first = command (bit_or 0x05 (2 ^ 16)) s0.drive.iocq_ptr (bit_or (15 * 2 ^ 16) 1) 1 in
    let s1 = write_reg 0x1004 1 (admin dma 0 first s0) in
    let second =
      command (bit_or 0x01 (2 * 2 ^ 16)) s1.drive.iosq_ptr (bit_or (15 * 2 ^ 16) 1)
        (bit_or (2 ^ 16) 1) in
    let s2 = write_reg 0x1004 2 (admin dma 1 second s1) in
    record s2 {
      machine =
          print (codes "SYS: NVMe Admin Rings DMA Mapped. Drive READY!\n") 0x10B981 s2.machine;
    }

abbrev pub if_ready : (List (ℕ × ℕ) → ℕ → Ram → Ram) → Bool × Storage → Storage
if_ready dma (false, s) = s
if_ready dma (true, s) = create_queues dma s

-- The queues, their sizes and addresses, and the controller switched on.
unfoldable pub switch_on : (List (ℕ × ℕ) → ℕ → Ram → Ram) → Hardware → Storage → Storage
switch_on dma hw s0 =
    let s1 = write_reg 0x24 (bit_or (15 * 2 ^ 16) 15) (allocate_queues hw s0) in
    let s2 = write_reg 0x30 s1.drive.acq_ptr (write_reg 0x28 s1.drive.asq_ptr s1) in
    let cc_new = bit_or (bit_or 1 (6 * 2 ^ 16)) (4 * 2 ^ 20) in
    if_ready dma (wait_ready hw 1 10000001 (write_reg 0x14 cc_new s2))

abbrev pub if_off : (List (ℕ × ℕ) → ℕ → Ram → Ram) → Hardware → Bool × Storage → Storage
if_off dma hw (false, s) = s
if_off dma hw (true, s) = switch_on dma hw s

-- The controller is told to stop.
abbrev pub switch_off : Hardware → Storage → Storage
switch_off hw s =
    let cc = bit_and (read_reg hw 0x14 s) (2 ^ 32 - 1 - 1) in write_reg 0x14 cc (after_read s)

-- Each wait gives up once its count is above 10_000_000.
unfoldable pub init : (List (ℕ × ℕ) → ℕ → Ram → Ram) → Hardware → Storage → Storage
init dma hw s0 =
    let s1 = after_read s0 in
    if read_reg hw 0x1C s0 == 0xFFFFFFFF
    then s1
    else if_off dma hw (wait_ready hw 0 10000001 (switch_off hw s1))

-- The bytes from 32 to 126, in order.
unfoldable pub printable : List ℕ → List ℕ
printable [] = []
printable (b ∷ bs) = if leb 32 b && leb b 126 then b ∷ printable bs else printable bs

-- The lines about the model and the serial number.
unfoldable pub show_identity : List ℕ → List ℕ → Machine → Machine
show_identity model serial m =
    if is_utf8 model && is_utf8 serial
    then print (codes ")\n") 0x3B82F6 (
        print serial 0x10B981 (
          print (codes " (SN: ") 0x3B82F6
            (print model 0x10B981 (print (codes "\n> SILICON IDENTIFIED -> ") 0x3B82F6 m))))
    else m

unfoldable pub identify_controller : (List (ℕ × ℕ) → ℕ → Ram → Ram) → Hardware → Storage → Storage
identify_controller dma hw s0 =
    let data_ptr = hw.place s0.machine.blocks in
    let s1 = record s0 { machine = leak hw zero_page s0.machine } in
    let s2 = admin dma 2 (command (bit_or 0x06 (0xAA * 2 ^ 16)) data_ptr 1 0) s1 in
    let page = load s2.machine.ram data_ptr 4096 in
    let model = printable (take 40 (drop 24 page)) in
    let serial = printable (take 20 (drop 4 page)) in
    if bit_and (s2.machine.ram (admin_status s2 2)) 0x01 == 0
    then s2
    else write_reg 0x1004 3 (record s2 { machine = show_identity model serial s2.machine })

-- The printable bytes are always a text.
printable_utf8 : (bs : List ℕ) → is_utf8 (printable bs) ≡ true
unfolding printable is_utf8_from
printable_utf8 [] = refl
printable_utf8 (b ∷ bs) =
    if_intro (λ x. is_utf8 x ≡ true) (leb 32 b && leb b 126)
      (λ h. if_true (ltb b 0x80) _ _ (ground arith) ∙ printable_utf8 bs) λ _. printable_utf8 bs

-- Whatever the controller wrote on its page, the identity is printed.
pub show_identity-printable :
    (m : Machine) (model serial : List ℕ)
    → show_identity (printable model) (printable serial) m
      ≡ print (codes ")\n") 0x3B82F6 (
          print (printable serial) 0x10B981 (
            print (codes " (SN: ") 0x3B82F6 (
              print
                (printable model)
                0x10B981
                (print (codes "\n> SILICON IDENTIFIED -> ") 0x3B82F6 m))))
unfolding show_identity
show_identity-printable m model serial =
    if_true (is_utf8 (printable model) && is_utf8 (printable serial)) _ _
      (ap (λ b. b && is_utf8 (printable serial)) (printable_utf8 model) ∙ printable_utf8 serial)
