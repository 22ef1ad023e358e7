-- ===== src/Hda.antt =====
-- src/hda.rs: the driver of the audio card. A register that is read gives `device` of the machine's
-- count of reads, cut to the register's width. The pauses between two registers have no state.
pub mod Waits
pub mod Commands
mod Tests
use qore_os.Base.{
  ℕ, zero, suc, ◌+◌, ◌-◌, ◌*◌, ◌/◌, ◌%◌, ◌^◌, List, [], ◌∷◌, ◌++◌, Bool, true, false, not, bit_and,
  bit_or, replicate, ltb, ◌==◌, if◌then◌else◌,
}
use qore_os.Ram.{le_bytes}
use qore_os.Text.{codes}
use qore_os.Machine.{Hardware, Machine, write_mmio, write_ram, print, leak}

pub record IntelHda : Type 0 where
  pub bar0 : ℕ
  pub corb_ptr : ℕ
  pub rirb_ptr : ℕ

-- `IntelHda::new`
unfoldable pub new : ℕ → IntelHda
new bar0 = record { bar0 = bar0; corb_ptr = 0; rirb_ptr = 0 }

pub record Audio : Type 0 where
  pub hda : IntelHda
  pub machine : Machine

-- The value of the next read; `read_reg`, `read_reg16` and `read_reg8` by the width in bits.
unfoldable pub read_reg : Hardware → ℕ → ℕ → Audio → ℕ
read_reg hw width offset s = hw.device s.machine.reads (s.hda.bar0 + offset) % 2 ^ width

abbrev pub after_read : Audio → Audio
after_read s =
    let machine = s.machine in record s { machine = record machine { reads = machine.reads + 1 } }

-- `write_reg`, `write_reg16` and `write_reg8`
abbrev pub write_reg : ℕ → ℕ → Audio → Audio
write_reg offset val s = record s { machine = write_mmio (s.hda.bar0 + offset) val s.machine }

abbrev pub say : List ℕ → ℕ → Audio → Audio
say text color s = record s { machine = print text color s.machine }

-- Reads until bit 0 has the value `want`, with the reads left; false where it did not come.
unfoldable pub wait_bit : Hardware → Bool → ℕ → ℕ → ℕ → Audio → Bool × Audio
wait_bit hw want width offset zero s = (false, s)
wait_bit hw want width offset (suc left) s =
    let is_set = not (bit_and (read_reg hw width offset s) 1 == 0) in
    let comes = if want then is_set else not is_set in
    elim comes [
      | true ↦ (true, after_read s)
      | false ↦ wait_bit hw want width offset left (after_read s)
    ]

unfoldable pub zero_page : List ℕ
zero_page = replicate 4096 0

-- The writes that stop the rings, give the card their addresses, and start them.
unfoldable pub start_rings : Audio → Audio
start_rings s0 =
    let corb_ptr = s0.hda.corb_ptr in
    let rirb_ptr = s0.hda.rirb_ptr in
    let s1 = write_reg 0x5C 0 (write_reg 0x4C 0 s0) in
    let s2 =
      write_reg 0x44 (corb_ptr / 2 ^ 32 % 2 ^ 32)
        (write_reg 0x40 (bit_and corb_ptr 0xFFFFFFFF) s1) in
    let s3 =
      write_reg 0x54 (rirb_ptr / 2 ^ 32 % 2 ^ 32)
        (write_reg 0x50 (bit_and rirb_ptr 0xFFFFFFFF) s2) in
    let s4 = write_reg 0x5E 0x02 (write_reg 0x4E 0x02 s3) in
    let s5 = write_reg 0x48 0 (write_reg 0x4A 0 (write_reg 0x4A (2 ^ 15) s4)) in
    write_reg 0x5C 2 (write_reg 0x4C 2 (write_reg 0x58 (2 ^ 15) s5))

-- The rest of `init` once the card is awake.
unfoldable pub map_rings : Hardware → Audio → Audio
map_rings hw s0 =
    let s1 = say (codes "> HDA: CONTROLLER AWAKE. ALLOCATING DMA RINGS...\n") 0x3B82F6 s0 in
    let hda = s1.hda in
    let machine = s1.machine in
    let s2 : Audio = record {
      hda = record hda {
        corb_ptr = hw.place machine.blocks;
        rirb_ptr = hw.place (machine.blocks + 1);
      };
      machine = leak hw zero_page (leak hw zero_page machine);
    } in
    let s3 =
      say (codes "> HDA: CORB & RIRB RINGS DMA MAPPED AND RUNNING.\n") 0x10B981 (start_rings s2) in
    let statests = read_reg hw 16 0x0E s3 in
    if not (statests == 0)
    then say (codes "> HDA: EXTERNAL AUDIO CODEC DETECTED ON LINK!\n") 0x10B981 (after_read s3)
    else after_read s3

abbrev pub after_reset : Hardware → Bool × Audio → Audio
after_reset hw (false, s) = say (codes "> HDA ERROR: CONTROLLER RESET TIMEOUT!\n") 0xEF4444 s
after_reset hw (true, s) = map_rings hw s

-- The wait gives up once its count is above 10_000_000.
unfoldable pub init : Hardware → Audio → Audio
init hw s =
    let s1 = say (codes "\n> HDA: AUDIO SILICON DETECTED AND MAPPED.\n") 0x3B82F6 (after_read s) in
    after_reset hw (wait_bit hw true 32 0x08 10000001 (write_reg 0x08 1 s1))

unfoldable pub send_corb_cmd : Hardware → ℕ → Audio → Audio
send_corb_cmd hw cmd s0 =
    let wp = (read_reg hw 16 0x48 s0 + 1) % 2 ^ 16 % 256 in
    let s = after_read s0 in
    let written = record s {
      machine = write_ram (s.hda.corb_ptr + wp * 4) (le_bytes 4 cmd) s.machine;
    } in
    write_reg 0x48 wp written

unfoldable pub send_corb_cmds : Hardware → List ℕ → Audio → Audio
send_corb_cmds hw [] s = s
send_corb_cmds hw (cmd ∷ cmds) s = send_corb_cmds hw cmds (send_corb_cmd hw cmd s)

-- A sample of the square wave, an `i16`.
unfoldable pub sample : ℕ → ℕ
sample i = if ltb (i % 109) (109 / 2) then 8000 else 2 ^ 16 - 8000

-- The bytes of `n` samples from the `i`-th on.
unfoldable pub wave : ℕ → ℕ → List ℕ
wave zero i = []
wave (suc n) i = le_bytes 2 (sample i) ++ wave n (i + 1)

-- The one descriptor of the buffer at `audio_buf`, in a page of zeros.
unfoldable pub buffer_list : ℕ → List ℕ
buffer_list audio_buf =
    le_bytes 4 (bit_and audio_buf 0xFFFFFFFF)
    ++ le_bytes 4 (audio_buf / 2 ^ 32)
    ++ le_bytes 4 65536
    ++ le_bytes 4 0
    ++ replicate 4080 0

-- The commands to the converter and the pin.
unfoldable pub verbs : List ℕ
verbs =
    0x00270500 ∷ 0x00370500 ∷ 0x00270610 ∷ 0x00220011 ∷ 0x0023B07F ∷ 0x00370740 ∷ 0x0033B07F ∷ []

-- The stream is stopped and reset, with a bounded wait for each.
unfoldable pub reset_stream : Hardware → ℕ → Audio → Audio
reset_stream hw stream_offset s =
    let s1 = write_reg stream_offset 1 (write_reg stream_offset 0 s) in
    let s2 = (wait_bit hw true 8 stream_offset 10001 s1).1 in
    (wait_bit hw false 8 stream_offset 10001 (write_reg stream_offset 0 s2)).1

unfoldable pub configure_stream : ℕ → ℕ → Audio → Audio
configure_stream stream_offset bdl_ptr s0 =
    let s1 = write_reg (stream_offset + 0x18) (bit_and bdl_ptr 0xFFFFFFFF) s0 in
    let s2 = write_reg (stream_offset + 0x1C) (bdl_ptr / 2 ^ 32 % 2 ^ 32) s1 in
    let s3 = write_reg (stream_offset + 0x08) 65536 s2 in
    write_reg (stream_offset + 0x12) 0x0011 (write_reg (stream_offset + 0x0C) 0 s3)

unfoldable pub play_tone : Hardware → Audio → Audio
play_tone hw s0 =
    let m0 = s0.machine in
    let audio_buf = hw.place m0.blocks in
    let bdl_ptr = hw.place (m0.blocks + 1) in
    let s1 = record s0 { machine = leak hw (buffer_list audio_buf) (leak hw (wave 32768 0) m0) } in
    let iss = bit_and (read_reg hw 32 0x00 s1 / 2 ^ 8) 0x0F in
    let stream_offset = 0x80 + iss * 0x20 in
    let s2 =
      configure_stream stream_offset bdl_ptr (reset_stream hw stream_offset (after_read s1)) in
    let s3 = send_corb_cmds hw verbs s2 in
    let sdctl = bit_or (read_reg hw 8 stream_offset s3) (2 ^ 4) in
    let s4 =
      write_reg stream_offset (bit_or sdctl 2) (write_reg stream_offset sdctl (after_read s3)) in
    say (codes "> HDA: DMA OUTPUT FIRED. 440HZ TONE STREAMING!\n") 0xF59E0B s4
