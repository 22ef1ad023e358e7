-- ===== src/Hda/Tests.antt =====
-- A card whose write pointer counts with the reads, and one that never wakes.
use qore_os.Base.{◌+◌, ◌%◌, ◌≡◌, refl, [], ◌∷◌, ◌++◌, arith, take}
use qore_os.Ram.{load, store, le_bytes}
use qore_os.Machine.{Hardware}
use qore_os.Hda.{Audio, read_reg, sample, buffer_list, send_corb_cmd, send_corb_cmds, init}
use qore_os.Hda.Commands.{AllSent, send_corb_cmds-AllSent}
use qore_os.Hda.Waits.{InitDone, init-InitDone}

abbrev hw : Hardware
hw = record { device = λ n a. n % 256; place = λ n. 0x100000 + n }

abbrev audio : Audio
audio = record {
  hda = record { bar0 = 0xFEBF0000; corb_ptr = 0x200000; rirb_ptr = 0x201000 };
  machine = record { ram = λ a. 0; reads = 254; writes = []; blocks = 0; console = [] };
}

-- The third command stands in the first slot.
third :
    load (send_corb_cmds hw (1 ∷ 2 ∷ 0x12345678 ∷ []) audio).machine.ram 0x200004 4
    ≡ le_bytes 4 0x12345678
unfolding send_corb_cmds send_corb_cmd read_reg load store le_bytes
third = refl

-- The wave goes down after 54 samples and up again after 109.
half_period :
    sample 53 ∷ sample 54 ∷ sample 108 ∷ sample 109 ∷ [] ≡ 8000 ∷ 57536 ∷ 57536 ∷ 8000 ∷ []
unfolding sample
half_period = refl

descriptor : take 16 (buffer_list 0x1_0002_0000) ≡ le_bytes 8 0x1_0002_0000 ++ le_bytes 8 65536
unfolding buffer_list le_bytes
descriptor = refl

send_corb_cmds-AllSent_example :
    AllSent audio 254 (1 ∷ 2 ∷ 3 ∷ []) (send_corb_cmds hw (1 ∷ 2 ∷ 3 ∷ []) audio)
send_corb_cmds-AllSent_example =
    send_corb_cmds-AllSent hw (1 ∷ 2 ∷ 3 ∷ []) 254 audio (omega arith) (omega arith)
      (λ i l. omega arith)

init-InitDone_example : InitDone hw audio (init hw audio)
init-InitDone_example = init-InitDone hw audio
