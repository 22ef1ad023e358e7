-- ===== src/Hda/Commands.antt =====
-- The ring of commands, where the card's write pointer reads as it was last written.
use qore_os.Base.{
  ℕ, suc, ◌+◌, ◌-◌, ◌*◌, ◌%◌, ◌^◌, ◌≤◌, ◌<◌, ◌≡◌, refl, ap, sym, ◌∙◌, List, [], ◌∷◌, arith, length,
}
use qore_os.Ram.{Ram, load, store, le_bytes, length-le_bytes, load-store-Apart, load-store_self}
use qore_os.Machine.{Hardware}
use qore_os.Hda.{Audio, read_reg, send_corb_cmd, send_corb_cmds}

-- The next `n` reads of the write pointer give the pointer `wp`, and one more each time.
abbrev pub ReadsBack : Hardware → Audio → ℕ → ℕ → Type 0
ReadsBack hw s wp n =
    (i : ℕ) → i < n → hw.device (s.machine.reads + i) (s.hda.bar0 + 0x48) % 2 ^ 16 ≡ (wp + i) % 256

-- The commands stand in the slots after `wp`, in order.
abbrev pub Queued : Ram → ℕ → ℕ → List ℕ → Type 0
Queued ram corb wp [] = Unit {0}
Queued ram corb wp (cmd ∷ cmds) =
    (load ram (corb + (wp + 1) % 256 * 4) 4 ≡ le_bytes 4 cmd)
    × Queued ram corb ((wp + 1) % 256) cmds

pub record CommandSent (s : Audio) (wp cmd : ℕ) (s' : Audio) : Type 0 where
  pub hda : s'.hda ≡ s.hda
  pub reads : s'.machine.reads ≡ s.machine.reads + 1
  pub ram :
      s'.machine.ram ≡ store s.machine.ram (s.hda.corb_ptr + (wp + 1) % 256 * 4) (le_bytes 4 cmd)
  pub writes : s'.machine.writes ≡ (s.hda.bar0 + 0x48, (wp + 1) % 256) ∷ s.machine.writes

send_corb_cmd-CommandSent :
    (hw : Hardware) (cmd wp : ℕ) (s : Audio)
    → wp < 256
    → hw.device s.machine.reads (s.hda.bar0 + 0x48) % 2 ^ 16 ≡ wp
    → CommandSent s wp cmd (send_corb_cmd hw cmd s)
unfolding send_corb_cmd read_reg
send_corb_cmd-CommandSent hw cmd wp s l h =
    let e : (hw.device s.machine.reads (s.hda.bar0 + 0x48) % 2 ^ 16 + 1) % 2 ^ 16 % 256
        ≡ (wp + 1) % 256 =
      omega (arith, h) in
    record {
      hda = refl;
      reads = refl;
      ram = ap (λ w. store s.machine.ram (s.hda.corb_ptr + w * 4) (le_bytes 4 cmd)) e;
      writes = ap (λ w. (s.hda.bar0 + 0x48, w) ∷ s.machine.writes) e;
    }

-- The writes of the pointer, the latest first.
abbrev pub doorbells : ℕ → ℕ → List ℕ → List (ℕ × ℕ) → List (ℕ × ℕ)
doorbells bar0 wp [] writes = writes
doorbells bar0 wp (cmd ∷ cmds) writes =
    doorbells bar0 ((wp + 1) % 256) cmds ((bar0 + 0x48, (wp + 1) % 256) ∷ writes)

-- After some commands the ring holds them, the pointer was written once for each, and the slots
-- further on are as before.
pub record AllSent (s : Audio) (wp : ℕ) (cmds : List ℕ) (s' : Audio) : Type 0 where
  pub hda : s'.hda ≡ s.hda
  pub queued : Queued s'.machine.ram s.hda.corb_ptr wp cmds
  pub pointer : s'.machine.writes ≡ doorbells s.hda.bar0 wp cmds s.machine.writes
  pub kept :
      (d : ℕ)
      → length cmds < d
      → d ≤ 256
      → load s'.machine.ram (s.hda.corb_ptr + (wp + d) % 256 * 4) 4
        ≡ load s.machine.ram (s.hda.corb_ptr + (wp + d) % 256 * 4) 4

-- Commands that do not fill the ring past its 256 slots stand in it in order, from the slot after the
-- write pointer on and around its end, and the pointer is written once for each, where the pointer
-- reads as it was last written.
pub send_corb_cmds-AllSent :
    (hw : Hardware) (cmds : List ℕ) (wp : ℕ) (s : Audio)
    → wp < 256
    → length cmds ≤ 256
    → ReadsBack hw s wp (length cmds)
    → AllSent s wp cmds (send_corb_cmds hw cmds s)
unfolding send_corb_cmds send_corb_cmd
send_corb_cmds-AllSent hw [] wp s l n h = record {
  hda = refl;
  queued = tt;
  pointer = refl;
  kept = λ d a b. refl;
}
send_corb_cmds-AllSent hw (cmd ∷ cmds) wp s l n h =
    let s1 = send_corb_cmd hw cmd s in
    let corb = s.hda.corb_ptr in
    let slot = corb + (wp + 1) % 256 * 4 in
    let first : hw.device s.machine.reads (s.hda.bar0 + 0x48) % 2 ^ 16 ≡ wp =
      ap (λ r. hw.device r (s.hda.bar0 + 0x48) % 2 ^ 16) (omega arith)
      ∙ h 0 (omega arith)
      ∙ omega arith in
    let one = send_corb_cmd-CommandSent hw cmd wp s l first in
    let back : ReadsBack hw s1 ((wp + 1) % 256) (length cmds) = λ i p.
      ap (λ r. hw.device r (s.hda.bar0 + 0x48) % 2 ^ 16) (omega arith)
      ∙ h (suc i) (omega arith)
      ∙ omega arith in
    let rest =
      send_corb_cmds-AllSent hw cmds ((wp + 1) % 256) s1 (omega arith) (omega arith) back in
    let around : ((wp + 1) % 256 + 256) % 256 ≡ (wp + 1) % 256 = omega arith in
    let here : load (send_corb_cmds hw cmds s1).machine.ram slot 4 ≡ load s1.machine.ram slot 4 =
      rw⁻¹ around (rest.kept 256 (omega arith) (omega arith)) in
    record {
      hda = rest.hda;
      queued = (
        here
            ∙ ap (λ r. load r slot 4) one.ram
            ∙ (ap (load (store s.machine.ram slot (le_bytes 4 cmd)) slot)
                  (sym (length-le_bytes 4 cmd))
                ∙ load-store_self s.machine.ram slot (le_bytes 4 cmd)),
        rest.queued,
      );
      pointer = rest.pointer ∙ ap (doorbells s.hda.bar0 ((wp + 1) % 256) cmds) one.writes;
      kept = λ d a b.
          let e : ((wp + 1) % 256 + (d - 1)) % 256 ≡ (wp + d) % 256 = omega arith in
          rw (← e) (rest.kept (d - 1) (omega arith) (omega arith))
          ∙ ap (λ r. load r (corb + (wp + d) % 256 * 4) 4) one.ram
          ∙ load-store-Apart s.machine.ram slot (le_bytes 4 cmd) (corb + (wp + d) % 256 * 4) 4
              (omega (arith, length-le_bytes 4 cmd));
    }
