-- ===== src/Mouse/Setup.antt =====
-- The setup of the mouse in src/mouse.rs over the ports of its controller. A port that is read gives
-- `device` of the count of reads; the waits have the source's 100000 rounds.
use qore_os.Base.{
  ℕ, zero, suc, ◌+◌, ◌-◌, ◌%◌, ◌^◌, ◌≡◌, refl, ap, ◌∙◌, List, ◌∷◌, Bool, true, false, bit_and,
  bit_or, ◌==◌,
}
use qore_os.Machine.{Hardware}

-- The count of reads, and the port writes, the latest first.
pub record Ports : Type 0 where
  pub reads : ℕ
  pub writes : List (ℕ × ℕ)

abbrev pub data_port : ℕ
data_port = 0x60

abbrev pub cmd_port : ℕ
cmd_port = 0x64

abbrev pub write_port : ℕ → ℕ → Ports → Ports
write_port port value s = record s { writes = (port, value) ∷ s.writes }

abbrev pub read_port : Hardware → ℕ → Ports → ℕ
read_port hw port s = hw.device s.reads port % 2 ^ 8

abbrev pub after_read : Ports → Ports
after_read s = record s { reads = s.reads + 1 }

-- Reads of the status until `mask` of it is `want`, with the rounds left.
unfoldable pub wait_status : Hardware → ℕ → ℕ → ℕ → Ports → Ports
wait_status hw mask want zero s = s
wait_status hw mask want (suc left) s = elim (bit_and (read_port hw cmd_port s) mask == want) [
  | true ↦ after_read s
  | false ↦ wait_status hw mask want left (after_read s)
]

unfoldable pub wait_write : Hardware → Ports → Ports
wait_write hw s = wait_status hw 2 0 100000 s

unfoldable pub wait_read : Hardware → Ports → Ports
wait_read hw s = wait_status hw 1 1 100000 s

unfoldable pub mouse_write : Hardware → ℕ → Ports → Ports
mouse_write hw value s =
    write_port data_port value (wait_write hw (write_port cmd_port 0xD4 (wait_write hw s)))

-- The byte that is read is dropped by both callers.
unfoldable pub mouse_read : Hardware → Ports → Ports
mouse_read hw s = after_read (wait_read hw s)

-- `status |= 1 << 1; status &= !(1 << 5);`
abbrev pub new_status : ℕ → ℕ
new_status status = bit_and (bit_or status 2) (2 ^ 8 - 1 - 2 ^ 5)

-- Up to the configuration byte, which is read next.
unfoldable pub ask_status : Hardware → Ports → Ports
ask_status hw s =
    let s1 = write_port cmd_port 0xA8 (wait_write hw s) in
    wait_read hw (write_port cmd_port 0x20 (wait_write hw s1))

-- Without the line that it prints at the end.
unfoldable pub init : Hardware → Ports → Ports
init hw s =
    let s1 = ask_status hw s in
    let status = read_port hw data_port s1 in
    let s2 = write_port cmd_port 0x60 (wait_write hw (after_read s1)) in
    let s3 = write_port data_port (new_status status) (wait_write hw s2) in
    let s4 = mouse_read hw (mouse_write hw 0xF6 s3) in mouse_read hw (mouse_write hw 0xF4 s4)

wait_status_writes :
    (hw : Hardware) (mask want left : ℕ) (s : Ports)
    → (wait_status hw mask want left s).writes ≡ s.writes
unfolding wait_status
wait_status_writes hw mask want zero s = refl
wait_status_writes hw mask want (suc left) s =
    choose (bit_and (read_port hw cmd_port s) mask == want)
      (wait_status_writes hw mask want left (after_read s))
  where
    choose :
        (b : Bool)
        → (wait_status hw mask want left (after_read s)).writes ≡ s.writes
        → (elim b as (λ _. Ports) [
          | true ↦ after_read s
          | false ↦ wait_status hw mask want left (after_read s)
        ]).writes
          ≡ s.writes
    choose true h = refl
    choose false h = h

mouse_write_writes :
    (hw : Hardware) (value : ℕ) (s : Ports)
    → (mouse_write hw value s).writes ≡ (data_port, value) ∷ (cmd_port, 0xD4) ∷ s.writes
unfolding mouse_write wait_write
mouse_write_writes hw value s =
    ap (λ w. (data_port, value) ∷ w)
      (wait_status_writes hw 2 0 100000 _
        ∙ ap (λ w. (cmd_port, 0xD4) ∷ w) (wait_status_writes hw 2 0 100000 s))

mouse_read_writes : (hw : Hardware) (s : Ports) → (mouse_read hw s).writes ≡ s.writes
unfolding mouse_read wait_read
mouse_read_writes hw s = wait_status_writes hw 1 1 100000 s

ask_status_writes :
    (hw : Hardware) (s : Ports)
    → (ask_status hw s).writes ≡ (cmd_port, 0x20) ∷ (cmd_port, 0xA8) ∷ s.writes
unfolding ask_status wait_read wait_write
ask_status_writes hw s =
    wait_status_writes hw 1 1 100000 _
    ∙ ap (λ w. (cmd_port, 0x20) ∷ w)
        (wait_status_writes hw 2 0 100000 _
          ∙ ap (λ w. (cmd_port, 0xA8) ∷ w) (wait_status_writes hw 2 0 100000 s))

-- However the controller answers, `init` sends the same eight bytes in the same order, but for the new
-- configuration byte, which is the one that was read with bit 1 set and bit 5 clear.
pub init_writes :
    (hw : Hardware) (s : Ports)
    → (init hw s).writes
      ≡ (data_port, 0xF4)
        ∷ (cmd_port, 0xD4)
        ∷ (data_port, 0xF6)
        ∷ (cmd_port, 0xD4)
        ∷ (data_port, new_status (read_port hw data_port (ask_status hw s)))
        ∷ (cmd_port, 0x60)
        ∷ (cmd_port, 0x20)
        ∷ (cmd_port, 0xA8)
        ∷ s.writes
unfolding init wait_write
init_writes hw s =
    let status = new_status (read_port hw data_port (ask_status hw s)) in
    mouse_read_writes hw _
    ∙ mouse_write_writes hw 0xF4 _
    ∙ ap (λ w. (data_port, 0xF4) ∷ (cmd_port, 0xD4) ∷ w)
        (mouse_read_writes hw _
          ∙ mouse_write_writes hw 0xF6 _
          ∙ ap (λ w. (data_port, 0xF6) ∷ (cmd_port, 0xD4) ∷ (data_port, status) ∷ w)
              (wait_status_writes hw 2 0 100000 _
                ∙ ap (λ w. (cmd_port, 0x60) ∷ w)
                    (wait_status_writes hw 2 0 100000 _ ∙ ask_status_writes hw s)))
