-- ===== src/Syscall/Task.antt =====
-- `ring3_user_task` of src/main.rs, which prints, reads the first sector, sends the signature that it
-- finds there, and prints again.
use qore_os.Base.{
  ℕ, ◌+◌, ◌%◌, ◌<◌, ◌^◌, ◌≡◌, refl, ap, ◌∙◌, List, ◌∷◌, ◌++◌, true, Option, none, some, arith,
  length, take, drop, if◌then◌else◌, if_true, if_false, if_intro, Bool-cases, inl, inr,
}
use qore_os.Ram.{load, load-store_self}
use qore_os.Text.{codes}
use qore_os.Fat32.Utf8.{is_utf8, is_utf8_from}
use qore_os.Machine.{leak}
use qore_os.E1000.{E1000, transmit, arp_request}
use qore_os.Nvme.{Nvme}
use qore_os.Nvme.Boot.{Ready, Ready-keep}
use qore_os.Nvme.Controller.{load-slice}
use qore_os.Syscall.{
  System, Outside, say, print_text, sys_print, send_text, sys_send, request_line, request_router,
  request_with, syscall_handler,
}
use qore_os.Syscall.Calls.{storage_of, syscall_handler-IsRead}

-- Where the program has its two texts.
pub record Texts : Type 0 where
  pub msg : ℕ
  pub success_msg : ℕ

abbrev pub msg : List ℕ
msg = codes "\n> [RING-3]: USER APP BOOTED. INITIATING NVME HARDWARE READ...\n"

abbrev pub success_msg : List ℕ
success_msg = codes "> [RING-3]: MISSION COMPLETE. ENTERING IDLE LOOP.\n"

unfoldable pub payload : List ℕ → List ℕ
payload signature =
    codes "RING-3 FOUND DISK SIGNATURE: "
    ++ (if is_utf8 signature then signature else codes "CORRUPT")

-- The string that the task builds, as one block of the heap.
abbrev pub build : Outside → List ℕ → System → ℕ × System
build o text s = (o.hw.place s.machine.blocks, record s { machine = leak o.hw text s.machine })

-- One call after another.
infixl 5 ◌>>=◌
abbrev pub ◌>>=◌ {ℓ κ} : {A : Type ℓ} {B : Type κ} → Option A → (A → Option B) → Option B
none >>= f = none
some a >>= f = f a

-- The calls after the sector has been read to `sector_ptr`.
unfoldable pub send_signature : Outside → Texts → ℕ → System → Option System
send_signature o t sector_ptr s = do
  let text = payload (load s.machine.ram (sector_ptr + 3) 8)
  let (ptr, s1) = build o text s
  (zero2, s2) ← syscall_handler o 5 ptr (length text) 0 s1
  (zero3, s3) ← syscall_handler o 1 t.success_msg (length success_msg) 0x10B981 s2
  some s3

unfoldable pub ring3_user_task : Outside → Texts → System → Option System
ring3_user_task o t s = do
  (zero1, s1) ← syscall_handler o 1 t.msg (length msg) 0xF59E0B s
  (sector_ptr, s2) ← syscall_handler o 4 0 0 0 s1
  send_signature o t sector_ptr s2

call_print :
    (o : Outside) (p color : ℕ) (text : List ℕ) (s : System)
    → load s.machine.ram p (length text) ≡ text
    → is_utf8 text ≡ true
    → syscall_handler o 1 p (length text) color s ≡ some (0, say text (color % 2 ^ 32) s)
unfolding syscall_handler sys_print
call_print o p color text s h u =
    ap (λ x. some (0, print_text x color s)) h
    ∙ ap (λ r. some (0, r)) (if_true (is_utf8 text) _ _ u)

-- A print adds one line, whatever it finds.
call_print_console :
    (o : Outside) (p n color : ℕ) (s : System)
    → (s' : System) × (line : List ℕ × ℕ) × (syscall_handler o 1 p n color s ≡ some (0, s'))
      × (s'.machine.console ≡ line ∷ s.machine.console)
unfolding syscall_handler sys_print
call_print_console o p n color s =
    let text = load s.machine.ram p n in
    let error = codes "\n> SYS: SYSCALL STRING UTF8 ERROR!\n" in
    elim (Bool-cases (is_utf8 text)) [
      | inl good ↦ (
        say text (color % 2 ^ 32) s,
        (text, color % 2 ^ 32),
        ap (λ r. some (0, r)) (if_true (is_utf8 text) _ _ good),
        refl,
      )
      | inr bad ↦ (
        say error 0xEF4444 s,
        (error, 0xEF4444),
        ap (λ r. some (0, r)) (if_false (is_utf8 text) _ _ bad),
        refl,
      )
    ]

abbrev pub arp_line : List ℕ × ℕ
arp_line = (codes "\nNET: ARP Request Broadcasted to Network.\n", 0x3B82F6)

abbrev pub transmit_line : List ℕ × ℕ
transmit_line = (codes "> SYS: E1000 HARDWARE TRANSMIT (TX) COMPLETE!\n", 0x10B981)

request_router_console :
    (o : Outside) (s : System) (nic : E1000)
    → s.net_card ≡ some nic
    → (request_router o s).machine.console ≡ transmit_line ∷ arp_line ∷ s.machine.console
unfolding request_router arp_request transmit
request_router_console o s nic h = ap (λ n. (request_with o s n).machine.console) h

call_send :
    (o : Outside) (p : ℕ) (text : List ℕ) (s : System)
    → load s.machine.ram p (length text) ≡ text
    → is_utf8 text ≡ true
    → syscall_handler o 5 p (length text) 0 s
      ≡ some (0, request_router o (say (request_line text) 0xF59E0B s))
unfolding syscall_handler sys_send
call_send o p text s h u =
    ap (λ x. some (0, send_text o x s)) h ∙ ap (λ r. some (0, r)) (if_true (is_utf8 text) _ _ u)

payload_text : (signature : List ℕ) → is_utf8 (payload signature) ≡ true
unfolding payload is_utf8_from
payload_text signature =
    if_intro (λ x. is_utf8 (codes "RING-3 FOUND DISK SIGNATURE: " ++ x) ≡ true) (is_utf8 signature)
      (λ u. u) λ _. refl

-- The line of the request, with the signature that was found.
abbrev pub found_line : List ℕ → List ℕ
found_line signature =
    codes "\n> SYS: RING-3 NETWORK REQUEST. PAYLOAD: 'RING-3 FOUND DISK SIGNATURE: "
    ++ ((if is_utf8 signature then signature else codes "CORRUPT") ++ codes "'\n")

request_line-payload :
    (signature : List ℕ) → request_line (payload signature) ≡ found_line signature
unfolding payload
request_line-payload signature = refl

-- Seven lines, of which the last is what the second print finds.
pub record Reports (signature : List ℕ) (s s' : System) : Type 0 where
  pub line : List ℕ × ℕ
  pub console :
      s'.machine.console
      ≡ line
        ∷ transmit_line
        ∷ arp_line
        ∷ (found_line signature, 0xF59E0B)
        ∷ (codes "> SYS: NVME DMA COMPLETE. PASSING POINTER TO RING-3.\n", 0x10B981)
        ∷ (codes "\n> SYS: RING-3 NVME READ REQUEST ACCEPTED.\n", 0xF59E0B)
        ∷ (msg, 0xF59E0B)
        ∷ s.machine.console

send_signature_lem :
    (o : Outside) (t : Texts) (sector_ptr : ℕ) (signature : List ℕ) (s : System) (nic : E1000)
    → s.net_card ≡ some nic
    → load s.machine.ram (sector_ptr + 3) 8 ≡ signature
    → (s' : System) × (line : List ℕ × ℕ) × (send_signature o t sector_ptr s ≡ some s')
      × (s'.machine.console
          ≡ line ∷ transmit_line ∷ arp_line ∷ (found_line signature, 0xF59E0B) ∷ s.machine.console)
unfolding send_signature
send_signature_lem o t sector_ptr signature s nic card h =
    let text = payload signature in
    let (ptr, s1) = build o text s in
    let s2 = request_router o (say (request_line text) 0xF59E0B s1) in
    let sent =
      call_send o ptr text s1 (load-store_self s.machine.ram ptr text) (payload_text signature) in
    let (s3, line, printed, added) =
      call_print_console o t.success_msg (length success_msg) 0x10B981 s2 in
    let lines =
      request_router_console o (say (request_line text) 0xF59E0B s1) nic card
      ∙ ap (λ x. transmit_line ∷ arp_line ∷ (x, 0xF59E0B) ∷ s.machine.console)
          (request_line-payload signature) in
    (s3, line, rw (h, sent, printed) refl, added ∙ ap (λ c. line ∷ c) lines)

msg_text : is_utf8 msg ≡ true
unfolding is_utf8_from
msg_text = refl

-- Where the system has a card and a drive with a sector or more, whose queue is ready for one of its first
-- sixteen commands, the pass on which the phase bit of a completion is 1, and the program's first text is in
-- memory, the task runs through all its calls. The console then has the eight bytes at offset 3 of the
-- disk's first sector behind "RING-3 FOUND DISK SIGNATURE: ", or CORRUPT if they are no text, between the
-- lines of the calls.
pub ring3_user_task-Reports :
    (o : Outside) (t : Texts) (start : List (ℕ × ℕ)) (sectors : ℕ) (disk : ℕ → List ℕ) (s : System)
    (drive : Nvme) (nic : E1000)
    → s.nvme_drive ≡ some drive
    → s.net_card ≡ some nic
    → Ready (o.dma) (o.hw) start sectors disk 1 (storage_of s drive)
    → 0 < sectors
    → load s.machine.ram t.msg (length msg) ≡ msg
    → (s' : System) × (ring3_user_task o t s ≡ some s') × Reports (take 8 (drop 3 (disk 0))) s s'
unfolding ring3_user_task
ring3_user_task-Reports o t start sectors disk s drive nic found card ready some_sector text =
    let s1 = say msg 0xF59E0B s in
    let printed = call_print o t.msg 0xF59E0B msg s text msg_text in
    let ready1 : Ready (o.dma) (o.hw) start sectors disk 1 (storage_of s1 drive) =
      Ready-keep ready refl refl (omega arith) in
    let (buffer, s2, read, done) =
      syscall_handler-IsRead o start sectors disk 0 0 0 0 s1 drive found ready1 some_sector in
    let signature =
      load-slice s2.machine.ram buffer 3 8 501 ∙ ap (λ bs. take 8 (drop 3 bs)) done.bytes in
    let (s3, line, sent, lines) =
      send_signature_lem o t buffer (take 8 (drop 3 (disk 0))) s2 nic (done.card ∙ card)
        signature in
    (
      s3,
      rw (printed, read, sent) refl,
      record {
        line = line;
        console =
            lines
            ∙ ap
                (λ c.
                  line
                  ∷ transmit_line
                  ∷ arp_line
                  ∷ (found_line (take 8 (drop 3 (disk 0))), 0xF59E0B)
                  ∷ c)
                done.console;
      },
    )
