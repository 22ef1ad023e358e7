-- ===== src/Syscall.antt =====
-- src/syscall.rs: the dispatcher of the system calls, over the drivers that it calls, and the task of
-- src/main.rs that runs in ring 3. The pointers of a task are addresses in the one memory. The lines of
-- `terminal_print` are kept as in Machine; the further copies of the terminal to the screen are left
-- out, since each `terminal_print` ends with one.
pub mod Calls
pub mod Task
pub mod Entry
mod Tests
use qore_os.Base.{
  ℕ, ◌+◌, ◌-◌, ◌*◌, ◌/◌, ◌%◌, ◌^◌, List, [], ◌∷◌, ◌++◌, Bool, Option, none, some, bit_and, bit_or,
  length, ◌==◌, if◌then◌else◌,
}
use qore_os.Ram.{Ram, load}
use qore_os.Text.{codes}
use qore_os.Fat32.Utf8.{is_utf8}
use qore_os.Machine.{Hardware, Machine, print, leak}
use qore_os.Compositor.{Canvas, new}
use qore_os.Compositor.Screen.{Screen, Writes, blit_canvas}
use qore_os.E1000.{E1000, Kernel, arp_request}
use qore_os.E1000.Arp.{ArpCache}
use qore_os.Nvme.{Nvme, Storage, read_sector}

-- The statics that the calls use, the canvases on the heap by their addresses, and the pixels written.
pub record System : Type 0 where
  pub net_card : Option E1000
  pub arp_table : ArpCache
  pub http_payload : Option (List ℕ)
  pub nvme_drive : Option Nvme
  pub canvases : List (ℕ × Canvas)
  pub screen : Screen
  pub pixels : Writes
  pub machine : Machine

-- What the calls need of the machine: the controller of the disk, the devices and the heap.
pub record Outside : Type 0 where
  pub dma : List (ℕ × ℕ) → ℕ → Ram → Ram
  pub hw : Hardware

abbrev pub say : List ℕ → ℕ → System → System
say text color s = record s { machine = print text color s.machine }

-- `MSR_STAR`, with the target of `syscall` and the base of the targets of `sysret`.
unfoldable pub star : ℕ → ℕ → ℕ
star kernel_code_sel user_code_sel =
    let star_high = (bit_and user_code_sel 0xFFFC + 2 ^ 16 - 16) % 2 ^ 16 in
    bit_or (kernel_code_sel * 2 ^ 32) (star_high * 2 ^ 48)

abbrev pub print_text : List ℕ → ℕ → System → System
print_text text color s =
    if is_utf8 text
    then say text (color % 2 ^ 32) s
    else say (codes "\n> SYS: SYSCALL STRING UTF8 ERROR!\n") 0xEF4444 s

-- Call 1: the text at `str_ptr`, of `str_len` bytes.
unfoldable pub sys_print : ℕ → ℕ → ℕ → System → System
sys_print str_ptr str_len color s = print_text (load s.machine.ram str_ptr str_len) color s

-- Call 2: a black square on the heap.
unfoldable pub sys_canvas : Outside → ℕ → ℕ → ℕ → System → ℕ × System
sys_canvas o x y size s =
    let machine = s.machine in
    let canvas = o.hw.place machine.blocks in
    (
      canvas,
      record s {
        canvases = (canvas, new x y size size 0x000000) ∷ s.canvases;
        machine = record machine { blocks = machine.blocks + 1 };
      },
    )

unfoldable pub canvas_at : List (ℕ × Canvas) → ℕ → Option Canvas
canvas_at [] p = none
canvas_at ((q, canvas) ∷ rest) p = if p == q then some canvas else canvas_at rest p

-- Call 3: the canvas at `arg1`. A pointer to something else is read as a canvas; what comes of that is
-- not modelled, and the result is `none`.
unfoldable pub sys_blit : ℕ → System → Option System
sys_blit canvas_ptr s = if canvas_ptr == 0 then some s else elim (canvas_at s.canvases canvas_ptr) [
  | none ↦ none
  | some canvas ↦ some (record s { pixels = blit_canvas s.screen canvas s.pixels })
]

abbrev pub read_done : Outside → ℕ → System → List ℕ × Storage → ℕ × System
read_done o lba s (sector, storage) =
    let buffer = o.hw.place storage.machine.blocks in
    (
      buffer,
      record s {
        nvme_drive = some storage.drive;
        machine = leak o.hw sector (
            print (codes "> SYS: NVME DMA COMPLETE. PASSING POINTER TO RING-3.\n") 0x10B981
              storage.machine);
      },
    )

abbrev pub read_with : Outside → ℕ → System → Option Nvme → ℕ × System
read_with o lba s none = (0, say (codes "> SYS: NVME DRIVE NOT FOUND!\n") 0xEF4444 s)
read_with o lba s (some drive) =
    read_done o lba s (read_sector o.dma o.hw (record { drive = drive; machine = s.machine }) lba)

-- Call 4: a sector of the disk, in a buffer on the heap.
unfoldable pub sys_read : Outside → ℕ → System → ℕ × System
sys_read o lba s =
    read_with o lba (say (codes "\n> SYS: RING-3 NVME READ REQUEST ACCEPTED.\n") 0xF59E0B s)
      s.nvme_drive

-- The card, for its driver.
abbrev pub kernel_of : System → E1000 → Kernel
kernel_of s nic = record {
  nic = nic;
  arp = s.arp_table;
  http_payload = s.http_payload;
  machine = s.machine;
}

abbrev pub back : System → Kernel → System
back s k = record s { net_card = some k.nic; arp_table = k.arp; machine = k.machine }

abbrev pub request_with : Outside → System → Option E1000 → System
request_with o s none = say (codes "> SYS: E1000 NETWORK CARD NOT FOUND!\n") 0xEF4444 s
request_with o s (some nic) =
    say (codes "> SYS: E1000 HARDWARE TRANSMIT (TX) COMPLETE!\n") 0x10B981
      (back s (arp_request o.hw (record { a = 10; b = 0; c = 2; d = 2 }) (kernel_of s nic)))

unfoldable pub request_router : Outside → System → System
request_router o s = request_with o s s.net_card

abbrev pub request_line : List ℕ → List ℕ
request_line text = codes "\n> SYS: RING-3 NETWORK REQUEST. PAYLOAD: '" ++ text ++ codes "'\n"

abbrev pub send_text : Outside → List ℕ → System → System
send_text o text s =
    if is_utf8 text then request_router o (say (request_line text) 0xF59E0B s) else s

-- Call 5: the text is printed, and a request for the router's address goes out.
unfoldable pub sys_send : Outside → ℕ → ℕ → System → System
sys_send o str_ptr str_len s = send_text o (load s.machine.ram str_ptr str_len) s

abbrev pub returns_zero : Option System → Option (ℕ × System)
returns_zero none = none
returns_zero (some s) = some (0, s)

-- `syscall_handler`, with the result and the state after it.
unfoldable pub syscall_handler : Outside → ℕ → ℕ → ℕ → ℕ → System → Option (ℕ × System)
syscall_handler o syscall_num arg1 arg2 arg3 s =
    if syscall_num == 1
    then some (0, sys_print arg1 arg2 arg3 s)
    else if syscall_num == 2
    then some (sys_canvas o arg1 arg2 arg3 s)
    else if syscall_num == 3
    then returns_zero (sys_blit arg1 s)
    else if syscall_num == 4
    then some (sys_read o arg1 s)
    else if syscall_num == 5
    then some (0, sys_send o arg1 arg2 s)
    else some (0, say (codes "\n> SYS: UNKNOWN SYSCALL TRIGGERED!\n") 0xEF4444 s)
