-- ===== src/Bootloader/Tests.antt =====
-- An image of eight bytes with two segments and a note.
use qore_os.Base.{
  ◌/◌, none, zero, ◌-◌, ltb, if◌then◌else◌, replicate, get_or, ◌++◌, some, ℕ, ◌≡◌, refl, List, [],
  ◌∷◌, true, false, arith,
}
use qore_os.Ram.{Ram, load, store, from_le, le_bytes}
use qore_os.FrameAllocator.{BitmapAllocator, init_entries, UefiMemoryDescriptor, frame_allocator}
use qore_os.Bootloader.{BootInfo, boot_info, find_acpi, ProgramHeader, load_kernel, Firmware, Elf}
use qore_os.Bootloader.Frames.{memory_map_of}
use qore_os.Bootloader.Load.{AllCopied, load_kernel-AllCopied}
use qore_os.Text.{codes}
use qore_os.Boot.Frames.{at_scan}
use qore_os.Compositor.Screen
use qore_os.Compositor.Visible.{AllVisible}
use qore_os.Mouse
use qore_os.Loop.Sample.{cpu, env}
use qore_os.Loop.{Session, begins, interrupted}
use qore_os.Loop.Run.{IsRunning}
use qore_os.Loop.Start.{screen_of, terminal_copy, first_session, start-Runs-IsRunning}
use qore_os.Interrupts.{mouse, handle}
use qore_os.Desktop
use qore_os.FrameAllocator
use qore_os.Ecam.{no_devices, scan_ecam}
use qore_os.Ecam.Outside.{ecam_base}
use qore_os.Acpi.{find_tables, io_apic, local_apic, walk_madt, note_ioapic}
use qore_os.Boot.Setup.{
  clear_framebuffer, Platform, scan_firmware, Given, KernelState, start, start_all, enters_loop,
  with_ram,
}

-- The byte at an offset of a table that starts at `at`.
abbrev from : ℕ → List ℕ → ℕ → ℕ
from at bytes a = get_or bytes (a - at) 0

abbrev image : ℕ → ℕ
image a = get_or (1 ∷ 2 ∷ 3 ∷ 4 ∷ 5 ∷ 6 ∷ 7 ∷ 8 ∷ []) a 0

abbrev headers : List ProgramHeader
headers =
    record { is_load = true; offset = 0; file_size = 3; virtual_addr = 0x200000 }
    ∷ record { is_load = false; offset = 3; file_size = 2; virtual_addr = 0x200001 }
    ∷ record { is_load = true; offset = 4; file_size = 4; virtual_addr = 0x201000 }
    ∷ []

second_segment : load (load_kernel image headers (λ a. 0)) 0x201000 4 ≡ 5 ∷ 6 ∷ 7 ∷ 8 ∷ []
unfolding load_kernel load store
second_segment = refl

first_entry :
    find_acpi
      (record { is_acpi2 = false; address = 1 } ∷ record { is_acpi2 = true; address = 2 } ∷ [])
    ≡ 2
unfolding find_acpi
first_entry = refl

load_kernel-AllCopied_example :
    AllCopied image headers (load_kernel image headers (λ a. 0))
    × (load_kernel image headers (λ a. 0) 0x200003 ≡ 0)
unfolding load
load_kernel-AllCopied_example =
    load_kernel-AllCopied image headers (λ a. 0) 0x200003 (omega arith) (omega arith)

-- A map of two entries of 48 bytes.
abbrev entry_bytes : ℕ → ℕ → ℕ → List ℕ
entry_bytes ty start pages =
    le_bytes 4 ty
    ++ (le_bytes 4 0
        ++ (le_bytes 8 start
            ++ (le_bytes 8 0 ++ (le_bytes 8 pages ++ (le_bytes 8 0xF ++ le_bytes 8 0)))))

abbrev firmware : Firmware
firmware = record {
  config_table = record { is_acpi2 = true; address = 0xE0000 } ∷ [];
  gop =
      some (record { base = 0x80000000; size = 0x300000; resolution = (1024, 768); stride = 1024 });
  map_size = 96;
  entry_size = 48;
  allocate_pool = λ n. some 0x5000;
  memory_map =
      λ p n ram. some (store ram p (entry_bytes 4 0 0x100 ++ entry_bytes 7 0x100000 0x7F00));
}

abbrev entries : ℕ → UefiMemoryDescriptor
entries zero = record { ty = 4; physical_start = 0; number_of_pages = 0x100 }
entries _ = record { ty = 7; physical_start = 0x100000; number_of_pages = 0x7F00 }

-- A root pointer at 0xE0000, an XSDT with the MADT alone, a MADT with one I/O APIC, and an address of
-- the configuration space at 44, where the scan reads it without an MCFG table.
abbrev tables : Ram
tables a =
    if ltb a 0x1000
    then from 44 (le_bytes 8 0xE0000000) a
    else if ltb a 0xE1000
    then from 0xE0000 (codes "RSD PTR " ++ (replicate 16 0 ++ le_bytes 8 0xE1000)) a
    else if ltb a 0xE2000
    then from 0xE1000 (codes "XSDT" ++ (le_bytes 4 44 ++ (replicate 28 0 ++ le_bytes 8 0xE2000))) a
    else from 0xE2000
        (codes "APIC"
          ++ (le_bytes 4 56
              ++ (replicate 28 0
                  ++ (le_bytes 4 0xFEE00000
                      ++ (replicate 4 0
                          ++ (1 ∷ 12 ∷ 0 ∷ 0 ∷ (le_bytes 4 0xFEC00000 ++ le_bytes 4 0)))))))
        a

abbrev mapped : Ram
mapped = store tables 0x5000 (entry_bytes 4 0 0x100 ++ entry_bytes 7 0x100000 0x7F00)

abbrev elf : Elf
elf = record { headers = headers; entry_point = 0x200000 }

abbrev loaded : Ram
loaded = at_scan firmware image elf 0x5000 mapped

abbrev platform : Platform
platform = record { devices = no_devices; local_apic_base = 0xFEE00000; ioapic_base = 0xFEC00000 }

found : find_tables loaded 0xE0000 ≡ record { mcfg_address = 0; madt_address = 0xE2000 }
unfolding from_le load load_kernel store find_tables qore_os.Fat32.Utf8.is_utf8_from le_bytes
    qore_os.Acpi.note_tables qore_os.Acpi.entry_count qore_os.Acpi.note_table qore_os.Acpi.same_text
    qore_os.Acpi.apic qore_os.Acpi.mcfg clear_framebuffer boot_info
found = refl

io : io_apic loaded 0xE2000 ≡ some 0xFEC00000
unfolding io_apic walk_madt note_ioapic from_le load load_kernel store le_bytes clear_framebuffer
    boot_info
io = refl

local : local_apic loaded 0xE2000 ≡ 0xFEE00000
unfolding local_apic from_le load load_kernel store le_bytes clear_framebuffer boot_info
local = refl

no_scan : scan_ecam loaded 0 ≡ record { ram = loaded; devices = no_devices }
unfolding scan_ecam
no_scan = refl

scanned : scan_firmware 0xE0000 loaded ≡ some (platform, loaded)
unfolding scan_firmware
scanned = rw (found, no_scan, io, found, no_scan, local) refl

base : ecam_base loaded 0 ≡ 0xE0000000
unfolding from_le load load_kernel store le_bytes clear_framebuffer boot_info
base = refl

abbrev given : Given
given = record {
  apic_id = 0;
  dma = λ ws n ram. ram;
  hw = record { device = λ n a. 0; place = λ n. 0x300000 };
  selectors = record {
    code_selector = 8;
    data_selector = 16;
    tss_selector = 24;
    user_code = 0x2B;
    user_data = 0x33;
  };
  lstar = 0x200800;
  siv = 0;
  statics = record {
    smp_pdpt = 0x210000;
    smp_pd = 0x211000;
    ap_stacks = 0x212000;
    ap_main = 0x201000;
  };
  cr3 = 0x1000;
  active_aps = 0;
}

-- The statics before `_start`.
abbrev before : KernelState
before = record {
  state = record {
    system = record {
      net_card = none;
      arp_table = [];
      http_payload = none;
      nvme_drive = none;
      canvases = [];
      screen =
          qore_os.Compositor.Screen.init
            (record { framebuffer_base = 0; width = 0; height = 0; stride = 0 });
      pixels = [];
      machine = record { ram = λ a. 0; reads = 0; writes = []; blocks = 0; console = [] };
    };
    mouse = qore_os.Mouse.start;
    lapic_base = 0;
    ports = [];
  };
  audio_drive = none;
  frames = frame_allocator;
  cpu = cpu;
  msrs = record { efer = 0x500; star = 0; lstar = 0; fmask = 0 };
  port_reads = 0;
}

-- The kernel at its loop, from the memory map of the sample firmware.
abbrev info : BootInfo
info = boot_info firmware 0x5000

abbrev mapped_frames : BitmapAllocator
mapped_frames = init_entries (memory_map_of loaded info) frame_allocator (96 / 48) 0

abbrev at_loop : KernelState
at_loop = start_all given info platform mapped_frames (with_ram loaded before)

abbrev jumped : KernelState
jumped = with_ram (load_kernel image headers mapped) before

started : start given info jumped ≡ enters_loop at_loop
unfolding start boot_info find_acpi qore_os.FrameAllocator.init
started = rw scanned refl

abbrev later : Session
later = record (first_session at_loop) {
  state = handle (env given.hw).hw (mouse 0x09) at_loop.state;
}

start-Runs-IsRunning_example :
    IsRunning at_loop.state.system.http_payload (screen_of info) later
    × ((pixels : List ℕ)
        → AllVisible
            (screen_of info)
            (terminal_copy (screen_of info) pixels later.state.system.pixels))
unfolding boot_info qore_os.Compositor.Screen.init qore_os.Desktop.start qore_os.Mouse.start
start-Runs-IsRunning_example =
    start-Runs-IsRunning given info jumped at_loop (env given.hw) later started
      (record { room = omega arith; framebuffer = omega arith; terminal = omega arith })
      (omega arith) (omega arith) refl (interrupted (mouse 0x09) begins)
