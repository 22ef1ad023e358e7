-- ===== src/Boot/Setup.antt =====
-- `_start` of src/main.rs from its first line to the loop. What the processor's own registers and the
-- devices give is in `Given`. The lines of `println!` with their writer, and the pauses, have no state here.
use qore_os.Base.{
  ℕ, ◌+◌, leb, ltb, ◌&&◌, ◌≡◌, refl, List, Option, none, some, ◌==◌, if◌then◌else◌, if_intro, ◌||◌,
}
use qore_os.Ram.{Ram}
use qore_os.Text.{codes}
use qore_os.Machine.{Hardware}
use qore_os.Acpi.{find_tables, local_apic, io_apic}
use qore_os.Boot.{Boot, start_card, start_drivers}
use qore_os.Bootloader.{BootInfo}
use qore_os.Bootloader.Frames.{memory_map_of}
use qore_os.Cpu.{Cpu, Msrs}
use qore_os.Compositor.Screen.{fill_rect, draw_string}
use qore_os.Ecam.{Devices, scan_ecam}
use qore_os.FrameAllocator.{BitmapAllocator}
use qore_os.Gdt.{Selectors}
use qore_os.Hda.{IntelHda}
use qore_os.Interrupts.{State, init_apic, write_port}
use qore_os.Smp.{Statics}
use qore_os.Smp.Wake.{wake_processors}
use qore_os.Syscall.{System, say}
use qore_os.Compositor.Screen
use qore_os.FrameAllocator
use qore_os.Gdt
use qore_os.Mouse.Setup
use qore_os.Syscall.Entry

-- What the scan of the firmware's tables and of the bus finds.
pub record Platform : Type 0 where
  pub devices : Devices
  pub local_apic_base : ℕ
  pub ioapic_base : ℕ

-- None where the walk over the MADT does not end.
unfoldable pub scan_firmware : ℕ → Ram → Option (Platform × Ram)
scan_firmware rsdp ram =
    let tables = find_tables ram rsdp in
    let scan = scan_ecam ram tables.mcfg_address in
    let madt = tables.madt_address in
    let with_io : Option ℕ → Option (Platform × Ram) = λ found. elim found [
      | none ↦ none
      | some io ↦ some (
        record {
          devices = scan.devices;
          local_apic_base = local_apic scan.ram madt;
          ioapic_base = io;
        },
        scan.ram,
      )
    ] in
    if madt == 0
    then some (record { devices = scan.devices; local_apic_base = 0; ioapic_base = 0 }, scan.ram)
    else with_io (io_apic scan.ram madt)

pub record Given : Type 0 where
  pub apic_id : ℕ  -- of the processor that runs
  pub dma : List (ℕ × ℕ) → ℕ → Ram → Ram
  pub hw : Hardware
  pub selectors : Selectors
  pub lstar : ℕ  -- the address of `syscall_entry`
  pub siv : ℕ  -- what the spurious interrupt register reads as
  pub statics : Statics
  pub cr3 : ℕ
  pub active_aps : ℕ

-- The statics of the kernel, and the processor.
pub record KernelState : Type 0 where
  pub state : State
  pub audio_drive : Option IntelHda
  pub frames : BitmapAllocator
  pub cpu : Cpu
  pub msrs : Msrs
  pub port_reads : ℕ

pub data Outcome : Type 0 where
  halted : Outcome  -- a processor that is not the first
  hangs : Outcome  -- in the walk over the MADT
  panics : Outcome
  enters_loop : KernelState → Outcome

abbrev pub with_system : (System → System) → KernelState → KernelState
with_system f s =
    let state = s.state in record s { state = record state { system = f state.system } }

abbrev pub with_boot : (Boot → Boot) → KernelState → KernelState
with_boot f s =
    let state = s.state in
    let system = state.system in
    let b = f (record {
      net_card = system.net_card;
      arp_table = system.arp_table;
      http_payload = system.http_payload;
      nvme_drive = system.nvme_drive;
      audio_drive = s.audio_drive;
      machine = system.machine;
    }) in
    record s {
      audio_drive = b.audio_drive;
      state = record state {
        system = record system {
          net_card = b.net_card;
          arp_table = b.arp_table;
          http_payload = b.http_payload;
          nvme_drive = b.nvme_drive;
          machine = b.machine;
        };
      };
    }

-- `gdt::init` and `syscall::init`.
unfoldable pub start_processor : Given → KernelState → KernelState
start_processor g s =
    with_system (say (codes "SYS: Fast SYSCALL Interface Armed.\n") 0x3B82F6) (record s {
      cpu = qore_os.Gdt.init g.selectors s.cpu;
      msrs =
          qore_os.Syscall.Entry.init g.lstar (g.selectors).code_selector (g.selectors).user_code
            s.msrs;
    })

-- `init_apic`, the port write that enables the keyboard, and `mouse::init`.
unfoldable pub start_input : Given → Platform → KernelState → KernelState
start_input g p s =
    let state = write_port 0x64 0xAE (init_apic g.siv p.local_apic_base p.ioapic_base s.state) in
    let ports =
      qore_os.Mouse.Setup.init g.hw (record { reads = s.port_reads; writes = state.ports }) in
    with_system (say (codes "SYS: PS/2 Mouse Controller Awake. IRQ 12 Routed.\n") 0x10B981)
      (record s { state = record state { ports = ports.writes }; port_reads = ports.reads })

-- `compositor::init` and the head of the screen.
unfoldable pub start_screen : BootInfo → System → System
start_screen info s =
    let screen = qore_os.Compositor.Screen.init (record {
      framebuffer_base = info.framebuffer_base;
      width = info.width;
      height = info.height;
      stride = info.stride;
    }) in
    let blank = fill_rect screen 0 0 screen.width screen.height 0xFFFFFF s.pixels in
    let bar = fill_rect screen 0 0 screen.width 40 0x1E293B blank in
    let title = draw_string screen 20 10 (codes "QOREOS UNIKERNEL SECURE CONSOLE") 0xFFFFFF 2 bar in
    say (codes "INIT: APIC Interrupt Routing Established.\n") 0x10B981 (
      say (codes "INIT: Core 0 (BSP) Online.\n") 0x10B981
        (record s { screen = screen; pixels = title }))

-- All of it, with the frames that the memory map has.
unfoldable pub start_all : Given → BootInfo → Platform → BitmapAllocator → KernelState → KernelState
start_all g info p frames s0 =
    let s1 = start_processor g (record s0 { frames = frames }) in
    let s2 = with_boot (start_card g.hw (p.devices).e1000_bar0) s1 in
    let s3 = with_system (start_screen info) (start_input g p s2) in
    let wake = λ (x : System). record x {
      machine = wake_processors g.statics g.cr3 g.active_aps p.local_apic_base x.machine;
    } in
    with_boot (start_drivers g.dma g.hw p.devices) (with_system wake s3)

abbrev pub with_ram : Ram → KernelState → KernelState
with_ram ram =
    with_system λ x. let machine = x.machine in record x { machine = record machine { ram = ram } }

abbrev pub with_frames :
    Given → BootInfo → Platform → KernelState → Option BitmapAllocator → Outcome
with_frames g info p s none = panics
with_frames g info p s (some frames) = enters_loop (start_all g info p frames s)

abbrev pub with_platform : Given → BootInfo → KernelState → Option (Platform × Ram) → Outcome
with_platform g info s none = hangs
with_platform g info s (some (p, ram)) = with_frames g info p (with_ram ram s) (
    qore_os.FrameAllocator.init info.memory_map_size info.memory_map_desc_size
      (memory_map_of ram info) s.frames)

-- `write_bytes` on the framebuffer.
unfoldable pub clear_framebuffer : BootInfo → Ram → Ram
clear_framebuffer info ram a =
    let base = info.framebuffer_base in
    if leb base a && ltb a (base + info.framebuffer_size) then 0 else ram a

unfoldable pub start : Given → BootInfo → KernelState → Outcome
start g info s =
    let cleared = clear_framebuffer info s.state.system.machine.ram in
    let first = with_platform g info s (scan_firmware info.acpi2_rsdp_addr cleared) in
    if g.apic_id == 0 then first else halted

init_apic_base :
    (siv lapic ioapic : ℕ) (s : State) → (init_apic siv lapic ioapic s).lapic_base ≡ lapic
unfolding init_apic
init_apic_base siv lapic ioapic s =
    if_intro (λ (x : State). x.lapic_base ≡ lapic) (lapic == 0 || ioapic == 0) (λ _. refl) λ _. refl

-- Where the walk over the MADT ends and the memory map has entries, the first processor comes to the
-- loop. The allocator there is the one for the memory map, the processor runs with the kernel's
-- selectors and enters system calls at the stub, and the handlers know the local controller.
pub start-enters_loop :
    (g : Given) (info : BootInfo) (s : KernelState) (p : Platform) (ram : Ram)
    (frames : BitmapAllocator)
    → g.apic_id ≡ 0
    → scan_firmware info.acpi2_rsdp_addr (clear_framebuffer info s.state.system.machine.ram)
      ≡ some (p, ram)
    → qore_os.FrameAllocator.init info.memory_map_size info.memory_map_desc_size
        (memory_map_of ram info)
        s.frames
      ≡ some frames
    → (s' : KernelState) × (start g info s ≡ enters_loop s')
      × (s'.frames ≡ frames)
      × (s'.cpu.cs ≡ g.selectors.code_selector)
      × (s'.cpu.ss ≡ g.selectors.data_selector)
      × (s'.msrs.lstar ≡ g.lstar)
      × (s'.state.lapic_base ≡ p.local_apic_base)
unfolding start start_all start_processor start_input qore_os.Gdt.init qore_os.Syscall.Entry.init
start-enters_loop g info s p ram frames first found mapped = (
  start_all g info p frames (with_ram ram s),
  rw (first, found, mapped) refl,
  refl,
  refl,
  refl,
  refl,
  init_apic_base g.siv p.local_apic_base p.ioapic_base _,
)
