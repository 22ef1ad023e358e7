-- ===== src/Lib.antt =====
-- The kernel of QoreOS: its physical memory, network card and network stack, boot disk, mouse,
-- desktop, terminal, firmware tables, bus scans, audio card, interrupts, processor start and
-- system calls, and its bootloader.
--
-- A unikernel without processes: the bootloader hands the kernel a memory map and the
-- framebuffer, the kernel sets up its frame bitmap, drivers and desktop, and then polls the
-- mouse and the network card in one loop. The card's driver takes a packet off its receive
-- ring, answers ARP itself and gives IPv4 packets to the network stack, which answers a TCP SYN
-- on port 80 and serves one HTTP response with a text that was read from the disk at boot.
--
-- * Base, with Base/Lists and Base/Bits, has Boolean tests, lists and bit operations over the
--   native numbers.
-- * Ram holds physical memory as bytes at addresses, for the raw pointers of the kernel;
--   Ram/Writes has several writes in order.
-- * Text has the texts that the kernel formats, Machine has memory, device registers, leaked
--   heap blocks and console lines.
-- * FrameAllocator (src/frame_allocator.rs): the static FRAME_ALLOCATOR is passed and returned;
--   `init` and `allocate_frame` have their names. FrameAllocator/Bitmap has the invariant,
--   Init, Allocate and Run the theorems.
-- * Memory (src/memory.rs and `unlock_mmu_for_ring3` of src/main.rs): CR3 is an argument, the
--   tables are words in memory. Memory/Walk, Unlock and Open have the theorems, Memory/Report
--   the lines of `init`.
-- * E1000 (src/e1000.rs): the card, its rings and senders; E1000/Arp the ARP cache, E1000/Poll
--   `poll`, with E1000/Poll/Get for the call that answers a request for the page. The statics
--   NET_CARD, ARP_TABLE and HTTP_PAYLOAD are the fields of `Kernel`. E1000/Transmit says what a
--   sent frame leaves on the ring.
-- * Net (src/net.rs): frames, checksums and `handle_incoming_packet`. Net/Receiver is the
--   receiver's side of the checksums after RFC 1071, Net/Checksum and Net/Craft show the frames
--   against it, Net/Page describes the page that is served, Net/Handle and Net/Answers which
--   packets are answered.
-- * Fat32 (src/fat32.rs and the block of `_start` in src/main.rs that fills `sector_data_str`):
--   the volume, the directory search and the text. Fat32/Utf8 is the test of the text. The
--   drive is the record `Drive`. Fat32/Boot has the load from a disk image.
-- * Mouse (src/mouse.rs): `process_packet_byte` over the statics as a record, with 32-bit
--   patterns for the coordinates; Mouse/Packets has the stream of packets, Mouse/Setup the
--   setup of the controller.
-- * Compositor (src/compositor.rs): `Canvas` and `terminal_print`; Compositor/Font is the font,
--   Pixels and Fill describe the canvas pixel by pixel, Cursor the terminal's invariant.
--   Compositor/Screen is the framebuffer, with strings and windows, and Compositor/Visible
--   shows where they write.
-- * Acpi and Ecam (the parts of `_start` in src/main.rs before `init_heap`): the search of the
--   XSDT, the walk over the MADT with the table's length as its fuel, and the scan of all
--   functions with its writes; Acpi/Xsdt, Acpi/Madt and Ecam/Scanned have the theorems,
--   Ecam/Rounds what the loops keep, Ecam/Outside the memory that the scan leaves alone.
-- * Desktop (the loop at the end of `_start` in src/main.rs): `frame` is a round without its
--   drawing, which is Desktop/Render. Desktop/Inside has the invariant, Desktop/Drag what a
--   round does to the window and when it leaves the kernel.
-- * Loop (the same loop as a whole): a round with the poll of the network card, the drawing and
--   the drop to ring 3, and the runs of rounds and interrupts in any order; Loop/Run has their
--   invariant, Loop/Start the loop as `_start` comes to it, Loop/Serve the answer to a request
--   after any of them, Loop/Leave the drop to ring 3.
-- * Nvme (src/nvme.rs): `read_sector` over the queues in memory; the controller is the
--   parameter `dma`, what it does to memory by each read of a status, given the register writes
--   so far. The wait has the source's bound of 20_000_001 reads as its fuel. Nvme/Read assumes
--   a controller that answers within it, on its first pass through the queues only, the sixteen
--   commands on which the phase bit of a completion is 1, and only where each command before
--   was announced and acknowledged. Nvme/Init starts the controller and shows its identity.
--   Nvme/Boot makes the driver a `Drive` for the boot code, Nvme/Start is the block of `_start`
--   that starts the drive and loads the payload, and Nvme/Controller is a controller of the
--   kind that is assumed.
-- * Smp (src/smp.rs): what `copy_trampoline` writes, with the addresses of the statics as
--   parameters; Smp/Identity walks the page tables after it, Smp/Handover reads what it has
--   left in low memory. Smp/Processor has the instructions in long mode, `ap_main` and the
--   steps of several processors in any order, Smp/Instructions and Smp/Stacks the stacks that
--   they get. Smp/Wake is the block of `_start` that wakes them.
-- * Syscall (src/syscall.rs and `ring3_user_task` of src/main.rs): `syscall_handler` over the
--   drivers; Syscall/Calls has the call that reads a sector, Syscall/Task the task and what it
--   reports. Syscall/Entry is the entry stub over the processor of Cpu.
-- * Cpu, Usermode (src/usermode.rs) and Gdt (src/gdt.rs): the processor's registers and the
--   instructions of the assembly, the drop to ring 3, and the selectors; Gdt/Rings has the
--   segments of the kernel and of its task.
-- * Interrupts (src/interrupts.rs): the handlers as steps on one state, with the byte from the
--   port in the event; Interrupts/Acknowledge has sequences of events, Interrupts/Table the
--   table of the handlers.
-- * Hda (src/hda.rs): the driver over registers that are read from `device`; the waits have the
--   source's bounds of 10000001 and 10001 reads as their fuel. Hda/Waits has the reset,
--   Hda/Commands the command ring.
-- * Vga (src/vga.rs): the console of the boot, with the font as the parameter `font`, and the
--   macros with the text that their arguments give; Vga/Bounds says where it writes.
-- * Boot (the part of `_start` in src/main.rs that starts the drivers): the statics as a
--   record, the card, the disk, the audio card and the last lines in order; Boot/Payload has
--   the text that is served after it. Boot/Setup is all of `_start` before its loop, and
--   Boot/Frames the way of the memory map from the firmware to the frames that the kernel hands
--   out.
-- * Heap (src/allocator.rs): what the heap is set up with.
-- * Pcie (src/pcie.rs): `scan_bus_zero`, with the configuration space as the parameter
--   `config`; Pcie/Report has the lines that it prints.
-- * Bootloader (bootloader/src/main.rs): `efi_main` over the record `Firmware` of what the
--   firmware returns; Bootloader/Load says what the copy of the segments leaves in memory,
--   Bootloader/Frames what the kernel's frame allocator makes of the memory map.
--
-- Numbers are natural numbers with the wrap-around written out where the source's type can
-- wrap. Loops run on the count of their rounds; the carry loops of the checksums have four
-- rounds of fuel, and three are enough for 32 bits (Net/Checksum). A `usize` or `u32` that the
-- source would let overflow wraps in the model, where a build with overflow checks panics; a
-- theorem about such a sum says modulo what it holds, or is about the numbers where it does not
-- wrap. A slice index past the end is a panic in `poll`; elsewhere the source tests the length
-- first. The heap is the parameter `place`, the addresses that it gives; a register that is
-- read is the parameter `device`.
--
-- Not modelled: the inline assembly that reads or writes a control register, halts or pauses,
-- an interrupt that comes within a round of the loop, and the code of the crates x86_64, uefi
-- and linked_list_allocator. Where a driver prints, the model keeps the text and the colour of
-- the line; Compositor has what `terminal_print` makes of them on the canvas, and the copy of
-- the canvas to the framebuffer, which is not among the pixel writes of the other parts.
pub mod Base
pub mod Ram
pub mod Memory
pub mod FrameAllocator
pub mod Text
pub mod Machine
pub mod E1000
pub mod Net
pub mod Fat32
pub mod Mouse
pub mod Compositor
pub mod Vga
pub mod Acpi
pub mod Ecam
pub mod Desktop
pub mod Hda
pub mod Nvme
pub mod Heap
pub mod Boot
pub mod Loop
pub mod Smp
pub mod Cpu
pub mod Syscall
pub mod Usermode
pub mod Gdt
pub mod Interrupts
pub mod Pcie
pub mod Bootloader
