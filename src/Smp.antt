-- ===== src/Smp.antt =====
-- src/smp.rs: what `copy_trampoline` leaves in memory for the other processors. CR0 and the flush of
-- the translations have no state here, and CR3 is an argument. The lines that are printed are left out.
pub mod Identity
pub mod Handover
pub mod Processor
pub mod Instructions
pub mod Stacks
pub mod Wake
mod Tests
use qore_os.Base.{ℕ, ◌+◌, ◌*◌, ◌%◌, ◌^◌, List, [], ◌∷◌, ◌++◌, bit_and, bit_or, ◌==◌, if◌then◌else◌}
use qore_os.Ram.{Ram, load64, store64, le_bytes}
use qore_os.Ram.Writes.{write_all}
use qore_os.Memory.{addr_mask}

-- Where the linker puts the statics SMP_PDPT, SMP_PD and AP_STACKS, and the code of `ap_main`.
pub record Statics : Type 0 where
  pub smp_pdpt : ℕ
  pub smp_pd : ℕ
  pub ap_stacks : ℕ
  pub ap_main : ℕ

-- `if entry & 1 == 0`, the first entry of a table is made to point to a static table.
unfoldable pub inject : Ram → ℕ → ℕ → Ram
inject ram table phys =
    if bit_and (load64 ram table) 1 == 0 then store64 ram table (bit_or phys 3) else ram

-- The large page from 0, where the third table does not map a huge one.
unfoldable pub map_low : Ram → ℕ → Ram
map_low ram pdpt =
    let pdpte = load64 ram pdpt in
    if bit_and pdpte (2 ^ 7) == 0 then store64 ram (bit_and pdpte addr_mask) 0x83 else ram

unfoldable pub map_trampoline : Statics → Ram → ℕ → Ram
map_trampoline s ram cr3 =
    let pml4 = bit_and cr3 addr_mask in
    let ram1 = inject ram pml4 s.smp_pdpt in
    let pdpt = bit_and (load64 ram1 pml4) addr_mask in map_low (inject ram1 pdpt s.smp_pd) pdpt

-- The code in real mode, which is 34 bytes, loads the descriptor table at 0x8100 and jumps on.
unfoldable pub real_mode : List ℕ
real_mode =
    0xFA ∷ 0x0F ∷ 0x09 ∷ 0x31 ∷ 0xC0 ∷ 0x8E ∷ 0xD8 ∷ 0x8E ∷ 0xC0 ∷ 0x8E ∷ 0xD0 ∷ 0x0F ∷ 0x01 ∷ 0x16
    ∷ 0x00 ∷ 0x81 ∷ 0x0F ∷ 0x20 ∷ 0xC0 ∷ 0x66 ∷ 0x83 ∷ 0xC8 ∷ 0x01 ∷ 0x0F ∷ 0x22 ∷ 0xC0 ∷ 0x66
    ∷ 0xEA ∷ 0x22 ∷ 0x80 ∷ 0x00 ∷ 0x00 ∷ 0x08 ∷ 0x00 ∷ []

-- The code in protected mode, from 0x8022, takes CR3 from 0x8500 and turns on paging.
unfoldable pub protected_mode : List ℕ
protected_mode =
    0xB8 ∷ 0x10 ∷ 0x00 ∷ 0x00 ∷ 0x00 ∷ 0x8E ∷ 0xD8 ∷ 0x8E ∷ 0xC0 ∷ 0x8E ∷ 0xD0 ∷ 0x8E ∷ 0xE0 ∷ 0x8E
    ∷ 0xE8 ∷ 0x0F ∷ 0x20 ∷ 0xE0 ∷ 0x83 ∷ 0xC8 ∷ 0x20 ∷ 0x0F ∷ 0x22 ∷ 0xE0 ∷ 0xA1 ∷ 0x00 ∷ 0x85
    ∷ 0x00 ∷ 0x00 ∷ 0x0F ∷ 0x22 ∷ 0xD8 ∷ 0xB9 ∷ 0x80 ∷ 0x00 ∷ 0x00 ∷ 0xC0 ∷ 0x0F ∷ 0x32 ∷ 0x0D
    ∷ 0x00 ∷ 0x01 ∷ 0x00 ∷ 0x00 ∷ 0x0F ∷ 0x30 ∷ 0x0F ∷ 0x20 ∷ 0xC0 ∷ 0x0D ∷ 0x00 ∷ 0x00 ∷ 0x00
    ∷ 0x80 ∷ 0x0F ∷ 0x22 ∷ 0xC0 ∷ 0xEA ∷ 0x62 ∷ 0x80 ∷ 0x00 ∷ 0x00 ∷ 0x18 ∷ 0x00 ∷ []

-- The code in long mode, from 0x8062, takes a number at 0x8600 and a stack, and calls `ap_main`.
unfoldable pub long_mode : List ℕ
long_mode =
    0xB8 ∷ 0x10 ∷ 0x00 ∷ 0x00 ∷ 0x00 ∷ 0x8E ∷ 0xD8 ∷ 0x8E ∷ 0xC0 ∷ 0x8E ∷ 0xD0 ∷ 0x8E ∷ 0xE0 ∷ 0x8E
    ∷ 0xE8 ∷ 0xB8 ∷ 0x00 ∷ 0x00 ∷ 0x00 ∷ 0x00 ∷ 0xF0 ∷ 0x0F ∷ 0xC1 ∷ 0x04 ∷ 0x25 ∷ 0x00 ∷ 0x86
    ∷ 0x00 ∷ 0x00 ∷ 0xC1 ∷ 0xE0 ∷ 0x0E ∷ 0x48 ∷ 0x8B ∷ 0x1C ∷ 0x25 ∷ 0x08 ∷ 0x86 ∷ 0x00 ∷ 0x00
    ∷ 0x48 ∷ 0x29 ∷ 0xC3 ∷ 0x48 ∷ 0x89 ∷ 0xDC ∷ 0x48 ∷ 0x31 ∷ 0xED ∷ 0x48 ∷ 0x8B ∷ 0x04 ∷ 0x25
    ∷ 0x10 ∷ 0x86 ∷ 0x00 ∷ 0x00 ∷ 0xFF ∷ 0xD0 ∷ 0xFA ∷ 0xF4 ∷ 0xEB ∷ 0xFD ∷ []

unfoldable pub trampoline : List ℕ
trampoline = real_mode ++ protected_mode ++ long_mode

-- The writes below 1 MB, in order: the code, the descriptors and their register, CR3, the counter, the
-- end of the stacks and the entry point.
unfoldable pub configuration : Statics → ℕ → List (ℕ × List ℕ)
configuration s cr3 =
    (0x8000, trampoline)
    ∷ (0x8120, le_bytes 8 0x0000000000000000)
    ∷ (0x8128, le_bytes 8 0x00CF9A000000FFFF)
    ∷ (0x8130, le_bytes 8 0x00CF92000000FFFF)
    ∷ (0x8138, le_bytes 8 0x00AF9A000000FFFF)
    ∷ (0x8100, le_bytes 2 31)
    ∷ (0x8102, le_bytes 4 0x8120)
    ∷ (0x8500, le_bytes 4 cr3)
    ∷ (0x8600, le_bytes 4 0)
    ∷ (0x8608, le_bytes 8 (s.ap_stacks + 16384 * 4))
    ∷ (0x8610, le_bytes 8 s.ap_main)
    ∷ []

unfoldable pub copy_trampoline : Statics → Ram → ℕ → Ram
copy_trampoline s ram cr3 = write_all (configuration s cr3) (map_trampoline s ram cr3)
