-- ===== src/Bootloader.antt =====
-- bootloader/src/main.rs: `efi_main`, from the search for the ACPI table to the jump. The firmware
-- (crate uefi) and the parser of the image (crate xmas_elf) are code of others: what they return is the
-- record `Firmware` and the program headers.
pub mod Load
pub mod Frames
mod Tests
use qore_os.Base.{ℕ, ◌+◌, List, [], ◌∷◌, Bool, Option, none, some, if◌then◌else◌}
use qore_os.Ram.{Ram, load, store}

-- An entry of the firmware's configuration table: whether its identifier is ACPI2_GUID.
pub record ConfigEntry : Type 0 where
  pub is_acpi2 : Bool
  pub address : ℕ

-- The address in the first such entry, or 0.
unfoldable pub find_acpi : List ConfigEntry → ℕ
find_acpi [] = 0
find_acpi (entry ∷ rest) =
    let later = find_acpi rest in if entry.is_acpi2 then entry.address else later

-- What is read of a program header; `is_load` where its type is `Load`.
pub record ProgramHeader : Type 0 where
  pub is_load : Bool
  pub offset : ℕ
  pub file_size : ℕ
  pub virtual_addr : ℕ

-- The bytes that `copy_nonoverlapping` reads; `kernel_bytes` has the image's bytes by their offsets, and
-- what lies behind it for an offset past its end.
abbrev pub segment_bytes : (ℕ → ℕ) → ProgramHeader → List ℕ
segment_bytes kernel_bytes ph = load kernel_bytes ph.offset ph.file_size

-- The loop over the program headers.
unfoldable pub load_kernel : (ℕ → ℕ) → List ProgramHeader → Ram → Ram
load_kernel kernel_bytes [] ram = ram
load_kernel kernel_bytes (ph ∷ headers) ram =
    load_kernel kernel_bytes headers
      (if ph.is_load then store ram ph.virtual_addr (segment_bytes kernel_bytes ph) else ram)

pub record BootInfo : Type 0 where
  pub framebuffer_base : ℕ
  pub framebuffer_size : ℕ
  pub width : ℕ
  pub height : ℕ
  pub stride : ℕ
  pub memory_map_size : ℕ
  pub acpi2_rsdp_addr : ℕ
  pub memory_map_addr : ℕ
  pub memory_map_desc_size : ℕ

-- The frame buffer and the current mode of the graphics output.
pub record Gop : Type 0 where
  pub base : ℕ
  pub size : ℕ
  pub resolution : ℕ × ℕ
  pub stride : ℕ

-- What the firmware's calls return, in the order in which `efi_main` makes them. `gop` is none where
-- the handle or the protocol cannot be had, and an error of the two calls for the memory map is none.
pub record Firmware : Type 0 where
  pub config_table : List ConfigEntry
  pub gop : Option Gop
  pub map_size : ℕ
  pub entry_size : ℕ
  pub allocate_pool : ℕ → Option ℕ  -- the pool's address, by its size
  pub memory_map : ℕ → ℕ → Ram → Option Ram  -- into the buffer of this address and size

-- The image with its program headers and its entry point.
pub record Elf : Type 0 where
  pub headers : List ProgramHeader
  pub entry_point : ℕ

abbrev pub seize_framebuffer : Option Gop → BootInfo → BootInfo
seize_framebuffer none info = info
seize_framebuffer (some gop) info = record info {
  framebuffer_base = gop.base;
  framebuffer_size = gop.size;
  width = gop.resolution.0;
  height = gop.resolution.1;
  stride = gop.stride;
}

unfoldable pub boot_info : Firmware → ℕ → BootInfo
boot_info fw mmap_ptr =
    let empty : BootInfo = record {
      framebuffer_base = 0;
      framebuffer_size = 0;
      width = 0;
      height = 0;
      stride = 0;
      memory_map_size = 0;
      acpi2_rsdp_addr = find_acpi fw.config_table;
      memory_map_addr = 0;
      memory_map_desc_size = 0;
    } in
    record (seize_framebuffer fw.gop empty) {
      memory_map_addr = mmap_ptr;
      memory_map_size = fw.map_size;
      memory_map_desc_size = fw.entry_size;
    }

-- The jump, with memory as it is then.
pub record Jump : Type 0 where
  pub entry_point : ℕ
  pub info : BootInfo
  pub ram : Ram

infixl 5 ◌>>=◌
abbrev ◌>>=◌ : {A B : Type 0} → Option A → (A → Option B) → Option B
none >>= f = none
some a >>= f = f a

-- None is a panic of `unwrap` or `expect`: no pool, no map, or an image that cannot be parsed.
unfoldable pub efi_main : Firmware → (ℕ → ℕ) → Option Elf → Ram → Option Jump
unfolding boot_info
efi_main fw kernel_bytes parsed ram = do
  mmap_ptr ← fw.allocate_pool (fw.map_size + 4096)
  ram1 ← fw.memory_map mmap_ptr (fw.map_size + 4096) ram
  elf ← parsed
  some (record {
    entry_point = elf.entry_point;
    info = boot_info fw mmap_ptr;
    ram = load_kernel kernel_bytes elf.headers ram1;
  })
