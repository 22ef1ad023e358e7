-- ===== src/Boot/Frames.antt =====
-- The way of the memory map: from the firmware through bootloader/src/main.rs and `_start` of src/main.rs
-- to the frames that src/frame_allocator.rs hands out.
use qore_os.Base.{◌⊎◌, ℕ, ◌+◌, ◌<◌, ◌≤◌, ◌≡◌, Option, none, some}
use qore_os.Ram.{Ram}
use qore_os.Ram.Writes.{AllOutside}
use qore_os.Acpi.{find_tables}
use qore_os.Boot.Setup.{Platform, clear_framebuffer}
use qore_os.Bootloader.{Firmware, Elf, boot_info, find_acpi, load_kernel}
use qore_os.Bootloader.Load.{segments}
use qore_os.Ecam.Outside.{ecam_base, OutsideEcam}

-- Where there is a result, its memory is `m`.
abbrev Leaves : Ram → Option (Platform × Ram) → Type 0
Leaves m none = Unit {0}
Leaves m (some r) = r.1 ≡ m

-- The memory as the scan of the firmware's tables finds it.
abbrev pub at_scan : Firmware → (ℕ → ℕ) → Elf → ℕ → Ram → Ram
at_scan fw kernel_bytes elf mmap_ptr mapped =
    clear_framebuffer (boot_info fw mmap_ptr) (load_kernel kernel_bytes elf.headers mapped)

-- The start of the configuration space by these tables.
abbrev pub ecam_at : Firmware → Ram → ℕ
ecam_at fw ram = ecam_base ram (find_tables ram (find_acpi fw.config_table)).mcfg_address

-- No byte of the map lies in the framebuffer, the kernel's segments or the configuration space.
pub record MapApart (fw : Firmware) (kernel_bytes : ℕ → ℕ) (elf : Elf) (mmap_ptr : ℕ) (mapped : Ram)
    (b : ℕ) : Type 0 where
  pub segments_apart : AllOutside b (segments kernel_bytes elf.headers)
  pub framebuffer_apart :
      (b < (boot_info fw mmap_ptr).framebuffer_base)
      ⊎ ((boot_info fw mmap_ptr).framebuffer_base + (boot_info fw mmap_ptr).framebuffer_size ≤ b)
  pub ecam_apart : OutsideEcam (ecam_at fw (at_scan fw kernel_bytes elf mmap_ptr mapped)) b
