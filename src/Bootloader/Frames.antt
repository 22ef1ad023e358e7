-- ===== src/Bootloader/Frames.antt =====
-- The memory map from the firmware to the kernel's frame allocator (src/frame_allocator.rs).
use qore_os.Base.{
  ℕ, zero, suc, ◌+◌, ◌*◌, ◌/◌, ◌<◌, ◌≤◌, ◌≡◌, refl, ap, ◌∙◌, ◌==◌, if◌then◌else◌, none, some, arith,
}
use qore_os.Ram.{Ram, load, from_le, load64, load_ext}
use qore_os.Ram.Writes.{AllOutside, write_all-outside}
use qore_os.FrameAllocator.{
  BitmapAllocator, UefiMemoryDescriptor, init, init_entries, mark_descriptor,
}
use qore_os.Bootloader.{BootInfo, Firmware, Elf, Jump, boot_info, load_kernel, efi_main}
use qore_os.Bootloader.Load.{segments, load_kernel_lem}

-- What the kernel reads of the entry at `a`, by the layout of `UefiMemoryDescriptor`.
abbrev pub descriptor_at : Ram → ℕ → UefiMemoryDescriptor
descriptor_at ram a = record {
  ty = from_le (load ram a 4);
  physical_start = load64 ram (a + 8);
  number_of_pages = load64 ram (a + 24);
}

abbrev pub memory_map_of : Ram → BootInfo → ℕ → UefiMemoryDescriptor
memory_map_of ram info i = descriptor_at ram (info.memory_map_addr + i * info.memory_map_desc_size)

-- The firmware's calls for the pool and the map succeed, with the pool at `mmap_ptr` and memory `mapped`
-- after them. The buffer then has the entries from its start on, as far as the size that was asked for
-- goes.
pub record Maps (fw : Firmware) (mmap_ptr : ℕ) (ram mapped : Ram)
    (entries : ℕ → UefiMemoryDescriptor) : Type 0 where
  pub pool : fw.allocate_pool (fw.map_size + 4096) ≡ some mmap_ptr
  pub map : fw.memory_map mmap_ptr (fw.map_size + 4096) ram ≡ some mapped
  pub entry :
      (i : ℕ)
      → (i + 1) * fw.entry_size ≤ fw.map_size
      → descriptor_at mapped (mmap_ptr + i * fw.entry_size) ≡ entries i

init_entries_ext :
    (m m' : ℕ → UefiMemoryDescriptor) (a : BitmapAllocator) (n i : ℕ)
    → ((k : ℕ) → k < i + n → m k ≡ m' k)
    → init_entries m a n i ≡ init_entries m' a n i
unfolding init_entries
init_entries_ext m m' a zero i h = refl
init_entries_ext m m' a (suc n) i h =
    ap (λ d. init_entries m (mark_descriptor a d) n (i + 1)) (h i (omega arith))
    ∙ init_entries_ext m m' (mark_descriptor a (m' i)) n (i + 1) (λ k l. h k (omega arith))

init_ext :
    (size desc : ℕ) (m m' : ℕ → UefiMemoryDescriptor) (a : BitmapAllocator)
    → ((k : ℕ) → k < size / desc → m k ≡ m' k)
    → init size desc m a ≡ init size desc m' a
unfolding init
init_ext size desc m m' a h =
    ap (λ x. if desc == 0 then none else some x)
      (init_entries_ext m m' a (size / desc) 0 (λ k l. h k (omega arith)))

entry_within : (k size desc : ℕ) → k < size / desc → (k + 1) * desc ≤ size
entry_within k size desc h = grind arith

one_more : (k desc : ℕ) → (k + 1) * desc ≡ k * desc + desc
one_more k desc = grind arith

descriptor_ext :
    (m m' : Ram) (a : ℕ)
    → ((b : ℕ) → a ≤ b → b < a + 40 → m b ≡ m' b)
    → descriptor_at m a ≡ descriptor_at m' a
descriptor_ext m m' a h = λ i. record {
  ty = from_le (load_ext m m' a 4 (λ b l r. h b l (omega arith)) i);
  physical_start = from_le (load_ext m m' (a + 8) 8 (λ b l r. h b (omega arith) (omega arith)) i);
  number_of_pages = from_le (load_ext m m' (a + 24) 8 (λ b l r. h b (omega arith) (omega arith)) i);
}

-- The kernel's loader leaves the memory map as it is where no segment lies in it.
pub load_kernel-kept :
    (kernel_bytes : ℕ → ℕ) (elf : Elf) (mapped : Ram) (mmap_ptr size : ℕ)
    → ((b : ℕ)
        → mmap_ptr ≤ b
        → b < mmap_ptr + size
        → AllOutside b (segments kernel_bytes elf.headers))
    → (b : ℕ) → mmap_ptr ≤ b
    → b < mmap_ptr + size
    → load_kernel kernel_bytes elf.headers mapped b ≡ mapped b
load_kernel-kept kernel_bytes elf mapped mmap_ptr size outside b l r =
    ap (λ (m : Ram). m b) (load_kernel_lem kernel_bytes elf.headers mapped)
    ∙ write_all-outside (segments kernel_bytes elf.headers) mapped b (outside b l r)

-- In a memory that still has the map, the frame allocator is set up as by the firmware's entries.
pub init-memory_map_of :
    (fw : Firmware) (mmap_ptr : ℕ) (ram mapped later : Ram) (entries : ℕ → UefiMemoryDescriptor)
    (a : BitmapAllocator)
    → Maps fw mmap_ptr ram mapped entries
    → 40 ≤ fw.entry_size
    → ((b : ℕ) → mmap_ptr ≤ b → b < mmap_ptr + fw.map_size → later b ≡ mapped b)
    → init fw.map_size fw.entry_size (memory_map_of later (boot_info fw mmap_ptr)) a
      ≡ init fw.map_size fw.entry_size entries a
unfolding boot_info
init-memory_map_of fw mmap_ptr ram mapped later entries a maps big kept =
    init_ext fw.map_size fw.entry_size _ entries a λ k l.
      let within = entry_within k fw.map_size fw.entry_size l in
      descriptor_ext later mapped (mmap_ptr + k * fw.entry_size)
        (λ b p q. kept b (omega arith) (omega (arith, one_more k fw.entry_size)))
      ∙ maps.entry k within

-- What the loader hands over where the calls for the memory map succeed.
abbrev pub handed_over : Firmware → (ℕ → ℕ) → Elf → ℕ → Ram → Jump
handed_over fw kernel_bytes elf mmap_ptr mapped = record {
  entry_point = elf.entry_point;
  info = boot_info fw mmap_ptr;
  ram = load_kernel kernel_bytes elf.headers mapped;
}

pub efi_main_lem :
    (fw : Firmware) (kernel_bytes : ℕ → ℕ) (elf : Elf) (mmap_ptr : ℕ) (ram mapped : Ram)
    (entries : ℕ → UefiMemoryDescriptor)
    → Maps fw mmap_ptr ram mapped entries
    → efi_main fw kernel_bytes (some elf) ram
      ≡ some (handed_over fw kernel_bytes elf mmap_ptr mapped)
unfolding efi_main
efi_main_lem fw kernel_bytes elf mmap_ptr ram mapped entries maps = rw (maps.pool, maps.map) refl
