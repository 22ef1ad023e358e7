-- ===== src/FrameAllocator.antt =====
-- The physical frame allocator of src/frame_allocator.rs: a bitmap of 1024 words, one bit for each
-- 4 KiB frame, set while the frame is free. The static FRAME_ALLOCATOR is passed and returned.
pub mod Bitmap
pub mod Init
pub mod Allocate
pub mod Run
mod Tests
use qore_os.Base.{
  ℕ, zero, suc, ◌+◌, ◌-◌, ◌*◌, ◌/◌, ◌%◌, ◌^◌, bit_and, bit_or, List, Option, none, some, ltb, ◌==◌,
  if◌then◌else◌, get_or, set, replicate, true, false,
}

abbrev pub page_size : ℕ
page_size = 4096

abbrev pub bitmap_size : ℕ
bitmap_size = 1024

pub record BitmapAllocator : Type 0 where
  pub bitmap : List ℕ
  pub highest_frame : ℕ
  pub free_frames : ℕ

-- The fields of `UefiMemoryDescriptor` that the kernel reads.
pub record UefiMemoryDescriptor : Type 0 where
  pub ty : ℕ
  pub physical_start : ℕ
  pub number_of_pages : ℕ

-- The static's initial value. Shut, since it holds 1024 words.
unfoldable pub frame_allocator : BitmapAllocator
frame_allocator = record { bitmap = replicate 1024 0; highest_frame = 0; free_frames = 0 }

-- The body of the inner loop of `init`.
unfoldable pub mark : BitmapAllocator → ℕ → BitmapAllocator
mark a frame_idx =
    if ltb frame_idx (bitmap_size * 64)
    then record a {
      bitmap =
          set a.bitmap (frame_idx / 64)
            (bit_or (get_or a.bitmap (frame_idx / 64) 0) (2 ^ (frame_idx % 64)));
      highest_frame = if ltb a.highest_frame frame_idx then frame_idx else a.highest_frame;
      free_frames = (a.free_frames + 1) % 2 ^ 64;
    }
    else a

-- `for frame_idx in start_frame..end_frame`, with the rounds left.
unfoldable pub mark_range : BitmapAllocator → ℕ → ℕ → BitmapAllocator
mark_range a zero frame_idx = a
mark_range a (suc n) frame_idx = mark_range (mark a frame_idx) n (frame_idx + 1)

unfoldable pub start_frame : UefiMemoryDescriptor → ℕ
start_frame d = d.physical_start / page_size

-- The sum is that of a 64-bit `usize`.
unfoldable pub end_frame : UefiMemoryDescriptor → ℕ
unfolding start_frame
end_frame d = (start_frame d + d.number_of_pages) % 2 ^ 64

-- The body of the outer loop: type 7 is EfiConventionalMemory.
unfoldable pub mark_descriptor : BitmapAllocator → UefiMemoryDescriptor → BitmapAllocator
mark_descriptor a d =
    if d.ty == 7 then mark_range a (end_frame d - start_frame d) (start_frame d) else a

-- `for i in 0..num_entries`, where `memory_map i` stands at the i-th entry.
unfoldable pub init_entries : (ℕ → UefiMemoryDescriptor) → BitmapAllocator → ℕ → ℕ → BitmapAllocator
init_entries memory_map a zero i = a
init_entries memory_map a (suc n) i =
    init_entries memory_map (mark_descriptor a (memory_map i)) n (i + 1)

-- `none` is the panic of the division where the bootloader gave an entry size of 0.
unfoldable pub init :
    (memory_map_size memory_map_desc_size : ℕ)
    → (ℕ → UefiMemoryDescriptor)
    → BitmapAllocator
    → Option BitmapAllocator
init memory_map_size memory_map_desc_size memory_map a =
    if memory_map_desc_size == 0
    then none
    else some (init_entries memory_map a (memory_map_size / memory_map_desc_size) 0)

-- The branch of `allocate_frame` that takes frame `i`; `2 ^ 64 - 1 - 2 ^ k` is `!(1 << k)`.
unfoldable pub take_frame : BitmapAllocator → ℕ → BitmapAllocator
take_frame a i = record a {
  bitmap = set a.bitmap (i / 64) (bit_and (get_or a.bitmap (i / 64) 0) (2 ^ 64 - 1 - 2 ^ (i % 64)));
  free_frames = (a.free_frames + 2 ^ 64 - 1) % 2 ^ 64;
}

-- `for i in 0..=highest_frame`, with the rounds left.
unfoldable pub allocate_from : BitmapAllocator → ℕ → ℕ → Option ℕ × BitmapAllocator
allocate_from a zero i = (none, a)
allocate_from a (suc n) i = elim (bit_and (get_or a.bitmap (i / 64) 0) (2 ^ (i % 64)) == 0) [
  | true ↦ allocate_from a n (i + 1)
  | false ↦ (some (i * page_size), take_frame a i)
]

unfoldable pub allocate_frame : BitmapAllocator → Option ℕ × BitmapAllocator
allocate_frame a = allocate_from a (a.highest_frame + 1) 0
