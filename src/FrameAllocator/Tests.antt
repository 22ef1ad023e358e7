-- ===== src/FrameAllocator/Tests.antt =====
-- Runs of the frame allocator, and its theorems at a small memory map.
use qore_os.Base.{ℕ, ◌≡◌, refl, [], ◌∷◌, min, length, if◌then◌else◌, ltb}
use qore_os.FrameAllocator.{
  BitmapAllocator, UefiMemoryDescriptor, frame_allocator, mark, mark_range, mark_descriptor,
  start_frame, end_frame, init_entries, allocate_from, allocate_frame, take_frame,
}
use qore_os.FrameAllocator.Bitmap.{is_free, limit, IsValid}
use qore_os.FrameAllocator.Init.{init_entries-IsValid, frame_allocator-IsValid}
use qore_os.FrameAllocator.Allocate.{Allocated, allocate_frame-Allocated}
use qore_os.FrameAllocator.Run.{allocations, Ascending, AllFree, count, allocations_lem}

-- Two pages of conventional memory at 0x3f000, one of loader data, and three more free pages.
abbrev memory_map : ℕ → UefiMemoryDescriptor
memory_map i =
    if ltb i 1
    then record { ty = 7; physical_start = 0x3f000; number_of_pages = 2 }
    else if ltb i 2
    then record { ty = 2; physical_start = 0x41000; number_of_pages = 1 }
    else record { ty = 7; physical_start = 0x50800; number_of_pages = 3 }

booted : BitmapAllocator
booted = init_entries memory_map frame_allocator 3 0

booted-IsValid : IsValid booted
unfolding booted
booted-IsValid = init_entries-IsValid memory_map frame_allocator 3 0 frame_allocator-IsValid

allocate_frame_example : Allocated booted (allocate_frame booted)
allocate_frame_example = allocate_frame-Allocated booted booted-IsValid

allocations_example :
    Ascending 0 (allocations 4 booted)
    × (length (allocations 4 booted) ≡ min 4 (count (is_free booted) limit))
    × AllFree booted (allocations 4 booted)
allocations_example = allocations_lem 4 booted booted-IsValid

lowest_first : allocations 3 booted ≡ 0x3f000 ∷ 0x40000 ∷ 0x50000 ∷ []
unfolding allocations allocate_frame allocate_from take_frame booted init_entries mark_descriptor
    mark_range mark start_frame end_frame frame_allocator
lowest_first = refl
