-- ===== src/Heap.antt =====
-- src/allocator.rs: what the kernel's heap is set up with. The allocator itself is the crate
-- linked_list_allocator; the addresses that it gives are the parameter `place` of Machine.
use qore_os.Base.{ℕ, ◌*◌, ◌/◌, List, ◌++◌, Option}
use qore_os.Text.{codes, decimal}
use qore_os.Vga.{VgaWriter, println}

abbrev pub heap_size : ℕ
heap_size = 32 * 1024 * 1024

-- The memory that the allocator is given.
pub record LockedHeap : Type 0 where
  pub bottom : ℕ
  pub size : ℕ

-- With the address of the static HEAP_MEMORY.
unfoldable pub init_heap :
    (ℕ → Option (List ℕ)) → ℕ → Option VgaWriter → LockedHeap × Option VgaWriter
init_heap font heap_memory writer =
    let line =
      codes ">>> VOLATILE HEAP ALLOCATOR ONLINE: "
      ++ (decimal (heap_size / 1024 / 1024) ++ codes " MB Reserved <<<") in
    (record { bottom = heap_memory; size = heap_size }, println font line writer)
