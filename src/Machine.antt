-- ===== src/Machine.antt =====
-- The machine under the kernel: physical memory, device registers, the leaked heap blocks and the
-- calls of `terminal_print`. The devices and the heap are code that the kernel only calls.
use qore_os.Base.{ℕ, ◌+◌, List, ◌∷◌}
use qore_os.Ram.{Ram, store}

-- What the kernel does not implement: `device k a` is the value that the k-th register read gives, at
-- address `a`, and `place k` the address of the k-th block that `Box::leak` or `alloc_zeroed` gives.
pub record Hardware : Type 0 where
  pub device : ℕ → ℕ → ℕ
  pub place : ℕ → ℕ

-- Register writes (address and value) and console lines (text and colour) come latest first.
pub record Machine : Type 0 where
  pub ram : Ram
  pub reads : ℕ
  pub writes : List (ℕ × ℕ)
  pub blocks : ℕ
  pub console : List (List ℕ × ℕ)

-- `core::ptr::write_volatile` to a device register.
abbrev pub write_mmio : ℕ → ℕ → Machine → Machine
write_mmio address value m = record m { writes = (address, value) ∷ m.writes }

abbrev pub print : List ℕ → ℕ → Machine → Machine
print text color m = record m { console = (text, color) ∷ m.console }

abbrev pub write_ram : ℕ → List ℕ → Machine → Machine
write_ram address bytes m = record m { ram = store m.ram address bytes }

-- A block leaked from the heap with `bytes` in it; its address is `hw.place` of the count before.
abbrev pub leak : Hardware → List ℕ → Machine → Machine
leak hw bytes m = record m { ram = store m.ram (hw.place m.blocks) bytes; blocks = m.blocks + 1 }
