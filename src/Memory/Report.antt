-- ===== src/Memory/Report.antt =====
-- `init` of src/memory.rs, which prints where the level 4 table is. The text of CR3's flags is the one
-- that the crate x86_64 gives.
use qore_os.Base.{ℕ, List, ◌++◌, Option}
use qore_os.Text.{codes, hex}
use qore_os.Vga.{VgaWriter, println}

unfoldable pub init : (ℕ → Option (List ℕ)) → ℕ → List ℕ → Option VgaWriter → Option VgaWriter
init font phys_addr flags w0 =
    let w1 = println font (codes "Initializing Memory Management Unit (MMU)...") w0 in
    let w2 = println font (codes ">>> PAGING HIERARCHY SECURED <<<") w1 in
    let address = codes "Active PML4 Table located at Physical Address: " ++ hex phys_addr in
    let w3 = println font address w2 in
    let w4 = println font (codes "CR3 Hardware Flags: " ++ flags) w3 in
    println font (codes "-----------------------------------") w4
