-- ===== src/Smp/Processor.antt =====
-- The other processors of src/smp.rs from their entry into long mode on: the instructions behind the
-- bytes of `long_mode`, and `ap_main`. The parts before, in real and protected mode, write no memory.
use qore_os.Base.{
  ℕ, ◌+◌, ◌-◌, ◌*◌, ◌%◌, ◌^◌, ◌<◌, ◌≡◌, refl, List, [], ◌∷◌, ◌++◌, ◌==◌, if◌then◌else◌,
}
use qore_os.Ram.{Ram, load, store, from_le, le_bytes, store64}
use qore_os.Smp.{Statics, long_mode}

-- The words at fixed addresses that the code reads.
pub data Cell : Type 0 where
  counter stack_top entry : Cell

abbrev pub address : Cell → ℕ
address counter = 0x8600
address stack_top = 0x8608
address entry = 0x8610

-- The counter has 32 bits, the others 64.
abbrev pub width : Cell → ℕ
width counter = 4
width _ = 8

abbrev pub read : Ram → Cell → ℕ
read ram x = from_le (load ram (address x) (width x))

pub data Instr : Type 0 where
  mov_eax : ℕ → Instr
  mov_seg : ℕ → Instr  -- by the code of the segment register
  lock_xadd_eax : Instr  -- on the counter
  shl_eax : ℕ → Instr
  mov_rbx : Cell → Instr
  sub_rbx_rax mov_rsp_rbx xor_rbp_rbp : Instr
  mov_rax : Cell → Instr
  call_rax cli hlt jmp_hlt : Instr

-- The bytes of an instruction.
unfoldable pub encode : Instr → List ℕ
encode (mov_eax v) = 0xB8 ∷ le_bytes 4 v
encode (mov_seg s) = 0x8E ∷ (0xC0 + s * 8) ∷ []
encode lock_xadd_eax = 0xF0 ∷ 0x0F ∷ 0xC1 ∷ 0x04 ∷ 0x25 ∷ le_bytes 4 (address counter)
encode (shl_eax k) = 0xC1 ∷ 0xE0 ∷ k ∷ []
encode (mov_rbx x) = 0x48 ∷ 0x8B ∷ 0x1C ∷ 0x25 ∷ le_bytes 4 (address x)
encode sub_rbx_rax = 0x48 ∷ 0x29 ∷ 0xC3 ∷ []
encode mov_rsp_rbx = 0x48 ∷ 0x89 ∷ 0xDC ∷ []
encode xor_rbp_rbp = 0x48 ∷ 0x31 ∷ 0xED ∷ []
encode (mov_rax x) = 0x48 ∷ 0x8B ∷ 0x04 ∷ 0x25 ∷ le_bytes 4 (address x)
encode call_rax = 0xFF ∷ 0xD0 ∷ []
encode cli = 0xFA ∷ []
encode hlt = 0xF4 ∷ []
encode jmp_hlt = 0xEB ∷ 0xFD ∷ []

unfoldable pub encode_all : List Instr → List ℕ
encode_all [] = []
encode_all (i ∷ is) = encode i ++ encode_all is

unfoldable pub program : List Instr
program =
    mov_eax 0x10
    ∷ mov_seg 3
    ∷ mov_seg 0
    ∷ mov_seg 2
    ∷ mov_seg 4
    ∷ mov_seg 5
    ∷ mov_eax 0
    ∷ lock_xadd_eax
    ∷ shl_eax 14
    ∷ mov_rbx stack_top
    ∷ sub_rbx_rax
    ∷ mov_rsp_rbx
    ∷ xor_rbp_rbp
    ∷ mov_rax entry
    ∷ call_rax
    ∷ cli
    ∷ hlt
    ∷ jmp_hlt
    ∷ []

-- The program is what the bytes say.
encode_all-program : encode_all program ≡ long_mode
unfolding encode_all encode program long_mode le_bytes
encode_all-program = refl

pub record Regs : Type 0 where
  pub rax : ℕ
  pub rbx : ℕ
  pub rsp : ℕ
  pub rbp : ℕ

-- The instruction on the registers, for the values of the words that it may read.
unfoldable pub exec : (Cell → ℕ) → Instr → Regs → Regs
exec words (mov_eax v) r = record r { rax = v }
exec words lock_xadd_eax r = record r { rax = words counter }
exec words (shl_eax k) r = record r { rax = r.rax % 2 ^ 32 * 2 ^ k % 2 ^ 32 }
exec words (mov_rbx x) r = record r { rbx = words x }
exec words sub_rbx_rax r = record r { rbx = (r.rbx + 2 ^ 64 - r.rax) % 2 ^ 64 }
exec words mov_rsp_rbx r = record r { rsp = r.rbx }
exec words xor_rbp_rbp r = record r { rbp = 0 }
exec words (mov_rax x) r = record r { rax = words x }
exec words call_rax r = record r { rsp = (r.rsp + 2 ^ 64 - 8) % 2 ^ 64 }
exec words _ r = r

-- The instruction on memory; a call leaves the address behind it on the stack.
unfoldable pub effect : Instr → Regs → Ram → Ram
effect lock_xadd_eax r ram =
    store ram (address counter) (le_bytes 4 ((read ram counter + r.rax) % 2 ^ 32))
effect call_rax r ram = store64 ram ((r.rsp + 2 ^ 64 - 8) % 2 ^ 64) 0x809D
effect _ r ram = ram

-- Where a processor stands: before the rest of the program, at the start of the function that it has
-- called, or in the last loop of `ap_main`.
pub data Place : Type 0 where
  code : List Instr → Place
  called : ℕ → Place
  halted : Place

pub record Core : Type 0 where
  pub place : Place
  pub regs : Regs

unfoldable pub next : Instr → List Instr → Regs → Place
next call_rax is r = called r.rax
next _ is r = code is

pub record Shared : Type 0 where
  pub ram : Ram
  pub ap_count : ℕ

-- One step of one processor. Each memory access is one step, and no two run at once.
pub data Move (s : Statics) (m : Shared) : Core → Shared → Core → Type 0 where
  instruction :
      (i : Instr) (is : List Instr) (r : Regs)
      → Move s m
          (record { place = code (i ∷ is); regs = r })
          (record m { ram = effect i r m.ram })
          (record { place = next i is r; regs = exec (read m.ram) i r })
  fetch_add :
      (target : ℕ) (r : Regs)
      → target ≡ s.ap_main
      → Move s m
          (record { place = called target; regs = r })
          (record m { ap_count = (m.ap_count + 1) % 2 ^ 64 })
          (record { place = halted; regs = r })

pub record System : Type 0 where
  pub shared : Shared
  pub cores : ℕ → Core

abbrev pub update : (ℕ → Core) → ℕ → Core → ℕ → Core
update f i c j = if j == i then c else f j

pub data Step (s : Statics) (n : ℕ) (t : System) : System → Type 0 where
  pick :
      (i : ℕ) {m : Shared} {c : Core}
      → i < n
      → Move s t.shared (t.cores i) m c
      → Step s n t (record { shared = m; cores = update t.cores i c })

-- `n` processors enter long mode with any registers.
abbrev pub awake : Ram → (ℕ → Regs) → System
awake ram regs = record {
  shared = record { ram = ram; ap_count = 0 };
  cores = λ i. record { place = code program; regs = regs i };
}

pub data Reach (s : Statics) (n : ℕ) (t : System) : System → Type 0 where
  here : Reach s n t t
  later : {u v : System} → Reach s n t u → Step s n u v → Reach s n t v
