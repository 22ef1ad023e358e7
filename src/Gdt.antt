-- ===== src/Gdt.antt =====
-- src/gdt.rs: the descriptor table with its selectors, the stacks of the task segment, and what `init`
-- loads. The table itself is that of the x86_64 crate.
pub mod Rings
mod Tests
use qore_os.Base.{ℕ, ◌+◌, ◌*◌, ◌≡◌, bit_and, bit_or}
use qore_os.Cpu.{Cpu}

pub data Descriptor : Type 0 where
  kernel_code_segment kernel_data_segment tss_segment user_code_segment user_data_segment :
      Descriptor

-- The privilege of a descriptor and the slots of 8 bytes that it takes, after the crate's manual.
abbrev pub privilege : Descriptor → ℕ
privilege user_code_segment = 3
privilege user_data_segment = 3
privilege _ = 0

abbrev pub slots : Descriptor → ℕ
slots tss_segment = 2
slots _ = 1

-- The crate's table: a new one has only the null descriptor, and an entry takes the next free slots. A
-- selector is the index of the first slot with the privilege.
pub record GlobalDescriptorTable : Type 1 where
  pub Table : Type 0
  pub new : Table
  pub add_entry : Descriptor → Table → ℕ × Table
  pub next : Table → ℕ
  pub next-new : next new ≡ 1
  pub next-add_entry : (d : Descriptor) (t : Table) → next (add_entry d t).1 ≡ next t + slots d
  pub selector : (d : Descriptor) (t : Table) → (add_entry d t).0 ≡ next t * 8 + privilege d

pub record Selectors : Type 0 where
  pub code_selector : ℕ
  pub data_selector : ℕ
  pub tss_selector : ℕ
  pub user_code : ℕ
  pub user_data : ℕ

-- GDT
unfoldable pub gdt : GlobalDescriptorTable → Selectors
gdt g =
    let (code_selector, t1) = g.add_entry kernel_code_segment g.new in
    let (data_selector, t2) = g.add_entry kernel_data_segment t1 in
    let (tss_selector, t3) = g.add_entry tss_segment t2 in
    let (user_code, t4) = g.add_entry user_code_segment t3 in
    let (user_data, t5) = g.add_entry user_data_segment t4 in
    record {
      code_selector = code_selector;
      data_selector = data_selector;
      tss_selector = tss_selector;
      user_code = user_code;
      user_data = user_data;
    }

pub record TaskStateSegment : Type 0 where
  pub double_fault_stack : ℕ
  pub privilege_stack : ℕ

abbrev pub stack_size : ℕ
stack_size = 4096 * 5

-- TSS, with the addresses of its two static stacks.
unfoldable pub tss : ℕ → ℕ → TaskStateSegment
tss double_fault_start privilege_start = record {
  double_fault_stack = double_fault_start + stack_size;
  privilege_stack = privilege_start + stack_size;
}

-- The segment registers; the table register and the task register have no state here.
unfoldable pub init : Selectors → Cpu → Cpu
init s c = record c {
  cs = s.code_selector;
  ds = s.data_selector;
  es = s.data_selector;
  fs = s.data_selector;
  gs = s.data_selector;
  ss = s.data_selector;
}

-- The selector that `_start` drops to ring 3 with.
abbrev pub ring3_selector : ℕ → ℕ
ring3_selector selector = bit_or (bit_and selector 0xFFFC) 3
