-- ===== src/Smp/Handover.antt =====
-- What the other processors read.
use qore_os.Base.{ℕ, ◌+◌, ◌^◌, ◌<◌, ◌≡◌, ap, ◌∙◌, arith}
use qore_os.Ram.{Ram, load, from_le, le_bytes, load64, from_le-le_bytes}
use qore_os.Ram.Writes.{Ordered, AllRead, write_all-AllRead}
use qore_os.Smp.{
  Statics, real_mode, protected_mode, long_mode, trampoline, configuration, copy_trampoline,
  map_trampoline,
}

configuration-Ordered : (s : Statics) (cr3 : ℕ) → Ordered (configuration s cr3)
unfolding configuration trampoline real_mode protected_mode long_mode le_bytes
configuration-Ordered s cr3 = omega arith

-- The code, the descriptor table with its register, and the words that the code reads.
pub record Handover (s : Statics) (cr3 : ℕ) (ram : Ram) : Type 0 where
  pub code : load ram 0x8000 161 ≡ trampoline
  pub null_segment : load64 ram 0x8120 ≡ 0
  pub code32 : load64 ram 0x8128 ≡ 0x00CF9A000000FFFF
  pub flat : load64 ram 0x8130 ≡ 0x00CF92000000FFFF
  pub code64 : load64 ram 0x8138 ≡ 0x00AF9A000000FFFF
  pub limit : from_le (load ram 0x8100 2) ≡ 31
  pub table : from_le (load ram 0x8102 4) ≡ 0x8120
  pub root : from_le (load ram 0x8500 4) ≡ cr3
  pub count : from_le (load ram 0x8600 4) ≡ 0
  pub stack_top : load64 ram 0x8608 ≡ s.ap_stacks + 65536
  pub entry : load64 ram 0x8610 ≡ s.ap_main

word :
    (ram : Ram) (p n v : ℕ) → load ram p n ≡ le_bytes n v → v < 256 ^ n → from_le (load ram p n) ≡ v
word ram p n v h l = ap from_le h ∙ from_le-le_bytes n v l

AllRead-Handover :
    (s : Statics) (cr3 : ℕ) (ram : Ram)
    → cr3 < 2 ^ 32
    → s.ap_stacks + 65536 < 2 ^ 64
    → s.ap_main < 2 ^ 64
    → AllRead ram (configuration s cr3)
    → Handover s cr3 ram
unfolding configuration trampoline real_mode protected_mode long_mode le_bytes
AllRead-Handover s cr3 ram l m n r = record {
  code = r.0;
  null_segment = word ram 0x8120 8 0 r.1.0 (omega arith);
  code32 = word ram 0x8128 8 0x00CF9A000000FFFF r.1.1.0 (omega arith);
  flat = word ram 0x8130 8 0x00CF92000000FFFF r.1.1.1.0 (omega arith);
  code64 = word ram 0x8138 8 0x00AF9A000000FFFF r.1.1.1.1.0 (omega arith);
  limit = word ram 0x8100 2 31 r.1.1.1.1.1.0 (omega arith);
  table = word ram 0x8102 4 0x8120 r.1.1.1.1.1.1.0 (omega arith);
  root = word ram 0x8500 4 cr3 r.1.1.1.1.1.1.1.0 (omega arith);
  count = word ram 0x8600 4 0 r.1.1.1.1.1.1.1.1.0 (omega arith);
  stack_top = word ram 0x8608 8 (s.ap_stacks + 65536) r.1.1.1.1.1.1.1.1.1.0 (omega arith);
  entry = word ram 0x8610 8 s.ap_main r.1.1.1.1.1.1.1.1.1.1.0 (omega arith);
}

-- After `copy_trampoline` the low memory holds what the other processors are to read: the code at
-- 0x8000, the descriptor table at 0x8120 and its register at 0x8100, and, for a CR3 below 2 ^ 32, that
-- value at 0x8500, a counter of 0, the end of the stacks, and the address of `ap_main`.
pub copy_trampoline-Handover :
    (s : Statics) (ram : Ram) (cr3 : ℕ)
    → cr3 < 2 ^ 32
    → s.ap_stacks + 65536 < 2 ^ 64
    → s.ap_main < 2 ^ 64
    → Handover s cr3 (copy_trampoline s ram cr3)
unfolding copy_trampoline
copy_trampoline-Handover s ram cr3 l m n = AllRead-Handover s cr3 _ l m n (
    write_all-AllRead (configuration s cr3) (map_trampoline s ram cr3)
      (configuration-Ordered s cr3))
