-- ===== src/Fat32/Sample.antt =====
-- A small disk with PAYLOAD.TXT.
use qore_os.Base.{
  ℕ, ◌-◌, ◌≡◌, refl, List, Bool, [], ◌∷◌, ◌++◌, true, false, length, replicate, drop, ◌==◌,
  if◌then◌else◌, arith,
}
use qore_os.Text.{codes}
use qore_os.Fat32.{new, cluster_to_lba, dir_entries, dir_entry, bytes_eq}
use qore_os.Fat32.Utf8.{is_utf8_from}
use qore_os.Fat32.Payload.{lacks_payload, is_line}
use qore_os.Fat32.Boot.{HasPayload}

-- Two FATs of 60 sectors after 32 reserved ones, a sector in a cluster, the root at cluster 2.
abbrev boot : List ℕ
boot =
    replicate 13 0
    ++ (1 ∷ 32 ∷ 0 ∷ 2 ∷ (replicate 19 0 ++ (60 ∷ 0 ∷ 0 ∷ 0 ∷ 0 ∷ 0 ∷ 0 ∷ 0 ∷ 2 ∷ 0 ∷ 0 ∷ 0 ∷ [])))

abbrev entry_bytes : List ℕ → ℕ → List ℕ
entry_bytes name cluster = name ++ (0x20 ∷ (replicate 14 0 ++ (cluster ∷ 0 ∷ 3 ∷ 0 ∷ 0 ∷ 0 ∷ [])))

abbrev pad : List ℕ → List ℕ
pad bs = bs ++ replicate (512 - length bs) 0

abbrev root_entries : List ℕ
root_entries = pad (entry_bytes (codes "BOOT    CFG") 3 ++ entry_bytes (codes "PAYLOAD TXT") 4)

abbrev pub disk : ℕ → List ℕ
disk lba =
    if lba == 0
    then pad boot
    else if lba == 152
    then root_entries
    else if lba == 154
    then pad (codes "HI\n")
    else replicate 512 0

pub length-disk : (lba : ℕ) → length (disk lba) ≡ 512
length-disk lba = by_case (lba == 0) (lba == 152) (lba == 154)
  where
    by_case :
        (a b c : Bool)
        → length (
            if a
            then pad boot
            else if b
            then root_entries
            else if c
            then pad (codes "HI\n")
            else replicate 512 0)
          ≡ 512
    by_case true b c = refl
    by_case false true c = refl
    by_case false false true = refl
    by_case false false false = refl

pub disk-HasPayload : HasPayload disk (codes "HI")
unfolding new cluster_to_lba dir_entries bytes_eq lacks_payload is_line is_utf8_from
disk-HasPayload = record {
  before = dir_entry root_entries ∷ [];
  entry = dir_entry (drop 32 root_entries);
  after = dir_entries 14 (drop 64 root_entries);
  stop = 0x0A;
  rest = replicate 509 0;
  root = omega arith;
  entries = refl;
  is_first = refl;
  name = refl;
  cluster = omega arith;
  sector = refl;
  line = refl;
  ends = refl;
  short = omega arith;
  utf8 = refl;
}
