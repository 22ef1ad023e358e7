-- ===== src/Fat32/Boot.antt =====
-- What the boot code finds on a disk with PAYLOAD.TXT.
use qore_os.Base.{
  ℕ, suc, ◌≤◌, ◌<◌, ◌≡◌, refl, ap, ◌∙◌, List, ◌∷◌, ◌++◌, true, ◌||◌, arith, length, leb, ◌==◌,
  lt→ltb,
}
use qore_os.Text.{codes}
use qore_os.Fat32.{
  Fat32Volume, Fat32DirEntry, boot_sector, new, cluster_to_lba, dir_entries, first_cluster,
  find_payload, Drive, show_payload, load_payload,
}
use qore_os.Fat32.Utf8.{is_utf8}
use qore_os.Fat32.Payload.{lacks_payload, find_payload-append, is_line, take-text_len}

-- In the states that are `Ok (suc n)` the drive reads from `disk`, the bytes of each of its sectors,
-- and is `Ok n` after it.
abbrev pub Reads : {S : Type 0} → Drive S → ℕ → (ℕ → List ℕ) → (ℕ → S → Type 0) → Type 0
Reads {S} drive sectors disk Ok =
    (n : ℕ) (s : S) (lba : ℕ)
    → lba < sectors
    → Ok (suc n) s
    → ((drive.read_sector s lba).0 ≡ disk lba) × Ok n (drive.read_sector s lba).1

abbrev pub volume_of : (ℕ → List ℕ) → Fat32Volume
volume_of disk = new (boot_sector (disk 0))

abbrev pub root_lba_of : (ℕ → List ℕ) → ℕ
root_lba_of disk = cluster_to_lba (volume_of disk) (volume_of disk).root_cluster

-- The first sector of the root directory has an entry for PAYLOAD.TXT among its sixteen, the first of
-- that name is `entry`, and the file's first sector begins with the line `text` and a byte that ends it.
pub record HasPayload (disk : ℕ → List ℕ) (text : List ℕ) : Type 0 where
  pub before : List Fat32DirEntry
  pub entry : Fat32DirEntry
  pub after : List Fat32DirEntry
  pub stop : ℕ
  pub rest : List ℕ
  pub root : 0 < root_lba_of disk
  pub entries : dir_entries 16 (disk (root_lba_of disk)) ≡ before ++ (entry ∷ after)
  pub is_first : lacks_payload before ≡ true
  pub name : entry.name ≡ codes "PAYLOAD TXT"
  pub cluster : 2 ≤ first_cluster entry
  pub sector : disk (cluster_to_lba (volume_of disk) (first_cluster entry)) ≡ text ++ (stop ∷ rest)
  pub line : is_line text ≡ true
  pub ends : (stop == 0 || stop == 0x0A) ≡ true
  pub short : length text < 512
  pub utf8 : is_utf8 text ≡ true

-- The three sectors that are read are on the disk.
pub record OnDisk (sectors : ℕ) {disk : ℕ → List ℕ} {text : List ℕ} (h : HasPayload disk text)
    : Type 0 where
  pub boot : 0 < sectors
  pub root : root_lba_of disk < sectors
  pub file : cluster_to_lba (volume_of disk) (first_cluster h.entry) < sectors

found :
    {disk : ℕ → List ℕ} {text : List ℕ} (h : HasPayload disk text)
    → find_payload (dir_entries 16 (disk (root_lba_of disk))) ≡ first_cluster h.entry
found h = ap find_payload h.entries ∙ find_payload-append h.before h.entry h.after h.is_first h.name

show_payload_lem :
    {S : Type 0} (drive : Drive S) {disk : ℕ → List ℕ} {text : List ℕ} (h : HasPayload disk text)
    (s : S)
    → (show_payload drive (text ++ (h.stop ∷ h.rest)) s).0 ≡ codes "FILE CONTENT: " ++ text
unfolding show_payload
show_payload_lem drive {text = text} h s =
    rw (take-text_len 512 text h.stop h.rest h.line h.ends h.short, h.utf8) refl

-- From a drive that makes three reads of a disk with PAYLOAD.TXT in the first sector of its root
-- directory, in a cluster from 2 up, all on the disk, and whose first sector begins with a UTF-8 line of
-- under 512 bytes, the boot code loads that line, behind "FILE CONTENT: ", as the text that the kernel
-- serves.
pub load_payload_lem :
    {S : Type 0} (drive : Drive S) (sectors : ℕ) (disk : ℕ → List ℕ) (text : List ℕ)
    (Ok : ℕ → S → Type 0) (s : S)
    → Reads drive sectors disk Ok
    → Ok 3 s
    → (h : HasPayload disk text) → OnDisk sectors h
    → (load_payload drive s).0 ≡ codes "FILE CONTENT: " ++ text
unfolding load_payload
load_payload_lem drive sectors disk text Ok s reads ok h on =
    let boot = drive.read_sector s 0 in
    let lba = root_lba_of disk in
    let root = drive.read_sector boot.1 lba in
    let cluster = first_cluster h.entry in
    let first = reads 2 s 0 on.boot ok in
    let second = reads 1 boot.1 lba on.root first.1 in
    let two : leb 2 cluster ≡ true = ground (arith, h.cluster) in
    rw
      (
        first.0,
        second.0,
        found h,
        (reads 0 root.1 (cluster_to_lba (volume_of disk) cluster) on.file second.1).0,
        lt→ltb 0 lba h.root,
        two,
        h.sector,
      )
      (show_payload_lem drive h _)
