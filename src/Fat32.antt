-- ===== src/Fat32.antt =====
-- src/fat32.rs, and how src/main.rs reads PAYLOAD.TXT at boot. A sector is the list of its 512
-- bytes; a packed struct is read from its little-endian bytes. A `u32` sum that overflows wraps
-- here; a build with overflow checks panics there.
pub mod Utf8
pub mod Volume
pub mod Payload
pub mod Boot
pub mod Sample
mod Tests
use qore_os.Base.{
  ℕ, zero, suc, ◌+◌, ◌-◌, ◌*◌, ◌%◌, ◌^◌, List, [], ◌∷◌, ◌++◌, Bool, true, false, ◌&&◌, not, bit_or,
  take, drop, get_or, length, ltb, leb, ◌==◌, if◌then◌else◌,
}
use qore_os.Text.{codes}
use qore_os.Fat32.Utf8.{is_utf8}

abbrev pub le16 : List ℕ → ℕ → ℕ
le16 s i = get_or s i 0 + 256 * get_or s (i + 1) 0

abbrev pub le32 : List ℕ → ℕ → ℕ
le32 s i = le16 s i + 65536 * le16 s (i + 2)

pub record Fat32BootSector : Type 0 where
  pub jmp_boot : List ℕ
  pub oem_name : List ℕ
  pub bytes_per_sector : ℕ
  pub sectors_per_cluster : ℕ
  pub reserved_sector_count : ℕ
  pub num_fats : ℕ
  pub root_entry_count : ℕ
  pub total_sectors_16 : ℕ
  pub media : ℕ
  pub fat_size_16 : ℕ
  pub sectors_per_track : ℕ
  pub num_heads : ℕ
  pub hidden_sectors : ℕ
  pub total_sectors_32 : ℕ
  pub fat_size_32 : ℕ
  pub ext_flags : ℕ
  pub fs_version : ℕ
  pub root_cluster : ℕ
  pub fs_info : ℕ
  pub backup_boot_sector : ℕ
  pub reserved_0 : List ℕ
  pub drive_number : ℕ
  pub reserved_1 : ℕ
  pub boot_signature : ℕ
  pub volume_id : ℕ
  pub volume_label : List ℕ
  pub fs_type : List ℕ

-- `&*(sector.as_ptr() as *const Fat32BootSector)`
abbrev pub boot_sector : List ℕ → Fat32BootSector
boot_sector s = record {
  jmp_boot = take 3 s;
  oem_name = take 8 (drop 3 s);
  bytes_per_sector = le16 s 11;
  sectors_per_cluster = get_or s 13 0;
  reserved_sector_count = le16 s 14;
  num_fats = get_or s 16 0;
  root_entry_count = le16 s 17;
  total_sectors_16 = le16 s 19;
  media = get_or s 21 0;
  fat_size_16 = le16 s 22;
  sectors_per_track = le16 s 24;
  num_heads = le16 s 26;
  hidden_sectors = le32 s 28;
  total_sectors_32 = le32 s 32;
  fat_size_32 = le32 s 36;
  ext_flags = le16 s 40;
  fs_version = le16 s 42;
  root_cluster = le32 s 44;
  fs_info = le16 s 48;
  backup_boot_sector = le16 s 50;
  reserved_0 = take 12 (drop 52 s);
  drive_number = get_or s 64 0;
  reserved_1 = get_or s 65 0;
  boot_signature = get_or s 66 0;
  volume_id = le32 s 67;
  volume_label = take 11 (drop 71 s);
  fs_type = take 8 (drop 82 s);
}

pub record Fat32DirEntry : Type 0 where
  pub name : List ℕ
  pub attr : ℕ
  pub nt_res : ℕ
  pub crt_time_tenth : ℕ
  pub crt_time : ℕ
  pub crt_date : ℕ
  pub lst_acc_date : ℕ
  pub fst_clus_hi : ℕ
  pub wrt_time : ℕ
  pub wrt_date : ℕ
  pub fst_clus_lo : ℕ
  pub file_size : ℕ

abbrev pub dir_entry : List ℕ → Fat32DirEntry
dir_entry s = record {
  name = take 11 s;
  attr = get_or s 11 0;
  nt_res = get_or s 12 0;
  crt_time_tenth = get_or s 13 0;
  crt_time = le16 s 14;
  crt_date = le16 s 16;
  lst_acc_date = le16 s 18;
  fst_clus_hi = le16 s 20;
  wrt_time = le16 s 22;
  wrt_date = le16 s 24;
  fst_clus_lo = le16 s 26;
  file_size = le32 s 28;
}

-- The `n` directory entries of a sector, each 32 bytes.
unfoldable pub dir_entries : ℕ → List ℕ → List Fat32DirEntry
dir_entries zero s = []
dir_entries (suc n) s = dir_entry s ∷ dir_entries n (drop 32 s)

pub record Fat32Volume : Type 0 where
  pub first_data_sector : ℕ
  pub sectors_per_cluster : ℕ
  pub root_cluster : ℕ
  pub fat_start_sector : ℕ

-- `Fat32Volume::new`
unfoldable pub new : Fat32BootSector → Fat32Volume
new bpb =
    let fat_start_sector = bpb.reserved_sector_count in
    record {
      first_data_sector = (fat_start_sector + bpb.num_fats * bpb.fat_size_32 % 2 ^ 32) % 2 ^ 32;
      sectors_per_cluster = bpb.sectors_per_cluster;
      root_cluster = bpb.root_cluster;
      fat_start_sector = fat_start_sector;
    }

unfoldable pub cluster_to_lba : Fat32Volume → ℕ → ℕ
cluster_to_lba v cluster =
    if ltb cluster 2
    then 0
    else (v.first_data_sector + (cluster - 2) * v.sectors_per_cluster % 2 ^ 32) % 2 ^ 32

-- `==` of two byte arrays.
unfoldable pub bytes_eq : List ℕ → List ℕ → Bool
bytes_eq [] [] = true
bytes_eq [] (y ∷ ys) = false
bytes_eq (x ∷ xs) [] = false
bytes_eq (x ∷ xs) (y ∷ ys) = x == y && bytes_eq xs ys

-- `((hi as u32) << 16) | lo as u32`
abbrev pub first_cluster : Fat32DirEntry → ℕ
first_cluster e = bit_or (e.fst_clus_hi * 2 ^ 16) e.fst_clus_lo

-- `for entry in entries { if .. { payload_cluster = ..; break; } }`, which starts from 0.
unfoldable pub find_payload : List Fat32DirEntry → ℕ
find_payload [] = 0
find_payload (e ∷ es) =
    if bytes_eq e.name (codes "PAYLOAD TXT") then first_cluster e else find_payload es

-- `while str_len < 512 && s[str_len] != 0 && s[str_len] != 0x0A { str_len += 1; }`
unfoldable pub text_len : ℕ → List ℕ → ℕ
text_len zero s = 0
text_len (suc n) [] = 0
text_len (suc n) (b ∷ s) = if not (b == 0) && not (b == 0x0A) then suc (text_len n s) else 0

-- What the boot code asks of the drive and the console, over a state of theirs.
pub record Drive (S : Type 0) : Type 0 where
  pub read_sector : S → ℕ → List ℕ × S
  pub terminal_print : List ℕ → ℕ → S → S

-- What `load_payload` makes of the sector that PAYLOAD.TXT starts with.
unfoldable pub show_payload : {S : Type 0} → Drive S → List ℕ → S → List ℕ × S
show_payload drive payload_sector s =
    let text = take (text_len 512 payload_sector) payload_sector in
    if is_utf8 text
    then (
      codes "FILE CONTENT: " ++ text,
      drive.terminal_print (codes "\n> FAT32 DECRYPTED: PAYLOAD.TXT EXTRACTED\n") 0x10B981 s,
    )
    else ([], s)

-- The block of `_start` that fills `sector_data_str`, which is empty before.
unfoldable pub load_payload : {S : Type 0} → Drive S → S → List ℕ × S
load_payload drive s =
    let boot = drive.read_sector s 0 in
    let volume = new (boot_sector boot.0) in
    let root_lba = cluster_to_lba volume volume.root_cluster in
    let root = drive.read_sector boot.1 root_lba in
    let payload_cluster = find_payload (dir_entries 16 root.0) in
    let payload = drive.read_sector root.1 (cluster_to_lba volume payload_cluster) in
    if ltb 0 root_lba
    then (if leb 2 payload_cluster
        then show_payload drive payload.0 payload.1
        else (codes "ERROR: PAYLOAD.TXT NOT FOUND!", root.1))
    else (codes "ERROR: INVALID FAT32 ROOT CLUSTER", boot.1)
