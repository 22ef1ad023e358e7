-- ===== src/Fat32/Volume.antt =====
-- The places of clusters on the disk.
use qore_os.Base.{ℕ, suc, ◌+◌, ◌-◌, ◌*◌, ◌^◌, ◌≤◌, ◌<◌, ◌≡◌, arith}
use qore_os.Fat32.{Fat32Volume, cluster_to_lba}
use native.Mathlib.Nat.{mul-le-mul_right}

-- The data area, as far as cluster `c`, lies below sector 2 ^ 32, so that no sum wraps.
abbrev pub Reaches : Fat32Volume → ℕ → Type 0
Reaches v c = v.first_data_sector + (c - 2) * v.sectors_per_cluster + v.sectors_per_cluster ≤ 2 ^ 32

cluster_to_lba_plain :
    (v : Fat32Volume) (c : ℕ)
    → 2 ≤ c
    → 0 < v.sectors_per_cluster
    → Reaches v c
    → cluster_to_lba v c ≡ v.first_data_sector + (c - 2) * v.sectors_per_cluster
unfolding cluster_to_lba
cluster_to_lba_plain v c h p r = ground arith

-- The sectors of different clusters that the volume reaches to, two and up, do not overlap: the
-- later cluster starts at or after the end of the earlier one, which starts in the data area.
pub cluster_to_lba_mono :
    (v : Fat32Volume) (c d : ℕ)
    → 0 < v.sectors_per_cluster
    → 2 ≤ c
    → c < d
    → Reaches v d
    → (v.first_data_sector ≤ cluster_to_lba v c)
      × (cluster_to_lba v c + v.sectors_per_cluster ≤ cluster_to_lba v d)
cluster_to_lba_mono v c d p h l r =
    let step : (c - 2) * v.sectors_per_cluster + v.sectors_per_cluster
        ≤ (d - 2) * v.sectors_per_cluster =
      omega (arith, mul-le-mul_right v.sectors_per_cluster (suc_le c d h l)) in
    let at_c = cluster_to_lba_plain v c h p (omega (arith, step, r)) in
    let at_d = cluster_to_lba_plain v d (omega arith) p r in
    (omega (arith, at_c), omega (arith, at_c, at_d, step))
  where
    suc_le : (c d : ℕ) → 2 ≤ c → c < d → suc (c - 2) ≤ d - 2
    suc_le c d h l = omega arith
