-- ===== src/Fat32/Tests.antt =====
-- The clusters of a small disk.
use qore_os.Base.{◌+◌, ◌≤◌, arith}
use qore_os.Fat32.{new, cluster_to_lba}
use qore_os.Fat32.Sample.{disk}
use qore_os.Fat32.Volume.{cluster_to_lba_mono}
use qore_os.Fat32.Boot.{volume_of}

third_to_ninth :
    ((volume_of disk).first_data_sector ≤ cluster_to_lba (volume_of disk) 3)
    × (cluster_to_lba (volume_of disk) 3 + (volume_of disk).sectors_per_cluster
        ≤ cluster_to_lba (volume_of disk) 9)
unfolding new
third_to_ninth =
    cluster_to_lba_mono (volume_of disk) 3 9 (omega arith) (omega arith) (omega arith) (omega arith)
