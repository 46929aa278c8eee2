-- ===== src/Fat32/Tests.antt =====
-- A volume of 70000 sectors.
use deputy_kernel.Base.{◌+◌, ◌≤◌, ◌≡◌, arith, ok}
use deputy_kernel.Fat32.{Bootsec, get_clus_lba, layout}
use deputy_kernel.Fat32.Layout.{IsVolume, volume, clusters-apart}

abbrev sector : Bootsec
sector = record {
  bytes_per_sector = 512;
  sectors_per_cluster = 1;
  reserved_sector_count = 32;
  num_fats = 2;
  total_sectors = 70000;
  fat_size = 600;
  root_cluster = 2;
}

sector-IsVolume : IsVolume 2048 sector
sector-IsVolume = record { some_sectors = omega arith; areas = omega arith; ends = omega arith }

clusters-apart_example :
    (layout 2048 sector ≡ ok (volume 2048 sector))
    × ((volume 2048 sector).data_sec_lba ≤ get_clus_lba (volume 2048 sector) 2)
    × (get_clus_lba (volume 2048 sector) 2 + 1 ≤ get_clus_lba (volume 2048 sector) 900)
    × (get_clus_lba (volume 2048 sector) 900 + 1 ≤ 2048 + 70000)
clusters-apart_example =
    clusters-apart 2048 sector 2 900 sector-IsVolume (omega arith) (omega arith) (omega arith)
