-- ===== src/Fat32.antt =====
-- The reader of FAT32 volumes, source/fs/fat32.c, over the RAM disk. The boot sector, the buffer of
-- a cluster and the disk's storage lie in one address space. A division by 0 is a fault, and a
-- function that ends without a value gives `none`.
pub mod Layout
pub mod Tree
mod Tests
use deputy_kernel.Base.{
  ℕ, zero, suc, ◌+◌, ◌-◌, ◌*◌, ◌/◌, ◌%◌, ◌^◌, Bool, true, false, not, ◌||◌, ◌==◌, ltb, leb,
  if◌then◌else◌, List, [], ◌∷◌, Run, ok, fault, ◌>>=◌,
}
use deputy_kernel.Utils.Buffers.{Bytes}
use deputy_kernel.Hw.Acpi.{word16, word32}

abbrev pub clus_eof : ℕ
clus_eof = 0x0FFFFFF8

-- The fields of `fat32_Bootsec_t` that are used.
pub record Bootsec : Type 0 where
  pub bytes_per_sector : ℕ
  pub sectors_per_cluster : ℕ
  pub reserved_sector_count : ℕ
  pub num_fats : ℕ
  pub total_sectors : ℕ
  pub fat_size : ℕ
  pub root_cluster : ℕ

-- The packed structure at an address.
unfoldable pub bootsec : Bytes → ℕ → Bootsec
bootsec mem a = record {
  bytes_per_sector = word16 mem (a + 11);
  sectors_per_cluster = mem (a + 13);
  reserved_sector_count = word16 mem (a + 14);
  num_fats = mem (a + 16);
  total_sectors = word32 mem (a + 32);
  fat_size = word32 mem (a + 36);
  root_cluster = word32 mem (a + 44);
}

-- The variables of the file.
pub record Fat : Type 0 where
  pub boot : Bootsec
  pub lba_start : ℕ
  pub data_sec_lba : ℕ
  pub data_sec_cnt : ℕ
  pub data_cluc_cnt : ℕ

unfoldable pub get_clus_lba : Fat → ℕ → ℕ
get_clus_lba f clus =
    (f.data_sec_lba + (clus + 2 ^ 32 - 2) % 2 ^ 32 * f.boot.sectors_per_cluster) % 2 ^ 32

unfoldable pub get_fat_ent_addr : Fat → ℕ → ℕ
get_fat_ent_addr f clus = (f.lba_start + clus * 4) % 2 ^ 32

unfoldable pub get_next_clus_num : Fat → (clus sec : ℕ) → Bytes → Run ℕ
get_next_clus_num f clus sec mem =
    if f.boot.bytes_per_sector == 0
    then fault
    else (let ofs = get_fat_ent_addr f clus % f.boot.bytes_per_sector in
        ok (word32 mem (sec + ofs) % 2 ^ 28))

-- `sum = ((sum & 1) ? 0x80 : 0) + (sum >> 1) + *str++`, over the bytes left.
unfoldable pub checksum_from : (left str sum : ℕ) → Bytes → ℕ
checksum_from zero str sum mem = sum
checksum_from (suc n) str sum mem =
    checksum_from n (suc str) (((if sum % 2 == 1 then 0x80 else 0) + sum / 2 + mem str) % 2 ^ 8) mem

unfoldable pub checksum : ℕ → Bytes → ℕ
checksum str mem = checksum_from 11 str 0 mem

-- The variables that `fat32_mount` sets from the boot sector at `lba`.
unfoldable pub layout : ℕ → Bootsec → Run Fat
layout lba b =
    let fats = b.num_fats * b.fat_size % 2 ^ 32 in
    let start = (lba + b.reserved_sector_count) % 2 ^ 32 in
    let used = (b.reserved_sector_count + fats) % 2 ^ 32 in
    let count = (b.total_sectors + 2 ^ 32 - used) % 2 ^ 32 in
    if b.sectors_per_cluster == 0
    then fault
    else ok (record {
      boot = b;
      lba_start = start;
      data_sec_lba = (start + fats) % 2 ^ 32;
      data_sec_cnt = count;
      data_cluc_cnt = count / b.sectors_per_cluster;
    })
