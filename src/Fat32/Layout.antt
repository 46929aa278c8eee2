-- ===== src/Fat32/Layout.antt =====
-- Where the clusters of a volume lie.
use native.Mathlib.Nat.{add-mul, mul-le-mul_right, div-mul-le_self, div-le_self}
use deputy_kernel.Base.{
  ℕ, ◌+◌, ◌-◌, ◌*◌, ◌/◌, ◌%◌, ◌^◌, ◌<◌, ◌≤◌, ◌≡◌, refl, arith, false, ◌==◌, ok,
}
use deputy_kernel.Fat32.{Bootsec, Fat, get_clus_lba, layout}

-- A volume at `lba` whose areas fit it, and which ends inside the 32-bit sector numbers.
pub record IsVolume (lba : ℕ) (b : Bootsec) : Type 0 where
  pub some_sectors : 0 < b.sectors_per_cluster
  pub areas : b.reserved_sector_count + b.num_fats * b.fat_size ≤ b.total_sectors
  pub ends : lba + b.total_sectors < 2 ^ 32

-- What `layout` makes of it.
abbrev pub volume : ℕ → Bootsec → Fat
volume lba b = record {
  boot = b;
  lba_start = lba + b.reserved_sector_count;
  data_sec_lba = lba + b.reserved_sector_count + b.num_fats * b.fat_size;
  data_sec_cnt = b.total_sectors - (b.reserved_sector_count + b.num_fats * b.fat_size);
  data_cluc_cnt =
      (b.total_sectors - (b.reserved_sector_count + b.num_fats * b.fat_size))
      / b.sectors_per_cluster;
}

layout-volume : (lba : ℕ) (b : Bootsec) → IsVolume lba b → layout lba b ≡ ok (volume lba b)
unfolding layout
layout-volume lba b v =
    let a = v.areas in
    let e = v.ends in
    let fats : b.num_fats * b.fat_size % 2 ^ 32 ≡ b.num_fats * b.fat_size = omega arith in
    let start : (lba + b.reserved_sector_count) % 2 ^ 32 ≡ lba + b.reserved_sector_count =
      omega arith in
    let used : (b.reserved_sector_count + b.num_fats * b.fat_size) % 2 ^ 32
        ≡ b.reserved_sector_count + b.num_fats * b.fat_size =
      omega arith in
    let region : (lba + b.reserved_sector_count + b.num_fats * b.fat_size) % 2 ^ 32
        ≡ lba + b.reserved_sector_count + b.num_fats * b.fat_size =
      omega arith in
    let count : (b.total_sectors + 2 ^ 32 - (b.reserved_sector_count + b.num_fats * b.fat_size))
          % 2 ^ 32
        ≡ b.total_sectors - (b.reserved_sector_count + b.num_fats * b.fat_size) =
      omega arith in
    let spc : (b.sectors_per_cluster == 0) ≡ false = ground (arith, v.some_sectors) in
    rw (spc, fats, start, used, region, count) refl

-- The sectors of cluster `c`, before the sum wraps.
cluster-end : (c spc count : ℕ) → 2 ≤ c → c < 2 + count / spc → (c - 2) * spc + spc ≤ count
cluster-end c spc count h k =
    let a = add-mul (c - 2) 1 spc in
    let m = mul-le-mul_right {m = c - 2 + 1} {n = count / spc} spc (omega arith) in
    let d = div-mul-le_self count spc in omega arith

get_clus_lba-volume :
    (lba : ℕ) (b : Bootsec) (c : ℕ)
    → IsVolume lba b
    → 2 ≤ c
    → c < 2 + (volume lba b).data_cluc_cnt
    → (get_clus_lba (volume lba b) c
        ≡ (volume lba b).data_sec_lba + (c - 2) * b.sectors_per_cluster)
      × ((volume lba b).data_sec_lba + (c - 2) * b.sectors_per_cluster + b.sectors_per_cluster
          ≤ lba + b.total_sectors)
unfolding get_clus_lba
get_clus_lba-volume lba b c v h k =
    let a = v.areas in
    let e = v.ends in
    let z =
      cluster-end c b.sectors_per_cluster
        (b.total_sectors - (b.reserved_sector_count + b.num_fats * b.fat_size)) h k in
    let s = v.some_sectors in
    let w =
      div-mul-le_self (b.total_sectors - (b.reserved_sector_count + b.num_fats * b.fat_size))
        b.sectors_per_cluster in
    let l : (volume lba b).data_cluc_cnt
        ≤ (b.total_sectors - (b.reserved_sector_count + b.num_fats * b.fat_size)) =
      div-le_self _ _ in
    let m : (c + 2 ^ 32 - 2) % 2 ^ 32 ≡ c - 2 = omega arith in (rw m (omega arith), omega arith)

-- On a volume with at least one sector to a cluster, whose reserved sectors and tables fit it and
-- which ends below 2 ^ 32: `fat32_mount` computes the layout without wrapping, and the sectors of
-- two different clusters of the data area, by `fat32_getClusLBA`, do not overlap and lie between
-- the start of that area and the end of the volume.
pub clusters-apart :
    (lba : ℕ) (b : Bootsec) (c d : ℕ)
    → IsVolume lba b
    → 2 ≤ c
    → c < d
    → d < 2 + (volume lba b).data_cluc_cnt
    → (layout lba b ≡ ok (volume lba b))
      × ((volume lba b).data_sec_lba ≤ get_clus_lba (volume lba b) c)
      × (get_clus_lba (volume lba b) c + b.sectors_per_cluster ≤ get_clus_lba (volume lba b) d)
      × (get_clus_lba (volume lba b) d + b.sectors_per_cluster ≤ lba + b.total_sectors)
clusters-apart lba b c d v h k l =
    let p = get_clus_lba-volume lba b c v h (omega arith) in
    let q = get_clus_lba-volume lba b d v (omega arith) l in
    let s = add-mul (c - 2) 1 b.sectors_per_cluster in
    let m = mul-le-mul_right {m = c - 2 + 1} {n = d - 2} b.sectors_per_cluster (omega arith) in
    (layout-volume lba b v, rw p.0 (omega arith), rw (p.0, q.0) (omega arith), rw q.0 q.1)
