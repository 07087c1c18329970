-- ===== src/Fat.antt =====
-- fs/fat/src/bpb.rs and fs/fat/src/fat.rs: the geometry of a FAT file system, the chain of clusters with
-- its cached sector, and the reads of a file. The block device is the argument `dev`: the 512 bytes of each
-- sector, or none if the driver answers with an error. An outer `none` stands for a panic.
pub mod Chain
pub mod Walk
pub mod Read
pub mod Mount
mod Examples
use seraph.Prelude.{
  ℕ, zero, suc, ◌+◌, ◌-◌, ◌*◌, ◌/◌, ◌%◌, ◌^◌, min, Bool, true, false, not, ◌&&◌, ◌||◌, Option, none,
  some, ◌==◌, ltb, leb, if◌then◌else◌, bit_and,
}

abbrev pub sector_size : ℕ
sector_size = 512

-- The bytes of a sector.
abbrev pub Sector : Type 0
Sector = ℕ → ℕ

abbrev pub Device : Type 0
Device = ℕ → Option Sector

pub data FatType : Type 0 where
  fat16 fat32 : FatType

pub record FatState : Type 0 where
  pub fat_type : FatType
  pub bytes_per_sector : ℕ
  pub sectors_per_cluster : ℕ
  pub reserved_sectors : ℕ
  pub num_fats : ℕ
  pub root_entry_count : ℕ
  pub fat_size : ℕ
  pub root_cluster : ℕ
  pub data_start_sector : ℕ
  pub cached_fat_sector : ℕ
  pub cached_fat_data : Sector

pub new : FatState
new = record {
  fat_type = FatType.fat32;
  bytes_per_sector = 512;
  sectors_per_cluster = 1;
  reserved_sectors = 0;
  num_fats = 2;
  root_entry_count = 0;
  fat_size = 0;
  root_cluster = 2;
  data_start_sector = 0;
  cached_fat_sector = 2 ^ 32 - 1;
  cached_fat_data = λ _. 0;
}

abbrev pub cluster_to_sector : FatState → ℕ → ℕ
cluster_to_sector s cluster =
    (s.data_start_sector + (cluster + 2 ^ 32 - 2) % 2 ^ 32 * s.sectors_per_cluster % 2 ^ 32)
    % 2 ^ 32

abbrev pub cluster_size : FatState → ℕ
cluster_size s = s.sectors_per_cluster * s.bytes_per_sector

-- `from_le_bytes`
abbrev pub u16_at : Sector → ℕ → ℕ
u16_at b o = b o + 256 * b (o + 1)

abbrev pub u32_at : Sector → ℕ → ℕ
u32_at b o = b o + 256 * (b (o + 1) + 256 * (b (o + 2) + 256 * b (o + 3)))

-- The fields that stand in front of the check for zero.
abbrev pub read_geometry : Sector → FatState → FatState
read_geometry b s = record s {
  bytes_per_sector = u16_at b 11;
  sectors_per_cluster = b 13;
  reserved_sectors = u16_at b 14;
  num_fats = b 16;
  root_entry_count = u16_at b 17;
}

-- The sum is below 2 ^ 32 before it is divided.
abbrev pub root_dir_sectors : FatState → ℕ
root_dir_sectors s = (s.root_entry_count * 32 + s.bytes_per_sector - 1) / s.bytes_per_sector

abbrev pub data_start : FatState → ℕ
data_start s =
    ((s.reserved_sectors + s.num_fats * s.fat_size % 2 ^ 32) % 2 ^ 32 + root_dir_sectors s) % 2 ^ 32

-- The rest of `parse_bpb`.
pub read_sizes : Sector → FatState → FatState
read_sizes b s =
    let fat_size = if u16_at b 22 == 0 then u32_at b 36 else u16_at b 22 in
    let total_sectors = if u16_at b 19 == 0 then u32_at b 32 else u16_at b 19 in
    let s1 = record s { root_cluster = u32_at b 44; fat_size = fat_size } in
    let total_clusters = (total_sectors - data_start s1) / s1.sectors_per_cluster in
    record s1 {
      data_start_sector = data_start s1;
      fat_type = if ltb total_clusters 65525 then FatType.fat16 else FatType.fat32;
    }

pub parse_bpb : Sector → FatState → Bool × FatState
parse_bpb b s =
    if not (b 510 == 85) || not (b 511 == 170)
    then (false, s)
    else if u16_at b 11 == 0 || b 13 == 0
    then (false, read_geometry b s)
    else (true, read_sizes b (read_geometry b s))

abbrev pub entry_width : FatType → ℕ
entry_width FatType.fat16 = 2
entry_width FatType.fat32 = 4

-- Where the entry of a cluster stands, from the start of the FAT.
abbrev pub fat_offset : FatState → ℕ → ℕ
fat_offset s cluster = cluster * entry_width s.fat_type % 2 ^ 32

abbrev pub fat_sector : FatState → ℕ → ℕ
fat_sector s cluster = (s.reserved_sectors + fat_offset s cluster / s.bytes_per_sector) % 2 ^ 32

-- The next cluster that a FAT entry gives, or none at the end of the chain and for a bad cluster.
abbrev pub decode : FatType → Sector → ℕ → Option ℕ
decode FatType.fat16 b o =
    if leb 65528 (u16_at b o) then none else if u16_at b o == 65527 then none else some (u16_at b o)
decode FatType.fat32 b o =
    let raw = bit_and (u32_at b o) 268435455 in
    if leb 268435448 raw then none else if raw == 268435447 then none else some raw

-- The entry in the cached sector. The index of its last byte is checked.
pub cached_entry : FatState → ℕ → Option (Option ℕ)
cached_entry s o =
    if leb (o + entry_width s.fat_type) sector_size
    then some (decode s.fat_type s.cached_fat_data o)
    else none

pub next_cluster : Device → FatState → ℕ → Option (Option ℕ × FatState)
next_cluster dev s cluster =
    let sector = fat_sector s cluster in
    let loaded : Option FatState =
      if s.cached_fat_sector == sector then some s else elim (dev sector) [
        | none ↦ none
        | some b ↦ some (record s { cached_fat_data = b; cached_fat_sector = sector })
      ] in
    if s.bytes_per_sector == 0 then none else elim loaded [
      | none ↦ some (none, s)
      | some s ↦ elim (cached_entry s (fat_offset s cluster % s.bytes_per_sector)) [
        | none ↦ none
        | some val ↦ some (val, s)
      ]
    ]

pub record FileRead : Type 0 where
  pub start_cluster : ℕ
  pub file_size : ℕ
  pub offset : ℕ
  pub max_len : ℕ

-- The walk along the chain, with the number of steps left.
pub walk : Device → FatState → ℕ → ℕ → Option (Option ℕ × FatState)
walk dev s cluster zero = some (some cluster, s)
walk dev s cluster (suc n) = elim (next_cluster dev s cluster) [
  | none ↦ none
  | some (none, s) ↦ some (none, s)
  | some (some c, s) ↦ walk dev s c n
]

-- `out[..len].copy_from_slice(&buf[from..from + len])`
abbrev pub copied : Sector → Sector → ℕ → ℕ → Sector
copied out buf from len i = if ltb i len then buf (from + i) else out i

-- The read once the cluster is found.
pub read_in_cluster : Device → FatState → FileRead → ℕ → Sector → Option (ℕ × Sector × FatState)
read_in_cluster dev s req cluster out =
    let offset_in_cluster = req.offset % cluster_size s in
    let offset_in_sector = offset_in_cluster % s.bytes_per_sector in
    let to_read = min (min req.max_len (req.file_size - req.offset)) sector_size in
    let available = (sector_size + 2 ^ 64 - offset_in_sector) % 2 ^ 64 in
    let copy_len = min to_read available in
    elim (dev ((cluster_to_sector s cluster + offset_in_cluster / s.bytes_per_sector) % 2 ^ 32)) [
      | none ↦ some (0, out, s)
      | some buf ↦
          if leb (offset_in_sector + copy_len) sector_size
          then some (copy_len, copied out buf offset_in_sector copy_len, s)
          else none
    ]

pub read_file_data : Device → FatState → FileRead → Sector → Option (ℕ × Sector × FatState)
read_file_data dev s req out =
    if leb req.file_size req.offset
    then some (0, out, s)
    else if cluster_size s == 0
    then none
    else elim (walk dev s req.start_cluster (req.offset / cluster_size s)) [
      | none ↦ none
      | some (none, s) ↦ some (0, out, s)
      | some (some cluster, s) ↦ read_in_cluster dev s req cluster out
    ]
