-- ===== src/Fat/Examples.antt =====
-- A small volume: the theorem applied.
use seraph.Prelude.{◌-◌, ◌^◌, ◌≡◌, inr, refl, none, some, arith, ◌==◌, if◌then◌else◌}
use seraph.Fat.{Sector, Device, FatType, FatState, FileRead, cached_entry, next_cluster}
use seraph.Fat.Chain.{Mounted}
use seraph.Fat.Read.{file_read, Reads, read_file_data-Reads}

-- The FAT: cluster 3 comes after 2, and ends the chain.
abbrev fat : Sector
fat i = if i == 4 then 3 else if i == 6 then 255 else if i == 7 then 255 else 0

-- The FAT is in sector 1, and each other sector holds its own number.
abbrev disk : Device
disk n = if n == 1 then some fat else some (λ i. n)

abbrev volume : FatState
volume = record {
  fat_type = FatType.fat16;
  bytes_per_sector = 512;
  sectors_per_cluster = 1;
  reserved_sectors = 1;
  num_fats = 1;
  root_entry_count = 0;
  fat_size = 1;
  root_cluster = 0;
  data_start_sector = 2;
  cached_fat_sector = 2 ^ 32 - 1;
  cached_fat_data = λ _. 0;
}

abbrev blank : Sector
blank _ = 0

-- 100 bytes in the second cluster.
abbrev request : FileRead
request = record { start_cluster = 2; file_size = 1000; offset = 600; max_len = 100 }

volume-Mounted : Mounted volume
volume-Mounted = record { sector = refl; cluster = omega arith; reserved = omega arith }

run_length : (file_read disk volume request blank).0 ≡ 100
run_length = refl

run_byte : (file_read disk volume request blank).1 7 ≡ 3
run_byte = refl

read_example : (s' : FatState) × Reads disk volume request blank s'
read_example = read_file_data-Reads disk volume request blank volume-Mounted (inr refl)

-- A volume with sectors of 1024 bytes is accepted, and a FAT entry in their second half panics.
run_panic : next_cluster disk (record volume { bytes_per_sector = 1024 }) 300 ≡ none
unfolding next_cluster cached_entry
run_panic = refl
