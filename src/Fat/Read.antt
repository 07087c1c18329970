-- ===== src/Fat/Read.antt =====
-- `read_file_data`.
use seraph.Prelude.{
  ℕ, ◌+◌, ◌-◌, ◌*◌, ◌/◌, ◌%◌, ◌^◌, ◌≤◌, ◌<◌, ◌≡◌, ◌≢◌, inl, inr, refl, sym, ◌∙◌, ap, ap₂, true,
  false, Option, none, some, arith, ◌==◌, leb, if◌then◌else◌, if-true, if-false, Bool-cases, ==_ne,
  min,
}
use seraph.Fat.{
  Sector, Device, FatState, FileRead, cluster_to_sector, cluster_size, copied, walk,
  read_in_cluster, read_file_data,
}
use seraph.Fat.Chain.{Coherent, Mounted, SameVolume, SameVolume-refl, SameVolume-Mounted}
use seraph.Fat.Walk.{nth_cluster, walk-Looks}

-- The bytes of a cluster.
abbrev pub volume_cluster : FatState → ℕ
volume_cluster s = s.sectors_per_cluster * 512

-- The sector of a cluster in which the byte at the offset stands.
abbrev pub sector_of : FatState → ℕ → ℕ → ℕ
sector_of s cluster offset =
    (cluster_to_sector s cluster + offset % volume_cluster s / 512) % 2 ^ 32

-- What a read means: the number of bytes, and the buffer with them in front. At most what is left of the
-- sector is read.
abbrev pub bytes_of : Device → FatState → FileRead → Sector → ℕ → ℕ × Sector
bytes_of dev s req out cluster = elim (dev (sector_of s cluster req.offset)) [
  | none ↦ (0, out)
  | some buf ↦
      let from = req.offset % volume_cluster s % 512 in
      let len = min (min req.max_len (req.file_size - req.offset)) (512 - from) in
      (len, copied out buf from len)
]

abbrev pub file_read : Device → FatState → FileRead → Sector → ℕ × Sector
file_read dev s req out =
    if leb req.file_size req.offset
    then (0, out)
    else elim (nth_cluster dev s.fat_type s.reserved_sectors req.start_cluster
        (req.offset / volume_cluster s)) [
          | none ↦ (0, out)
          | some cluster ↦ bytes_of dev s req out cluster
        ]

same-bytes :
    (dev : Device) (s t : FatState) (req : FileRead) (out : Sector) (cluster : ℕ)
    → SameVolume s t
    → bytes_of dev t req out cluster ≡ bytes_of dev s req out cluster
same-bytes dev s t req out cluster v =
    ap₂
      (λ spc data_start.
        let from = req.offset % (spc * 512) % 512 in
        let len = min (min req.max_len (req.file_size - req.offset)) (512 - from) in
        elim (dev (
          (((data_start + (cluster + 2 ^ 32 - 2) % 2 ^ 32 * spc % 2 ^ 32) % 2 ^ 32)
            + req.offset % (spc * 512) / 512)
          % 2 ^ 32)) [ none ↦ (0, out) | some buf ↦ (len, copied out buf from len) ])
      v.sectors_per_cluster v.data_start_sector

module _ (dev : Device) (s : FatState) (req : FileRead) (out : Sector) (m : Mounted s) where
  -- The read of a sector of the cluster.
  in_cluster :
      (cluster : ℕ)
      → read_in_cluster dev s req cluster out
        ≡ some ((bytes_of dev s req out cluster).0, (bytes_of dev s req out cluster).1, s)
  unfolding read_in_cluster
  in_cluster cluster =
      ap (λ b. by_size b) m.sector ∙ at_sector (dev (sector_of s cluster req.offset))
    where
      from : ℕ
      from = req.offset % volume_cluster s % 512

      by_size : ℕ → Option (ℕ × Sector × FatState)
      by_size b =
          let offset_in_cluster = req.offset % (s.sectors_per_cluster * b) in
          let offset_in_sector = offset_in_cluster % b in
          let to_read = min (min req.max_len (req.file_size - req.offset)) 512 in
          let available = (512 + 2 ^ 64 - offset_in_sector) % 2 ^ 64 in
          let copy_len = min to_read available in
          elim (dev ((cluster_to_sector s cluster + offset_in_cluster / b) % 2 ^ 32)) [
            | none ↦ some (0, out, s)
            | some buf ↦
                if leb (offset_in_sector + copy_len) 512
                then some (copy_len, copied out buf offset_in_sector copy_len, s)
                else none
          ]

      to_read : ℕ
      to_read = min req.max_len (req.file_size - req.offset)

      raw : Option Sector → Option (ℕ × Sector × FatState)
      raw o = elim o [
        | none ↦ some (0, out, s)
        | some buf ↦
            let copy_len = min (min to_read 512) ((512 + 2 ^ 64 - from) % 2 ^ 64) in
            if leb (from + copy_len) 512
            then some (copy_len, copied out buf from copy_len, s)
            else none
      ]

      meant : Option Sector → ℕ × Sector
      meant o = elim o [
        | none ↦ (0, out)
        | some buf ↦ (min to_read (512 - from), copied out buf from (min to_read (512 - from)))
      ]

      at_sector : (o : Option Sector) → raw o ≡ some ((meant o).0, (meant o).1, s)
      at_sector none = refl
      at_sector (some buf) =
          ap (λ n. if leb (from + n) 512 then some (n, copied out buf from n, s) else none)
            (shorter (min req.max_len (req.file_size - req.offset)) (req.offset % volume_cluster s))
          ∙ if-true _ _ _
              (fits (min req.max_len (req.file_size - req.offset)) (req.offset % volume_cluster s))
        where
          shorter :
              (x y : ℕ)
              → min (min x 512) ((512 + 2 ^ 64 - y % 512) % 2 ^ 64) ≡ min x (512 - y % 512)
          shorter x y = omega arith

          fits : (x y : ℕ) → leb (y % 512 + min x (512 - y % 512)) 512 ≡ true
          fits x y = below (y % 512 + min x (512 - y % 512)) (omega arith)
            where
              below : (a : ℕ) → a ≤ 512 → leb a 512 ≡ true
              below a h = ground arith

-- What a read leaves.
pub record Reads (dev : Device) (s : FatState) (req : FileRead) (out : Sector) (s' : FatState)
    : Type 0 where
  pub returns :
      read_file_data dev s req out
      ≡ some ((file_read dev s req out).0, (file_read dev s req out).1, s')
  pub coherent : Coherent dev s'
  pub volume : SameVolume s s'

-- `read_file_data` on a volume with sectors of 512 bytes and clusters of at least one, with a cache that
-- holds what the device has, does not panic: it reads what the file has at the offset, by its chain of
-- clusters in the FAT on the device. That is nothing at the end of the file, when the chain ends too early
-- or when the device fails; and otherwise what was asked for, as far as the file and the sector reach. The
-- volume stays, and the cache holds what the device has again.
pub read_file_data-Reads :
    (dev : Device) (s : FatState) (req : FileRead) (out : Sector)
    → Mounted s
    → Coherent dev s
    → (s' : FatState) × Reads dev s req out s'
unfolding read_file_data
read_file_data-Reads dev s req out m c = elim (Bool-cases (leb req.file_size req.offset)) [
  | inl e ↦ (
    s,
    record {
      returns =
          past e
          ∙ ap (λ (r : ℕ × Sector). some (r.0, r.1, s))
              (sym (if-true (0, out) (here chain) (leb req.file_size req.offset) e));
      coherent = c;
      volume = SameVolume-refl s;
    },
  )
  | inr e ↦
      let (t, l) = walk-Looks dev (req.offset / volume_cluster s) s req.start_cluster m c in
      (
        t,
        record {
          returns =
              within e l.returns
              ∙ found t (SameVolume-Mounted s t l.volume m) l.volume chain
              ∙ ap (λ (r : ℕ × Sector). some (r.0, r.1, t))
                  (sym (if-false (0, out) (here chain) (leb req.file_size req.offset) e));
          coherent = l.coherent;
          volume = l.volume;
        },
      )
]
  where
    chain : Option ℕ
    chain =
        nth_cluster dev s.fat_type s.reserved_sectors req.start_cluster
          (req.offset / volume_cluster s)

    here : Option ℕ → ℕ × Sector
    here o = elim o [ none ↦ (0, out) | some cluster ↦ bytes_of dev s req out cluster ]

    onward : Option (Option ℕ × FatState) → Option (ℕ × Sector × FatState)
    onward o = elim o [
      | none ↦ none
      | some (none, s) ↦ some (0, out, s)
      | some (some cluster, s) ↦ read_in_cluster dev s req cluster out
    ]

    past : leb req.file_size req.offset ≡ true → read_file_data dev s req out ≡ some (0, out, s)
    past e = if-true _ _ (leb req.file_size req.offset) e

    within :
        leb req.file_size req.offset ≡ false
        → {o : Option (Option ℕ × FatState)}
        → walk dev s req.start_cluster (req.offset / volume_cluster s) ≡ o
        → read_file_data dev s req out ≡ onward o
    within e w =
        if-false _ _ (leb req.file_size req.offset) e
        ∙ if-false _ _ (cluster_size s == 0) (
            ==_ne (cluster_size s) 0 (λ z.
              some_bytes s.sectors_per_cluster m.cluster
                (sym (ap (λ b. s.sectors_per_cluster * b) m.sector) ∙ z)))
        ∙ ap (λ b. onward (walk dev s req.start_cluster (req.offset / (s.sectors_per_cluster * b))))
            m.sector
        ∙ ap onward w
      where
        some_bytes : (n : ℕ) → 0 < n → n * 512 ≢ 0
        some_bytes n h e = omega (arith, h, e)

    found :
        (t : FatState)
        → Mounted t
        → SameVolume s t
        → (o : Option ℕ) → onward (some (o, t)) ≡ some ((here o).0, (here o).1, t)
    found t mt v none = refl
    found t mt v (some cluster) =
        in_cluster dev t req out mt cluster
        ∙ ap (λ (r : ℕ × Sector). some (r.0, r.1, t)) (same-bytes dev s t req out cluster v)
