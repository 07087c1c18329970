-- ===== src/Fat/Chain.antt =====
-- `next_cluster`.
use seraph.Prelude.{
  ℕ, ◌+◌, ◌-◌, ◌*◌, ◌/◌, ◌%◌, ◌^◌, ◌≤◌, ◌<◌, ◌≡◌, ◌≢◌, ◌⊎◌, inl, inr, refl, sym, ◌∙◌, ap, subst,
  true, false, Option, none, some, arith, ◌==◌, leb, if◌then◌else◌, if-true, if-false, Bool-cases,
  ==_iff, ==_ne,
}
use seraph.Fat.{
  Sector, Device, FatType, FatState, entry_width, fat_offset, fat_sector, decode, cached_entry,
  next_cluster,
}

-- The cache holds what the device has, if it holds anything.
abbrev pub Coherent : Device → FatState → Type 0
Coherent dev s =
    (dev s.cached_fat_sector ≡ some s.cached_fat_data) ⊎ (s.cached_fat_sector ≡ 2 ^ 32 - 1)

-- The sectors are those of the device.
pub record Mounted (s : FatState) : Type 0 where
  pub sector : s.bytes_per_sector ≡ 512
  pub cluster : 0 < s.sectors_per_cluster
  pub reserved : s.reserved_sectors < 65536

-- Only the cache may differ.
pub record SameVolume (s s' : FatState) : Type 0 where
  pub fat_type : s'.fat_type ≡ s.fat_type
  pub bytes_per_sector : s'.bytes_per_sector ≡ s.bytes_per_sector
  pub sectors_per_cluster : s'.sectors_per_cluster ≡ s.sectors_per_cluster
  pub reserved_sectors : s'.reserved_sectors ≡ s.reserved_sectors
  pub data_start_sector : s'.data_start_sector ≡ s.data_start_sector

pub SameVolume-refl : (s : FatState) → SameVolume s s
SameVolume-refl s = record {
  fat_type = refl;
  bytes_per_sector = refl;
  sectors_per_cluster = refl;
  reserved_sectors = refl;
  data_start_sector = refl;
}

pub SameVolume-trans : (s t u : FatState) → SameVolume s t → SameVolume t u → SameVolume s u
SameVolume-trans s t u a b = record {
  fat_type = b.fat_type ∙ a.fat_type;
  bytes_per_sector = b.bytes_per_sector ∙ a.bytes_per_sector;
  sectors_per_cluster = b.sectors_per_cluster ∙ a.sectors_per_cluster;
  reserved_sectors = b.reserved_sectors ∙ a.reserved_sectors;
  data_start_sector = b.data_start_sector ∙ a.data_start_sector;
}

pub SameVolume-Mounted : (s t : FatState) → SameVolume s t → Mounted s → Mounted t
SameVolume-Mounted s t a m = record {
  sector = a.bytes_per_sector ∙ m.sector;
  cluster = subst (λ n. 0 < n) (sym a.sectors_per_cluster) m.cluster;
  reserved = subst (λ n. n < 65536) (sym a.reserved_sectors) m.reserved;
}

-- The next cluster, read from the device without a cache: the entry at `cluster` times its width.
abbrev pub fat_entry : Device → FatType → ℕ → ℕ → Option ℕ
fat_entry dev t reserved cluster = elim (dev (reserved + cluster * entry_width t % 2 ^ 32 / 512)) [
  | none ↦ none
  | some b ↦ decode t b (cluster * entry_width t % 2 ^ 32 % 512)
]

-- What a lookup leaves.
pub record Looks (dev : Device) (s : FatState) (result : Option ℕ)
    (run : Option (Option ℕ × FatState)) (s' : FatState) : Type 0 where
  pub returns : run ≡ some (result, s')
  pub coherent : Coherent dev s'
  pub volume : SameVolume s s'

entry_fits :
    (t : FatType) (cluster : ℕ)
    → leb (cluster * entry_width t % 2 ^ 32 % 512 + entry_width t) 512 ≡ true
entry_fits FatType.fat16 cluster = fits (cluster * 2 % 2 ^ 32 % 512 + 2) (omega arith)
  where
    fits : (a : ℕ) → a ≤ 512 → leb a 512 ≡ true
    fits a h = ground arith
entry_fits FatType.fat32 cluster = fits (cluster * 4 % 2 ^ 32 % 512 + 4) (omega arith)
  where
    fits : (a : ℕ) → a ≤ 512 → leb a 512 ≡ true
    fits a h = ground arith

cached_entry-decode :
    (s : FatState) (cluster : ℕ)
    → cached_entry s (cluster * entry_width s.fat_type % 2 ^ 32 % 512)
      ≡ some (decode s.fat_type s.cached_fat_data (cluster * entry_width s.fat_type % 2 ^ 32 % 512))
unfolding cached_entry
cached_entry-decode s cluster = if-true _ _ _ (entry_fits s.fat_type cluster)

module _ (dev : Device) (s : FatState) (cluster : ℕ) (m : Mounted s) where
  abbrev wanted : ℕ
  wanted = s.reserved_sectors + cluster * entry_width s.fat_type % 2 ^ 32 / 512

  at_sector : fat_sector s cluster ≡ wanted
  at_sector =
      ap (λ b. (s.reserved_sectors + cluster * entry_width s.fat_type % 2 ^ 32 / b) % 2 ^ 32)
        m.sector
      ∙ small s.reserved_sectors (cluster * entry_width s.fat_type) m.reserved
    where
      small : (r x : ℕ) → r < 65536 → (r + x % 2 ^ 32 / 512) % 2 ^ 32 ≡ r + x % 2 ^ 32 / 512
      small r x h = omega arith

  not_sentinel : (n : ℕ) → n ≡ wanted → n ≢ 2 ^ 32 - 1
  not_sentinel n e q =
      apart s.reserved_sectors (cluster * entry_width s.fat_type) m.reserved (sym e ∙ q)
    where
      apart : (r x : ℕ) → r < 65536 → r + x % 2 ^ 32 / 512 ≢ 2 ^ 32 - 1
      apart r x h e = omega (arith, e)

  abbrev after : Option FatState → Option (Option ℕ × FatState)
  after o = elim o [
    | none ↦ some (none, s)
    | some s ↦ elim (cached_entry s (fat_offset s cluster % s.bytes_per_sector)) [
      | none ↦ none
      | some val ↦ some (val, s)
    ]
  ]

  looked :
      (t : FatState)
      → SameVolume s t
      → after (some t)
        ≡ some (
          decode s.fat_type t.cached_fat_data (cluster * entry_width s.fat_type % 2 ^ 32 % 512),
          t,
        )
  looked t v =
      let at : ℕ → FatType → ℕ = λ b f. cluster * entry_width f % 2 ^ 32 % b in
      ap (λ b. finish (cached_entry t (at b t.fat_type))) (v.bytes_per_sector ∙ m.sector)
      ∙ ap finish (cached_entry-decode t cluster)
      ∙ ap (λ f. some (decode f t.cached_fat_data (at 512 f), t)) v.fat_type
    where
      finish : Option (Option ℕ) → Option (Option ℕ × FatState)
      finish o = elim o [ none ↦ none | some val ↦ some (val, t) ]

  next_cluster-loaded :
      (loaded : Option FatState)
      → ((if s.cached_fat_sector == fat_sector s cluster
            then some s
            else elim (dev (fat_sector s cluster)) [
              | none ↦ none
              | some b ↦
                  some (record s { cached_fat_data = b; cached_fat_sector = fat_sector s cluster })
            ])
          ≡ loaded)
      → next_cluster dev s cluster ≡ after loaded
  unfolding next_cluster
  next_cluster-loaded loaded e =
      if-false _ _ (s.bytes_per_sector == 0)
        (==_ne s.bytes_per_sector 0 (λ z. apart s.bytes_per_sector m.sector z))
      ∙ ap after e
    where
      apart : (n : ℕ) → n ≡ 512 → n ≢ 0
      apart n h e = omega (arith, h, e)

  -- `next_cluster` on a volume with sectors of 512 bytes, with a cache that holds what the device has,
  -- does not panic: it gives what a read of the FAT from the device gives, none if that fails, and the
  -- cache holds what the device has again.
  pub next_cluster-Looks :
      Coherent dev s
      → (s' : FatState) × Looks dev s
          (fat_entry dev s.fat_type s.reserved_sectors cluster)
          (next_cluster dev s cluster)
          s'
  next_cluster-Looks coherent = elim (Bool-cases (s.cached_fat_sector == fat_sector s cluster)) [
    | inl e ↦
        let same = (==_iff s.cached_fat_sector (fat_sector s cluster)).0 e ∙ at_sector in
        elim coherent [
          | inr q ↦ absurd (not_sentinel s.cached_fat_sector same q)
          | inl held ↦ (
            s,
            record {
              returns =
                  next_cluster-loaded (some s)
                    (if-true _ _ (s.cached_fat_sector == fat_sector s cluster) e)
                  ∙ looked s (SameVolume-refl s)
                  ∙ ap (λ o. some (o, s)) (sym (ap (look) (ap dev (sym same) ∙ held)));
              coherent = inl held;
              volume = SameVolume-refl s;
            },
          )
        ]
    | inr e ↦ miss e (dev wanted) refl
  ]
    where
      look : Option Sector → Option ℕ
      look o = elim o [
        | none ↦ none
        | some b ↦ decode s.fat_type b (cluster * entry_width s.fat_type % 2 ^ 32 % 512)
      ]

      load : Option Sector → Option FatState
      load o = elim o [
        | none ↦ none
        | some b ↦ some (record s { cached_fat_data = b; cached_fat_sector = fat_sector s cluster })
      ]

      miss :
          (s.cached_fat_sector == fat_sector s cluster) ≡ false
          → (o : Option Sector) → dev wanted ≡ o
          → (s' : FatState) × Looks dev s
              (fat_entry dev s.fat_type s.reserved_sectors cluster)
              (next_cluster dev s cluster)
              s'
      miss e none q = (
        s,
        record {
          returns =
              next_cluster-loaded none (
                if-false _ _ (s.cached_fat_sector == fat_sector s cluster) e
                ∙ ap load (ap dev at_sector ∙ q))
              ∙ ap (λ o. some (o, s)) (sym (ap look q));
          coherent = coherent;
          volume = SameVolume-refl s;
        },
      )
      miss e (some b) q =
          let t : FatState = record s {
            cached_fat_data = b;
            cached_fat_sector = fat_sector s cluster;
          } in
          let v : SameVolume s t = record {
            fat_type = refl;
            bytes_per_sector = refl;
            sectors_per_cluster = refl;
            reserved_sectors = refl;
            data_start_sector = refl;
          } in
          (
            t,
            record {
              returns =
                  next_cluster-loaded (some t) (
                    if-false _ _ (s.cached_fat_sector == fat_sector s cluster) e
                    ∙ ap load (ap dev at_sector ∙ q))
                  ∙ looked t v
                  ∙ ap (λ o. some (o, t)) (sym (ap look q));
              coherent = inl (ap dev at_sector ∙ q);
              volume = v;
            },
          )
