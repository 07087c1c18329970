-- ===== src/Fat/Walk.antt =====
-- The walk along a chain of clusters.
use seraph.Prelude.{ℕ, zero, suc, ◌≡◌, refl, sym, ◌∙◌, ap, ap₂, Option, none, some}
use seraph.Fat.{Device, FatType, FatState, next_cluster, walk}
use seraph.Fat.Chain.{
  Coherent, Mounted, SameVolume-refl, SameVolume-trans, SameVolume-Mounted, fat_entry, Looks,
  next_cluster-Looks,
}

-- The cluster `n` steps along the chain.
abbrev pub nth_cluster : Device → FatType → ℕ → ℕ → ℕ → Option ℕ
nth_cluster dev t reserved cluster zero = some cluster
nth_cluster dev t reserved cluster (suc n) = elim (fat_entry dev t reserved cluster) [
  | none ↦ none
  | some c ↦ nth_cluster dev t reserved c n
]

pub walk-Looks :
    (dev : Device) (n : ℕ) (s : FatState) (cluster : ℕ)
    → Mounted s
    → Coherent dev s
    → (s' : FatState) × Looks dev s
        (nth_cluster dev s.fat_type s.reserved_sectors cluster n)
        (walk dev s cluster n)
        s'
unfolding walk
walk-Looks dev zero s cluster m c =
    (s, record { returns = refl; coherent = c; volume = SameVolume-refl s })
walk-Looks dev (suc n) s cluster m c =
    let (t, l) = next_cluster-Looks dev s cluster m c in
    go (λ t c m h. walk-Looks dev n t c m h) t l
      (fat_entry dev s.fat_type s.reserved_sectors cluster) refl
  where
    onward : Option (Option ℕ × FatState) → Option (Option ℕ × FatState)
    onward o = elim o [
      | none ↦ none
      | some (none, s) ↦ some (none, s)
      | some (some c, s) ↦ walk dev s c n
    ]

    then_on : Option ℕ → Option ℕ
    then_on o = elim o [ none ↦ none | some c ↦ nth_cluster dev s.fat_type s.reserved_sectors c n ]

    go :
        ((t : FatState) (c : ℕ)
          → Mounted t
          → Coherent dev t
          → (u : FatState) × Looks dev t
              (nth_cluster dev t.fat_type t.reserved_sectors c n)
              (walk dev t c n)
              u)
        → (t : FatState)
        → Looks dev s
            (fat_entry dev s.fat_type s.reserved_sectors cluster)
            (next_cluster dev s cluster)
            t
        → (o : Option ℕ) → fat_entry dev s.fat_type s.reserved_sectors cluster ≡ o
        → (s' : FatState) × Looks dev s
            (then_on (fat_entry dev s.fat_type s.reserved_sectors cluster))
            (onward (next_cluster dev s cluster))
            s'
    go rest t l none e = (
      t,
      record {
        returns =
            ap onward (l.returns ∙ ap (λ o. some (o, t)) e)
            ∙ ap (λ o. some (o, t)) (sym (ap then_on e));
        coherent = l.coherent;
        volume = l.volume;
      },
    )
    go rest t l (some c) e =
        let (u, k) = rest t c (SameVolume-Mounted s t l.volume m) l.coherent in
        (
          u,
          record {
            returns =
                ap onward (l.returns ∙ ap (λ o. some (o, t)) e)
                ∙ k.returns
                ∙ ap₂ (λ f r. some (nth_cluster dev f r c n, u)) l.volume.fat_type
                    l.volume.reserved_sectors
                ∙ ap (λ o. some (o, u)) (sym (ap then_on e));
            coherent = k.coherent;
            volume = SameVolume-trans s t u l.volume k.volume;
          },
        )
