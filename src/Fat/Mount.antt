-- ===== src/Fat/Mount.antt =====
-- `parse_bpb`.
use seraph.Prelude.{
  ℕ, ◌<◌, ◌≡◌, ◌≢◌, refl, sym, ◌∙◌, ap, subst, Bool, true, false, false≢true, not, ◌||◌, arith,
  ◌==◌, if◌then◌else◌, inl, inr, ◌⊎◌, if-true, if-false, Bool-cases, ==_iff,
}
use seraph.Fat.{Sector, Device, FatState, u16_at, read_geometry, read_sizes, parse_bpb}
use seraph.Fat.Chain.{Coherent, Mounted}

differs : (x y : ℕ) → (x == y) ≡ false → x ≢ y
differs x y e q = false≢true (sym e ∙ (==_iff x y).1 q)

signature : (x y : ℕ) → (not (x == 85) || not (y == 170)) ≡ true → (x ≢ 85) ⊎ (y ≢ 170)
signature x y e = elim (Bool-cases (x == 85)) [
  | inr p ↦ inl (differs x 85 p)
  | inl p ↦ inr (differs y 170 (second (x == 85) (y == 170) p e))
]
  where
    second : (p q : Bool) → p ≡ true → (not p || not q) ≡ true → q ≡ false
    second true true h e = absurd (false≢true e)
    second true false h e = refl
    second false q h e = absurd (false≢true h)

signed : (x y : ℕ) → (not (x == 85) || not (y == 170)) ≡ false → (x ≡ 85) × (y ≡ 170)
signed x y e = let (p, q) = both (x == 85) (y == 170) e in ((==_iff x 85).0 p, (==_iff y 170).0 q)
  where
    both : (p q : Bool) → (not p || not q) ≡ false → (p ≡ true) × (q ≡ true)
    both true true e = (refl, refl)
    both true false e = absurd (false≢true (sym e))
    both false q e = absurd (false≢true (sym e))

empty : (x y : ℕ) → (x == 0 || y == 0) ≡ true → (x ≡ 0) ⊎ (y ≡ 0)
empty x y e = elim (Bool-cases (x == 0)) [
  | inl p ↦ inl ((==_iff x 0).0 p)
  | inr p ↦ inr ((==_iff y 0).0 (second (x == 0) (y == 0) p e))
]
  where
    second : (p q : Bool) → p ≡ false → (p || q) ≡ true → q ≡ true
    second true q h e = absurd (false≢true (sym h))
    second false q h e = e

filled : (x y : ℕ) → (x == 0 || y == 0) ≡ false → (x ≢ 0) × (y ≢ 0)
filled x y e = let (p, q) = neither (x == 0) (y == 0) e in (differs x 0 p, differs y 0 q)
  where
    neither : (p q : Bool) → (p || q) ≡ false → (p ≡ false) × (q ≡ false)
    neither false q e = (refl, e)
    neither true q e = absurd (false≢true (sym e))

module _ (b : Sector) (s : FatState) where
  sizes-Mounted :
      ((i : ℕ) → b i < 256)
      → u16_at b 11 ≡ 512
      → b 13 ≢ 0
      → Mounted (read_sizes b (read_geometry b s))
  unfolding read_sizes
  sizes-Mounted bytes size some = record {
    sector = size;
    cluster = positive (b 13) some;
    reserved = omega (arith, bytes 14, bytes 15);
  }
    where
      positive : (n : ℕ) → n ≢ 0 → 0 < n
      positive n h = grind arith

  sizes-Coherent : (dev : Device) → Coherent dev s → Coherent dev (read_sizes b (read_geometry b s))
  unfolding read_sizes
  sizes-Coherent dev c = c

  -- `parse_bpb` of a boot sector, for any bytes: it accepts it just if it has the signature, and its
  -- sectors and clusters are not empty. If it accepts it with sectors of 512 bytes, the volume can be
  -- read, and the cache is as it was.
  pub parse_bpb-Mounted :
      (dev : Device)
      → ((i : ℕ) → b i < 256)
      → ((parse_bpb b s).0 ≡ false)
          × (((b 510 ≢ 85) ⊎ (b 511 ≢ 170)) ⊎ ((u16_at b 11 ≡ 0) ⊎ (b 13 ≡ 0)))
        ⊎ ((parse_bpb b s).0 ≡ true)
          × (b 510 ≡ 85)
          × (b 511 ≡ 170)
          × (u16_at b 11 ≢ 0)
          × (b 13 ≢ 0)
          × (u16_at b 11 ≡ 512 → Mounted (parse_bpb b s).1)
          × (Coherent dev s → Coherent dev (parse_bpb b s).1)
  unfolding parse_bpb
  parse_bpb-Mounted dev bytes = elim (Bool-cases (not (b 510 == 85) || not (b 511 == 170))) [
    | inl e ↦
        inl (ap (λ (r : Bool × FatState). r.0) (if-true _ _ _ e), inl (signature (b 510) (b 511) e))
    | inr e ↦ elim (Bool-cases (u16_at b 11 == 0 || b 13 == 0)) [
      | inl z ↦ inl (
        ap (λ (r : Bool × FatState). r.0) (if-false _ _ _ e ∙ if-true _ _ _ z),
        inr (empty (u16_at b 11) (b 13) z),
      )
      | inr z ↦
          let run =
            if-false (false, s)
              (if u16_at b 11 == 0 || b 13 == 0
                then (false, read_geometry b s)
                else (true, read_sizes b (read_geometry b s)))
              (not (b 510 == 85) || not (b 511 == 170)) e
            ∙ if-false (false, read_geometry b s) (true, read_sizes b (read_geometry b s))
                (u16_at b 11 == 0 || b 13 == 0) z in
          let (p, q) = signed (b 510) (b 511) e in
          let (u, v) = filled (u16_at b 11) (b 13) z in
          inr (
            ap (λ (r : Bool × FatState). r.0) run,
            p,
            q,
            u,
            v,
            (λ size.
                subst (λ (r : Bool × FatState). Mounted r.1) (sym run)
                  (sizes-Mounted bytes size v)),
            (λ c.
                subst (λ (r : Bool × FatState). Coherent dev r.1) (sym run) (sizes-Coherent dev c)),
          )
    ]
  ]
