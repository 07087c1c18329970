-- ===== src/Prelude/Maps.antt =====
-- Memory: a map from addresses or indices to values, and its update at one place.
use Prim.Native.Nat.{ℕ}
use mathlib.Core.Path.{◌≡◌, fun_ext, ◌∙◌, sym}
use mathlib.Core.Logic.{◌≢◌}
use mathlib.Core.Logic.{inl, inr}
use seraph.Prelude.Tests.{◌==◌, if◌then◌else◌, if-true, if-false, Bool-cases, ==_refl, ==_ne}

module _ {ℓ} {A : Type ℓ} where
  abbrev pub update : (ℕ → A) → ℕ → A → ℕ → A
  update f k v i = if i == k then v else f i

  pub update_self : (f : ℕ → A) (k : ℕ) (v : A) → update f k v k ≡ v
  update_self f k v = rw (==_refl k)

  pub update_ne : (f : ℕ → A) (k : ℕ) (v : A) (i : ℕ) → i ≢ k → update f k v i ≡ f i
  update_ne f k v i h = rw (==_ne i k h)

  -- The second of two writes at one place stays.
  pub update_twice : (f : ℕ → A) (k : ℕ) (u v : A) → update (update f k u) k v ≡ update f k v
  update_twice f k u v = fun_ext (λ i. elim (Bool-cases (i == k)) [
    | inl e ↦ if-true _ _ (i == k) e ∙ sym (if-true _ _ (i == k) e)
    | inr e ↦ if-false _ _ (i == k) e ∙ if-false _ _ (i == k) e ∙ sym (if-false _ _ (i == k) e)
  ])
