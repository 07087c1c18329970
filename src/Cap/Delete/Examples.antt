-- ===== src/Cap/Delete/Examples.antt =====
-- The tree of capabilities at a small input: the theorems applied.
use seraph.Prelude.{refl, [], ◌∷◌, ◌++◌, arith}
use seraph.Cap.Derivation.{Registry}
use seraph.Cap.Derivation.Moves.{turn}
use seraph.Cap.Delete.{Deletes, sys_cap_delete-Deletes}
use seraph.Cap.Family.{at, spaces, spaces-AllValid, used, apart}

sys_cap_delete_example :
    (r' : Registry) × Deletes 1 spaces
      (at 2)
      (at 1)
      (at 4 ∷ [])
      (turn (at 4 ∷ []) [] ++ (at 3 ∷ []))
      r'
sys_cap_delete_example =
    sys_cap_delete-Deletes 1 spaces (at 2) (at 1) (at 4 ∷ []) [] (at 3 ∷ []) (omega arith)
      spaces-AllValid (used 2 (omega arith) (omega arith) refl) (λ e. omega (arith, e))
      (used 1 (omega arith) (omega arith) refl) (used 4 (omega arith) (omega arith) refl, tt)
      (used 2 (omega arith) (omega arith) refl, (used 3 (omega arith) (omega arith) refl, tt))
      (apart 4 2 (λ e. omega (arith, e)), tt) (apart 4 1 (λ e. omega (arith, e)), tt)
      (apart 2 1 (λ e. omega (arith, e)), (apart 3 1 (λ e. omega (arith, e)), tt)) (tt, tt)
      ((apart 3 2 (λ e. omega (arith, e)), tt), (tt, tt))
      ((apart 2 4 (λ e. omega (arith, e)), (apart 3 4 (λ e. omega (arith, e)), tt)), tt)
      (refl, refl, refl, refl) (refl, refl, refl, (refl, refl, refl, refl))
