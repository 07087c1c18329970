-- ===== src/Cap/CSpace/Fresh.antt =====
-- `new`.
use seraph.Prelude.{ℕ, refl, [], inl, arith}
use seraph.Cap.CSpace.{new}
use seraph.Cap.CSpace.Free.{Valid, Exact}

-- A new space has no page and no slot in use.
pub new-Valid : (id max_slots : ℕ) → Valid (new id max_slots) 0 []
unfolding new
new-Valid id max_slots = record {
  mapped = λ p h. absurd (omega (arith, h));
  unmapped = λ p h. refl;
  pages = omega arith;
  in_pages = omega arith;
  in_quota = omega arith;
  at_limit = inl refl;
  zero_slot = λ h. absurd (omega (arith, h));
  free = refl;
  counted = refl;
  places = tt;
  distinct = tt;
}

pub new-Exact : (id max_slots : ℕ) → Exact (new id max_slots) []
unfolding new
new-Exact id max_slots i p h z out = absurd (omega (arith, p, h))
