-- ===== src/Cap/Derivation/Children.antt =====
-- The children of a capability, as a list linked in both directions.
use seraph.Prelude.{
  ◌≡◌, ◌≢◌, sym, ◌∙◌, ap, subst, Option, none, some, List, [], ◌∷◌, All, ◌⊎◌, inl, inr,
}
use seraph.Cap.Slot.{SlotId, CapabilitySlot}
use seraph.Cap.Derivation.{Registry}
use seraph.Cap.Derivation.Nodes.{get, SlotId-cases}

pub some-injective : {a b : SlotId} → some a ≡ some b → a ≡ b
some-injective e = cc

pub link-cases : (o : Option SlotId) (q : SlotId) → (o ≡ some q) ⊎ (o ≢ some q)
link-cases none q = inr (λ e. cc e)
link-cases (some x) q = elim (SlotId-cases x q) [
  | inl e ↦ inl (ap some e)
  | inr ne ↦ inr (λ e. ne (some-injective e))
]

abbrev pub Slots : Type 0
Slots = SlotId → CapabilitySlot

-- The list that starts at `h` runs through `xs`, all of them children of `parent`.
abbrev pub Siblings : Slots → SlotId → Option SlotId → Option SlotId → List SlotId → Type 0
Siblings g parent prev h [] = h ≡ none
Siblings g parent prev h (x ∷ xs) =
    (h ≡ some x)
    × ((g x).deriv_parent ≡ some parent)
    × ((g x).deriv_prev_sibling ≡ prev)
    × Siblings g parent (some x) (g x).deriv_next_sibling xs

abbrev pub Children : Registry → SlotId → List SlotId → Type 0
Children r parent xs = Siblings (get r) parent none (get r parent).deriv_first_child xs

abbrev pub OutOf : SlotId → List SlotId → Type 0
OutOf b = All (λ y. y ≢ b)

abbrev pub AllApart : List SlotId → Type 0
AllApart [] = Unit {0}
AllApart (x ∷ xs) = OutOf x xs × AllApart xs

pub All-map {κ μ} :
    (P : SlotId → Type κ) (Q : SlotId → Type μ) (xs : List SlotId)
    → ((x : SlotId) → P x → Q x)
    → All P xs
    → All Q xs
All-map P Q [] f a = tt
All-map P Q (x ∷ xs) f a = (f x a.0, All-map P Q xs f a.1)

-- The links of a slot among its siblings are as before.
pub record SameLinks (s s' : CapabilitySlot) : Type 0 where
  pub parent : s'.deriv_parent ≡ s.deriv_parent
  pub prev : s'.deriv_prev_sibling ≡ s.deriv_prev_sibling
  pub next : s'.deriv_next_sibling ≡ s.deriv_next_sibling

pub SameLinks-refl : (s s' : CapabilitySlot) → s' ≡ s → SameLinks s s'
SameLinks-refl s s' e = record {
  parent = ap (λ (s : CapabilitySlot). s.deriv_parent) e;
  prev = ap (λ (s : CapabilitySlot). s.deriv_prev_sibling) e;
  next = ap (λ (s : CapabilitySlot). s.deriv_next_sibling) e;
}

pub Siblings-agree :
    (g g' : Slots) (parent : SlotId) (prev h : Option SlotId) (xs : List SlotId)
    → All (λ x. SameLinks (g x) (g' x)) xs
    → Siblings g parent prev h xs
    → Siblings g' parent prev h xs
Siblings-agree g g' parent prev h [] a v = v
Siblings-agree g g' parent prev h (x ∷ xs) a v = (
  v.0,
  a.0.parent ∙ v.1,
  a.0.prev ∙ v.2,
  Siblings-agree g g' parent (some x) (g' x).deriv_next_sibling xs a.1
      (subst (λ o. Siblings g parent (some x) o xs) (sym a.0.next) v.3),
)

-- All have the parent.
pub Siblings-parent :
    (g : Slots) (parent : SlotId) (prev h : Option SlotId) (xs : List SlotId)
    → Siblings g parent prev h xs
    → All (λ x. (g x).deriv_parent ≡ some parent) xs
Siblings-parent g parent prev h [] v = tt
Siblings-parent g parent prev h (x ∷ xs) v =
    (v.1, Siblings-parent g parent (some x) (g x).deriv_next_sibling xs v.3)
