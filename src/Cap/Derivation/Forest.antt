-- ===== src/Cap/Derivation/Forest.antt =====
-- The capabilities below a slot, as a forest along first children and next siblings.
use seraph.Prelude.{
  ℕ, suc, ◌+◌, ◌≡◌, ◌≢◌, refl, sym, ◌∙◌, ap, subst, Option, none, some, List, [], ◌∷◌, ◌++◌, ◌==◌,
  if◌then◌else◌,
}
use seraph.Cap.Slot.{SlotId, CapabilitySlot}

-- `node x children siblings`.
pub data Forest : Type 0 where
  empty : Forest
  node : SlotId → Forest → Forest → Forest

abbrev pub size : Forest → ℕ
size empty = 0
size (node x c s) = size s + suc (size c)

abbrev pub AllOf {κ} : (SlotId → Type κ) → Forest → Type κ
AllOf P empty = Unit
AllOf P (node x c s) = P x × AllOf P c × AllOf P s

-- The slot is not in the forest.
abbrev pub Out : SlotId → Forest → Type 0
Out b = AllOf (λ y. y ≢ b)

-- No slot occurs twice.
abbrev pub Apart : Forest → Type 0
Apart empty = Unit {0}
Apart (node x c s) =
    Out x c × Out x s × AllOf (λ y. Out y s) c × AllOf (λ y. Out y c) s × Apart c × Apart s

-- The forest hangs on the link `h`, along the links of the slots.
abbrev pub Hangs : (SlotId → CapabilitySlot) → Option SlotId → Forest → Type 0
Hangs g h empty = h ≡ none
Hangs g h (node x c s) =
    (h ≡ some x) × Hangs g (g x).deriv_first_child c × Hangs g (g x).deriv_next_sibling s

-- The work stack, whose top comes first, with the roots of the forest pushed in order.
abbrev pub push : Forest → List SlotId → List SlotId
push empty stack = stack
push (node x c s) stack = push s (x ∷ stack)

abbrev pub own : ℕ → List ℕ
own o = if o == 0 then [] else (o ∷ [])

-- The objects of the capabilities, the last sibling first and a parent in front of its children.
abbrev pub objects : (SlotId → CapabilitySlot) → Forest → List ℕ
objects g empty = []
objects g (node x c s) = objects g s ++ (own (g x).object ++ objects g c)

pub AllOf-map {κ μ} :
    (P : SlotId → Type κ) (Q : SlotId → Type μ) (f : Forest)
    → ((x : SlotId) → P x → Q x)
    → AllOf P f
    → AllOf Q f
AllOf-map P Q empty h a = tt
AllOf-map P Q (node x c s) h a = (h x a.0, AllOf-map P Q c h a.1, AllOf-map P Q s h a.2)

pub AllOf-both {κ μ} :
    (P : SlotId → Type κ) (Q : SlotId → Type μ) (f : Forest)
    → AllOf P f
    → AllOf Q f
    → AllOf (λ x. P x × Q x) f
AllOf-both P Q empty a b = tt
AllOf-both P Q (node x c s) a b = ((a.0, b.0), AllOf-both P Q c a.1 b.1, AllOf-both P Q s a.2 b.2)

pub Hangs-agree :
    (g g' : SlotId → CapabilitySlot) (h : Option SlotId) (f : Forest)
    → AllOf (λ y. g' y ≡ g y) f
    → Hangs g h f
    → Hangs g' h f
Hangs-agree g g' h empty a v = v
Hangs-agree g g' h (node x c s) a v = (
  v.0,
  Hangs-agree g g' (g' x).deriv_first_child c a.1
      (subst (λ (t : CapabilitySlot). Hangs g t.deriv_first_child c) (sym a.0) v.1),
  Hangs-agree g g' (g' x).deriv_next_sibling s a.2
      (subst (λ (t : CapabilitySlot). Hangs g t.deriv_next_sibling s) (sym a.0) v.2),
)

pub objects-agree :
    (g g' : SlotId → CapabilitySlot) (f : Forest)
    → AllOf (λ y. g' y ≡ g y) f
    → objects g' f ≡ objects g f
objects-agree g g' empty a = refl
objects-agree g g' (node x c s) a =
    ap (λ l. l ++ (own (g' x).object ++ objects g' c)) (objects-agree g g' s a.2)
    ∙ ap (λ (t : CapabilitySlot). objects g s ++ (own t.object ++ objects g' c)) a.0
    ∙ ap (λ l. objects g s ++ (own (g x).object ++ l)) (objects-agree g g' c a.1)
