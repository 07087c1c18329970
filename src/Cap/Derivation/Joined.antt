-- ===== src/Cap/Derivation/Joined.antt =====
-- Lists of children without one of them, from the links around it.
use seraph.Prelude.{◌≡◌, ◌≢◌, sym, ◌∙◌, subst, Option, none, some, List, [], ◌∷◌, ◌++◌, All}
use seraph.Cap.Slot.{SlotId}
use seraph.Cap.Derivation.Children.{
  some-injective, Slots, Siblings, OutOf, AllApart, SameLinks, Siblings-agree,
}

-- The last of a list, or what came before it.
abbrev pub last_of : Option SlotId → List SlotId → Option SlotId
last_of prev [] = prev
last_of prev (x ∷ xs) = last_of (some x) xs

pub last_of-none : (x : SlotId) (xs : List SlotId) → last_of (some x) xs ≢ none
last_of-none x [] e = cc e
last_of-none x (y ∷ xs) e = last_of-none y xs e

pub All-before {κ} :
    (P : SlotId → Type κ) (xs ys : List SlotId) → All P (xs ++ ys) → All P xs × All P ys
All-before P [] ys a = (tt, a)
All-before P (x ∷ xs) ys a = let (p, q) = All-before P xs ys a.1 in ((a.0, p), q)

pub last_of-ne :
    (prev : Option SlotId) (xs : List SlotId) (b : SlotId)
    → prev ≢ some b
    → OutOf b xs
    → last_of prev xs ≢ some b
last_of-ne prev [] b ne out = ne
last_of-ne prev (x ∷ xs) b ne out = last_of-ne (some x) xs b (λ e. out.0 (some-injective e)) out.1

pub last_of-All {κ} :
    (P : SlotId → Type κ) (prev : Option SlotId) (xs : List SlotId) (b : SlotId)
    → (prev ≡ some b → P b)
    → All P xs
    → last_of prev xs ≡ some b
    → P b
last_of-All P prev [] b h a e = h e
last_of-All P prev (x ∷ xs) b h a e =
    last_of-All P (some x) xs b (λ q. subst P (some-injective q) a.0) a.1 e

-- What stands at a place of the list.
pub at-place :
    (g : Slots) (parent : SlotId) (prev h : Option SlotId) (pre : List SlotId) (x : SlotId)
    (post : List SlotId)
    → Siblings g parent prev h (pre ++ x ∷ post)
    → ((g x).deriv_parent ≡ some parent)
      × ((g x).deriv_prev_sibling ≡ last_of prev pre)
      × Siblings g parent (some x) (g x).deriv_next_sibling post
at-place g parent prev h [] x post v = (v.1, v.2, v.3)
at-place g parent prev h (y ∷ pre) x post v =
    at-place g parent (some y) (g y).deriv_next_sibling pre x post v.3

pub AllApart-split :
    (pre : List SlotId) (x : SlotId) (post : List SlotId)
    → AllApart (pre ++ x ∷ post)
    → OutOf x pre × OutOf x post × All (λ b. OutOf b post) pre × AllApart pre × AllApart post
AllApart-split [] x post a = (tt, a.0, tt, tt, a.1)
AllApart-split (y ∷ pre) x post a =
    let (out, out', cross, apart, rest) = AllApart-split pre x post a.1 in
    let (p, q) = All-before (λ z. z ≢ y) pre (x ∷ post) a.0 in
    ((λ e. q.0 (sym e), out), out', (q.1, cross), (p, apart), rest)

module _ (g g' : Slots) (parent x : SlotId) (post : List SlotId) where
  abbrev prev : Option SlotId
  prev = (g x).deriv_prev_sibling

  abbrev next : Option SlotId
  next = (g x).deriv_next_sibling

  -- The list behind the slot, joined to what is in front of it.
  pub behind :
      ((b : SlotId) → next ≡ some b → SameLinks (record (g b) { deriv_prev_sibling = prev }) (g' b))
      → ((b : SlotId) → b ≢ x → prev ≢ some b → next ≢ some b → SameLinks (g b) (g' b))
      → OutOf x post
      → AllApart post
      → All (λ b. prev ≢ some b) post
      → Siblings g parent (some x) next post
      → Siblings g' parent prev next post
  behind at_next others out apart before v = go post out apart before v
    where
      keep :
          (y : SlotId) (ys : List SlotId)
          → next ≡ some y
          → OutOf y ys
          → OutOf x ys
          → All (λ b. prev ≢ some b) ys
          → All (λ b. SameLinks (g b) (g' b)) ys
      keep y [] e apart out before = tt
      keep y (z ∷ ys) e apart out before = (
        others z out.0 before.0 (λ q. apart.0 (some-injective (sym q ∙ e))),
        keep y ys e apart.1 out.1 before.1,
      )

      go :
          (post : List SlotId)
          → OutOf x post
          → AllApart post
          → All (λ b. prev ≢ some b) post
          → Siblings g parent (some x) next post
          → Siblings g' parent prev next post
      go [] out apart before v = v
      go (y ∷ ys) out apart before v =
          let same = at_next y v.0 in
          (
            v.0,
            same.parent ∙ v.1,
            same.prev,
            Siblings-agree g g' parent (some y) (g' y).deriv_next_sibling ys
                (keep y ys v.0 apart.0 out.1 before.1)
                (subst (λ o. Siblings g parent (some y) o ys) (sym same.next) v.3),
          )

  -- The list without the slot.
  pub joined :
      ((b : SlotId) → prev ≡ some b → SameLinks (record (g b) { deriv_next_sibling = next }) (g' b))
      → ((b : SlotId) → b ≢ x → prev ≢ some b → next ≢ some b → SameLinks (g b) (g' b))
      → (Siblings g' parent prev next post)
      → (y : SlotId) (pre : List SlotId) (before h : Option SlotId) → OutOf x (y ∷ pre)
      → AllApart (y ∷ pre)
      → All (λ b. next ≢ some b) (y ∷ pre)
      → prev ≡ last_of before (y ∷ pre)
      → Siblings g parent before h (y ∷ (pre ++ x ∷ post))
      → Siblings g' parent before h (y ∷ (pre ++ post))
  joined at_prev others rest y [] before h out apart after e v =
      let same = at_prev y e in
      (
        v.0,
        same.parent ∙ v.1,
        same.prev ∙ v.2,
        subst (λ o. Siblings g' parent o (g' y).deriv_next_sibling post) e
            (subst (λ o. Siblings g' parent prev o post) (sym same.next) rest),
      )
  joined at_prev others rest y (z ∷ zs) before h out apart after e v =
      let ne : prev ≢ some y =
        λ q. last_of-ne (some z) zs y (λ w. apart.0.0 (some-injective w)) apart.0.1 (sym e ∙ q) in
      let same = others y out.0 ne after.0 in
      (
        v.0,
        same.parent ∙ v.1,
        same.prev ∙ v.2,
        subst (λ o. Siblings g' parent (some y) o (z ∷ (zs ++ post))) (sym same.next)
            (joined at_prev others rest z zs (some y) (g y).deriv_next_sibling out.1 apart.1 after.1
              e v.3),
      )
