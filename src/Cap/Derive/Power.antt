-- ===== src/Cap/Derive/Power.antt =====
-- What a capability allows, which derivation links leave.
use seraph.Prelude.{◌≡◌, inl, inr, sym, ap, subst, Option}
use seraph.Cap.Slot.{SlotId, CapabilitySlot}
use seraph.Cap.Derivation.{Registry}
use seraph.Cap.Derivation.Nodes.{get, SlotId-cases}
use seraph.Cap.Derivation.Children.{link-cases}
use seraph.Cap.Derivation.Link.{Links}

-- What a capability allows is as before.
pub record SamePower (s s' : CapabilitySlot) : Type 0 where
  pub tag : s'.tag ≡ s.tag
  pub rights : s'.rights ≡ s.rights
  pub token : s'.token ≡ s.token
  pub object : s'.object ≡ s.object

SamePower-refl : (s s' : CapabilitySlot) → s' ≡ s → SamePower s s'
SamePower-refl s s' e = record {
  tag = ap (λ (s : CapabilitySlot). s.tag) e;
  rights = ap (λ (s : CapabilitySlot). s.rights) e;
  token = ap (λ (s : CapabilitySlot). s.token) e;
  object = ap (λ (s : CapabilitySlot). s.object) e;
}

SamePower-links :
    (s s' : CapabilitySlot) (a b c d : Option SlotId)
    → s' ≡ record s {
      deriv_parent = a;
      deriv_first_child = b;
      deriv_prev_sibling = c;
      deriv_next_sibling = d;
    }
    → SamePower s s'
SamePower-links s s' a b c d e = record {
  tag = ap (λ (s : CapabilitySlot). s.tag) e;
  rights = ap (λ (s : CapabilitySlot). s.rights) e;
  token = ap (λ (s : CapabilitySlot). s.token) e;
  object = ap (λ (s : CapabilitySlot). s.object) e;
}

-- A link changes nothing but links.
pub Links-SamePower :
    (r : Registry) (parent child : SlotId) (r' : Registry)
    → Links r parent child r'
    → (b : SlotId) → SamePower (get r b) (get r' b)
Links-SamePower r parent child r' l b = elim (SlotId-cases b child) [
  | inl e ↦
      subst (λ x. SamePower (get r x) (get r' x)) (sym e)
        (SamePower-links (get r child) (get r' child) _ _ _ _ l.at_child)
  | inr bc ↦ elim (SlotId-cases b parent) [
    | inl e ↦
        subst (λ x. SamePower (get r x) (get r' x)) (sym e)
          (SamePower-links (get r parent) (get r' parent) _ _ _ _ l.at_parent)
    | inr bp ↦ elim (link-cases (get r parent).deriv_first_child b) [
      | inl e ↦ SamePower-links (get r b) (get r' b) _ _ _ _ (l.at_first b e)
      | inr bf ↦ SamePower-refl (get r b) (get r' b) (l.others b bc bp bf)
    ]
  ]
]
