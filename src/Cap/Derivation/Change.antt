-- ===== src/Cap/Derivation/Change.antt =====
-- Writes through links that may be absent.
use seraph.Prelude.{◌≡◌, ◌≢◌, refl, sym, ◌∙◌, ap, Option, none, some, subst}
use seraph.Cap.Slot.{SlotId, CapabilitySlot, is_null}
use seraph.Cap.Derivation.{Registry, write, on_slot, on_link}
use seraph.Cap.Derivation.Nodes.{get, IsNode, AllValid, get-IsNode, write-Writes, on_slot-write}

-- The slot that the link names has been changed, and no other.
pub record Changes (r : Registry) (o : Option SlotId) (f : CapabilitySlot → CapabilitySlot)
    (r' : Registry) : Type 0 where
  pub returns : on_link r o f ≡ some r'
  pub all_valid : AllValid r'
  pub nodes : (b : SlotId) → IsNode r b → IsNode r' b
  pub changed : (x : SlotId) → o ≡ some x → get r' x ≡ f (get r x)
  pub others : (b : SlotId) → o ≢ some b → get r' b ≡ get r b

pub on_link-Changes :
    (r : Registry) (o : Option SlotId) (f : CapabilitySlot → CapabilitySlot)
    → AllValid r
    → ((x : SlotId) → o ≡ some x → IsNode r x)
    → ((s : CapabilitySlot) → is_null (f s) ≡ is_null s)
    → (r' : Registry) × Changes r o f r'
unfolding on_link
on_link-Changes r none f all there keeps = (
  r,
  record {
    returns = refl;
    all_valid = all;
    nodes = λ b n. n;
    changed = λ x e. cc e;
    others = λ b ne. refl;
  },
)
on_link-Changes r (some a) f all there keeps =
    let v = there a refl in
    let w = write-Writes r a all v (f (get r a)) (keeps (get r a) ∙ get-IsNode r a v) in
    (
      write r a (f (get r a)),
      record {
        returns = on_slot-write r a all v f;
        all_valid = w.all_valid;
        nodes = w.nodes;
        changed = λ x e.
            subst (λ y. get (write r a (f (get r a))) y ≡ f (get r y)) (some-injective e) w.self;
        others = λ b ne. w.others b (λ e. ne (ap some (sym e)));
      },
    )
  where
    some-injective : {a b : SlotId} → some a ≡ some b → a ≡ b
    some-injective e = cc

pub on_slot-link :
    (r r' : Registry) (a : SlotId) (f : CapabilitySlot → CapabilitySlot)
    → on_link r (some a) f ≡ some r'
    → on_slot r a f ≡ some r'
unfolding on_link
on_slot-link r r' a f e = e
