-- ===== src/Cap/Derive/Mint.antt =====
-- The insertion, the token and the derivation link.
use native.Mathlib.Decide.{ℕ_discrete}
use seraph.Prelude.{
  ℕ, ◌+◌, ◌-◌, ◌%◌, ◌^◌, ◌<◌, ◌≡◌, ◌≢◌, ◌⊎◌, inl, inr, refl, sym, ◌∙◌, ap, subst, false, Option,
  none, some, List, ◌∷◌, All, arith, update, update_self, update_ne,
}
use seraph.Cap.Slot.{CapTag, SlotId, CapabilitySlot, is_null, is_null_tag}
use seraph.Cap.CSpace.{CSpace, CapError, Outcome, slot, write_slot, capability, insert_cap}
use seraph.Cap.CSpace.Insert.{insert_cap-Inserts}
use seraph.Cap.Lookup.{SyscallError}
use seraph.Cap.Derivation.{Registry, lookup_cspace, and_then, link_child}
use seraph.Cap.Derivation.Nodes.{get, IsNode, AllValid, get-IsNode, found-there, lookup_self}
use seraph.Cap.Derivation.Children.{Children, OutOf, AllApart, All-map}
use seraph.Cap.Derivation.Attach.{link_child-Attaches}
use seraph.Cap.Derive.{Kernel, Answer, done, failed, inc_ref, dec_ref, set_token, minted}
use seraph.Cap.Derive.Put.{Puts, inserted-Puts, rewritten-Puts, Puts-Children}
use seraph.Cap.Derive.Power.{Links-SamePower, SamePower}

-- The token that a new capability gets.
abbrev pub token_of : Option ℕ → ℕ
token_of none = 0
token_of (some t) = t

-- What making a capability leaves: the new one stands in the slot `child`, has the token, the object
-- and the rights, and comes first among the children of the source.
pub record Mints (k : Kernel) (src child : SlotId) (xs : List SlotId) (tag : CapTag)
    (rights token object : ℕ) (k' : Kernel) : Type 0 where
  pub all_valid : AllValid k'.spaces
  pub fresh : (b : SlotId) → IsNode k.spaces b → b ≢ child
  pub new : IsNode k'.spaces child
  pub is_tag : (get k'.spaces child).tag ≡ tag
  pub has_rights : (get k'.spaces child).rights ≡ rights
  pub has_token : (get k'.spaces child).token ≡ token
  pub has_object : (get k'.spaces child).object ≡ object
  pub children : Children k'.spaces src (child ∷ xs)
  pub nodes : (b : SlotId) → IsNode k.spaces b → IsNode k'.spaces b
  pub powers : (b : SlotId) → IsNode k.spaces b → SamePower (get k.spaces b) (get k'.spaces b)
  pub others :
      (q : SlotId) (ys : List SlotId)
      → q ≢ src
      → IsNode k.spaces q
      → All (IsNode k.spaces) ys
      → Children k.spaces q ys
      → Children k'.spaces q ys
  pub counted : k'.ref_count object ≡ (k.ref_count object + 1) % 2 ^ 32
  pub other_counts : (o : ℕ) → o ≢ object → k'.ref_count o ≡ k.ref_count o

-- The new slot with its token.
module _ (r : Registry) (child : SlotId) (cs : CSpace) (s : CapabilitySlot)
    (at : slot cs child.index ≡ some (some s)) (zero : s.token ≡ 0)
    (p : Puts r child s (update r child.cspace_id (some cs)))
    (stands : lookup_cspace (update r child.cspace_id (some cs)) child.cspace_id ≡ some cs) where
  tokened :
      (token : Option ℕ)
      → (cs' : CSpace) × (set_token cs child.index token ≡ some cs')
        × Puts r child (record s { token = token_of token }) (update r child.cspace_id (some cs'))
  unfolding set_token
  tokened none = (
    cs,
    refl,
    subst (λ t. Puts r child (record s { token = t }) (update r child.cspace_id (some cs))) zero p,
  )
  tokened (some t) = (
    write_slot cs child.index (record s { token = t }),
    rw (at, set_token) refl,
    rewritten-Puts r child s (record s { token = t }) cs p stands
        (ap is_null (sym p.self) ∙ get-IsNode (update r child.cspace_id (some cs)) child p.new),
  )

-- A call that fails leaves everything as it was.
pub record Unchanged (k k' : Kernel) : Type 0 where
  pub same_spaces : (c : ℕ) → k'.spaces c ≡ k.spaces c
  pub same_counts : (o : ℕ) → k'.ref_count o ≡ k.ref_count o

module _ (k : Kernel) (dest : ℕ) (cs : CSpace) (object : ℕ) where
  abbrev refused : Kernel
  refused = record k {
    spaces = update k.spaces dest (some cs);
    ref_count = dec_ref (inc_ref k.ref_count object) object;
  }

  refused-Unchanged : k.spaces dest ≡ some cs → k.ref_count object < 2 ^ 32 → Unchanged k refused
  refused-Unchanged there small = record {
    same_spaces = λ c. elim (ℕ_discrete c dest) [
      | yes e ↦
          ap (update k.spaces dest (some cs)) e
          ∙ update_self k.spaces dest (some cs)
          ∙ sym there
          ∙ ap k.spaces (sym e)
      | no n ↦ update_ne k.spaces dest (some cs) c n
    ];
    same_counts = λ o. elim (ℕ_discrete o object) [
      | yes e ↦
          ap (dec_ref (inc_ref k.ref_count object) object) e
          ∙ update_self (inc_ref k.ref_count object) object _
          ∙ ap (λ c. (c + 2 ^ 32 - 1) % 2 ^ 32) (update_self k.ref_count object _)
          ∙ back (k.ref_count object) small
          ∙ ap k.ref_count (sym e)
      | no n ↦
          update_ne (inc_ref k.ref_count object) object _ o n ∙ update_ne k.ref_count object _ o n
    ];
  }
    where
      back : (c : ℕ) → c < 2 ^ 32 → ((c + 1) % 2 ^ 32 + 2 ^ 32 - 1) % 2 ^ 32 ≡ c
      back c h = ground arith

module _ (k : Kernel) (src : SlotId) (dest : ℕ) (cs : CSpace) (tag : CapTag) (rights object : ℕ)
    (token : Option ℕ) (to_error : CapError → SyscallError) where
  abbrev result : Option (Answer × Kernel)
  result = minted k src dest object token to_error (insert_cap cs tag rights object)

  minted-full :
      insert_cap cs tag rights object ≡ Outcome.err CapError.out_of_slots cs
      → result ≡ some (failed (to_error CapError.out_of_slots), refused k dest cs object)
  unfolding minted
  minted-full e = ap (minted k src dest object token to_error) e

  minted-run :
      (x : ℕ) (cs1 cs2 : CSpace) (r : Registry)
      → insert_cap cs tag rights object ≡ Outcome.ok x cs1
      → set_token cs1 x token ≡ some cs2
      → link_child (update k.spaces dest (some cs2)) src (record { cspace_id = dest; index = x })
        ≡ some r
      → result ≡ some (done x, record k { spaces = r; ref_count = inc_ref k.ref_count object })
  unfolding minted
  minted-run x cs1 cs2 r e t l =
      ap (minted k src dest object token to_error) e
      ∙ ap
          (λ o. and_then o (λ cs.
            and_then
              (link_child (update k.spaces dest (some cs)) src
                (record { cspace_id = dest; index = x }))
              (λ spaces.
                some
                  (done x, record k { spaces = spaces; ref_count = inc_ref k.ref_count object }))))
          t
      ∙ ap
          (λ o. and_then o (λ spaces.
            some (done x, record k { spaces = spaces; ref_count = inc_ref k.ref_count object })))
          l

  -- What follows an insertion into a registered space, for a source with the children `xs`: without
  -- room the call fails and all is as before; or else there is the new capability.
  pub minted-Mints :
      (xs : List SlotId)
      → AllValid k.spaces
      → IsNode k.spaces src
      → All (IsNode k.spaces) xs
      → OutOf src xs
      → AllApart xs
      → Children k.spaces src xs
      → lookup_cspace k.spaces dest ≡ some cs
      → is_null_tag tag ≡ false
      → k.ref_count object < 2 ^ 32
      → ((k' : Kernel) × (result ≡ some (failed (to_error CapError.out_of_slots), k'))
          × Unchanged k k')
        ⊎ ((x : ℕ) × (k' : Kernel) × (result ≡ some (done x, k'))
            × Mints k src
                (record { cspace_id = dest; index = x })
                xs
                tag
                rights
                (token_of token)
                object
                k')
  minted-Mints xs all vs nodes out apart v there live small =
      let (n, ys, valid, exact) = all dest cs there in
      elim (insert_cap-Inserts cs n ys tag rights object valid live) [
        | inl (_, _, e) ↦ inl (
          refused k dest cs object,
          minted-full e,
          refused-Unchanged k dest cs object (found-there k.spaces dest cs there) small,
        )
        | inr (x, m, rest, cs1, i) ↦
            let child : SlotId = record { cspace_id = dest; index = x } in
            let s = capability tag rights object in
            let p =
              inserted-Puts k.spaces dest cs n ys there all valid exact tag rights object x m rest
                cs1 live i in
            let (cs2, t, q) =
              tokened k.spaces child cs1 s i.holds refl p (lookup_self k.spaces dest cs cs1 there)
                token in
            let r1 : Registry = update k.spaces dest (some cs2) in
            let s' : CapabilitySlot = record s { token = token_of token } in
            let away : OutOf child xs =
              All-map (IsNode k.spaces) (λ y. y ≢ child) xs q.fresh nodes in
            let (r2, l) =
              link_child-Attaches r1 src child xs q.all_valid (q.nodes src vs) q.new
                (All-map (IsNode k.spaces) (IsNode r1) xs q.nodes nodes) (q.fresh src vs) away out
                apart (Puts-Children k.spaces child s' r1 src xs q vs nodes v) in
            let power = Links-SamePower r1 src child r2 l.slots in
            inr (
              x,
              record k { spaces = r2; ref_count = inc_ref k.ref_count object },
              minted-run x cs1 cs2 r2 i.returns t l.returns,
              record {
                all_valid = l.all_valid;
                fresh = q.fresh;
                new = l.nodes child q.new;
                is_tag = (power child).tag ∙ ap (λ (s : CapabilitySlot). s.tag) q.self;
                has_rights = (power child).rights ∙ ap (λ (s : CapabilitySlot). s.rights) q.self;
                has_token = (power child).token ∙ ap (λ (s : CapabilitySlot). s.token) q.self;
                has_object = (power child).object ∙ ap (λ (s : CapabilitySlot). s.object) q.self;
                children = l.children;
                nodes = λ b w. l.nodes b (q.nodes b w);
                powers = λ b w. subst (λ s. SamePower s (get r2 b)) (q.others b w) (power b);
                others = λ a ys ne w ns c.
                    l.others a ys ne (All-map (IsNode k.spaces) (λ y. y ≢ child) ys q.fresh ns)
                      (Puts-Children k.spaces child s' r1 a ys q w ns c);
                counted = update_self k.ref_count object _;
                other_counts = λ o ne. update_ne k.ref_count object _ o ne;
              },
            )
      ]
