-- ===== src/Cap/CSpace/Place.antt =====
-- `insert_cap_at`.
use native.Mathlib.Decide.{ℕ_discrete, dec_le, dec_lt}
use seraph.Prelude.{
  ℕ, ◌/◌, ◌≤◌, ◌<◌, ◌≡◌, ◌≢◌, ◌⊎◌, inl, inr, refl, sym, ◌∙◌, ap, Bool, true, false, false≢true, not,
  none, some, List, [], ◌∷◌, arith, ◌==◌, leb, if◌then◌else◌, if-true, if-false, ==_ne, Bool-cases,
  update, update_self, update_ne, NotIn, has, erase, length, NotIn-not_has, NotIn-erase_self,
}
use seraph.Cap.Slot.{CapTag, CapabilitySlot, is_null, is_null_tag}
use seraph.Cap.CSpace.{
  CSpace, Outcome, ok, err, panic, slot, write_slot, and_then, ok_or, capability, populate, grow_to,
  remove_from_free_list, insert_cap_at, invalid_index,
}
use seraph.Cap.CSpace.Free.{Valid, Valid-small, Exact}
use seraph.Cap.CSpace.Allocate.{slot-Valid}
use seraph.Cap.CSpace.Unlink.{remove_from_free_list-Removes}
use seraph.Cap.CSpace.Insert.{write_slot-Valid, populate-run}
use seraph.Cap.CSpace.Reach.{Reaches, grow_to-Reaches, grow_to-there}

-- What `insert_cap_at` leaves.
pub record Places (fuel : ℕ) (cs : CSpace) (xs : List ℕ) (index : ℕ) (tag : CapTag)
    (rights object : ℕ) (cs' : CSpace) : Type 0 where
  pub returns : insert_cap_at fuel cs index tag rights object ≡ ok tt cs'
  pub was_free : index ≤ cs.allocated_slots → is_null (cs.slots index) ≡ true
  pub valid : (m : ℕ) × (rest : List ℕ) × Valid cs' m rest × (Exact cs xs → Exact cs' rest)
  pub holds : slot cs' index ≡ some (some (capability tag rights object))
  pub others :
      (i : ℕ)
      → 0 < i
      → i ≤ cs.allocated_slots
      → i ≢ index
      → is_null (cs.slots i) ≡ false
      → slot cs' i ≡ slot cs i

module _ (fuel : ℕ) (cs : CSpace) (index : ℕ) (tag : CapTag) (rights object : ℕ) where
  place-refused :
      (index ≡ 0) ⊎ (cs.max_slots ≤ index)
      → insert_cap_at fuel cs index tag rights object ≡ err invalid_index cs
  unfolding insert_cap_at
  place-refused (inl e) = if-true _ _ (index == 0) (rw e refl)
  place-refused (inr h) = elim (Bool-cases (index == 0)) [
    | inl e ↦ if-true _ _ (index == 0) e
    | inr e ↦
        if-false _ _ (index == 0) e
        ∙ if-true _ _ (leb cs.max_slots index) (le→leb cs.max_slots index h)
  ]
    where
      le→leb : (a b : ℕ) → a ≤ b → leb a b ≡ true
      le→leb a b h = ground arith

  -- The rest of `insert_cap_at` once the page is there.
  placed : CSpace → Outcome (Unit {0})
  placed cs = elim (slot cs index) [
    | none ↦ panic
    | some o ↦ and_then (ok_or o invalid_index cs) (λ s cs.
        if not (is_null s)
        then err invalid_index cs
        else and_then (remove_from_free_list fuel cs index)
            (λ _ cs. populate cs index (capability tag rights object)))
  ]

  place-grown :
      (cs' : CSpace)
      → 0 < index
      → index < cs.max_slots
      → grow_to fuel cs (index / 64) ≡ ok tt cs'
      → insert_cap_at fuel cs index tag rights object ≡ placed cs'
  unfolding insert_cap_at placed
  place-grown cs' p h g =
      if-false _ _ (index == 0) (==_ne index 0 (λ z. omega (arith, z, p)))
      ∙ if-false _ _ (leb cs.max_slots index) (not_leb cs.max_slots index h)
      ∙ ap (λ (r : Outcome (Unit {0})). and_then r (λ _ cs. placed cs)) g
    where
      not_leb : (a b : ℕ) → b < a → leb a b ≡ false
      not_leb a b h = ground arith

  placed-occupied :
      (cs' : CSpace)
      → slot cs' index ≡ some (some (cs'.slots index))
      → is_null (cs'.slots index) ≡ false
      → placed cs' ≡ err invalid_index cs'
  unfolding placed
  placed-occupied cs' e z =
      rw (e, placed) (if-true _ _ (not (is_null (cs'.slots index))) (rw z refl))

  placed-run :
      (cs' cs'' : CSpace)
      → slot cs' index ≡ some (some (cs'.slots index))
      → is_null (cs'.slots index) ≡ true
      → remove_from_free_list fuel cs' index ≡ ok true cs''
      → slot cs'' index ≡ some (some (cs''.slots index))
      → placed cs' ≡ ok tt (write_slot cs'' index (capability tag rights object))
  unfolding placed
  placed-run cs' cs'' e z r e' =
      rw (e, placed)
        (if-false _ _ (not (is_null (cs'.slots index))) (rw z refl)
          ∙ ap
              (λ (o : Outcome Bool).
                and_then o (λ _ cs. populate cs index (capability tag rights object)))
              r
          ∙ populate-run cs'' index (capability tag rights object) (cs''.slots index) e')

  abbrev s : CapabilitySlot
  s = capability tag rights object

  -- The slot is null once the page is there.
  place-Places :
      (n : ℕ) (xs : List ℕ) (m : ℕ) (xs' : List ℕ) (cs1 : CSpace)
      → Valid cs n xs
      → Exact cs xs
      → is_null_tag tag ≡ false
      → 0 < index
      → index < cs.max_slots
      → index ≤ cs1.allocated_slots
      → length xs' < fuel
      → Reaches fuel cs xs (index / 64) m xs' cs1
      → is_null (cs1.slots index) ≡ true
      → (cs' : CSpace) × Places fuel cs xs index tag rights object cs'
  place-Places n xs m xs' cs1 v exact live p h in_use f r z =
      let listed : has index xs' ≡ true = elim (Bool-cases (has index xs')) [
        | inl e ↦ e
        | inr e ↦ absurd (r.exact exact index p in_use z (NotIn-not_has index xs' e))
      ] in
      let (cs2, d) = remove_from_free_list-Removes fuel cs1 m index xs' f r.valid listed in
      let out = NotIn-erase_self index xs' r.valid.distinct in
      let in_use' : index ≤ cs2.allocated_slots = omega (arith, d.allocated, in_use) in
      let at = slot-Valid cs2 m (erase index xs') index d.valid p in_use' in
      let written = write_slot-Valid cs2 m (erase index xs') index s p out d.valid in
      let self = update_self cs2.slots index s in
      let other = λ (i : ℕ) (ne : i ≢ index). update_ne cs2.slots index s i ne in
      (
        write_slot cs2 index s,
        record {
          returns =
              place-grown cs1 p h r.returns
              ∙ placed-run cs1 cs2 (slot-Valid cs1 m xs' index r.valid p in_use) z d.returns at;
          was_free = λ l. sym (ap is_null (r.others index p l)) ∙ z;
          valid = (
            m,
            erase index xs',
            written,
            λ x i q l z' apart. elim (ℕ_discrete i index) [
              | yes e ↦ false≢true (
                  sym live
                  ∙ sym (ap is_null self)
                  ∙ ap (λ k. is_null (update cs2.slots index s k)) (sym e)
                  ∙ z')
              | no e ↦
                  r.exact x i q (omega (arith, l, d.allocated))
                    (sym (d.nulls i) ∙ sym (ap is_null (other i e)) ∙ z')
                    (unerase i xs' (λ w. e (sym w)) apart)
            ],
          );
          holds =
              slot-Valid (write_slot cs2 index s) m (erase index xs') index written p in_use'
              ∙ ap (λ s. some (some s)) self;
          others = λ i q l ne z'.
              let kept = r.others i q l in
              slot-Valid (write_slot cs2 index s) m (erase index xs') i written q
                (omega (arith, l, r.grown, d.allocated))
              ∙ ap (λ s. some (some s)) (other i ne ∙ d.others i (ap is_null kept ∙ z') ∙ kept)
              ∙ sym (slot-Valid cs n xs i v q l);
        },
      )
    where
      unerase : (i : ℕ) (xs : List ℕ) → index ≢ i → NotIn i (erase index xs) → NotIn i xs
      unerase i [] n h = tt
      unerase i (x ∷ xs) n h = ground (arith, unerase i xs n)

  -- `insert_cap_at` of a capability on a well-formed space of at most 16384 slots, with that much
  -- fuel: the index 0 and an index beyond the quota are refused, and so is a slot that holds a
  -- capability, all with no change; otherwise the capability stands in the slot, every other
  -- capability is where it was, and the space is well-formed.
  pub insert_cap_at-Places :
      (n : ℕ) (xs : List ℕ)
      → Valid cs n xs
      → Exact cs xs
      → is_null_tag tag ≡ false
      → cs.max_slots ≤ 16384
      → 16384 ≤ fuel
      → ((index ≡ 0) ⊎ (cs.max_slots ≤ index))
          × (insert_cap_at fuel cs index tag rights object ≡ err invalid_index cs)
        ⊎ (index ≤ cs.allocated_slots)
          × (is_null (cs.slots index) ≡ false)
          × (insert_cap_at fuel cs index tag rights object ≡ err invalid_index cs)
        ⊎ ((cs' : CSpace) × Places fuel cs xs index tag rights object cs')
  insert_cap_at-Places n xs v exact live quota enough = elim (dec_lt 0 index) [
    | no z ↦ let refused = inl (omega arith) in inl (refused, place-refused refused)
    | yes p ↦ elim (dec_lt index cs.max_slots) [
      | no z ↦ let refused = inr (omega arith) in inl (refused, place-refused refused)
      | yes h ↦
          let (m, xs', cs1, r) =
            grow_to-Reaches fuel cs n xs (index / 64) (omega arith) (omega (arith, v.pages))
              (omega arith) (omega arith) v in
          let in_use : index ≤ cs1.allocated_slots =
            omega (arith, r.valid.at_limit, r.quota, r.there, h) in
          let short : length xs' < fuel =
            omega (arith, Valid-small cs1 m xs' r.valid, r.valid.in_pages, r.valid.pages, enough) in
          elim (Bool-cases (is_null (cs1.slots index))) [
            | inl z ↦ inr (inr (place-Places n xs m xs' cs1 v exact live p h in_use short r z))
            | inr z ↦ elim (dec_le index cs.allocated_slots) [
              | no l ↦ elim (false≢true (sym z ∙ r.fresh index (omega arith) in_use)) [ ]
              | yes l ↦
                  let z' = sym (ap is_null (r.others index p l)) ∙ z in
                  let there =
                    grow_to-there fuel cs (index / 64) (omega arith) (omega arith)
                      (v.mapped (index / 64) (omega (arith, v.in_pages, l, p))) in
                  inr (
                    inl (
                      l,
                      z',
                      place-grown cs p h there
                          ∙ placed-occupied cs (slot-Valid cs n xs index v p l) z',
                    ))
            ]
          ]
    ]
  ]
