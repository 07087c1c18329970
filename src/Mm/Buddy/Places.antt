-- ===== src/Mm/Buddy/Places.antt =====
-- The slots of the pool stand in disjoint linked lists, one at each place: the free lists of the
-- orders, and the list of the slots that are not in use.
use native.Mathlib.Decide.{ℕ_discrete}
use seraph.Prelude.{
  ℕ, ◌<◌, ◌≡◌, ◌≢◌, refl, sym, subst, inl, inr, true, List, ◌∷◌, ◌==◌, if◌then◌else◌, ==_refl,
  ==_ne, Bool-cases, update, update_self, NotIn, Distinct, erase, has, All, All-has, All-erase,
  Distinct-erase, NotIn-erase_self,
}
use seraph.Prelude.Chain.{
  Links, Chain, Chain-update, Chain-remove, Chain-has-pos, before, All-before, Chain-NotIn_zero,
  homes_apart, rehome,
}

-- `heads o` is the first slot of the list at place `o`, and `slots o` is that list.
pub record Lists (n : ℕ) (heads : ℕ → ℕ) (nexts : Links) (slots : ℕ → List ℕ) : Type 0 where
  pub chain : (o : ℕ) → o < n → Chain nexts (heads o) (slots o)
  pub distinct : (o : ℕ) → o < n → Distinct (slots o)
  pub home : ℕ → ℕ
  pub at_home : (o : ℕ) → o < n → All (λ s. home s ≡ o) (slots o)

pub Lists-heads :
    (n : ℕ) (heads heads' : ℕ → ℕ) (nexts : Links) (slots : ℕ → List ℕ)
    → ((o : ℕ) → o < n → heads' o ≡ heads o)
    → Lists n heads nexts slots
    → Lists n heads' nexts slots
Lists-heads n heads heads' nexts slots same v = record {
  chain = λ o h. subst (λ k. Chain nexts k (slots o)) (sym (same o h)) (v.chain o h);
  distinct = v.distinct;
  home = v.home;
  at_home = v.at_home;
}

-- The links and the head of a list without the slot `x`.
abbrev pub bypass : Links → List ℕ → ℕ → Links
bypass nexts xs x = if before 0 xs x == 0 then nexts else update nexts (before 0 xs x) (nexts x)

abbrev pub new_head : Links → ℕ → List ℕ → ℕ → ℕ
new_head nexts h xs x = if before 0 xs x == 0 then nexts x else h

module _ (n : ℕ) (heads : ℕ → ℕ) (nexts : Links) (slots : ℕ → List ℕ)
    (v : Lists n heads nexts slots) (i j x : ℕ) (hi : i < n) (hj : j < n) (ne : i ≢ j)
    (here : has x (slots i) ≡ true) where
  apart : (o : ℕ) → o < n → o ≢ i → All (λ y. NotIn y (slots o)) (slots i)
  apart o ho q =
      homes_apart v.home i o (slots i) (slots o) (λ e. q (sym e)) (v.at_home i hi) (v.at_home o ho)

  pub not_in : (o : ℕ) → o < n → o ≢ i → NotIn x (slots o)
  not_in o ho q = All-has (λ y. NotIn y (slots o)) x (slots i) (apart o ho q) here

  Chain-bypass_place :
      (o : ℕ) → o < n → o ≢ i → Chain (bypass nexts (slots i) x) (heads o) (slots o)
  Chain-bypass_place o ho q = elim (Bool-cases (before 0 (slots i) x == 0)) [
    | inl z ↦ rw z (v.chain o ho)
    | inr z ↦ rw z (
        Chain-update nexts (before 0 (slots i) x) (nexts x) (heads o) (slots o)
          (All-before (λ y. NotIn y (slots o)) 0 (slots i) x
            (Chain-NotIn_zero nexts (heads o) (slots o) (v.chain o ho)) (apart o ho q))
          (v.chain o ho))
  ]

  slot_pos : 0 < x
  slot_pos = Chain-has-pos nexts (heads i) x (slots i) (v.chain i hi) here

  -- A slot goes from any place of one list to the front of another.
  pub move-Lists :
      Lists n
        (update (update heads i (new_head nexts (heads i) (slots i) x)) j x)
        (update (bypass nexts (slots i) x) x (heads j))
        (update (update slots i (erase x (slots i))) j (x ∷ slots j))
  move-Lists = record {
    chain = λ o ho. elim (ℕ_discrete o j) [
      | yes e ↦
          rw (e, ==_refl j)
            (
              refl,
              slot_pos,
              subst (λ k. Chain (update (bypass nexts (slots i) x) x (heads j)) k (slots j))
                  (sym (update_self (bypass nexts (slots i) x) x (heads j)))
                  (Chain-update (bypass nexts (slots i) x) x (heads j) (heads j) (slots j)
                    (not_in j hj (λ e. ne (sym e))) (Chain-bypass_place j hj (λ e. ne (sym e)))),
            )
      | no m ↦ rw (==_ne o j m) (elim (ℕ_discrete o i) [
        | yes e ↦
            rw (e, ==_refl i)
              (Chain-update (bypass nexts (slots i) x) x (heads j) _ (erase x (slots i))
                (NotIn-erase_self x (slots i) (v.distinct i hi))
                (Chain-remove nexts (heads i) (slots i) x (v.chain i hi) here (v.distinct i hi)))
        | no k ↦ rw (==_ne o i k) (
            Chain-update (bypass nexts (slots i) x) x (heads j) (heads o) (slots o) (not_in o ho k)
              (Chain-bypass_place o ho k))
      ])
    ];
    distinct = λ o ho. elim (ℕ_discrete o j) [
      | yes e ↦ rw (e, ==_refl j) (not_in j hj (λ e. ne (sym e)), v.distinct j hj)
      | no m ↦ rw (==_ne o j m) (elim (ℕ_discrete o i) [
        | yes e ↦ rw (e, ==_refl i) (Distinct-erase x (slots i) (v.distinct i hi))
        | no k ↦ rw (==_ne o i k) (v.distinct o ho)
      ])
    ];
    home = update v.home x j;
    at_home = λ o ho. elim (ℕ_discrete o j) [
      | yes e ↦
          rw (e, ==_refl j)
            (
              update_self v.home x j,
              rehome v.home x j j (slots j) (not_in j hj (λ e. ne (sym e))) (v.at_home j hj),
            )
      | no m ↦ rw (==_ne o j m) (elim (ℕ_discrete o i) [
        | yes e ↦
            rw (e, ==_refl i)
              (rehome v.home x j i (erase x (slots i))
                (NotIn-erase_self x (slots i) (v.distinct i hi))
                (All-erase (λ s. v.home s ≡ i) x (slots i) (v.at_home i hi)))
        | no k ↦ rw (==_ne o i k) (rehome v.home x j o (slots o) (not_in o ho k) (v.at_home o ho))
      ])
    ];
  }

-- The first slot of one list goes to the front of another.
pub move_front :
    (n : ℕ) (heads : ℕ → ℕ) (nexts : Links) (slots : ℕ → List ℕ) (i j x : ℕ) (rest : List ℕ)
    → Lists n heads nexts slots
    → i < n
    → j < n
    → i ≢ j
    → slots i ≡ x ∷ rest
    → Lists n
        (update (update heads i (nexts x)) j x)
        (update nexts x (heads j))
        (update (update slots i rest) j (x ∷ slots j))
move_front n heads nexts slots i j x rest v hi hj ne e =
    let moved = move-Lists n heads nexts slots v i j x hi hj ne (rw (e, ==_refl x)) in
    rw (==_refl x) at (
      subst
        (λ ys.
          Lists n (update (update heads i (new_head nexts (heads i) ys x)) j x)
            (update (bypass nexts ys x) x (heads j))
            (update (update slots i (erase x ys)) j (x ∷ slots j)))
        e moved)
