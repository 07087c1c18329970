-- ===== src/Ipc/WaitSet/Members.antt =====
-- `waitset_add` and `waitset_remove`.
use native.Mathlib.Decide.{ℕ_discrete}
use seraph.Prelude.{
  ℕ, zero, suc, ◌+◌, ◌-◌, ◌%◌, ◌^◌, ◌<◌, ◌≤◌, ◌≡◌, ◌⊎◌, inl, inr, refl, sym, ◌∙◌, ap, subst, Bool,
  true, false, Option, none, some, List, arith, if-true, if-false, update, update_self, update_ne,
  Bool-cases,
}
use seraph.Prelude.Sum.{total, total_change}
use seraph.Ipc.World.{WaitSetMember, WaitSetSourceTag, WaitSetState, World, put_wait_set}
use seraph.Ipc.WaitSet.{wait_set_max_members, position, has_source, waitset_remove}
use seraph.Ipc.WaitSet.Ready.{Pending}

-- The first place from `i` on that passes the test.
pub position_lem :
    (test : Option WaitSetMember → Bool) (members : ℕ → Option WaitSetMember) (i n : ℕ)
    → ((position test members i n ≡ none)
        × ((k : ℕ) → i ≤ k → k < i + n → test (members k) ≡ false))
      ⊎ ((k : ℕ) × (position test members i n ≡ some k) × (k < i + n) × (test (members k) ≡ true))
unfolding position
position_lem test members i zero = inl (refl, λ k lo hi. absurd (omega arith))
position_lem test members i (suc n) = elim (Bool-cases (test (members i))) [
  | inl e ↦ inr (i, if-true _ _ (test (members i)) e, omega arith, e)
  | inr e ↦ elim (position_lem test members (i + 1) n) [
    | inl (z, clear) ↦ inl (
      if-false _ _ (test (members i)) e ∙ z,
      λ k lo hi. elim (ℕ_discrete k i) [
        | yes q ↦ ap (λ k. test (members k)) q ∙ e
        | no q ↦ clear k (omega arith) (omega arith)
      ],
    )
    | inr (k, z, lt, hit) ↦ inr (k, if-false _ _ (test (members i)) e ∙ z, omega arith, hit)
  ]
]

abbrev is_some : Option WaitSetMember → ℕ
is_some none = 0
is_some (some m) = 1

-- The counter is the number of members.
abbrev pub Counted : WaitSetState → Type 0
Counted ws = ws.member_count ≡ total (λ i. is_some (ws.members i)) wait_set_max_members

members-change :
    (members : ℕ → Option WaitSetMember) (i : ℕ) (o : Option WaitSetMember)
    → i < wait_set_max_members
    → total (λ k. is_some (update members i o k)) wait_set_max_members + is_some (members i)
      ≡ total (λ k. is_some (members k)) wait_set_max_members + is_some o
members-change members i o h = omega (
  arith,
  total_change (λ k. is_some (members k)) (λ k. is_some (update members i o k)) i
      (λ k n. ap is_some (update_ne members i o k n)) wait_set_max_members h,
  ap is_some (update_self members i o),
)

members-le : (members : ℕ → Option WaitSetMember) (n : ℕ) → total (λ k. is_some (members k)) n ≤ n
unfolding total
members-le members zero = omega arith
members-le members (suc n) = omega (arith, members-le members n, one (members n))
  where
    one : (o : Option WaitSetMember) → is_some o ≤ 1
    one none = omega arith
    one (some m) = omega arith

is_some-source : (s : ℕ) (o : Option WaitSetMember) → has_source s o ≡ true → is_some o ≡ 1
is_some-source s none e = cc
is_some-source s (some m) e = refl

module _ (w : World) (p : ℕ) where
  abbrev ws : WaitSetState
  ws = w.wait_sets p

  abbrev without : ℕ → WaitSetState
  without idx = record ws {
    members = update ws.members idx none;
    member_count = (ws.member_count + 2 ^ 8 - 1) % 2 ^ 8;
  }

  remove-none :
      (s : ℕ)
      → position (has_source s) ws.members 0 wait_set_max_members ≡ none
      → waitset_remove w p s ≡ none
  unfolding waitset_remove
  remove-none s e = rw (e, waitset_remove)

  remove-some :
      (s idx : ℕ)
      → position (has_source s) ws.members 0 wait_set_max_members ≡ some idx
      → waitset_remove w p s ≡ some (put_wait_set w p (without idx))
  unfolding waitset_remove
  remove-some s idx e = rw (e, waitset_remove)

  -- `waitset_remove` on a wait set whose counter is right: if the source is no member, it fails; or
  -- else a member with that source is cleared, all others stay, the counter stays right, and the
  -- entries that are pending stay as they are.
  pub waitset_remove-Counted :
      (s : ℕ) (xs : List ℕ)
      → Counted ws
      → Pending ws xs
      → (((k : ℕ) → k < wait_set_max_members → has_source s (ws.members k) ≡ false)
          × (waitset_remove w p s ≡ none))
        ⊎ ((idx : ℕ) × (w' : World) × (idx < wait_set_max_members)
            × (has_source s (ws.members idx) ≡ true)
            × (waitset_remove w p s ≡ some w')
            × ((w'.wait_sets p).members ≡ update ws.members idx none)
            × Counted (w'.wait_sets p)
            × Pending (w'.wait_sets p) xs)
  waitset_remove-Counted s xs c q =
      elim (position_lem (has_source s) ws.members 0 wait_set_max_members) [
        | inl (e, clear) ↦ inl (λ k h. clear k (omega arith) h, remove-none s e)
        | inr (idx, e, lt, hit) ↦
            let self = update_self w.wait_sets p (without idx) in
            inr (
              idx,
              put_wait_set w p (without idx),
              lt,
              hit,
              remove-some s idx e,
              ap (λ (x : WaitSetState). x.members) self,
              subst Counted (sym self) (
                  omega (
                    arith,
                    c,
                    members-change ws.members idx none lt,
                    is_some-source s (ws.members idx) hit,
                    members-le ws.members 16,
                  )),
              subst (λ x. Pending x xs) (sym self) q,
            )
      ]

  -- A member more.
  abbrev pub with_member : ℕ → ℕ → WaitSetSourceTag → ℕ → WaitSetState
  with_member idx s tag token = record ws {
    members =
        update ws.members idx (some (record { source_ptr = s; source_tag = tag; token = token }));
    member_count = (ws.member_count + 1) % 2 ^ 8;
  }
