-- ===== src/Ipc/WaitSet/Ready.antt =====
-- The ready ring of a wait set: what `waitset_notify` puts in, `waitset_wait` takes out.
use native.Mathlib.Nat.{mod-eq_of_lt}
use seraph.Prelude.{
  ℕ, zero, suc, ◌+◌, ◌%◌, ◌<◌, ◌≡◌, ◌⊎◌, inl, inr, refl, sym, ◌∙◌, ap, subst, true, false, Option,
  none, some, List, [], ◌∷◌, ◌++◌, arith, ltb, ltb→lt, ==_refl, ==_ne, update, length, Bool-cases,
  Option-cases,
}
use seraph.Prelude.Ring.{IsRing, push-IsRing, pop-IsRing}
use seraph.Ipc.World.{WaitSetMember, WaitSetState}
use seraph.Ipc.WaitSet.{wait_set_max_members, has_ready, push_ready, pop_from, pop_ready}

-- The members whose notifications are pending, the oldest first; some may have been removed.
abbrev pub Pending : WaitSetState → List ℕ → Type 0
Pending ws xs = IsRing wait_set_max_members ws.ready_ring ws.ready_head ws.ready_tail xs

-- The token of the first member that is still there, and what is left behind it.
unfoldable pub first_live : (ℕ → Option WaitSetMember) → List ℕ → Option ℕ × List ℕ
first_live members [] = (none, [])
first_live members (i ∷ xs) = elim (members i) [
  | none ↦ first_live members xs
  | some m ↦ (some m.token, xs)
]

first_live-nil : (members : ℕ → Option WaitSetMember) → first_live members [] ≡ (none, [])
unfolding first_live
first_live-nil members = refl

has_ready-nil : (ws : WaitSetState) → Pending ws [] → has_ready ws ≡ false
unfolding has_ready
has_ready-nil ws r = rw (
  r.tail_at
      ∙ ap (λ k. k % 16) {x = ws.ready_head + 0} {y = ws.ready_head} (omega arith)
      ∙ mod-eq_of_lt r.head_lt,
  ==_refl ws.ready_head,
)

has_ready-cons :
    (ws : WaitSetState) (i : ℕ) (xs : List ℕ) → Pending ws (i ∷ xs) → has_ready ws ≡ true
unfolding has_ready
has_ready-cons ws i xs r =
    rw (==_ne ws.ready_head ws.ready_tail (λ e. omega (arith, e, r.tail_at, r.head_lt, r.room)))

pop_from-stop :
    (fuel : ℕ) (ws : WaitSetState) → has_ready ws ≡ false → pop_from (suc fuel) ws ≡ some (none, ws)
unfolding pop_from
pop_from-stop fuel ws e = rw e

-- The wait set after the first entry has been taken.
abbrev advance : WaitSetState → WaitSetState
advance ws = record ws { ready_head = (ws.ready_head + 1) % wait_set_max_members }

pop_from-live :
    (fuel : ℕ) (ws : WaitSetState) (m : WaitSetMember)
    → has_ready ws ≡ true
    → ws.members (ws.ready_ring ws.ready_head) ≡ some m
    → pop_from (suc fuel) ws ≡ some (some m.token, advance ws)
unfolding pop_from
pop_from-live fuel ws m e l = rw (e, l)

pop_from-stale :
    (fuel : ℕ) (ws : WaitSetState)
    → has_ready ws ≡ true
    → ws.members (ws.ready_ring ws.ready_head) ≡ none
    → pop_from (suc fuel) ws ≡ pop_from fuel (advance ws)
unfolding pop_from
pop_from-stale fuel ws e l = rw (e, l)

first_live-stale :
    (members : ℕ → Option WaitSetMember) (i : ℕ) (xs : List ℕ)
    → members i ≡ none
    → first_live members (i ∷ xs) ≡ first_live members xs
unfolding first_live
first_live-stale members i xs e = rw (e, first_live)

first_live-live :
    (members : ℕ → Option WaitSetMember) (i : ℕ) (xs : List ℕ) (m : WaitSetMember)
    → members i ≡ some m
    → first_live members (i ∷ xs) ≡ (some m.token, xs)
unfolding first_live
first_live-live members i xs m e = rw (e, first_live)

-- The pop ends with the given result.
abbrev Pops : ℕ → WaitSetState → Option ℕ × List ℕ → Type 0
Pops fuel ws result =
    (ws' : WaitSetState) × (pop_from fuel ws ≡ some (result.0, ws'))
    × Pending ws' result.1
    × (ws'.members ≡ ws.members)
    × (ws'.waiter ≡ ws.waiter)

pop_from-first :
    (fuel : ℕ) (ws : WaitSetState) (xs : List ℕ)
    → Pending ws xs
    → length xs < fuel
    → Pops fuel ws (first_live ws.members xs)
pop_from-first zero ws xs r f = absurd (omega arith)
pop_from-first (suc fuel) ws [] r f =
    subst (Pops (suc fuel) ws) (sym (first_live-nil ws.members))
      (ws, pop_from-stop fuel ws (has_ready-nil ws r), r, refl, refl)
pop_from-first (suc fuel) ws (i ∷ xs) r f =
    let (first, rest) = pop-IsRing 16 ws.ready_ring ws.ready_head ws.ready_tail i xs r in
    elim (Option-cases (ws.members i)) [
      | inl e ↦
          let (ws', run, pending, members, waiter) =
            pop_from-first fuel (advance ws) xs rest (omega arith) in
          subst (Pops (suc fuel) ws) (sym (first_live-stale ws.members i xs e)) (
            ws',
            pop_from-stale fuel ws (has_ready-cons ws i xs r) (ap ws.members first ∙ e) ∙ run,
            pending,
            members,
            waiter,
          )
      | inr (m, e) ↦ subst (Pops (suc fuel) ws) (sym (first_live-live ws.members i xs m e)) (
        advance ws,
        pop_from-live fuel ws m (has_ready-cons ws i xs r) (ap ws.members first ∙ e),
        rest,
        refl,
        refl,
      )
    ]

push_ready-room :
    (ws : WaitSetState) (xs : List ℕ) (i : ℕ)
    → Pending ws xs
    → length xs < 15
    → push_ready ws i ≡ record ws {
      ready_ring = update ws.ready_ring ws.ready_tail i;
      ready_tail = (ws.ready_tail + 1) % wait_set_max_members;
    }
unfolding push_ready
push_ready-room ws xs i r h = rw (
    ==_ne ((ws.ready_tail + 1) % 16) ws.ready_head (λ e. omega (arith, e, r.tail_at, r.head_lt, h)))

push_ready-full :
    (ws : WaitSetState) (xs : List ℕ) (i : ℕ)
    → Pending ws xs
    → length xs ≡ 15
    → push_ready ws i ≡ ws
unfolding push_ready
push_ready-full ws xs i r h = rw (full ws xs i r h, ==_refl ws.ready_head)
  where
    full :
        (ws : WaitSetState) (xs : List ℕ) (i : ℕ)
        → Pending ws xs
        → length xs ≡ 15
        → (ws.ready_tail + 1) % 16 ≡ ws.ready_head
    full ws xs i r h = omega (arith, r.tail_at, r.head_lt, h)

-- A notification goes to the end of the ring while that has fewer than 15 entries; on a full ring
-- it is lost, and nothing changes.
pub push_ready-Pending :
    (ws : WaitSetState) (xs : List ℕ) (i : ℕ)
    → Pending ws xs
    → (length xs < 15) × Pending (push_ready ws i) (xs ++ i ∷ [])
      ⊎ (length xs ≡ 15) × (push_ready ws i ≡ ws)
push_ready-Pending ws xs i r = elim (Bool-cases (ltb (length xs) 15)) [
  | inl e ↦
      let lt = ltb→lt (length xs) 15 e in
      inl (
        lt,
        subst (λ w. Pending w (xs ++ i ∷ [])) (sym (push_ready-room ws xs i r lt))
            (push-IsRing 16 ws.ready_ring ws.ready_head ws.ready_tail xs i r (omega arith)),
      )
  | inr e ↦
      let top : length xs ≡ 15 = ground (arith, r.room) in inr (top, push_ready-full ws xs i r top)
]

-- `pop_ready` ends, skips the members that have been removed, and gives the token of the first that
-- has not.
pub pop_ready-first :
    (ws : WaitSetState) (xs : List ℕ)
    → Pending ws xs
    → (ws' : WaitSetState) × (pop_ready ws ≡ some ((first_live ws.members xs).0, ws'))
      × Pending ws' (first_live ws.members xs).1
      × (ws'.members ≡ ws.members)
      × (ws'.waiter ≡ ws.waiter)
unfolding pop_ready
pop_ready-first ws xs r = pop_from-first 16 ws xs r r.room

pub push_ready-waiter : (ws : WaitSetState) (i : ℕ) → (push_ready ws i).waiter ≡ ws.waiter
unfolding push_ready
push_ready-waiter ws i = ground arith
