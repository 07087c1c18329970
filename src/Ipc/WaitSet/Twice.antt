-- ===== src/Ipc/WaitSet/Twice.antt =====
-- `waitset_add` of a source that is ready, while a thread waits.
use seraph.Prelude.{
  ℕ, ◌<◌, ◌≡◌, ◌≢◌, inl, inr, sym, ◌∙◌, ap, subst, true, none, some, List, [], ◌∷◌, ◌++◌, arith,
  if-true, ==_ne, update_self, length,
}
use seraph.Sched.Smp.{Machine}
use seraph.Sched.Smp.Wake.{IsWakeable}
use seraph.Ipc.World.{
  WaitSetSourceTag, WaitSetState, World, put_wait_set, deliver_only, enqueue_woken,
}
use seraph.Ipc.World.Threads.{wake_only-some}
use seraph.Ipc.WaitSet.{
  wait_set_max_members, push_ready, position, is_none, source_is_ready, wake_waiter, waitset_add,
}
use seraph.Ipc.WaitSet.Ready.{Pending, push_ready-Pending, push_ready-waiter}
use seraph.Ipc.WaitSet.Members.{position_lem, with_member}

module _ (w : World) (p : ℕ) where
  -- The new member pending as well.
  abbrev pushed : ℕ → ℕ → WaitSetSourceTag → ℕ → World
  pushed idx s tag token = put_wait_set w p (push_ready (with_member w p idx s tag token) idx)

  add-ready :
      (s : ℕ) (tag : WaitSetSourceTag) (token idx : ℕ) (w' : World)
      → position is_none (w.wait_sets p).members 0 wait_set_max_members ≡ some idx
      → source_is_ready w s tag ≡ true
      → wake_waiter (pushed idx s tag token) p token ≡ some w'
      → waitset_add w p s tag token ≡ some (some idx, w')
  unfolding waitset_add
  add-ready s tag token idx w' e r run =
      rw (e, waitset_add)
        (if-true _ _ (source_is_ready w s tag) r
          ∙ ap (λ o. elim o [ none ↦ none | some w'' ↦ some (some idx, w'') ]) run)

pub wake_waiter-some :
    (w : World) (p value : ℕ) (m : Machine)
    → (w.wait_sets p).waiter ≢ 0
    → enqueue_woken (deliver_only w.machine (w.wait_sets p).waiter value) (w.wait_sets p).waiter
      ≡ some m
    → wake_waiter w p value
      ≡ some (record (put_wait_set w p (record (w.wait_sets p) { waiter = 0 })) { machine = m })
unfolding wake_waiter
wake_waiter-some w p value m n e = rw (==_ne (w.wait_sets p).waiter 0 n, wake_waiter, e)

-- What `waitset_add` leaves when the source is ready and a thread waits.
pub record AddsTwice (w : World) (p s : ℕ) (tag : WaitSetSourceTag) (token : ℕ) (xs : List ℕ)
    (idx : ℕ) (w' : World) : Type 0 where
  pub returns : waitset_add w p s tag token ≡ some (some idx, w')
  pub no_waiter : (w'.wait_sets p).waiter ≡ 0
  pub has_token : (w'.machine.threads (w.wait_sets p).waiter).wakeup_value ≡ token
  pub pending : Pending (w'.wait_sets p) (xs ++ idx ∷ [])

-- `waitset_add` of a source that is ready, with a place free, fewer than 15 entries pending and a
-- thread waiting that can be woken: the thread is woken with the token, and the member is pending
-- too, so that the next `waitset_wait` reports it once more.
pub waitset_add_twice :
    (w : World) (p s : ℕ) (tag : WaitSetSourceTag) (token : ℕ) (xs : List ℕ) (k : ℕ)
    → k < wait_set_max_members
    → is_none ((w.wait_sets p).members k) ≡ true
    → source_is_ready w s tag ≡ true
    → Pending (w.wait_sets p) xs
    → length xs < 15
    → (w.wait_sets p).waiter ≢ 0
    → IsWakeable w.machine (w.wait_sets p).waiter
    → (idx : ℕ) × (w' : World) × AddsTwice w p s tag token xs idx w'
waitset_add_twice w p s tag token xs k hk free r v room n wakeable =
    elim (position_lem is_none (w.wait_sets p).members 0 wait_set_max_members) [
      | inl (e, clear) ↦ cc (clear k (omega arith) hk, free)
      | inr (idx, e, lt, hit) ↦
          let tcb = (w.wait_sets p).waiter in
          let (m, run, value) = wake_only-some w.machine tcb token wakeable in
          let new = with_member w p idx s tag token in
          let self = update_self w.wait_sets p (push_ready new idx) in
          let same : ((pushed w p idx s tag token).wait_sets p).waiter ≡ tcb =
            ap (λ (x : WaitSetState). x.waiter) self ∙ push_ready-waiter new idx in
          let at : World = pushed w p idx s tag token in
          let wake =
            wake_waiter-some at p token m (λ z. n (sym same ∙ z))
              (ap (λ t. enqueue_woken (deliver_only w.machine t token) t) same ∙ run) in
          let done : World = record (put_wait_set at p (record (at.wait_sets p) { waiter = 0 })) {
            machine = m;
          } in
          let self' = update_self at.wait_sets p (record (at.wait_sets p) { waiter = 0 }) in
          (
            idx,
            done,
            record {
              returns = add-ready w p s tag token idx done e r wake;
              no_waiter = ap (λ (x : WaitSetState). x.waiter) self';
              has_token = value;
              pending = elim (push_ready-Pending new xs idx v) [
                | inl (_, q) ↦
                    subst (λ (x : WaitSetState). Pending x (xs ++ idx ∷ [])) (sym self')
                      (subst (λ (x : WaitSetState). Pending x (xs ++ idx ∷ [])) (sym self) q)
                | inr (top, _) ↦ absurd (omega (arith, top, room))
              ];
            },
          )
    ]
