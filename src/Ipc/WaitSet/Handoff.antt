-- ===== src/Ipc/WaitSet/Handoff.antt =====
-- `waitset_notify` and `waitset_wait`.
use seraph.Prelude.{
  ℕ, ◌<◌, ◌≡◌, ◌≢◌, ◌⊎◌, inl, inr, sym, ◌∙◌, ap, Option, none, some, List, [], ◌∷◌, ◌++◌, ==_ne,
  length, Option-cases,
}
use native.Mathlib.Decide.{ℕ_discrete}
use seraph.Sched.Smp.{Machine}
use seraph.Sched.Thread.{IpcThreadState}
use seraph.Ipc.World.{WaitSetState, World, put_wait_set, deliver, enqueue_woken, block}
use seraph.Ipc.World.Threads.{IsBlocked, IsWoken}
use seraph.Ipc.WaitSet.{push_ready, token_at, waitset_notify, waitset_wait}
use seraph.Ipc.WaitSet.Ready.{Pending, first_live}

abbrev blocked_world : World → ℕ → ℕ → WaitSetState → World
blocked_world w p caller ws = record (put_wait_set w p (record ws { waiter = caller })) {
  machine = block w.machine caller IpcThreadState.blocked_on_wait_set p;
}

-- What `waitset_wait` leaves: the entries behind the one taken, and the caller blocked if none was.
pub record Waits (w : World) (p caller : ℕ) (xs : List ℕ) (w' : World) : Type 0 where
  pub returns : waitset_wait w p caller ≡ some ((first_live (w.wait_sets p).members xs).0, w')
  pub pending : Pending (w'.wait_sets p) (first_live (w.wait_sets p).members xs).1
  pub members : (w'.wait_sets p).members ≡ (w.wait_sets p).members
  pub blocks :
      ((token : ℕ) × ((first_live (w.wait_sets p).members xs).0 ≡ some token)
        × (w'.machine ≡ w.machine))
      ⊎ ((first_live (w.wait_sets p).members xs).0 ≡ none)
        × ((w'.wait_sets p).waiter ≡ caller)
        × IsBlocked w'.machine caller p

notify-push :
    (w : World) (p i : ℕ)
    → (w.wait_sets p).waiter ≡ 0
    → waitset_notify w p i ≡ some (put_wait_set w p (push_ready (w.wait_sets p) i))
unfolding waitset_notify
notify-push w p i e = rw e

abbrev woken_world : World → ℕ → Machine → World
woken_world w p m = record (put_wait_set w p (record (w.wait_sets p) { waiter = 0 })) {
  machine = m;
}

notify-wake :
    (w : World) (p i : ℕ) (m : Machine)
    → (w.wait_sets p).waiter ≢ 0
    → enqueue_woken
        (deliver w.machine (w.wait_sets p).waiter (token_at (w.wait_sets p) i))
        (w.wait_sets p).waiter
      ≡ some m
    → waitset_notify w p i ≡ some (woken_world w p m)
unfolding waitset_notify
notify-wake w p i m n e = rw (==_ne (w.wait_sets p).waiter 0 n, waitset_notify, e)

-- What `waitset_notify` leaves: either a thread was waiting and has the token of the member, or the
-- member is the last that is pending, unless 15 were pending.
pub record Notifies (w : World) (p i : ℕ) (xs : List ℕ) (w' : World) : Type 0 where
  pub returns : waitset_notify w p i ≡ some w'
  pub event_queues : w'.event_queues ≡ w.event_queues
  pub outcome :
      ((w.wait_sets p).waiter ≢ 0)
        × ((w'.wait_sets p).waiter ≡ 0)
        × Pending (w'.wait_sets p) xs
        × IsWoken w'.machine (w.wait_sets p).waiter (token_at (w.wait_sets p) i)
      ⊎ ((w.wait_sets p).waiter ≡ 0)
        × (w'.machine ≡ w.machine)
        × ((length xs < 15) × Pending (w'.wait_sets p) (xs ++ i ∷ [])
            ⊎ (length xs ≡ 15) × Pending (w'.wait_sets p) xs)

notify-none :
    (w : World) (p i : ℕ)
    → (w.wait_sets p).waiter ≢ 0
    → enqueue_woken
        (deliver w.machine (w.wait_sets p).waiter (token_at (w.wait_sets p) i))
        (w.wait_sets p).waiter
      ≡ none
    → waitset_notify w p i ≡ none
unfolding waitset_notify
notify-none w p i n e = rw (==_ne (w.wait_sets p).waiter 0 n, waitset_notify, e)

-- A notification leaves the signals alone.
pub waitset_notify-signals :
    (w w' : World) (p i : ℕ) → waitset_notify w p i ≡ some w' → w'.signals ≡ w.signals
waitset_notify-signals w w' p i e = elim (ℕ_discrete (w.wait_sets p).waiter 0) [
  | yes z ↦
      ap (λ (o : Option World). elim o [ none ↦ w.signals | some x ↦ x.signals ])
        (sym e ∙ notify-push w p i z)
  | no n ↦
      elim (Option-cases (
        enqueue_woken (deliver w.machine (w.wait_sets p).waiter (token_at (w.wait_sets p) i))
          (w.wait_sets p).waiter)) [
            | inl q ↦ cc (sym (notify-none w p i n q) ∙ e)
            | inr (m, q) ↦
                ap (λ (o : Option World). elim o [ none ↦ w.signals | some x ↦ x.signals ])
                  (sym e ∙ notify-wake w p i m n q)
          ]
]
