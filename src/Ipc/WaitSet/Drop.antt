-- ===== src/Ipc/WaitSet/Drop.antt =====
-- `wait_set_drop`.
use native.Mathlib.Decide.{ℕ_discrete}
use seraph.Prelude.{ℕ, ◌<◌, ◌≡◌, ◌≢◌, refl, ◌∙◌, ap, none, some, ◌==◌, if-true, update_self}
use seraph.Sched.Smp.{Machine}
use seraph.Sched.Smp.Wake.{IsWakeable}
use seraph.Ipc.World.{WaitSetMember, WaitSetSourceTag, WaitSetState, World, put_wait_set}
use seraph.Ipc.World.Threads.{wake_only-some}
use seraph.Ipc.WaitSet.{wait_set_max_members, wake_waiter, clear_members, wait_set_drop}
use seraph.Ipc.WaitSet.Twice.{wake_waiter-some}
use seraph.Ipc.WaitSet.Clear.{back_pointer, clear_members-frame, clear_members-all}

-- What `wait_set_drop` leaves.
pub record Drops (w : World) (p : ℕ) (w' : World) : Type 0 where
  pub returns : wait_set_drop w p ≡ some w'
  pub no_waiter : (w'.wait_sets p).waiter ≡ 0
  pub is_woken :
      (w.wait_sets p).waiter ≢ 0 → (w'.machine.threads (w.wait_sets p).waiter).wakeup_value ≡ 0
  pub no_members : (i : ℕ) → (w'.wait_sets p).members i ≡ none
  pub no_sources :
      (i : ℕ) (m : WaitSetMember)
      → i < wait_set_max_members
      → (w.wait_sets p).members i ≡ some m
      → back_pointer w' m.source_ptr m.source_tag ≡ 0

put-back_pointer :
    (w : World) (p : ℕ) (ws : WaitSetState) (s : ℕ) (tag : WaitSetSourceTag)
    → back_pointer (put_wait_set w p ws) s tag ≡ back_pointer w s tag
put-back_pointer w p ws s WaitSetSourceTag.endpoint = refl
put-back_pointer w p ws s WaitSetSourceTag.signal = refl
put-back_pointer w p ws s WaitSetSourceTag.event_queue = refl

-- What the wakeup in front of the loop leaves.
record Wakes (w : World) (p : ℕ) (w' : World) : Type 0 where
  returns : wake_waiter w p 0 ≡ some w'
  no_waiter : (w'.wait_sets p).waiter ≡ 0
  members : (w'.wait_sets p).members ≡ (w.wait_sets p).members
  is_woken :
      (w.wait_sets p).waiter ≢ 0 → (w'.machine.threads (w.wait_sets p).waiter).wakeup_value ≡ 0

wake_waiter-nobody : (w : World) (p : ℕ) → (w.wait_sets p).waiter ≡ 0 → wake_waiter w p 0 ≡ some w
unfolding wake_waiter
wake_waiter-nobody w p e = if-true _ _ ((w.wait_sets p).waiter == 0) (rw e refl)

wake_waiter-Wakes :
    (w : World) (p : ℕ)
    → ((w.wait_sets p).waiter ≢ 0 → IsWakeable w.machine (w.wait_sets p).waiter)
    → (w' : World) × Wakes w p w'
wake_waiter-Wakes w p wakeable = elim (ℕ_discrete (w.wait_sets p).waiter 0) [
  | yes e ↦ (
    w,
    record {
      returns = wake_waiter-nobody w p e;
      no_waiter = e;
      members = refl;
      is_woken = λ n. absurd (n e);
    },
  )
  | no n ↦
      let ws : WaitSetState = record (w.wait_sets p) { waiter = 0 } in
      let (m, run, value) = wake_only-some w.machine (w.wait_sets p).waiter 0 (wakeable n) in
      let self = update_self w.wait_sets p ws in
      (
        record (put_wait_set w p ws) { machine = m },
        record {
          returns = wake_waiter-some w p 0 m n run;
          no_waiter = ap (λ (x : WaitSetState). x.waiter) self;
          members = ap (λ (x : WaitSetState). x.members) self;
          is_woken = λ _. value;
        },
      )
]

drop-run :
    (w : World) (p : ℕ) (w' : World)
    → wake_waiter w p 0 ≡ some w'
    → let w'' : World = clear_members w' (w'.wait_sets p).members wait_set_max_members in
      wait_set_drop w p
      ≡ some
          (put_wait_set w'' p (record (w''.wait_sets p) { members = λ _. none; member_count = 0 }))
unfolding wait_set_drop
drop-run w p w' e = rw (e, wait_set_drop) refl

-- `wait_set_drop`, where a thread that waits on the wait set can be woken, returns: nobody waits on
-- the wait set, a thread that did has been woken with 0, no member is left, and no source that was a
-- member has a wait set to notify.
pub wait_set_drop-Drops :
    (w : World) (p : ℕ)
    → ((w.wait_sets p).waiter ≢ 0 → IsWakeable w.machine (w.wait_sets p).waiter)
    → (w' : World) × Drops w p w'
wait_set_drop-Drops w p wakeable =
    let (w1, woken) = wake_waiter-Wakes w p wakeable in
    let members = (w1.wait_sets p).members in
    let w2 : World = clear_members w1 members wait_set_max_members in
    let (sets, machine) = clear_members-frame w1 members wait_set_max_members in
    let ws : WaitSetState = record (w2.wait_sets p) { members = λ _. none; member_count = 0 } in
    let self = update_self w2.wait_sets p ws in
    (
      put_wait_set w2 p ws,
      record {
        returns = drop-run w p w1 woken.returns;
        no_waiter =
            ap (λ (x : WaitSetState). x.waiter) self
            ∙ ap (λ f. (f p).waiter) sets
            ∙ woken.no_waiter;
        is_woken = λ n.
            ap (λ (x : Machine). (x.threads (w.wait_sets p).waiter).wakeup_value) machine
            ∙ woken.is_woken n;
        no_members = λ i. ap (λ (x : WaitSetState). x.members i) self;
        no_sources = λ i m h e.
            put-back_pointer w2 p ws m.source_ptr m.source_tag
            ∙ clear_members-all w1 members wait_set_max_members i m h
                (ap (λ f. f i) woken.members ∙ e);
      },
    )
