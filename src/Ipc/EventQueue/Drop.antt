-- ===== src/Ipc/EventQueue/Drop.antt =====
-- `event_queue_drop`.
use native.Mathlib.Decide.{ℕ_discrete}
use seraph.Prelude.{ℕ, ◌≡◌, ◌≢◌, refl, ap, ◌∙◌, true, some, ◌==◌, if-true, ==_ne, update_self}
use seraph.Sched.Smp.{Machine}
use seraph.Sched.Smp.Wake.{IsWakeable}
use seraph.Ipc.World.{EventQueueState, World, put_event_queue, deliver_only, enqueue_woken}
use seraph.Ipc.World.Threads.{wake_only-some}
use seraph.Ipc.EventQueue.{wake_waiter, event_queue_drop}

-- What `event_queue_drop` leaves.
pub record Drops (w : World) (p : ℕ) (w' : World) : Type 0 where
  pub returns : event_queue_drop w p ≡ some w'
  pub no_ring : (w'.event_queues p).ring_null ≡ true
  pub no_waiter : (w'.event_queues p).waiter ≡ 0
  pub is_woken :
      (w.event_queues p).waiter ≢ 0
      → (w'.machine.threads (w.event_queues p).waiter).wakeup_value ≡ 0

module _ (w : World) (p : ℕ) where
  abbrev queue : EventQueueState
  queue = w.event_queues p

  abbrev freed : World → World
  freed w' = put_event_queue w' p (record (w'.event_queues p) { ring_null = true })

  abbrev alone : Machine → World
  alone m = record (put_event_queue w p (record queue { waiter = 0 })) { machine = m }

  wake_waiter-nobody : queue.waiter ≡ 0 → wake_waiter w p ≡ some w
  unfolding wake_waiter
  wake_waiter-nobody e = if-true _ _ (queue.waiter == 0) (rw e refl)

  wake_waiter-some :
      (m : Machine)
      → queue.waiter ≢ 0
      → enqueue_woken (deliver_only w.machine queue.waiter 0) queue.waiter ≡ some m
      → wake_waiter w p ≡ some (alone m)
  unfolding wake_waiter
  wake_waiter-some m n e = rw (==_ne queue.waiter 0 n, wake_waiter, e)

  drop-run : (w' : World) → wake_waiter w p ≡ some w' → event_queue_drop w p ≡ some (freed w')
  unfolding event_queue_drop
  drop-run w' e = rw (e, event_queue_drop) refl

  -- `event_queue_drop`, where a thread that waits on the queue can be woken, returns: the ring is
  -- freed, nobody waits on the queue, and a thread that did has been woken with 0.
  pub event_queue_drop-Drops :
      (queue.waiter ≢ 0 → IsWakeable w.machine queue.waiter) → (w' : World) × Drops w p w'
  event_queue_drop-Drops wakeable = elim (ℕ_discrete queue.waiter 0) [
    | yes e ↦
        let self = update_self w.event_queues p (record queue { ring_null = true }) in
        (
          freed w,
          record {
            returns = drop-run w (wake_waiter-nobody e);
            no_ring = ap (λ (q : EventQueueState). q.ring_null) self;
            no_waiter = ap (λ (q : EventQueueState). q.waiter) self ∙ e;
            is_woken = λ n. absurd (n e);
          },
        )
    | no n ↦
        let (m, run, value) = wake_only-some w.machine queue.waiter 0 (wakeable n) in
        let self =
          update_self (alone m).event_queues p
            (record ((alone m).event_queues p) { ring_null = true }) in
        (
          freed (alone m),
          record {
            returns = drop-run (alone m) (wake_waiter-some m n run);
            no_ring = ap (λ (q : EventQueueState). q.ring_null) self;
            no_waiter =
                ap (λ (q : EventQueueState). q.waiter) self
                ∙ ap (λ (q : EventQueueState). q.waiter)
                    (update_self w.event_queues p (record queue { waiter = 0 }));
            is_woken = λ _. value;
          },
        )
  ]
