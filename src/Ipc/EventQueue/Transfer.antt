-- ===== src/Ipc/EventQueue/Transfer.antt =====
-- `event_queue_post` and `event_queue_recv`.
use seraph.Prelude.{
  ℕ, ◌<◌, ◌≡◌, ◌≢◌, ◌⊎◌, inl, inr, refl, sym, ◌∙◌, ap, subst, none, some, List, [], ◌∷◌, ◌++◌,
  arith, ltb, lt→ltb, update_self, length, if-true, if-false,
}
use seraph.Sched.Thread.{IpcThreadState}
use seraph.Ipc.World.{EventQueueState, World, put_event_queue, deliver, block}
use seraph.Ipc.World.Threads.{IsBlocked, block-IsBlocked, IsWoken}
use seraph.Ipc.WaitSet.Handoff.{Notifies}
use seraph.Ipc.EventQueue.{append, take_out, woken, queued, event_queue_post, event_queue_recv}
use seraph.Ipc.EventQueue.Fifo.{Holds, take_out-Holds}

module _ (w : World) (p payload : ℕ) where
  abbrev queue : EventQueueState
  queue = w.event_queues p

  abbrev handed : World
  handed = record (put_event_queue w p (record queue { waiter = 0 })) {
    machine = deliver w.machine queue.waiter payload;
  }

  abbrev appended : World
  appended = put_event_queue w p (append queue payload)

  -- The payload is the last in the queue, and a wait set has been notified if the queue was empty.
  pub record Queues (xs ys : List ℕ) (w' : World) : Type 0 where
    pub returns : event_queue_post w p payload ≡ some (queued, w')
    pub holds : Holds (w'.event_queues p) (xs ++ payload ∷ [])
    pub notifies :
        (length xs ≢ 0 ⊎ queue.wait_set ≡ 0) × (w' ≡ appended)
        ⊎ (length xs ≡ 0)
          × (queue.wait_set ≢ 0)
          × Notifies appended queue.wait_set queue.wait_set_member_idx ys w'

  -- The waiting thread has the payload, and nobody waits.
  pub record Hands (xs : List ℕ) (w' : World) : Type 0 where
    pub returns : event_queue_post w p payload ≡ some (woken queue.waiter, w')
    pub holds : Holds (w'.event_queues p) xs
    pub no_waiter : (w'.event_queues p).waiter ≡ 0
    pub has_payload : IsWoken w'.machine queue.waiter payload

module _ (w : World) (p caller : ℕ) where
  abbrev taken : World
  taken = put_event_queue w p (take_out (w.event_queues p))

  abbrev waiting : World
  waiting = record (put_event_queue w p (record (w.event_queues p) { waiter = caller })) {
    machine = block w.machine caller IpcThreadState.blocked_on_event_queue p;
  }

  recv-some :
      0 < (w.event_queues p).count
      → event_queue_recv w p caller
        ≡ (some ((w.event_queues p).ring (w.event_queues p).read_idx), taken)
  unfolding event_queue_recv
  recv-some h = if-true _ _ (ltb 0 (w.event_queues p).count) (lt→ltb 0 (w.event_queues p).count h)

  recv-none : (w.event_queues p).count ≡ 0 → event_queue_recv w p caller ≡ (none, waiting)
  unfolding event_queue_recv
  recv-none e = if-false _ _ (ltb 0 (w.event_queues p).count) (rw e)

  -- `event_queue_recv` on a queue that holds `xs` returns the oldest payload and leaves the others
  -- in order, or blocks the caller on the queue as its waiter if there is none.
  pub event_queue_recv-Fifo :
      (xs : List ℕ)
      → Holds (w.event_queues p) xs
      → ((x : ℕ) × (rest : List ℕ) × (w' : World) × (xs ≡ x ∷ rest)
          × (event_queue_recv w p caller ≡ (some x, w'))
          × Holds (w'.event_queues p) rest
          × (w'.machine ≡ w.machine))
        ⊎ ((w' : World) × (xs ≡ [])
            × (event_queue_recv w p caller ≡ (none, w'))
            × Holds (w'.event_queues p) []
            × ((w'.event_queues p).waiter ≡ caller)
            × IsBlocked w'.machine caller p)
  event_queue_recv-Fifo [] v =
      let self = update_self w.event_queues p (record (w.event_queues p) { waiter = caller }) in
      inr (
        waiting,
        refl,
        recv-none v.counted,
        subst (λ q. Holds q []) (sym self)
            (record { ring = v.ring; counted = v.counted; small = v.small }),
        ap (λ (q : EventQueueState). q.waiter) self,
        block-IsBlocked w.machine caller p IpcThreadState.blocked_on_event_queue,
      )
  event_queue_recv-Fifo (x ∷ rest) v =
      let (first, held) = take_out-Holds (w.event_queues p) x rest v in
      inl (
        x,
        rest,
        taken,
        refl,
        recv-some (omega (arith, v.counted)) ∙ ap (λ k. (some k, taken)) first,
        subst (λ q. Holds q rest) (sym (update_self w.event_queues p (take_out (w.event_queues p))))
            held,
        refl,
      )
