-- ===== src/Ipc/Endpoint/Meeting.antt =====
-- `endpoint_recv`.
use seraph.Prelude.{
  ℕ, ◌<◌, ◌≡◌, ◌≢◌, ◌⊎◌, inl, inr, refl, sym, subst, none, some, List, [], ◌∷◌, ◌++◌, arith, ==_ne,
  ==_refl, update, update_self, NotIn,
}
use seraph.Prelude.Chain.{Links}
use seraph.Sched.Thread.{IpcThreadState}
use seraph.Sched.Smp.{write_thread}
use seraph.Ipc.World.{EndpointState, World}
use seraph.Ipc.World.Threads.{IsBlocked}
use seraph.Ipc.Endpoint.{
  WaitQueue, send_queue, recv_queue, enqueue, dequeue, put_endpoint, meet_caller, block_receiver,
  endpoint_recv,
}
use seraph.Ipc.Endpoint.Line.{Waiting, enqueue-Waiting, dequeue-none, dequeue-first}

module _ (w : World) (p server : ℕ) where
  abbrev ep : EndpointState
  ep = w.endpoints p

  recv-met :
      (x : ℕ) (q : WaitQueue) (next : Links)
      → 0 < x
      → dequeue (send_queue ep) w.wait_next ≡ (x, q, next)
      → endpoint_recv w p server ≡ (
        some (x, (w.machine.threads x).ipc_msg),
        put_endpoint w p
            (record ep { send_head = q.head; send_tail = q.tail })
            next
            (meet_caller w.machine server x),
      )
  unfolding endpoint_recv
  recv-met x q next pos e = rw (e, ==_ne x 0 (λ z. omega (arith, z)))

  recv-alone :
      dequeue (send_queue ep) w.wait_next ≡ (0, send_queue ep, w.wait_next)
      → let (recv, next) = enqueue (recv_queue ep) w.wait_next server in
        endpoint_recv w p server ≡ (
          none,
          put_endpoint w p
              (record ep { recv_head = recv.head; recv_tail = recv.tail })
              next
              (block_receiver w.machine server p),
        )
  unfolding endpoint_recv
  recv-alone e = rw e

  meet_caller-blocks :
      (x : ℕ)
      → server ≢ x
      → (((meet_caller w.machine server x).threads x).blocked_on_object ≡ server)
        × (((meet_caller w.machine server x).threads x).ipc_state ≡ IpcThreadState.blocked_on_reply)
        × (((meet_caller w.machine server x).threads server).reply_tcb ≡ x)
  unfolding meet_caller write_thread
  meet_caller-blocks x n = rw (==_refl x, ==_ne server x n, ==_refl server) (refl, refl, refl)

  block_receiver-IsBlocked : IsBlocked (block_receiver w.machine server p) server p
  unfolding block_receiver write_thread
  block_receiver-IsBlocked = rw (==_refl server) (refl, refl)

  -- A caller has been taken from the send queue, and waits for the reply of the server.
  pub record Takes (x : ℕ) (xs : List ℕ) (w' : World) : Type 0 where
    pub returns : endpoint_recv w p server ≡ (some (x, (w.machine.threads x).ipc_msg), w')
    pub senders : Waiting w'.wait_next (send_queue (w'.endpoints p)) xs
    pub waits : (w'.machine.threads x).ipc_state ≡ IpcThreadState.blocked_on_reply
    pub waits_for : (w'.machine.threads x).blocked_on_object ≡ server
    pub replies_to : (w'.machine.threads server).reply_tcb ≡ x

  -- The server is the last in the receive queue, and blocked on the endpoint.
  pub record Joins (ys : List ℕ) (w' : World) : Type 0 where
    pub returns : endpoint_recv w p server ≡ (none, w')
    pub receivers : Waiting w'.wait_next (recv_queue (w'.endpoints p)) (ys ++ server ∷ [])
    pub blocks : IsBlocked w'.machine server p

  -- `endpoint_recv` by a server that is in neither queue: the first caller in the send queue comes
  -- out with its message and waits for the reply of the server, and the others stay in order; or, if
  -- nobody calls, the server is appended to the receive queue and blocks on the endpoint.
  pub endpoint_recv-Meets :
      (xs ys : List ℕ)
      → 0 < server
      → NotIn server xs
      → NotIn server ys
      → Waiting w.wait_next (send_queue ep) xs
      → Waiting w.wait_next (recv_queue ep) ys
      → ((x : ℕ) × (rest : List ℕ) × (w' : World) × (xs ≡ x ∷ rest) × Takes x rest w')
        ⊎ ((w' : World) × (xs ≡ []) × Joins ys w')
  endpoint_recv-Meets [] ys pos n m v u =
      let (recv, next) = enqueue (recv_queue ep) w.wait_next server in
      let ep' : EndpointState = record ep { recv_head = recv.head; recv_tail = recv.tail } in
      inr (
        put_endpoint w p ep' next (block_receiver w.machine server p),
        refl,
        record {
          returns = recv-alone (dequeue-none w.wait_next (send_queue ep) v);
          receivers =
              subst (λ (e : EndpointState). Waiting next (recv_queue e) (ys ++ server ∷ []))
                (sym (update_self w.endpoints p ep'))
                (enqueue-Waiting w.wait_next (recv_queue ep) ys server pos m u);
          blocks = block_receiver-IsBlocked;
        },
      )
  endpoint_recv-Meets (x ∷ rest) ys pos n m v u =
      let (q, e, held) = dequeue-first w.wait_next (send_queue ep) x rest v in
      let ep' : EndpointState = record ep { send_head = q.head; send_tail = q.tail } in
      let (waits_for, waits, replies_to) = meet_caller-blocks x (λ z. n.0 (sym z)) in
      inl (
        x,
        rest,
        put_endpoint w p ep' (update w.wait_next x 0) (meet_caller w.machine server x),
        refl,
        record {
          returns = recv-met x q (update w.wait_next x 0) v.chain.1 e;
          senders =
              subst (λ (e : EndpointState). Waiting (update w.wait_next x 0) (send_queue e) rest)
                (sym (update_self w.endpoints p ep')) held;
          waits = waits;
          waits_for = waits_for;
          replies_to = replies_to;
        },
      )
