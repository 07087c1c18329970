-- ===== src/Ipc/Endpoint/Blocking.antt =====
-- A call that finds no server.
use seraph.Prelude.{ℕ, ◌<◌, ◌≡◌, ◌≢◌, ◌⊎◌, none, some, List, [], ◌∷◌, ◌++◌, length}
use seraph.Sched.Thread.{Message, IpcThreadState}
use seraph.Ipc.World.{EndpointState, World}
use seraph.Ipc.World.Threads.{IsBlocked}
use seraph.Ipc.WaitSet.Handoff.{Notifies}
use seraph.Ipc.Endpoint.{send_queue, enqueue, put_endpoint, block_sender, endpoint_call}
use seraph.Ipc.Endpoint.Line.{Waiting}

module _ (w : World) (p caller : ℕ) (msg : Message) where
  abbrev ep : EndpointState
  ep = w.endpoints p

  abbrev joined : EndpointState
  joined =
      let (send, _) = enqueue (send_queue ep) w.wait_next caller in
      record ep { send_head = send.head; send_tail = send.tail }

  -- The caller in the send queue and blocked, before the wait set is notified.
  abbrev pub queued : World
  queued =
      put_endpoint w p joined (enqueue (send_queue ep) w.wait_next caller).1
        (block_sender w.machine caller msg p)

  -- The caller is the last in the send queue and blocked there with its message, and then the wait
  -- set has been notified if the queue was empty.
  pub record Queues (xs pending : List ℕ) (w' : World) : Type 0 where
    pub returns : endpoint_call w p caller msg ≡ some (none, w')
    pub senders : Waiting queued.wait_next (send_queue (queued.endpoints p)) (xs ++ caller ∷ [])
    pub blocks : IsBlocked queued.machine caller p
    pub message : (queued.machine.threads caller).ipc_msg ≡ msg
    pub reason : (queued.machine.threads caller).ipc_state ≡ IpcThreadState.blocked_on_send
    pub notifies :
        (0 < length xs ⊎ ep.wait_set ≡ 0) × (w' ≡ queued)
        ⊎ (length xs ≡ 0)
          × (ep.wait_set ≢ 0)
          × Notifies queued ep.wait_set ep.wait_set_member_idx pending w'
