-- ===== src/Ipc/EventQueue/Examples.antt =====
-- Event queues at a small input: the theorems applied.
use seraph.Prelude.{ℕ, ◌≡◌, ◌⊎◌, refl, none, some, List, [], ◌∷◌, arith, update}
use seraph.Prelude.Ring.{push-IsRing}
use seraph.Ipc.World.{World, EventQueueState}
use seraph.Ipc.World.Threads.{IsBlocked}
use seraph.Ipc.World.Sample.{world, event_queue, event_queue-IsRing}
use seraph.Ipc.EventQueue.{event_queue_recv}
use seraph.Sched.Smp.{select_target_cpu, least_load, load_of}
use seraph.Sched.Smp.Wake.{IsWakeable}
use seraph.Ipc.EventQueue.Drop.{Drops, event_queue_drop-Drops}
use seraph.Ipc.EventQueue.Fifo.{Holds}
use seraph.Ipc.EventQueue.Transfer.{event_queue_recv-Fifo}

-- The queue with the payload in it.
abbrev one : EventQueueState
one = record event_queue { ring = update event_queue.ring 1 42; write_idx = 2; count = 1 }

abbrev stocked : World
stocked = record world { event_queues = λ _. one }

one-Holds : Holds one (42 ∷ [])
one-Holds = record {
  ring = push-IsRing 3 event_queue.ring 1 1 [] 42 event_queue-IsRing (omega arith);
  counted = refl;
  small = omega arith;
}

abbrev payloads : List ℕ
payloads = 42 ∷ []

event_queue_recv_example :
    ((x : ℕ) × (rest : List ℕ) × (w' : World) × (payloads ≡ x ∷ rest)
      × (event_queue_recv stocked 1 9 ≡ (some x, w'))
      × Holds (w'.event_queues 1) rest
      × (w'.machine ≡ stocked.machine))
    ⊎ ((w' : World) × (payloads ≡ [])
        × (event_queue_recv stocked 1 9 ≡ (none, w'))
        × Holds (w'.event_queues 1) []
        × ((w'.event_queues 1).waiter ≡ 9)
        × IsBlocked w'.machine 9 1)
event_queue_recv_example = event_queue_recv-Fifo stocked 1 9 payloads one-Holds

-- Thread 9 waits on the queue that is dropped.
abbrev waiting : World
waiting = record world { event_queues = λ _. record event_queue { waiter = 9 } }

wakeable : IsWakeable waiting.machine 9
unfolding select_target_cpu least_load load_of
wakeable = record { cpu = omega arith; level = omega arith }

event_queue_drop_example : (w' : World) × Drops waiting 1 w'
event_queue_drop_example = event_queue_drop-Drops waiting 1 (λ _. wakeable)
