-- ===== src/Ipc/Endpoint/Examples.antt =====
-- Endpoints at a small input: the theorems applied.
use seraph.Prelude.{ℕ, ◌≡◌, ◌⊎◌, refl, true, some, List, [], ◌∷◌, arith, update}
use seraph.Prelude.Chain.{Links}
use seraph.Ipc.World.{World}
use seraph.Ipc.World.Sample.{world}
use seraph.Ipc.Endpoint.{WaitQueue, unlink_from_wait_queue}
use seraph.Ipc.Endpoint.Line.{Waiting}
use seraph.Ipc.Endpoint.Meeting.{Takes, Joins, endpoint_recv-Meets}
use seraph.Ipc.Endpoint.Unlink.{unlink_from_wait_queue-Waiting}

-- Thread 5 calls at the endpoint 4, or it waits there to receive.
abbrev calling : World
calling = record world {
  endpoints = λ p. record (world.endpoints p) { send_head = 5; send_tail = 5 };
}

abbrev receiving : World
receiving = record world {
  endpoints = λ p. record (world.endpoints p) { recv_head = 5; recv_tail = 5 };
}

abbrev five : List ℕ
five = 5 ∷ []

one-Waiting : Waiting (λ _. 0) (record { head = 5; tail = 5 }) five
one-Waiting = record { chain = (refl, omega arith, refl); tail = refl; distinct = (tt, tt) }

none-Waiting : Waiting (λ _. 0) (record { head = 0; tail = 0 }) []
none-Waiting = record { chain = refl; tail = refl; distinct = tt }

endpoint_recv_example :
    ((x : ℕ) × (rest : List ℕ) × (w' : World) × (five ≡ x ∷ rest) × Takes calling 4 9 x rest w')
    ⊎ ((w' : World) × (five ≡ []) × Joins calling 4 9 [] w')
endpoint_recv_example =
    endpoint_recv-Meets calling 4 9 five [] (omega arith) (λ e. omega (arith, e), tt) tt one-Waiting
      none-Waiting

-- The endpoint is a member of the wait set 3, and nobody is there.
abbrev watched : World
watched = record world {
  endpoints = λ p. record (world.endpoints p) { wait_set = 3; wait_set_member_idx = 1 };
}

-- Thread 7 leaves a queue of 5 and 7.
abbrev links : Links
links = update (λ _. 0) 5 7

abbrev two : WaitQueue
two = record { head = 5; tail = 7 }

two-Waiting : Waiting links two (5 ∷ 7 ∷ [])
two-Waiting = record {
  chain = (refl, omega arith, (refl, omega arith, refl));
  tail = refl;
  distinct = ((λ e. omega (arith, e), tt), (tt, tt));
}

unlink_example :
    (q : WaitQueue) × (next : Links) × (unlink_from_wait_queue 3 two links 7 ≡ some (true, q, next))
    × Waiting next q (5 ∷ [])
unlink_example =
    unlink_from_wait_queue-Waiting 3 two links 7 (5 ∷ 7 ∷ []) (omega arith) (omega arith)
      two-Waiting
