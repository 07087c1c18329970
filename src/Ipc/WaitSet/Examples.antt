-- ===== src/Ipc/WaitSet/Examples.antt =====
-- Wait sets at a small input: the theorems applied.
use seraph.Prelude.{ℕ, ◌<◌, ◌≡◌, ◌⊎◌, refl, true, false, some, none, [], ◌∷◌, arith, update}
use seraph.Prelude.Sum.{total}
use seraph.Sched.Smp.{select_target_cpu, least_load, load_of}
use seraph.Sched.Smp.Wake.{IsWakeable}
use seraph.Ipc.World.{World, WaitSetMember, WaitSetSourceTag}
use seraph.Ipc.World.Sample.{world, signal, wait_set, wait_set-IsRing}
use seraph.Ipc.WaitSet.{waitset_remove, source_is_ready, has_source}
use seraph.Ipc.WaitSet.Ready.{first_live, Pending}
use seraph.Ipc.WaitSet.Members.{Counted, waitset_remove-Counted}
use seraph.Ipc.WaitSet.Drop.{Drops, wait_set_drop-Drops}
use seraph.Ipc.WaitSet.Twice.{AddsTwice, waitset_add_twice}

run_live : first_live wait_set.members (0 ∷ 1 ∷ []) ≡ (some 77, [])
unfolding first_live
run_live = refl

wait_set-Counted : Counted wait_set
unfolding total
wait_set-Counted = refl

waitset_remove_example :
    ((k : ℕ) → k < 16 → has_source 2 (wait_set.members k) ≡ false)
      × (waitset_remove world 3 2 ≡ none)
    ⊎ ((idx : ℕ) × (w' : World) × (idx < 16)
        × (has_source 2 (wait_set.members idx) ≡ true)
        × (waitset_remove world 3 2 ≡ some w')
        × ((w'.wait_sets 3).members ≡ update wait_set.members idx none)
        × Counted (w'.wait_sets 3)
        × Pending (w'.wait_sets 3) (0 ∷ 1 ∷ []))
waitset_remove_example =
    waitset_remove-Counted world 3 2 (0 ∷ 1 ∷ []) wait_set-Counted wait_set-IsRing

abbrev member : WaitSetMember
member = record { source_ptr = 8; source_tag = WaitSetSourceTag.event_queue; token = 5 }

-- Thread 9 waits on the wait set, and a signal with bits comes in.
abbrev waiting : World
waiting = record world {
  wait_sets = λ _. record wait_set { waiter = 9 };
  signals = λ _. record signal { bits = 1 };
}

is_ready : source_is_ready waiting 8 WaitSetSourceTag.signal ≡ true
unfolding source_is_ready
is_ready = refl

wakeable : IsWakeable waiting.machine 9
unfolding select_target_cpu least_load load_of
wakeable = record { cpu = omega arith; level = omega arith }

twice_example :
    (idx : ℕ) × (w' : World) × AddsTwice waiting 3 8 WaitSetSourceTag.signal 5 (0 ∷ 1 ∷ []) idx w'
twice_example =
    waitset_add_twice waiting 3 8 WaitSetSourceTag.signal 5 (0 ∷ 1 ∷ []) 0 (omega arith) refl
      is_ready wait_set-IsRing (omega arith) (λ z. omega (arith, z)) wakeable

wait_set_drop_example : (w' : World) × Drops waiting 3 w'
wait_set_drop_example = wait_set_drop-Drops waiting 3 (λ _. wakeable)
