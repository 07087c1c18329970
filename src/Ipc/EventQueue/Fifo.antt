-- ===== src/Ipc/EventQueue/Fifo.antt =====
-- The event queue is a bounded FIFO.
use native.Mathlib.Nat.{mod-lt}
use seraph.Prelude.{
  ℕ, ◌+◌, ◌%◌, ◌^◌, ◌<◌, ◌≡◌, refl, sym, ◌∙◌, ap, subst, List, [], ◌∷◌, ◌++◌, arith, update, length,
  length-append,
}
use seraph.Prelude.Ring.{IsRing, empty-IsRing, push-IsRing, pop-IsRing}
use seraph.Ipc.World.{EventQueueState}
use seraph.Ipc.EventQueue.{new, append, take_out, ring_len}

-- The queue holds the payloads, the oldest first.
pub record Holds (q : EventQueueState) (xs : List ℕ) : Type 0 where
  pub ring : IsRing (q.capacity + 1) q.ring q.read_idx q.write_idx xs
  pub counted : q.count ≡ length xs
  pub small : q.capacity + 1 < 2 ^ 32

step_lem :
    (q : EventQueueState) (i : ℕ)
    → q.capacity + 1 < 2 ^ 32
    → i < q.capacity + 1
    → (i + 1) % 2 ^ 32 % ring_len q ≡ (i + 1) % (q.capacity + 1)
step_lem q i small h =
    ap (λ n. (i + 1) % 2 ^ 32 % n) {x = ring_len q} {y = q.capacity + 1} (omega arith)
    ∙ ap (λ k. k % (q.capacity + 1)) {x = (i + 1) % 2 ^ 32} {y = i + 1} (omega arith)

pub new-Holds : (capacity : ℕ) → capacity + 1 < 2 ^ 32 → Holds (new capacity) []
unfolding new
new-Holds capacity small = record {
  ring = empty-IsRing (capacity + 1) (λ _. 0) 0 0 (omega arith) refl;
  counted = refl;
  small = small;
}

write_lt : (q : EventQueueState) (xs : List ℕ) → Holds q xs → q.write_idx < q.capacity + 1
write_lt q xs v =
    subst (λ i. i < q.capacity + 1) (sym v.ring.tail_at)
      (mod-lt (q.read_idx + length xs) {m = q.capacity + 1} (omega arith))

pub append-Holds :
    (q : EventQueueState) (xs : List ℕ) (payload : ℕ)
    → Holds q xs
    → length xs < q.capacity
    → Holds (append q payload) (xs ++ payload ∷ [])
unfolding append
append-Holds q xs payload v room = record {
  ring =
      subst
        (λ t.
          IsRing (q.capacity + 1) (update q.ring q.write_idx payload) q.read_idx t
            (xs ++ payload ∷ []))
        (sym (step_lem q q.write_idx v.small (write_lt q xs v)))
        (push-IsRing (q.capacity + 1) q.ring q.read_idx q.write_idx xs payload v.ring
          (omega arith));
  counted = omega (arith, v.counted, v.small, room, length-append xs (payload ∷ []));
  small = v.small;
}

pub take_out-Holds :
    (q : EventQueueState) (x : ℕ) (xs : List ℕ)
    → Holds q (x ∷ xs)
    → (q.ring q.read_idx ≡ x) × Holds (take_out q) xs
unfolding take_out
take_out-Holds q x xs v =
    let (first, rest) = pop-IsRing (q.capacity + 1) q.ring q.read_idx q.write_idx x xs v.ring in
    (
      first,
      record {
        ring =
            subst (λ h. IsRing (q.capacity + 1) q.ring h q.write_idx xs)
              (sym (step_lem q q.read_idx v.small v.ring.head_lt)) rest;
        counted = omega (arith, v.counted, v.small, v.ring.room);
        small = v.small;
      },
    )
