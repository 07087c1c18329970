-- ===== src/Ipc/Signal/Race.antt =====
-- Any number of senders and a waiter, their steps interleaved: no wakeup is lost. The fences make
-- the accesses to `bits` and `has_observer` a single order, which is what the steps stand for.
use seraph.Prelude.{ℕ, suc, ◌+◌, ◌<◌, ◌≡◌, ◌≢◌, true, false, Option, none, some}
use seraph.Ipc.World.{World}
use seraph.Ipc.Signal.{or_bits, is_observed, send_locked, wait_register, wait_harvest}

-- The state of the race for the signal at `p`: `checking` senders have set their bits and not yet
-- looked for an observer, `entering` senders have seen one and not yet had the lock, and `inside`
-- is the waiter that holds the lock between its registration and its swap, if any.
pub record Race : Type 0 where
  pub world : World
  pub checking : ℕ
  pub entering : ℕ
  pub inside : Option ℕ

-- One step, by a sender or by a thread that waits.
pub data Step (p : ℕ) : Race → Race → Type 0 where
  sets :
      (w : World) (c e : ℕ) (i : Option ℕ) (bits : ℕ)
      → Step p
          (record { world = w; checking = c; entering = e; inside = i })
          (record { world = or_bits w p bits; checking = suc c; entering = e; inside = i })
  leaves :
      (w : World) (c e : ℕ) (i : Option ℕ)
      → is_observed w p ≡ false
      → Step p
          (record { world = w; checking = suc c; entering = e; inside = i })
          (record { world = w; checking = c; entering = e; inside = i })
  enters :
      (w : World) (c e : ℕ) (i : Option ℕ)
      → is_observed w p ≡ true
      → Step p
          (record { world = w; checking = suc c; entering = e; inside = i })
          (record { world = w; checking = c; entering = suc e; inside = i })
  wakes :
      (w w' : World) (c e : ℕ) (woken : Option ℕ)
      → send_locked w p ≡ some (woken, w')
      → Step p
          (record { world = w; checking = c; entering = suc e; inside = none })
          (record { world = w'; checking = c; entering = e; inside = none })
  registers :
      (w : World) (c e caller : ℕ)
      → 0 < caller
      → (w.signals p).waiter ≡ 0
      → Step p
          (record { world = w; checking = c; entering = e; inside = none })
          (record {
            world = wait_register w p caller;
            checking = c;
            entering = e;
            inside = some caller;
          })
  harvests :
      (w : World) (c e caller : ℕ)
      → Step p
          (record { world = w; checking = c; entering = e; inside = some caller })
          (record {
            world = (wait_harvest w p caller).1;
            checking = c;
            entering = e;
            inside = none;
          })

-- The states that are reached from `r` on.
pub data Reaches (p : ℕ) (r : Race) : Race → Type 0 where
  start : Reaches p r r
  then_ : (s t : Race) → Reaches p r s → Step p s t → Reaches p r t

-- A thread that waits is observed, and if it is blocked with bits pending, a sender is on its way.
pub record IsSafe (p : ℕ) (r : Race) : Type 0 where
  pub observed : (r.world.signals p).waiter ≢ 0 → (r.world.signals p).has_observer ≢ 0
  pub awaited :
      r.inside ≡ none
      → (r.world.signals p).waiter ≢ 0
      → (r.world.signals p).bits ≢ 0
      → 0 < r.checking + r.entering
