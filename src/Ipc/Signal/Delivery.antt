-- ===== src/Ipc/Signal/Delivery.antt =====
-- `signal_send` and `signal_wait`, each as a whole.
use seraph.Prelude.{ℕ, ◌≡◌, refl, some, bit_or}
use seraph.Ipc.World.{SignalState, World, put_signal, deliver}
use seraph.Ipc.World.Threads.{IsWoken}
use seraph.Ipc.Signal.{or_bits, signal_send, set_observes}

-- The signal after its bits have been taken.
abbrev pub cleared : SignalState → SignalState
cleared sig = record sig { bits = 0; waiter = 0; has_observer = set_observes sig }

module _ (w : World) (p bits : ℕ) where
  abbrev sig : SignalState
  sig = w.signals p

  -- The signal once the bits have been set.
  abbrev sent : SignalState
  sent = record sig { bits = bit_or sig.bits bits }

  or_bits-rest :
      ((or_bits w p bits).machine ≡ w.machine) × ((or_bits w p bits).wait_sets ≡ w.wait_sets)
  unfolding or_bits
  or_bits-rest = (refl, refl)

  abbrev handed : World
  handed =
      let w1 = or_bits w p bits in
      record (put_signal w1 p (cleared (w1.signals p))) {
        machine = deliver w1.machine (w1.signals p).waiter (w1.signals p).bits;
      }

  -- The waiting thread has all bits that were pending.
  pub record Hands (w' : World) : Type 0 where
    pub returns : signal_send w p bits ≡ some (some sig.waiter, w')
    pub taken : (w'.signals p).bits ≡ 0
    pub no_waiter : (w'.signals p).waiter ≡ 0
    pub has_bits : IsWoken w'.machine sig.waiter (bit_or sig.bits bits)
