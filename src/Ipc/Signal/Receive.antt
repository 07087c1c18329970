-- ===== src/Ipc/Signal/Receive.antt =====
-- `signal_wait`.
use native.Mathlib.Decide.{ℕ_discrete}
use seraph.Prelude.{
  ℕ, ◌≡◌, ◌≢◌, ◌⊎◌, inl, inr, ◌∙◌, ap, not, none, some, ◌==◌, ==_ne, update_self, if-true, if-false,
}
use seraph.Sched.Smp.{write_thread}
use seraph.Sched.Thread.{ThreadControlBlock, ThreadState, IpcThreadState}
use seraph.Ipc.World.{SignalState, World, put_signal}
use seraph.Ipc.World.Threads.{IsBlocked}
use seraph.Ipc.Signal.{save_context, wait_register, wait_harvest, signal_wait, set_observes}

module _ (w : World) (p caller : ℕ) where
  abbrev sig : SignalState
  sig = w.signals p

  abbrev between : World
  between = wait_register w p caller

  between-signal : between.signals p ≡ record sig { waiter = caller; has_observer = 1 }
  unfolding wait_register
  between-signal = update_self w.signals p _

  abbrev left : SignalState
  left = between.signals p

  abbrev taken : World
  taken =
      record (put_signal between p
        (record left { bits = 0; waiter = 0; has_observer = set_observes left })) {
          machine = save_context between.machine caller 1;
        }

  abbrev blocked : ThreadControlBlock
  blocked = record (between.machine.threads caller) {
    state = ThreadState.blocked;
    ipc_state = IpcThreadState.blocked_on_signal;
    blocked_on_object = p;
  }

  abbrev waiting : World
  waiting = record (put_signal between p (record left { bits = 0 })) {
    machine = write_thread between.machine caller blocked;
  }

  wait-some : sig.bits ≢ 0 → signal_wait w p caller ≡ (some left.bits, taken)
  unfolding signal_wait wait_harvest
  wait-some n =
      if-true _ _ (not (left.bits == 0))
        (ap (λ (s : SignalState). not (s.bits == 0)) between-signal ∙ ap not (==_ne sig.bits 0 n))

  wait-none : sig.bits ≡ 0 → signal_wait w p caller ≡ (none, waiting)
  unfolding signal_wait wait_harvest
  wait-none z =
      if-false _ _ (not (left.bits == 0))
        (ap (λ (s : SignalState). not (s.bits == 0)) between-signal ∙ ap (λ k. not (k == 0)) z)

  waiting-IsBlocked : IsBlocked waiting.machine caller p
  unfolding write_thread
  waiting-IsBlocked =
      let self = update_self between.machine.threads caller blocked in
      (
        ap (λ (t : ThreadControlBlock). t.state) self,
        ap (λ (t : ThreadControlBlock). t.blocked_on_object) self,
      )

  -- `signal_wait` takes all bits that are pending and leaves none, with nobody waiting; or, if none
  -- is pending, it leaves the caller blocked on the signal as its waiter, observed.
  pub signal_wait-Takes :
      (w' : World) × ((sig.bits ≢ 0)
          × (signal_wait w p caller ≡ (some sig.bits, w'))
          × ((w'.signals p).bits ≡ 0)
          × ((w'.signals p).waiter ≡ 0)
        ⊎ (sig.bits ≡ 0)
          × (signal_wait w p caller ≡ (none, w'))
          × ((w'.signals p).bits ≡ 0)
          × ((w'.signals p).waiter ≡ caller)
          × ((w'.signals p).has_observer ≡ 1)
          × IsBlocked w'.machine caller p)
  signal_wait-Takes = elim (ℕ_discrete sig.bits 0) [
    | no n ↦
        let self =
          update_self between.signals p
            (record left { bits = 0; waiter = 0; has_observer = set_observes left }) in
        (
          taken,
          inl (
            n,
            wait-some n ∙ ap (λ (s : SignalState). (some s.bits, taken)) between-signal,
            ap (λ (s : SignalState). s.bits) self,
            ap (λ (s : SignalState). s.waiter) self,
          ),
        )
    | yes z ↦
        let self = update_self between.signals p (record left { bits = 0 }) in
        (
          waiting,
          inr (
            z,
            wait-none z,
            ap (λ (s : SignalState). s.bits) self,
            ap (λ (s : SignalState). s.waiter) self
                ∙ ap (λ (s : SignalState). s.waiter) between-signal,
            ap (λ (s : SignalState). s.has_observer) self
                ∙ ap (λ (s : SignalState). s.has_observer) between-signal,
            waiting-IsBlocked,
          ),
        )
  ]
