-- ===== src/Ipc/Signal.antt =====
-- kernel/src/ipc/signal.rs: a word of bits that senders set and one thread waits for. A sender does
-- not take the lock unless it sees an observer, so the operations are split at the accesses that
-- other CPUs can come between: the OR and the look at `has_observer` in `signal_send`, and the
-- registration and the swap of the bits in `signal_wait`.
pub mod Race
pub mod Receive
pub mod Delivery
mod Examples
use seraph.Prelude.{
  ℕ, Bool, true, false, not, Option, none, some, ◌==◌, if◌then◌else◌, update, bit_or,
}
use seraph.Sched.Thread.{ThreadState, IpcThreadState}
use seraph.Sched.Smp.{Machine, write_thread}
use seraph.Ipc.World.{SignalState, World, put_signal, deliver}
use seraph.Ipc.WaitSet.{waitset_notify}

pub new : SignalState
new = record { bits = 0; waiter = 0; wait_set = 0; wait_set_member_idx = 0; has_observer = 0 }

-- `u8::from(!sig.wait_set.is_null())`
abbrev pub set_observes : SignalState → ℕ
set_observes sig = if sig.wait_set == 0 then 0 else 1

-- `sig.bits.fetch_or(bits)`
pub or_bits : World → ℕ → ℕ → World
or_bits w p bits = put_signal w p (record (w.signals p) { bits = bit_or (w.signals p).bits bits })

pub is_observed : World → ℕ → Bool
is_observed w p = not ((w.signals p).has_observer == 0)

-- The slow path, with the lock held: the thread woken, if any.
pub send_locked : World → ℕ → Option (Option ℕ × World)
send_locked w p =
    let sig = w.signals p in
    let w' =
      put_signal w p (record sig { bits = 0; waiter = 0; has_observer = set_observes sig }) in
    if not (sig.waiter == 0)
    then some (some sig.waiter, record w' { machine = deliver w.machine sig.waiter sig.bits })
    else if not (sig.wait_set == 0)
    then elim (waitset_notify w sig.wait_set sig.wait_set_member_idx) [
      | none ↦ none
      | some w'' ↦ some (none, w'')
    ]
    else some (none, w)

pub signal_send : World → ℕ → ℕ → Option (Option ℕ × World)
signal_send w p bits =
    let w' = or_bits w p bits in if is_observed w' p then send_locked w' p else some (none, w')

-- `context_saved` of the caller
pub save_context : Machine → ℕ → ℕ → Machine
save_context m caller value =
    write_thread m caller (record (m.threads caller) { context_saved = value })

-- The first half of `signal_wait`, up to the fence.
pub wait_register : World → ℕ → ℕ → World
wait_register w p caller =
    record (put_signal w p (record (w.signals p) { waiter = caller; has_observer = 1 })) {
      machine = save_context w.machine caller 0;
    }

-- The second half, from the swap of the bits on: the bits, or `none` with the caller blocked.
pub wait_harvest : World → ℕ → ℕ → Option ℕ × World
wait_harvest w p caller =
    let sig = w.signals p in
    let taken =
      put_signal w p (record sig { bits = 0; waiter = 0; has_observer = set_observes sig }) in
    let kept = put_signal w p (record sig { bits = 0 }) in
    if not (sig.bits == 0)
    then (some sig.bits, record taken { machine = save_context w.machine caller 1 })
    else (
      none,
      record kept {
        machine = write_thread w.machine caller (record (w.machine.threads caller) {
          state = ThreadState.blocked;
          ipc_state = IpcThreadState.blocked_on_signal;
          blocked_on_object = p;
        });
      },
    )

pub signal_wait : World → ℕ → ℕ → Option ℕ × World
signal_wait w p caller = wait_harvest (wait_register w p caller) p caller
