-- ===== src/Ipc/World/Threads.antt =====
-- What the IPC operations do to the thread that blocks or is woken.
use seraph.Prelude.{ℕ, ◌≡◌, refl, ◌∙◌, ap, some, update_self}
use seraph.Sched.Smp.{Machine, write_thread, select_target_cpu}
use seraph.Sched.Smp.Wake.{IsWakeable, enqueue_and_wake-some, write-IsWakeable}
use seraph.Sched.Thread.{ThreadControlBlock, IpcThreadState, ThreadState}
use seraph.Ipc.World.{deliver_only, deliver, enqueue_woken, block}

-- The thread is blocked on the object.
abbrev pub IsBlocked : Machine → ℕ → ℕ → Type 0
IsBlocked m tcb object =
    ((m.threads tcb).state ≡ ThreadState.blocked) × ((m.threads tcb).blocked_on_object ≡ object)

pub block-IsBlocked :
    (m : Machine) (tcb object : ℕ) (reason : IpcThreadState)
    → IsBlocked (block m tcb reason object) tcb object
unfolding block write_thread
block-IsBlocked m tcb object reason =
    let self = update_self m.threads tcb (record (m.threads tcb) {
      context_saved = 0;
      state = ThreadState.blocked;
      ipc_state = reason;
      blocked_on_object = object;
    }) in
    (
      ap (λ (t : ThreadControlBlock). t.state) self,
      ap (λ (t : ThreadControlBlock). t.blocked_on_object) self,
    )

-- The thread has been woken with the value.
abbrev pub IsWoken : Machine → ℕ → ℕ → Type 0
IsWoken m tcb value =
    ((m.threads tcb).state ≡ ThreadState.ready)
    × ((m.threads tcb).ipc_state ≡ IpcThreadState.idle)
    × ((m.threads tcb).wakeup_value ≡ value)
    × ((m.threads tcb).blocked_on_object ≡ 0)

abbrev delivered : Machine → ℕ → ℕ → ThreadControlBlock
delivered m tcb value = record (m.threads tcb) {
  wakeup_value = value;
  state = ThreadState.ready;
  ipc_state = IpcThreadState.idle;
  blocked_on_object = 0;
}

deliver-thread :
    (m : Machine) (tcb value : ℕ) → (deliver m tcb value).threads tcb ≡ delivered m tcb value
unfolding deliver write_thread
deliver-thread m tcb value = update_self m.threads tcb (delivered m tcb value)

IsWoken-fields :
    (m m' : Machine) (tcb value cpu : ℕ)
    → m'.threads tcb ≡ record (delivered m tcb value) { preferred_cpu = cpu }
    → IsWoken m' tcb value
IsWoken-fields m m' tcb value cpu e = (
  ap (λ (t : ThreadControlBlock). t.state) e,
  ap (λ (t : ThreadControlBlock). t.ipc_state) e,
  ap (λ (t : ThreadControlBlock). t.wakeup_value) e,
  ap (λ (t : ThreadControlBlock). t.blocked_on_object) e,
)

pub deliver-IsWoken : (m : Machine) (tcb value : ℕ) → IsWoken (deliver m tcb value) tcb value
deliver-IsWoken m tcb value =
    IsWoken-fields m (deliver m tcb value) tcb value (m.threads tcb).preferred_cpu
      (deliver-thread m tcb value)

-- A blocked thread that gets a value and goes to a run queue.
pub wake-some :
    (m : Machine) (tcb value : ℕ)
    → IsWakeable m tcb
    → (m' : Machine) × (enqueue_woken (deliver m tcb value) tcb ≡ some m') × IsWoken m' tcb value
unfolding enqueue_woken deliver
wake-some m tcb value v =
    let d = write_thread m tcb (delivered m tcb value) in
    let v' = write-IsWakeable m tcb (delivered m tcb value) refl refl v in
    let (m', e, t) =
      enqueue_and_wake-some d tcb (select_target_cpu d tcb) (d.threads tcb).priority v'.cpu
        v'.level in
    (
      m',
      e,
      IsWoken-fields m m' tcb value (select_target_cpu d tcb) (
          ap (λ f. f tcb) t
          ∙ update_self d.threads tcb
              (record (d.threads tcb) { preferred_cpu = select_target_cpu d tcb })
          ∙ ap (λ (c : ThreadControlBlock). record c { preferred_cpu = select_target_cpu d tcb })
              (deliver-thread m tcb value)),
    )

-- The same where the back-pointer is left.
pub wake_only-some :
    (m : Machine) (tcb value : ℕ)
    → IsWakeable m tcb
    → (m' : Machine) × (enqueue_woken (deliver_only m tcb value) tcb ≡ some m')
      × ((m'.threads tcb).wakeup_value ≡ value)
unfolding enqueue_woken deliver_only write_thread
wake_only-some m tcb value v =
    let t : ThreadControlBlock = record (m.threads tcb) {
      wakeup_value = value;
      state = ThreadState.ready;
      ipc_state = IpcThreadState.idle;
    } in
    let d = write_thread m tcb t in
    let v' = write-IsWakeable m tcb t refl refl v in
    let (m', e, threads) =
      enqueue_and_wake-some d tcb (select_target_cpu d tcb) (d.threads tcb).priority v'.cpu
        v'.level in
    (
      m',
      e,
      ap (λ f. (f tcb).wakeup_value) threads
          ∙ ap (λ (t : ThreadControlBlock). t.wakeup_value) (update_self d.threads tcb _)
          ∙ ap (λ (t : ThreadControlBlock). t.wakeup_value) (update_self m.threads tcb t),
    )
