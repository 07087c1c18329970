-- ===== src/Ipc/EventQueue.antt =====
-- kernel/src/ipc/event_queue.rs: a bounded queue of words with one receiver. The result of an
-- operation that can panic is an `Option`; within it, `none` stands for `Err(())`.
pub mod Fifo
pub mod Transfer
pub mod Drop
mod Examples
use seraph.Prelude.{
  ℕ, ◌+◌, ◌-◌, ◌%◌, ◌^◌, Bool, true, false, Option, none, some, ◌==◌, ◌&&◌, not, ltb, if◌then◌else◌,
  update,
}
use seraph.Sched.Thread.{IpcThreadState}
use seraph.Sched.Smp.{Machine}
use seraph.Ipc.World.{
  EventQueueState, World, put_event_queue, deliver, deliver_only, enqueue_woken, block,
}
use seraph.Ipc.WaitSet.{waitset_notify}

pub new : ℕ → EventQueueState
new capacity = record {
  ring = λ _. 0;
  ring_null = false;
  capacity = capacity;
  count = 0;
  write_idx = 0;
  read_idx = 0;
  waiter = 0;
  wait_set = 0;
  wait_set_member_idx = 0;
}

-- `eq.capacity + 1`
abbrev pub ring_len : EventQueueState → ℕ
ring_len q = (q.capacity + 1) % 2 ^ 32

pub append : EventQueueState → ℕ → EventQueueState
append q payload = record q {
  ring = update q.ring q.write_idx payload;
  write_idx = (q.write_idx + 1) % 2 ^ 32 % ring_len q;
  count = (q.count + 1) % 2 ^ 32;
}

-- What a post did: woke a thread, put the payload into the ring, or found the ring full.
pub data Posted : Type 0 where
  woken : ℕ → Posted
  queued : Posted
  full : Posted

pub notify_first : World → EventQueueState → Option World
notify_first w q =
    if q.count == 1 && not (q.wait_set == 0)
    then waitset_notify w q.wait_set q.wait_set_member_idx
    else some w

pub event_queue_post : World → ℕ → ℕ → Option (Posted × World)
event_queue_post w p payload =
    let q = w.event_queues p in
    let w' = put_event_queue w p (record q { waiter = 0 }) in
    if not (q.waiter == 0)
    then some (woken q.waiter, record w' { machine = deliver w.machine q.waiter payload })
    else if not (ltb q.count q.capacity)
    then some (full, w)
    else elim (notify_first (put_event_queue w p (append q payload)) (append q payload)) [
      | none ↦ none
      | some w'' ↦ some (queued, w'')
    ]

pub take_out : EventQueueState → EventQueueState
take_out q = record q {
  read_idx = (q.read_idx + 1) % 2 ^ 32 % ring_len q;
  count = (q.count + 2 ^ 32 - 1) % 2 ^ 32;
}

pub event_queue_recv : World → ℕ → ℕ → Option ℕ × World
event_queue_recv w p caller =
    let q = w.event_queues p in
    if ltb 0 q.count then (some (q.ring q.read_idx), put_event_queue w p (take_out q)) else (
      none,
      record (put_event_queue w p (record q { waiter = caller })) {
        machine = block w.machine caller IpcThreadState.blocked_on_event_queue p;
      },
    )

-- The waiter is woken with 0, and the ring is given back.
pub wake_waiter : World → ℕ → Option World
wake_waiter w p =
    let q = w.event_queues p in
    let w' = put_event_queue w p (record q { waiter = 0 }) in
    if q.waiter == 0
    then some w
    else elim (enqueue_woken (deliver_only w.machine q.waiter 0) q.waiter) [
      | none ↦ none
      | some m ↦ some (record w' { machine = m })
    ]

pub event_queue_drop : World → ℕ → Option World
event_queue_drop w p = elim (wake_waiter w p) [
  | none ↦ none
  | some w' ↦ some (put_event_queue w' p (record (w'.event_queues p) { ring_null = true }))
]
