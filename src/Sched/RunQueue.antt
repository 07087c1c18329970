-- ===== src/Sched/RunQueue.antt =====
-- kernel/src/sched/run_queue.rs, `RunQueue`: the intrusive FIFO of ready threads at one priority.
-- A thread is the address of its control block, and 0 stands for `None`. `next` is the field
-- `run_queue_next` of all control blocks; a method that writes it returns it.
pub mod Fifo
mod Examples
use seraph.Prelude.{
  ℕ, zero, suc, Bool, true, false, Option, none, some, ◌==◌, if◌then◌else◌, update,
}
use seraph.Prelude.Chain.{Links}

pub record RunQueue : Type 0 where
  pub head : ℕ
  pub tail : ℕ

unfoldable pub new : RunQueue
new = record { head = 0; tail = 0 }

unfoldable pub enqueue : RunQueue → Links → ℕ → RunQueue × Links
enqueue q next tcb =
    let next' = update next tcb 0 in
    if q.tail == 0
    then (record { head = tcb; tail = tcb }, next')
    else (record q { tail = tcb }, update next' q.tail tcb)

-- The head, or 0 if the queue is empty.
unfoldable pub dequeue : RunQueue → Links → ℕ × RunQueue × Links
dequeue q next = if q.head == 0 then (0, q, next) else (
  q.head,
  record { head = next q.head; tail = if next q.head == 0 then 0 else q.tail },
  update next q.head 0,
)

unfoldable pub is_empty : RunQueue → Bool
is_empty q = q.head == 0

-- The body of the loop of `remove` at the thread that is looked for.
unfoldable pub unlink : RunQueue → Links → ℕ → ℕ → RunQueue × Links
unlink q next prev c =
    let tail = if q.tail == c then prev else q.tail in
    if prev == 0
    then (record { head = next c; tail = tail }, update next c 0)
    else (record { head = q.head; tail = tail }, update (update next prev (next c)) c 0)

-- The loop, on fuel; `none` means that the fuel ran out.
unfoldable pub remove_from : ℕ → RunQueue → Links → ℕ → ℕ → ℕ → Option (Bool × RunQueue × Links)
remove_from zero q next prev cur tcb = none
remove_from (suc fuel) q next prev cur tcb =
    let rest = remove_from fuel q next cur (next cur) tcb in
    let (q', next') = unlink q next prev cur in
    if cur == 0 then some (false, q, next) else if cur == tcb then some (true, q', next') else rest

unfoldable pub remove : ℕ → RunQueue → Links → ℕ → Option (Bool × RunQueue × Links)
remove fuel q next tcb = remove_from fuel q next 0 q.head tcb
