-- ===== src/Ipc/Endpoint.antt =====
-- kernel/src/ipc/endpoint.rs: synchronous calls. A caller and a server meet at an endpoint, and wait
-- in its send queue and its receive queue for each other. The result of an operation that can panic
-- is an `Option`; within it, `none` stands for `Err(())`.
pub mod Line
pub mod Meeting
pub mod Call
pub mod Blocking
pub mod Unlink
mod Examples
use seraph.Prelude.{
  ℕ, zero, suc, Bool, true, false, not, Option, none, some, ◌==◌, ◌&&◌, if◌then◌else◌, update,
}
use seraph.Prelude.Chain.{Links}
use seraph.Sched.Thread.{Message, ThreadState, IpcThreadState}
use seraph.Sched.Smp.{Machine, write_thread}
use seraph.Ipc.World.{EndpointState, World}
use seraph.Ipc.WaitSet.{waitset_notify}

pub new : EndpointState
new = record {
  send_head = 0;
  send_tail = 0;
  recv_head = 0;
  recv_tail = 0;
  wait_set = 0;
  wait_set_member_idx = 0;
}

-- The two references to a head and a tail that the helpers take.
pub record WaitQueue : Type 0 where
  pub head : ℕ
  pub tail : ℕ

abbrev pub send_queue : EndpointState → WaitQueue
send_queue ep = record { head = ep.send_head; tail = ep.send_tail }

abbrev pub recv_queue : EndpointState → WaitQueue
recv_queue ep = record { head = ep.recv_head; tail = ep.recv_tail }

pub enqueue : WaitQueue → Links → ℕ → WaitQueue × Links
enqueue q next tcb =
    let next' = update next tcb 0 in
    if q.tail == 0
    then (record { head = tcb; tail = tcb }, next')
    else (record q { tail = tcb }, update next' q.tail tcb)

pub dequeue : WaitQueue → Links → ℕ × WaitQueue × Links
dequeue q next = if q.head == 0 then (0, q, next) else (
  q.head,
  record { head = next q.head; tail = if next q.head == 0 then 0 else q.tail },
  update next q.head 0,
)

-- The body of the loop of `unlink_from_wait_queue` at the thread that is looked for.
pub unlink : WaitQueue → Links → ℕ → ℕ → WaitQueue × Links
unlink q next prev cur =
    let tail = if cur == q.tail then prev else q.tail in
    if prev == 0
    then (record { head = next cur; tail = tail }, update next cur 0)
    else (record { head = q.head; tail = tail }, update (update next prev (next cur)) cur 0)

-- The loop, on fuel; `none` means that the fuel ran out.
pub unlink_from : ℕ → WaitQueue → Links → ℕ → ℕ → ℕ → Option (Bool × WaitQueue × Links)
unlink_from zero q next prev cur tcb = none
unlink_from (suc fuel) q next prev cur tcb =
    let rest = unlink_from fuel q next cur (next cur) tcb in
    let (q', next') = unlink q next prev cur in
    if cur == 0 then some (false, q, next) else if cur == tcb then some (true, q', next') else rest

pub unlink_from_wait_queue : ℕ → WaitQueue → Links → ℕ → Option (Bool × WaitQueue × Links)
unlink_from_wait_queue fuel q next tcb = unlink_from fuel q next 0 q.head tcb

abbrev pub put_endpoint : World → ℕ → EndpointState → Links → Machine → World
put_endpoint w p ep next m = record w {
  endpoints = update w.endpoints p ep;
  wait_next = next;
  machine = m;
}

-- The call meets a server that waits.
pub meet_server : Machine → ℕ → ℕ → Message → Machine
meet_server m caller server msg =
    let m' = write_thread m server (record (m.threads server) {
      ipc_msg = msg;
      reply_tcb = caller;
      state = ThreadState.ready;
      ipc_state = IpcThreadState.idle;
      blocked_on_object = 0;
    }) in
    write_thread m' caller (record (m'.threads caller) {
      context_saved = 0;
      state = ThreadState.blocked;
      ipc_state = IpcThreadState.blocked_on_reply;
      blocked_on_object = server;
    })

-- The caller blocks on the endpoint with its message.
pub block_sender : Machine → ℕ → Message → ℕ → Machine
block_sender m caller msg p = write_thread m caller (record (m.threads caller) {
  context_saved = 0;
  ipc_msg = msg;
  state = ThreadState.blocked;
  ipc_state = IpcThreadState.blocked_on_send;
  blocked_on_object = p;
})

pub block_receiver : Machine → ℕ → ℕ → Machine
block_receiver m server p = write_thread m server (record (m.threads server) {
  context_saved = 0;
  state = ThreadState.blocked;
  ipc_state = IpcThreadState.blocked_on_recv;
  blocked_on_object = p;
})

-- The receive meets a caller that waits.
pub meet_caller : Machine → ℕ → ℕ → Machine
meet_caller m server caller =
    let m' = write_thread m server (record (m.threads server) { reply_tcb = caller }) in
    write_thread m' caller (record (m'.threads caller) {
      ipc_state = IpcThreadState.blocked_on_reply;
      blocked_on_object = server;
    })

-- The server to be woken, if one waits; otherwise the caller is blocked.
pub endpoint_call : World → ℕ → ℕ → Message → Option (Option ℕ × World)
endpoint_call w p caller msg =
    let ep = w.endpoints p in
    let (server, recv, next) = dequeue (recv_queue ep) w.wait_next in
    let (send, next') = enqueue (send_queue ep) next caller in
    let blocked =
      put_endpoint w p (record ep { send_head = send.head; send_tail = send.tail }) next'
        (block_sender w.machine caller msg p) in
    if not (server == 0)
    then some (
      some server,
      put_endpoint w p (record ep { recv_head = recv.head; recv_tail = recv.tail }) next
          (meet_server w.machine caller server msg),
    )
    else if (ep.send_head == 0) && not (ep.wait_set == 0)
    then elim (waitset_notify blocked ep.wait_set ep.wait_set_member_idx) [
      | none ↦ none
      | some w' ↦ some (none, w')
    ]
    else some (none, blocked)

-- The caller and its message, if one waits; otherwise the server is blocked.
pub endpoint_recv : World → ℕ → ℕ → Option (ℕ × Message) × World
endpoint_recv w p server =
    let ep = w.endpoints p in
    let (caller, send, next) = dequeue (send_queue ep) w.wait_next in
    let (recv, next') = enqueue (recv_queue ep) next server in
    if not (caller == 0)
    then (
      some (caller, (w.machine.threads caller).ipc_msg),
      put_endpoint w p (record ep { send_head = send.head; send_tail = send.tail }) next
          (meet_caller w.machine server caller),
    )
    else (
      none,
      put_endpoint w p (record ep { recv_head = recv.head; recv_tail = recv.tail }) next'
          (block_receiver w.machine server p),
    )

-- The reply ends the wait of the caller.
pub deliver_reply : Machine → ℕ → ℕ → Message → Machine
deliver_reply m server caller msg =
    let m' = write_thread m server (record (m.threads server) { reply_tcb = 0 }) in
    write_thread m' caller (record (m'.threads caller) {
      ipc_msg = msg;
      state = ThreadState.ready;
      ipc_state = IpcThreadState.idle;
      blocked_on_object = 0;
    })

-- The caller to be woken, if the server has one to reply to.
pub endpoint_reply : World → ℕ → Message → Option ℕ × World
endpoint_reply w server msg =
    let caller = (w.machine.threads server).reply_tcb in
    if caller == 0
    then (none, w)
    else (some caller, record w { machine = deliver_reply w.machine server caller msg })
