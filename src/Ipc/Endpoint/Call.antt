-- ===== src/Ipc/Endpoint/Call.antt =====
-- A call that meets a server, and the reply.
use seraph.Prelude.{ℕ, ◌≡◌, some, List}
use seraph.Sched.Thread.{Message, ThreadState, IpcThreadState}
use seraph.Ipc.World.{EndpointState, World}
use seraph.Ipc.Endpoint.{recv_queue, endpoint_call, endpoint_reply}
use seraph.Ipc.Endpoint.Line.{Waiting}

module _ (w : World) (p caller : ℕ) (msg : Message) where
  abbrev called : EndpointState
  called = w.endpoints p

-- A call that met the server `y`, and the reply of the server to it.
pub record Calls (w : World) (p caller y : ℕ) (ys : List ℕ) (msg answer : Message) (w' w'' : World)
    : Type 0 where
  pub calls : endpoint_call w p caller msg ≡ some (some y, w')
  pub receivers : Waiting w'.wait_next (recv_queue (w'.endpoints p)) ys
  pub delivered : (w'.machine.threads y).ipc_msg ≡ msg
  pub server_ready : (w'.machine.threads y).state ≡ ThreadState.ready
  pub caller_waits : (w'.machine.threads caller).ipc_state ≡ IpcThreadState.blocked_on_reply
  pub replies : endpoint_reply w' y answer ≡ (some caller, w'')
  pub answered : (w''.machine.threads caller).ipc_msg ≡ answer
  pub caller_ready : (w''.machine.threads caller).state ≡ ThreadState.ready
