-- ===== src/Ipc/WaitSet.antt =====
-- kernel/src/ipc/wait_set.rs: one thread waits for any of up to 16 sources. The result of an
-- operation that can panic is an `Option`; within it, `none` stands for `Err(())`.
pub mod Ready
pub mod Handoff
pub mod Members
pub mod Twice
pub mod Clear
pub mod Drop
mod Examples
use seraph.Prelude.{
  ℕ, zero, suc, ◌+◌, ◌-◌, ◌%◌, ◌^◌, Bool, true, false, not, Option, none, some, ◌==◌, ltb,
  if◌then◌else◌, update,
}
use seraph.Sched.Thread.{IpcThreadState}
use seraph.Sched.Smp.{Machine}
use seraph.Ipc.World.{
  WaitSetSourceTag, WaitSetMember, WaitSetState, World, put_wait_set, put_event_queue, put_signal,
  deliver, deliver_only, enqueue_woken, block,
}

abbrev pub wait_set_max_members : ℕ
wait_set_max_members = 16

pub new : WaitSetState
new = record {
  members = λ _. none;
  member_count = 0;
  ready_ring = λ _. 0;
  ready_head = 0;
  ready_tail = 0;
  waiter = 0;
}

pub has_ready : WaitSetState → Bool
has_ready ws = not (ws.ready_head == ws.ready_tail)

-- On a full ring the push is dropped.
pub push_ready : WaitSetState → ℕ → WaitSetState
push_ready ws member_idx =
    let next = (ws.ready_tail + 1) % wait_set_max_members in
    if next == ws.ready_head
    then ws
    else record ws { ready_ring = update ws.ready_ring ws.ready_tail member_idx; ready_tail = next }

-- The loop of `pop_ready`, on fuel; the outer `none` means that the fuel ran out.
pub pop_from : ℕ → WaitSetState → Option (Option ℕ × WaitSetState)
unfolding has_ready
pop_from zero ws = none
pop_from (suc fuel) ws =
    let ws' = record ws { ready_head = (ws.ready_head + 1) % wait_set_max_members } in
    let rest = pop_from fuel ws' in
    if has_ready ws
    then elim (ws.members (ws.ready_ring ws.ready_head)) [
      | none ↦ rest
      | some m ↦ some (some m.token, ws')
    ]
    else some (none, ws)

pub pop_ready : WaitSetState → Option (Option ℕ × WaitSetState)
pop_ready ws = pop_from wait_set_max_members ws

-- The token of a member, or 0 if there is none.
pub token_at : WaitSetState → ℕ → ℕ
token_at ws member_idx = elim (ws.members member_idx) [ none ↦ 0 | some m ↦ m.token ]

pub waitset_notify : World → ℕ → ℕ → Option World
waitset_notify w p member_idx =
    let ws = w.wait_sets p in
    let w' = put_wait_set w p (record ws { waiter = 0 }) in
    if ws.waiter == 0
    then some (put_wait_set w p (push_ready ws member_idx))
    else elim (enqueue_woken (deliver w.machine ws.waiter (token_at ws member_idx)) ws.waiter) [
      | none ↦ none
      | some m ↦ some (record w' { machine = m })
    ]

pub waitset_wait : World → ℕ → ℕ → Option (Option ℕ × World)
waitset_wait w p caller = elim (pop_ready (w.wait_sets p)) [
  | none ↦ none
  | some (some token, ws) ↦ some (some token, put_wait_set w p ws)
  | some (none, ws) ↦ some (
    none,
    record (put_wait_set w p (record ws { waiter = caller })) {
      machine = block w.machine caller IpcThreadState.blocked_on_wait_set p;
    },
  )
]

pub source_is_ready : World → ℕ → WaitSetSourceTag → Bool
source_is_ready w source_ptr WaitSetSourceTag.endpoint =
    not ((w.endpoints source_ptr).send_head == 0)
source_is_ready w source_ptr WaitSetSourceTag.signal = not ((w.signals source_ptr).bits == 0)
source_is_ready w source_ptr WaitSetSourceTag.event_queue = ltb 0 (w.event_queues source_ptr).count

pub clear_source_backpointer : World → ℕ → WaitSetSourceTag → World
clear_source_backpointer w p WaitSetSourceTag.endpoint = record w {
  endpoints =
      update w.endpoints p (record (w.endpoints p) { wait_set = 0; wait_set_member_idx = 0 });
}
clear_source_backpointer w p WaitSetSourceTag.signal =
    let sig = w.signals p in
    put_signal w p (record sig {
      wait_set = 0;
      wait_set_member_idx = 0;
      has_observer = if sig.waiter == 0 then 0 else 1;
    })
clear_source_backpointer w p WaitSetSourceTag.event_queue =
    put_event_queue w p (record (w.event_queues p) { wait_set = 0; wait_set_member_idx = 0 })

-- `position`: the first of the `n` members from `i` on that the test holds for.
pub position : (Option WaitSetMember → Bool) → (ℕ → Option WaitSetMember) → ℕ → ℕ → Option ℕ
position test members i zero = none
position test members i (suc n) =
    let rest = position test members (i + 1) n in if test (members i) then some i else rest

abbrev pub is_none : Option WaitSetMember → Bool
is_none none = true
is_none (some m) = false

abbrev pub has_source : ℕ → Option WaitSetMember → Bool
has_source source_ptr none = false
has_source source_ptr (some m) = m.source_ptr == source_ptr

-- Wake the thread that is blocked on the wait set, where the code leaves its back-pointer.
pub wake_waiter : World → ℕ → ℕ → Option World
wake_waiter w p value =
    let ws = w.wait_sets p in
    let w' = put_wait_set w p (record ws { waiter = 0 }) in
    if ws.waiter == 0
    then some w
    else elim (enqueue_woken (deliver_only w.machine ws.waiter value) ws.waiter) [
      | none ↦ none
      | some m ↦ some (record w' { machine = m })
    ]

pub waitset_add : World → ℕ → ℕ → WaitSetSourceTag → ℕ → Option (Option ℕ × World)
waitset_add w p source_ptr source_tag token =
    let ws = w.wait_sets p in
    elim (position is_none ws.members 0 wait_set_max_members) [
      | none ↦ some (none, w)
      | some idx ↦
          let member : WaitSetMember = record {
            source_ptr = source_ptr;
            source_tag = source_tag;
            token = token;
          } in
          let ws' = record ws {
            members = update ws.members idx (some member);
            member_count = (ws.member_count + 1) % 2 ^ 8;
          } in
          if source_is_ready w source_ptr source_tag
          then elim (wake_waiter (put_wait_set w p (push_ready ws' idx)) p token) [
            | none ↦ none
            | some w' ↦ some (some idx, w')
          ]
          else some (some idx, put_wait_set w p ws')
    ]

pub waitset_remove : World → ℕ → ℕ → Option World
waitset_remove w p source_ptr =
    let ws = w.wait_sets p in
    elim (position (has_source source_ptr) ws.members 0 wait_set_max_members) [
      | none ↦ none
      | some idx ↦ some (
          put_wait_set w p (record ws {
            members = update ws.members idx none;
            member_count = (ws.member_count + 2 ^ 8 - 1) % 2 ^ 8;
          }))
    ]

-- The loop of `wait_set_drop` over the members below `n`.
pub clear_members : World → (ℕ → Option WaitSetMember) → ℕ → World
clear_members w members zero = w
clear_members w members (suc n) =
    let w' = clear_members w members n in
    elim (members n) [ none ↦ w' | some m ↦ clear_source_backpointer w' m.source_ptr m.source_tag ]

pub wait_set_drop : World → ℕ → Option World
wait_set_drop w p = elim (wake_waiter w p 0) [
  | none ↦ none
  | some w' ↦
      let w'' = clear_members w' (w'.wait_sets p).members wait_set_max_members in
      some (put_wait_set w'' p (record (w''.wait_sets p) { members = λ _. none; member_count = 0 }))
]
