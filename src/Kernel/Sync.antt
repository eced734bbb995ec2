-- ===== src/Kernel/Sync.antt =====
-- Waiting, releasing and switching threads: kernel/sync.c, `dispatch` of kernel/ready.c, and
-- `ipc_notify` of kernel/ipc.c, which `dispatch` calls for the delay thread.
pub mod Queues
pub mod Dispatch
use Prim.Native.Nat.{bit_or}
use eotan.Prelude.{
  ℕ, zero, suc, Bool, true, false, Option, none, some, List, [], ◌∷◌, ◌==◌, ◌&&◌, ◌||◌, not, ltb,
  if◌then◌else◌,
}
use eotan.Kernel.State.{
  Status, run, rdy, wai, sus, was, dmt, none_set, WaitType, wait_none, wait_flag, wait_receive, Er,
  e_ok, e_obj, e_noexs, e_rlwai, e_dlt, Thread, Kernel, WaitQueue, set_thread, set_status,
}
use eotan.Kernel.State.Lists.{remove}
use eotan.Kernel.Ready.{ready_enqueue, queue_remove, ready_dequeue}

-- `status &= ~TTS_WAI`
abbrev pub clear_wai : Status → Status
clear_wai wai = none_set
clear_wai was = sus
clear_wai s = s

abbrev is_none_set : Status → Bool
is_none_set none_set = true
is_none_set _ = false

unfoldable pub release_thread : ℕ → Thread → Kernel → Kernel
release_thread id t k =
    let s = clear_wai t.status in
    if is_none_set s
    then ready_enqueue t.priority id
        (set_thread id (record t { wait_type = wait_none; status = rdy }) k)
    else set_thread id (record t { wait_type = wait_none; status = s }) k

unfoldable pub release : ℕ → Kernel → Kernel
release id k = elim (k.thread id) [
  | none ↦ record k { crashed = true }
  | some t ↦ release_thread id t k
]

-- `list_remove(&(th->wait.waiting))`
unfoldable pub waiting_remove : ℕ → Kernel → Kernel
waiting_remove id k = record k { wait_queue = λ q. remove id (k.wait_queue q) }

-- Whether a notification ends the wait of a thread in this state.
abbrev pub is_notified : Status → WaitType → Bool
is_notified wai wait_flag = true
is_notified wai wait_receive = true
is_notified was wait_flag = true
is_notified was wait_receive = true
is_notified _ _ = false

abbrev pub is_dmt : Status → Bool
is_dmt dmt = true
is_dmt _ = false

-- `ipc_notify` of a thread that exists, between its two serialize calls
unfoldable pub notify_thread : ℕ → ℕ → Thread → Kernel → Er × Kernel
notify_thread id flag t k =
    if is_dmt t.status
    then (e_obj, k)
    else if is_notified t.status t.wait_type
    then (
      e_ok,
      release_thread id (record t { port_flag = 0; wait_result = e_rlwai }) (waiting_remove id k),
    )
    else (e_ok, set_thread id (record t { port_flag = bit_or t.port_flag flag }) k)

unfoldable pub notify_body : ℕ → ℕ → Kernel → Er × Kernel
notify_body id flag k = elim (k.thread id) [
  | none ↦ (e_noexs, k)
  | some t ↦ notify_thread id flag t k
]

abbrev pub port_delay : ℕ
port_delay = 2

abbrev pub event_interrupt : ℕ
event_interrupt = 1

-- The call of `ipc_notify` in `dispatch`.  Its `leave_serialize` switches nothing, since
-- `no_request` is set.
unfoldable pub start_delay : Kernel → Kernel
start_delay k =
    if k.delay_thread_start
    then (notify_body port_delay event_interrupt (record k { delay_thread_start = false })).1
    else k

-- `if (prev->status == TTS_RUN) prev->status = TTS_RDY`
abbrev pub yield_status : Status → Status
yield_status run = rdy
yield_status s = s

unfoldable pub preempt : Kernel → Kernel
preempt k = elim (k.thread k.running) [
  | none ↦ k
  | some t ↦ set_thread k.running (record t { status = yield_status t.status }) k
]

unfoldable pub switch_to : Option ℕ × Kernel → Kernel
switch_to (none, k) = record k { crashed = true }
switch_to (some next, k) =
    if next == k.running then k else record (set_status next run (preempt k)) { running = next }

-- `dispatch` where no call is being served
unfoldable pub resched : Kernel → Kernel
resched k = switch_to (ready_dequeue (start_delay (record k { no_request = true })))

unfoldable pub dispatch : Kernel → Kernel
dispatch k = if k.serializing then record k { no_request = false } else resched k

-- `dispatch_skippable` is not 0
abbrev pub skippable : Kernel → Bool
skippable k = ltb 0 k.interrupt_nest || k.no_request || k.serializing

unfoldable pub leave_serialize : Kernel → Kernel
leave_serialize k =
    let k' = record k { serializing = false } in if skippable k' then k' else dispatch k'

unfoldable pub leave_serialize_and_dispatch : Kernel → Kernel
leave_serialize_and_dispatch k = leave_serialize (record k { no_request = false })

-- `wait` of the running thread up to the switch; it goes on when it is released.
unfoldable pub wait : Kernel → Kernel
wait k = elim (k.thread k.running) [
  | none ↦ record k { crashed = true }
  | some t ↦ leave_serialize_and_dispatch (
      queue_remove k.running
        (set_thread k.running (record t { wait_result = e_ok; status = wai }) k))
]

-- One round of `release_all`: the thread leaves the waiting list and runs on with `E_DLT`.
unfoldable pub release_deleted : ℕ → Kernel → Kernel
release_deleted id k = elim (k.thread id) [
  | none ↦ record k { crashed = true }
  | some t ↦ release id (set_thread id (record t { wait_result = e_dlt }) (waiting_remove id k))
]

unfoldable pub release_each : List ℕ → Kernel → Kernel
release_each [] k = k
release_each (id ∷ rest) k = release_each rest (release_deleted id k)

-- `release_all` of one waiting list
unfoldable pub release_all : WaitQueue → Kernel → Kernel
release_all q k = release_each (k.wait_queue q) k

unfoldable pub notify : ℕ → ℕ → Kernel → Er × Kernel
notify id flag k =
    let (er, k') = notify_body id flag (record k { serializing = true }) in (er, leave_serialize k')
