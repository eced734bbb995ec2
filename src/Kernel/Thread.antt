-- ===== src/Kernel/Thread.antt =====
-- The calls on threads, kernel/thread.c, without `USE_MUTEX` as include/nerve/config.h has it.
-- The machine context (`create_context`, `context_release`, the page table) is not modelled.
pub mod Queues
pub mod Suspended
pub mod Laws
pub mod Steps
mod Tests
use eotan.Prelude.{
  ℕ, zero, suc, ◌+◌, ◌-◌, ◌%◌, ◌^◌, Bool, true, false, Option, none, some, List, [], ◌==◌, ◌&&◌,
  ◌||◌, not, ltb, if◌then◌else◌,
}
use eotan.Kernel.Palloc.{Memory, palloc, pfree, kern_p2v}
use eotan.Kernel.State.{
  Status, run, rdy, wai, sus, was, dmt, none_set, WaitType, wait_none, Er, e_ok, e_rsatr, e_par,
  e_id, e_iluse, e_nomem, e_obj, e_noexs, e_qovr, Thread, Kernel, put, set_thread, set_status,
  time_quantum,
}
use eotan.Kernel.Ready.{ready_enqueue, queue_remove}
use eotan.Kernel.Sync.{waiting_remove, leave_serialize, leave_serialize_and_dispatch}

abbrev pub min_manual_id : ℕ
min_manual_id = 1

abbrev pub max_auto_id : ℕ
max_auto_id = 32767

abbrev pub kthread_stack_size : ℕ
kthread_stack_size = 4096

-- `TSK_SELF`
abbrev pub self : ℕ
self = 0

-- `T_CTSK`: `asm` and `act` are the bits of `tskatr`, and the address 0 is the null pointer.
pub record Params : Type 0 where
  pub asm : Bool
  pub act : Bool
  pub itskpri : ℕ
  pub stksz : ℕ
  pub stk : ℕ
  pub ustack_top : ℕ

-- `enter_serialize`
abbrev pub enter : Kernel → Kernel
enter k = record k { serializing = true }

-- Where a call ends by `leave_serialize`.
abbrev pub leave : Er × Kernel → Er × Kernel
leave (er, k) = (er, leave_serialize k)

-- The page that `setup` takes for a stack; `none` where `palloc` fails.
pub setup_page : ℕ → Option ℕ × Memory → Kernel → Option ℕ × Kernel
setup_page size (none, m) k = (none, record k { memory = m })
setup_page size (some p, m) k = (some ((p + size) % 2 ^ 32), record k { memory = m })

-- The end of the stack that `setup` uses.
pub setup_stack : Params → Kernel → Option ℕ × Kernel
setup_stack pk k = if pk.stk == 0 then setup_page pk.stksz (palloc k.memory) k else (some pk.stk, k)

-- The thread as `setup` leaves it.
pub new_thread : ℕ → Params → Thread
new_thread p pk = record {
  status = dmt;
  wait_type = wait_none;
  wait_result = e_ok;
  wait_size = 0;
  wait_message = 0;
  wait_key = 0;
  priority = 0;
  quantum = 0;
  attr_priority = pk.itskpri;
  kstack_tail = kern_p2v p;
  ustack_top = pk.ustack_top;
  port_opened = false;
  port_flag = 0;
  port_max_call = 0;
  port_max_reply = 0;
}

-- `fire`
pub fire : ℕ → Thread → Kernel → Kernel
fire id t k = leave_serialize_and_dispatch (
    ready_enqueue t.attr_priority id (
      set_thread id
        (record t {
          priority = t.attr_priority;
          quantum = time_quantum;
          port_flag = 0;
          status = rdy;
        })
        k))

-- The end of `thread_create`, after `setup`: without a stack the node is taken back out.
pub create_with : ℕ → Params → Option ℕ × Kernel → Er × Kernel
create_with id pk (none, k) = (e_nomem, leave_serialize k)
create_with id pk (some p, k) =
    if pk.act
    then (e_ok, fire id (new_thread p pk) k)
    else (e_ok, leave_serialize (set_thread id (new_thread p pk) k))

pub has_thread : Option Thread → Bool
has_thread none = false
has_thread (some t) = true

-- `entry` says whether `slab_alloc` has an entry.
pub thread_create : Bool → ℕ → Params → Kernel → Er × Kernel
thread_create entry id pk k =
    if ltb id min_manual_id || ltb max_auto_id id
    then (e_id, k)
    else if pk.asm
    then (e_rsatr, k)
    else if not (pk.stksz == kthread_stack_size)
    then (e_par, k)
    else if not entry
    then leave (e_nomem, enter k)
    else if has_thread (k.thread id)
    then leave (e_obj, enter k)
    else create_with id pk (setup_stack pk (enter k))

-- `release_resources`
pub release_resources : Thread → Kernel → Kernel
release_resources t k = record k {
  memory = pfree ((t.kstack_tail + 2 ^ 32 - kthread_stack_size) % 2 ^ 32) k.memory;
}

abbrev pub is_dormant : Status → Bool
is_dormant dmt = true
is_dormant _ = false

pub destroy_thread : ℕ → Option Thread → Kernel → Er × Kernel
destroy_thread id none k = (e_noexs, k)
destroy_thread id (some t) k =
    if is_dormant t.status
    then (e_ok, record (release_resources t k) { thread = put k.thread id none })
    else (e_obj, k)

pub thread_destroy : ℕ → Kernel → Er × Kernel
thread_destroy id k = leave (destroy_thread id (k.thread id) (enter k))

pub start_thread : ℕ → Option Thread → Kernel → Er × Kernel
start_thread id none k = (e_noexs, leave_serialize k)
start_thread id (some t) k =
    if is_dormant t.status then (e_ok, fire id t k) else (e_qovr, leave_serialize k)

abbrev pub resolve : ℕ → Kernel → ℕ
resolve id k = if id == self then k.running else id

pub thread_start : ℕ → Kernel → Er × Kernel
thread_start id k = let id' = resolve id k in start_thread id' (k.thread id') (enter k)

pub thread_end : Kernel → Kernel
thread_end k = elim (k.thread k.running) [
  | none ↦ record k { crashed = true }
  | some t ↦
      leave_serialize_and_dispatch
        (queue_remove k.running (set_thread k.running (record t { status = dmt }) (enter k)))
]

-- The second part is the thread that `icall->handle` is asked to destroy.
pub thread_end_and_destroy : Kernel → Kernel × ℕ
thread_end_and_destroy k = (thread_end (enter k), k.running)

abbrev pub is_waiting : WaitType → Bool
is_waiting wait_none = false
is_waiting _ = true

-- The `switch` of `thread_terminate`, by the thread's status.
pub terminate_thread : Status → ℕ → Thread → Kernel → Er × Kernel
terminate_thread run id t k = (e_iluse, k)
terminate_thread rdy id t k = (e_ok, queue_remove id (set_thread id (record t { status = dmt }) k))
terminate_thread wai id t k =
    let k' = if is_waiting t.wait_type then waiting_remove id k else k in
    (e_ok, set_thread id (record t { wait_type = wait_none; status = dmt }) k')
terminate_thread was id t k =
    let k' = if is_waiting t.wait_type then waiting_remove id k else k in
    (e_ok, set_thread id (record t { wait_type = wait_none; status = dmt }) k')
terminate_thread sus id t k = (e_ok, set_thread id (record t { status = dmt }) k)
terminate_thread _ id t k = (e_obj, k)

pub thread_terminate : ℕ → Kernel → Er × Kernel
thread_terminate id k = leave (elim (k.thread id) [
  | none ↦ (e_noexs, enter k)
  | some t ↦ terminate_thread t.status id t (enter k)
])

-- The `switch` of `thread_suspend`; `by_self` is `tskid == TSK_SELF`.
pub suspend_thread : Status → Bool → ℕ → Thread → Kernel → Er × Kernel
suspend_thread run by_self id t k =
    let k' = queue_remove id (set_thread id (record t { status = sus }) k) in
    if by_self then (e_ok, leave_serialize_and_dispatch k') else (e_ok, leave_serialize k')
suspend_thread rdy by_self id t k =
    (e_ok, leave_serialize (queue_remove id (set_thread id (record t { status = sus }) k)))
suspend_thread wai by_self id t k =
    (e_ok, leave_serialize (set_thread id (record t { status = was }) k))
suspend_thread sus by_self id t k = (e_qovr, leave_serialize k)
suspend_thread was by_self id t k = (e_qovr, leave_serialize k)
suspend_thread _ by_self id t k = (e_obj, leave_serialize k)

-- A missing running thread is read through its pointer all the same.
pub suspend_missing : Bool → Kernel → Er × Kernel
suspend_missing true k = (e_noexs, record k { crashed = true })
suspend_missing false k = (e_noexs, leave_serialize k)

pub thread_suspend : ℕ → Kernel → Er × Kernel
thread_suspend id k =
    let id' = resolve id k in
    elim (k.thread id') [
      | none ↦ suspend_missing (id == self) (enter k)
      | some t ↦ suspend_thread t.status (id == self) id' t (enter k)
    ]

-- The `switch` of `thread_resume`.
pub resume_thread : Status → ℕ → Thread → Kernel → Er × Kernel
resume_thread sus id t k = (
  e_ok,
  leave_serialize_and_dispatch
      (ready_enqueue t.priority id (set_thread id (record t { status = rdy }) k)),
)
resume_thread was id t k = (e_ok, leave_serialize (set_thread id (record t { status = wai }) k))
resume_thread _ id t k = (e_obj, leave_serialize k)

pub thread_resume : ℕ → Kernel → Er × Kernel
thread_resume id k = elim (k.thread id) [
  | none ↦ (e_noexs, leave_serialize (enter k))
  | some t ↦ resume_thread t.status id t (enter k)
]
