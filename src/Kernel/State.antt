-- ===== src/Kernel/State.antt =====
-- The state that the scheduler keeps: `thread_t` of include/nerve/thread.h, the ready queues of
-- kernel/ready.c, and `sysinfo->sync` of include/nerve/global.h.  A thread is named by its key in
-- the thread tree; a queue of threads is the list of their keys.
pub mod Lists
use eotan.Prelude.{ℕ, Bool, true, false, Option, none, some, List, ◌==◌, ◌||◌, if◌then◌else◌}
use eotan.Set.Sequence.{Sequence}
use eotan.Kernel.Palloc.{Memory}

-- `TTS_*`.  `none_set` is the status 0, which `release` passes through.
pub data Status : Type 0 where
  run rdy wai sus was dmt none_set : Status

-- `wait_type_e`, without `USE_MUTEX`
pub data WaitType : Type 0 where
  wait_none wait_flag wait_call wait_reply wait_receive wait_send : WaitType

-- The results of the calls, `E_OK` and the errors.
pub data Er : Type 0 where
  e_ok e_sys e_rsatr e_par e_id e_iluse e_nomem e_noid e_obj e_noexs e_qovr e_rlwai e_dlt : Er

pub record Thread : Type 0 where
  pub status : Status
  pub wait_type : WaitType
  pub wait_result : Er
  -- `wait.detail.ipc`
  pub wait_size : ℕ
  pub wait_message : ℕ
  pub wait_key : ℕ
  pub priority : ℕ
  pub quantum : ℕ
  pub attr_priority : ℕ
  pub kstack_tail : ℕ
  pub ustack_top : ℕ
  pub port_opened : Bool
  pub port_flag : ℕ
  pub port_max_call : ℕ
  pub port_max_reply : ℕ

-- The lists that the `wait.waiting` link of a thread may stand in: the callers and the receivers
-- of a port, and the caller of a reply.
pub data WaitQueue : Type 0 where
  caller receiver reply : ℕ → WaitQueue

pub record Kernel : Type 0 where
  pub thread : ℕ → Option Thread
  pub ready_task : ℕ → List ℕ
  pub ready_bits : ℕ
  pub running : ℕ
  pub wait_queue : WaitQueue → List ℕ
  pub interrupt_nest : ℕ
  pub no_request : Bool
  pub serializing : Bool
  pub delay_thread_start : Bool
  pub memory : Memory
  -- `reply_tree`, which has the `max_reply` of a rendezvous at its key, and its keys
  pub replies : ℕ → Option ℕ
  pub reply_sequence : Sequence
  -- set where the code reads through a null pointer
  pub crashed : Bool

abbrev pub max_priority : ℕ
max_priority = 7

abbrev pub time_quantum : ℕ
time_quantum = 10

abbrev pub put : (ℕ → Option Thread) → ℕ → Option Thread → ℕ → Option Thread
put threads id t j = if id == j then t else threads j

unfoldable pub set_thread : ℕ → Thread → Kernel → Kernel
set_thread id t k = record k { thread = put k.thread id (some t) }

-- `th->status = s`
unfoldable pub set_status : ℕ → Status → Kernel → Kernel
unfolding set_thread
set_status id s k = elim (k.thread id) [
  | none ↦ k
  | some t ↦ set_thread id (record t { status = s }) k
]

-- `is_kthread`: a kernel thread has no user stack.
abbrev pub is_kthread : Thread → Bool
is_kthread t = t.ustack_top == 0

abbrev pub is_ready : Status → Bool
is_ready run = true
is_ready rdy = true
is_ready _ = false
