-- ===== src/Kernel/Thread/Steps.antt =====
-- The kernel as a machine: what a call, a tick or the machine may do next, and what holds in every
-- state that is reached.
use eotan.Prelude.{
  ℕ, ◌+◌, ◌-◌, ◌%◌, ◌^◌, ◌≤◌, ◌≡◌, refl, Bool, true, false, Option, none, some, List, [], ◌∷◌,
  arith, ◌==◌, Bool-cases, Option-cases, inl, inr,
}
use eotan.Set.Sequence.{Sequence}
use eotan.Kernel.Palloc.{Memory}
use eotan.Kernel.State.{Thread, Kernel, is_kthread, max_priority}
use eotan.Kernel.State.Lists.{elem, elem-append}
use eotan.Kernel.Ready.{rotate, ready_rotate, tick_thread, tick}
use eotan.Kernel.Ready.Queues.{Queued, is_empty, set_thread-Queued}
use eotan.Kernel.Sync.{leave_serialize, dispatch, notify, wait}
use eotan.Kernel.Sync.Queues.{
  Queued-fields, dispatch-Queued, leave_serialize-Queued, notify-Queued, wait-Queued,
}
use eotan.Kernel.Ipc.{PortParams, ipc_open, ipc_close, ipc_listen}
use eotan.Kernel.Ipc.Queues.{ipc_open-Queued, ipc_close-Queued, ipc_listen-Queued}
use eotan.Kernel.Ipc.Message.{Copy, ipc_call, call_end}
use eotan.Kernel.Ipc.Send.{ipc_receive, receive_end, ipc_send}
use eotan.Kernel.Ipc.Transfer.{ipc_call-Queued, call_end-Queued}
use eotan.Kernel.Ipc.Sending.{ipc_receive-Queued, receive_end-Queued, ipc_send-Queued}
use eotan.Kernel.Thread.{
  Params, enter, thread_create, thread_destroy, thread_start, thread_end, thread_terminate,
  thread_suspend, thread_resume,
}
use eotan.Kernel.Thread.Queues.{
  thread_create-Queued, thread_destroy-Queued, thread_start-Queued, thread_end-Queued,
}
use eotan.Kernel.Thread.Suspended.{
  thread_terminate-Queued, thread_suspend-Queued, thread_resume-Queued,
}

-- `ready_rotate` is called through `icall->handle`, between the serialize calls.
abbrev pub rotate_call : ℕ → ℕ → Kernel → Kernel
rotate_call pri id k = leave_serialize (ready_rotate pri id (enter k))

-- After `thread_initialize` there is no thread, and every queue is empty.
pub boot : ℕ → Memory → Sequence → Kernel
boot running m q = record {
  thread = λ _. none;
  ready_task = λ _. [];
  ready_bits = 0;
  running = running;
  wait_queue = λ _. [];
  interrupt_nest = 0;
  no_request = true;
  serializing = false;
  delay_thread_start = false;
  memory = m;
  replies = λ _. none;
  reply_sequence = q;
  crashed = false;
}

pub data Step (k : Kernel) : Kernel → Type 0 where
  create :
      (entry : Bool) (id : ℕ) (pk : Params)
      → pk.itskpri ≤ max_priority
      → Step k (thread_create entry id pk k).1
  destroy : (id : ℕ) → Step k (thread_destroy id k).1
  start : (id : ℕ) → Step k (thread_start id k).1
  end : Step k (thread_end k)
  terminate : (id : ℕ) → Step k (thread_terminate id k).1
  suspend : (id : ℕ) → Step k (thread_suspend id k).1
  resume : (id : ℕ) → Step k (thread_resume id k).1
  notification : (id flag : ℕ) → Step k (notify id flag k).1
  waiting : Step k (wait (enter k))
  ticking : Step k (tick k).0
  rotation : (pri id : ℕ) → Step k (rotate_call pri id k)
  dispatching : Step k (dispatch k)
  opening : (pk : Option PortParams) → Step k (ipc_open pk k).1
  closing : Step k (ipc_close k).1
  listening : Step k (ipc_listen k).1
  calling :
      (copy : Copy) (entry : Bool) (port message size : ℕ)
      → Step k (ipc_call copy entry port message size k).1
  called : (key : ℕ) → Step k (call_end key k).1
  receiving : (copy : Copy) (port message : ℕ) → Step k (ipc_receive copy port message k).1
  receipt : Step k (receive_end k).1
  sending : (copy : Copy) (tag message size : ℕ) → Step k (ipc_send copy tag message size k).1
  -- an interrupt begins or ends, and the timer asks for the delay thread
  interrupt : (n : ℕ) → Step k (record k { interrupt_nest = n })
  timer : Step k (record k { delay_thread_start = true })

pub data Reach (k : Kernel) : Kernel → Type 0 where
  here : Reach k k
  next : {a b : Kernel} → Reach k a → Step a b → Reach k b

elem-rotate : (a id : ℕ) (xs : List ℕ) → elem a (rotate id xs) ≡ elem a xs
unfolding rotate elem
elem-rotate a id [] = refl
elem-rotate a id (x ∷ []) = refl
elem-rotate a id (x ∷ y ∷ rest) = ground (arith, elem-append a x rest)

is_empty-rotate : (id : ℕ) (xs : List ℕ) → is_empty (rotate id xs) ≡ is_empty xs
unfolding rotate
is_empty-rotate id [] = refl
is_empty-rotate id (x ∷ []) = refl
is_empty-rotate id (x ∷ y ∷ rest) = ground arith

ready_rotate-Queued : (pri id : ℕ) (k : Kernel) → Queued k → Queued (ready_rotate pri id k)
unfolding ready_rotate
ready_rotate-Queued pri id k v = record {
  queues = λ p a. ground (arith, v.queues p a, elem-rotate a id (k.ready_task pri));
  bits = λ p. ground (arith, v.bits p, is_empty-rotate id (k.ready_task pri));
  word = v.word;
  priorities = v.priorities;
}

tick_thread-Queued :
    (id : ℕ) (t : Thread) (k : Kernel)
    → Queued k
    → k.thread id ≡ some t
    → Queued (tick_thread id t k).0
unfolding tick_thread
tick_thread-Queued id t k v e = elim (Bool-cases (is_kthread t)) [
  | inl y ↦ rw y v
  | inr n ↦ elim (Bool-cases ((t.quantum + (2 ^ 32 - 1)) % 2 ^ 32 == 0)) [
    | inl z ↦ rw (n, z) (set_thread-Queued k id t _ v e refl refl (ground (arith, v.priorities id)))
    | inr z ↦ rw (n, z) (set_thread-Queued k id t _ v e refl refl (ground (arith, v.priorities id)))
  ]
]

tick-Queued : (k : Kernel) → Queued k → Queued (tick k).0
unfolding tick
tick-Queued k v = elim (Option-cases (k.thread k.running)) [
  | inl n ↦ rw (n, tick) v
  | inr (t, e) ↦ rw (e, tick) (tick_thread-Queued k.running t k v e)
]

-- No step disturbs the ready queues.
pub Step-Queued : {k k' : Kernel} → Step k k' → Queued k → Queued k'
Step-Queued {k} (create entry id pk h) v = thread_create-Queued entry id pk k v h
Step-Queued {k} (destroy id) v = thread_destroy-Queued id k v
Step-Queued {k} (start id) v = thread_start-Queued id k v
Step-Queued {k} end v = thread_end-Queued k v
Step-Queued {k} (terminate id) v = thread_terminate-Queued id k v
Step-Queued {k} (suspend id) v = thread_suspend-Queued id k v
Step-Queued {k} (resume id) v = thread_resume-Queued id k v
Step-Queued {k} (notification id flag) v = notify-Queued id flag k v
Step-Queued {k} waiting v = wait-Queued (enter k) (Queued-fields k _ v refl refl refl)
Step-Queued {k} ticking v = tick-Queued k v
Step-Queued {k} (rotation pri id) v =
    leave_serialize-Queued _
      (ready_rotate-Queued pri id (enter k) (Queued-fields k _ v refl refl refl))
Step-Queued {k} dispatching v = dispatch-Queued k v
Step-Queued {k} (opening pk) v = ipc_open-Queued pk k v
Step-Queued {k} closing v = ipc_close-Queued k v
Step-Queued {k} listening v = ipc_listen-Queued k v
Step-Queued {k} (calling copy entry port message size) v =
    ipc_call-Queued copy entry port message size k v
Step-Queued {k} (called key) v = call_end-Queued key k v
Step-Queued {k} (receiving copy port message) v = ipc_receive-Queued copy port message k v
Step-Queued {k} receipt v = receive_end-Queued k v
Step-Queued {k} (sending copy tag message size) v = ipc_send-Queued copy tag message size k v
Step-Queued {k} (interrupt n) v = Queued-fields k _ v refl refl refl
Step-Queued {k} timer v = Queued-fields k _ v refl refl refl

Reach-Queued : {k k' : Kernel} → Queued k → Reach k k' → Queued k'
Reach-Queued v here = v
Reach-Queued v (next r s) = Step-Queued s (Reach-Queued v r)

boot-Queued : (running : ℕ) (m : Memory) (q : Sequence) → Queued (boot running m q)
unfolding boot elem
boot-Queued running m q = record {
  queues = λ p id. refl;
  bits = λ p. refl;
  word = omega arith;
  priorities = λ id. refl;
}

-- In every state that the kernel reaches from its start by the calls on threads (each thread
-- created with a priority of at most 7), the opening and closing of ports and listening at them,
-- calls, receives, sends and replies, notifications, waits, ticks, rotations and dispatches, the
-- ready queues hold exactly the threads that are running or ready, each in the queue of its
-- priority, and every queue that holds a thread has its bit in `ready_bits`, a 32-bit word.
pub reached-Queued :
    (running : ℕ) (m : Memory) (q : Sequence) (k : Kernel) → Reach (boot running m q) k → Queued k
reached-Queued running m q k r = Reach-Queued (boot-Queued running m q) r
