-- ===== src/Kernel/Thread/Laws.antt =====
-- What a caller of the calls on threads sees.
use eotan.Prelude.{ℕ, ◌≡◌, ◌≢◌, refl, true, false, some, arith, ap}
use eotan.Kernel.State.{Status, run, rdy, sus, dmt, e_ok, Thread, Kernel, set_thread, time_quantum}
use eotan.Kernel.Ready.{ready_enqueue, queue_remove}
use eotan.Kernel.Ready.Queues.{Queued, ready_enqueue-Queued}
use eotan.Kernel.Sync.{leave_serialize}
use eotan.Kernel.Sync.Queues.{Queued-fields}
use eotan.Kernel.Sync.Dispatch.{HighestFirst, leave_serialize_and_dispatch-HighestFirst}
use eotan.Kernel.Thread.{
  fire, start_thread, thread_start, suspend_thread, thread_suspend, resume_thread, thread_resume,
  enter, resolve, self, is_dormant,
}

fire-HighestFirst :
    (id : ℕ) (t : Thread) (k : Kernel)
    → Queued k
    → k.thread id ≡ some t
    → t.status ≡ dmt
    → k.interrupt_nest ≡ 0
    → k.delay_thread_start ≡ false
    → HighestFirst (fire id t k) × ((fire id t k).crashed ≡ k.crashed)
unfolding fire ready_enqueue set_thread
fire-HighestFirst id t k v e s n d =
    let t' : Thread = record t {
      priority = t.attr_priority;
      quantum = time_quantum;
      port_flag = 0;
      status = rdy;
    } in
    leave_serialize_and_dispatch-HighestFirst
      (ready_enqueue t.attr_priority id (set_thread id t' k)) id t.attr_priority
      (ready_enqueue-Queued k id t' v (λ q. ground arith) refl (ground (arith, v.priorities id))) n
      d (ground arith)

resume_thread-HighestFirst :
    (id : ℕ) (t : Thread) (k : Kernel)
    → Queued k
    → k.thread id ≡ some t
    → k.interrupt_nest ≡ 0
    → k.delay_thread_start ≡ false
    → (s : Status) → s ≡ sus
    → t.status ≡ sus
    → ((resume_thread s id t k).0 ≡ e_ok)
      × (HighestFirst (resume_thread s id t k).1 × ((resume_thread s id t k).1.crashed ≡ k.crashed))
unfolding resume_thread ready_enqueue set_thread
resume_thread-HighestFirst id t k v e n d sus h u =
    let t' : Thread = record t { status = rdy } in
    (
      refl,
      leave_serialize_and_dispatch-HighestFirst (ready_enqueue t.priority id (set_thread id t' k))
          id t.priority
          (ready_enqueue-Queued k id t' v (λ q. ground arith) refl
            (ground (arith, v.priorities id)))
          n d (ground arith),
    )
resume_thread-HighestFirst id t k v e n d _ h u = cc

-- In a kernel with exact ready queues, outside interrupts and with no delay thread asked for,
-- `thread_start` of a dormant thread returns `E_OK`; then the running thread is the first of its
-- priority and no higher priority has a thread, and the call itself reads no null pointer.
pub thread_start-HighestFirst :
    (id : ℕ) (t : Thread) (k : Kernel)
    → Queued k
    → k.thread (resolve id k) ≡ some t
    → t.status ≡ dmt
    → k.interrupt_nest ≡ 0
    → k.delay_thread_start ≡ false
    → ((thread_start id k).0 ≡ e_ok)
      × (HighestFirst (thread_start id k).1 × ((thread_start id k).1.crashed ≡ k.crashed))
unfolding thread_start start_thread fire
thread_start-HighestFirst id t k v e s n d =
    let k' : Kernel = enter k in
    let v' : Queued k' = Queued-fields k k' v refl refl refl in
    let dormant : is_dormant t.status ≡ true = ap is_dormant s in
    rw (e, dormant) (refl, fire-HighestFirst (resolve id k) t k' v' e s n d)

-- In a kernel with exact ready queues, outside interrupts and with no delay thread asked for,
-- `thread_resume` of a suspended thread returns `E_OK`; then the running thread is the first of
-- its priority and no higher priority has a thread, and the call itself reads no null pointer.
pub thread_resume-HighestFirst :
    (id : ℕ) (t : Thread) (k : Kernel)
    → Queued k
    → k.thread id ≡ some t
    → t.status ≡ sus
    → k.interrupt_nest ≡ 0
    → k.delay_thread_start ≡ false
    → ((thread_resume id k).0 ≡ e_ok)
      × (HighestFirst (thread_resume id k).1 × ((thread_resume id k).1.crashed ≡ k.crashed))
unfolding thread_resume resume_thread
thread_resume-HighestFirst id t k v e s n d =
    let k' : Kernel = enter k in
    let v' : Queued k' = Queued-fields k k' v refl refl refl in
    rw (e, thread_resume) (resume_thread-HighestFirst id t k' v' e n d t.status s s)

-- A running thread that suspends itself by its own number, and not by `TSK_SELF`, goes on running
-- although it is suspended, if no dispatch had been asked for and its number is not that of
-- `TSK_SELF`; the call returns `E_OK`.
pub suspend_by_number :
    (t : Thread) (k : Kernel)
    → k.running ≢ self
    → k.thread k.running ≡ some t
    → t.status ≡ run
    → k.no_request ≡ true
    → ((thread_suspend k.running k).0 ≡ e_ok)
      × ((thread_suspend k.running k).1.running ≡ k.running)
      × ((thread_suspend k.running k).1.thread k.running ≡ some (record t { status = sus }))
unfolding thread_suspend suspend_thread leave_serialize queue_remove set_thread
suspend_by_number t k z e s q = ground arith
