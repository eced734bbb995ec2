-- ===== src/Kernel/Thread/Suspended.antt =====
-- Suspending, resuming and terminating threads keep the ready queues in order.
use eotan.Prelude.{
  ℕ, ◌≡◌, refl, Bool, true, false, some, arith, ◌==◌, if◌then◌else◌, Bool-cases, Option-cases, inl,
  inr, ap,
}
use eotan.Kernel.State.{Status, run, rdy, wai, sus, was, Thread, Kernel, set_thread, is_ready}
use eotan.Kernel.Ready.{queue_remove}
use eotan.Kernel.Ready.Queues.{Queued, set_thread-Queued, ready_enqueue-Queued, queue_remove-Queued}
use eotan.Kernel.Sync.{waiting_remove}
use eotan.Kernel.Sync.Queues.{
  Queued-fields, leave_serialize-Queued, leave_serialize_and_dispatch-Queued,
}
use eotan.Kernel.Thread.{
  resolve, terminate_thread, thread_terminate, suspend_thread, suspend_missing, thread_suspend,
  resume_thread, thread_resume, enter, is_waiting, self,
}
use eotan.Kernel.Thread.Queues.{enter-Queued, leave-Queued}

-- Of a thread known by its record: what the `switch` of each call does.
module _ (id : ℕ) (t : Thread) (k : Kernel) (v : Queued k) (e : k.thread id ≡ some t) where
  -- a thread that stays out of the queues
  idle-Queued :
      (t' : Thread)
      → is_ready t.status ≡ false
      → is_ready t'.status ≡ false
      → t'.priority ≡ t.priority
      → t'.attr_priority ≡ t.attr_priority
      → Queued (set_thread id t' k)
  idle-Queued t' a b p q =
      set_thread-Queued k id t t' v e (rw (a, b)) p (ground (arith, v.priorities id))

  -- a thread that leaves its queue
  unqueue-Queued :
      (t' : Thread)
      → is_ready t'.status ≡ false
      → t'.priority ≡ t.priority
      → t'.attr_priority ≡ t.attr_priority
      → Queued (queue_remove id (set_thread id t' k))
  unqueue-Queued t' b p q = queue_remove-Queued k id t' v b (ground (arith, v.priorities id))

  suspend_thread-Queued :
      (s : Status) (by_self : Bool) → t.status ≡ s → Queued (suspend_thread s by_self id t k).1
  unfolding suspend_thread
  suspend_thread-Queued run true h =
      leave_serialize_and_dispatch-Queued _ (unqueue-Queued _ refl refl refl)
  suspend_thread-Queued run false h = leave_serialize-Queued _ (unqueue-Queued _ refl refl refl)
  suspend_thread-Queued rdy b h = leave_serialize-Queued _ (unqueue-Queued _ refl refl refl)
  suspend_thread-Queued wai b h =
      leave_serialize-Queued _ (idle-Queued _ (ap is_ready h) refl refl refl)
  suspend_thread-Queued _ b h = leave_serialize-Queued k v

  resume_thread-Queued : (s : Status) → t.status ≡ s → Queued (resume_thread s id t k).1
  unfolding resume_thread
  resume_thread-Queued sus h =
      leave_serialize_and_dispatch-Queued _
        (ready_enqueue-Queued k id _ v (λ q. rw (e, h)) refl (ground (arith, v.priorities id)))
  resume_thread-Queued was h =
      leave_serialize-Queued _ (idle-Queued _ (ap is_ready h) refl refl refl)
  resume_thread-Queued _ h = leave_serialize-Queued k v

unwait-Queued :
    (id : ℕ) (t : Thread) (k : Kernel)
    → Queued k
    → Queued (if is_waiting t.wait_type then waiting_remove id k else k)
unfolding waiting_remove
unwait-Queued id t k v = elim (Bool-cases (is_waiting t.wait_type)) [
  | inl y ↦ rw y (Queued-fields k _ v refl refl refl)
  | inr n ↦ rw n v
]

thread-unwait :
    (id : ℕ) (t : Thread) (k : Kernel)
    → (if is_waiting t.wait_type then waiting_remove id k else k).thread ≡ k.thread
unfolding waiting_remove
thread-unwait id t k = ground arith

terminate_thread-Queued :
    (s : Status) (id : ℕ) (t : Thread) (k : Kernel)
    → Queued k
    → k.thread id ≡ some t
    → t.status ≡ s
    → Queued (terminate_thread s id t k).1
unfolding terminate_thread
terminate_thread-Queued rdy id t k v e h = unqueue-Queued id t k v e _ refl refl refl
terminate_thread-Queued wai id t k v e h =
    idle-Queued id t _ (unwait-Queued id t k v) (rw (thread-unwait id t k) e) _ (ap is_ready h) refl
      refl refl
terminate_thread-Queued was id t k v e h =
    idle-Queued id t _ (unwait-Queued id t k v) (rw (thread-unwait id t k) e) _ (ap is_ready h) refl
      refl refl
terminate_thread-Queued sus id t k v e h = idle-Queued id t k v e _ (ap is_ready h) refl refl refl
terminate_thread-Queued _ id t k v e h = v

pub thread_terminate-Queued : (id : ℕ) (k : Kernel) → Queued k → Queued (thread_terminate id k).1
unfolding thread_terminate
thread_terminate-Queued id k v = elim (Option-cases (k.thread id)) [
  | inl n ↦ rw (n, thread_terminate) (leave_serialize-Queued (enter k) (enter-Queued k v))
  | inr (t, e) ↦
      rw (e, thread_terminate)
        (leave-Queued (terminate_thread t.status id t (enter k))
          (terminate_thread-Queued t.status id t (enter k) (enter-Queued k v) e refl))
]

suspend_missing-Queued : (b : Bool) (k : Kernel) → Queued k → Queued (suspend_missing b k).1
unfolding suspend_missing
suspend_missing-Queued true k v = Queued-fields k _ v refl refl refl
suspend_missing-Queued false k v = leave_serialize-Queued k v

pub thread_suspend-Queued : (id : ℕ) (k : Kernel) → Queued k → Queued (thread_suspend id k).1
unfolding thread_suspend
thread_suspend-Queued id k v = elim (Option-cases (k.thread (resolve id k))) [
  | inl n ↦
      rw (n, thread_suspend) (suspend_missing-Queued (id == self) (enter k) (enter-Queued k v))
  | inr (t, e) ↦
      rw (e, thread_suspend)
        (suspend_thread-Queued (resolve id k) t (enter k) (enter-Queued k v) e t.status (id == self)
          refl)
]

pub thread_resume-Queued : (id : ℕ) (k : Kernel) → Queued k → Queued (thread_resume id k).1
unfolding thread_resume
thread_resume-Queued id k v = elim (Option-cases (k.thread id)) [
  | inl n ↦ rw (n, thread_resume) (leave_serialize-Queued (enter k) (enter-Queued k v))
  | inr (t, e) ↦
      rw (e, thread_resume) (resume_thread-Queued id t (enter k) (enter-Queued k v) e t.status refl)
]
