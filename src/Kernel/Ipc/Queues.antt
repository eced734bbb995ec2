-- ===== src/Kernel/Ipc/Queues.antt =====
-- Opening, closing and listening keep the ready queues in order.
use eotan.Prelude.{
  ℕ, ◌≡◌, refl, Option, none, some, List, [], ◌∷◌, arith, ◌==◌, not, Bool-cases, Option-cases, inl,
  inr,
}
use eotan.Kernel.State.{Thread, Kernel, WaitQueue, set_thread}
use eotan.Kernel.Ready.Queues.{Queued, set_thread-Queued}
use eotan.Kernel.Sync.{release_all, release_each, release_deleted, waiting_remove}
use eotan.Kernel.Sync.Queues.{
  Queued-fields, release-Queued, leave_serialize-Queued, leave_serialize_and_dispatch-Queued,
  wait-Queued,
}
use eotan.Kernel.Ipc.{
  PortParams, clear, open_port, open_valid, ipc_open, close_port, ipc_close, listen_port,
  ipc_listen,
}

release_deleted-Queued : (id : ℕ) (k : Kernel) → Queued k → Queued (release_deleted id k)
unfolding release_deleted waiting_remove
release_deleted-Queued id k v = elim (Option-cases (k.thread id)) [
  | inl n ↦ rw (n, release_deleted) (Queued-fields k _ v refl refl refl)
  | inr (t, e) ↦
      rw (e, release_deleted)
        (release-Queued _ id (
          set_thread-Queued (waiting_remove id k) id t _ (Queued-fields k _ v refl refl refl) e refl
            refl (ground (arith, v.priorities id))))
]

release_each-Queued : (ids : List ℕ) (k : Kernel) → Queued k → Queued (release_each ids k)
unfolding release_each
release_each-Queued [] k v = v
release_each-Queued (id ∷ ids) k v = release_each-Queued ids _ (release_deleted-Queued id k v)

release_all-Queued : (q : WaitQueue) (k : Kernel) → Queued k → Queued (release_all q k)
unfolding release_all
release_all-Queued q k v = release_each-Queued (k.wait_queue q) k v

-- A change of the running thread that leaves its status and its priorities.
module _ (k : Kernel) (t t' : Thread) (v : Queued k) (e : k.thread k.running ≡ some t) where
  running-Queued :
      t'.status ≡ t.status
      → t'.priority ≡ t.priority
      → t'.attr_priority ≡ t.attr_priority
      → Queued (set_thread k.running t' k)
  running-Queued s p a =
      set_thread-Queued k k.running t t' v e (ground arith) p
        (ground (arith, v.priorities k.running))

open_port-Queued :
    (pk : PortParams) (k : Kernel) → Queued k → Queued (open_port pk (k.thread k.running) k).1
unfolding open_port clear set_thread
open_port-Queued pk k v = elim (Option-cases (k.thread k.running)) [
  | inl n ↦ rw (n, open_port) (Queued-fields k _ v refl refl refl)
  | inr (t, e) ↦ elim (Bool-cases t.port_opened) [
    | inl y ↦ rw (e, open_port, y) v
    | inr n ↦
        rw (e, open_port, n)
          (Queued-fields (set_thread k.running _ k) _ (running-Queued k t _ v e refl refl refl) refl
            refl refl)
  ]
]

pub ipc_open-Queued : (pk : Option PortParams) (k : Kernel) → Queued k → Queued (ipc_open pk k).1
unfolding ipc_open open_valid
ipc_open-Queued none k v = v
ipc_open-Queued (some pk) k v = elim (Bool-cases (not pk.fifo)) [
  | inl y ↦ rw y v
  | inr n ↦
      rw n (leave_serialize-Queued _ (open_port-Queued pk _ (Queued-fields k _ v refl refl refl)))
]

close_port-Queued : (k : Kernel) → Queued k → Queued (close_port (k.thread k.running) k).1
unfolding close_port
close_port-Queued k v = elim (Option-cases (k.thread k.running)) [
  | inl n ↦ rw (n, close_port) (Queued-fields k _ v refl refl refl)
  | inr (t, e) ↦ elim (Bool-cases t.port_opened) [
    | inl y ↦
        rw (e, close_port, y)
          (release_all-Queued _ _
            (release_all-Queued _ _ (running-Queued k t _ v e refl refl refl)))
    | inr n ↦ rw (e, close_port, n) v
  ]
]

pub ipc_close-Queued : (k : Kernel) → Queued k → Queued (ipc_close k).1
unfolding ipc_close
ipc_close-Queued k v =
    leave_serialize_and_dispatch-Queued _ (close_port-Queued _ (Queued-fields k _ v refl refl refl))

listen_port-Queued : (k : Kernel) → Queued k → Queued (listen_port (k.thread k.running) k).1
unfolding listen_port
listen_port-Queued k v = elim (Option-cases (k.thread k.running)) [
  | inl n ↦ rw (n, listen_port) (Queued-fields k _ v refl refl refl)
  | inr (t, e) ↦ elim (Bool-cases (t.port_flag == 0)) [
    | inl y ↦ rw (e, listen_port, y) (wait-Queued _ (running-Queued k t _ v e refl refl refl))
    | inr n ↦
        rw (e, listen_port, n) (leave_serialize-Queued _ (running-Queued k t _ v e refl refl refl))
  ]
]

pub ipc_listen-Queued : (k : Kernel) → Queued k → Queued (ipc_listen k).1
unfolding ipc_listen
ipc_listen-Queued k v = listen_port-Queued _ (Queued-fields k _ v refl refl refl)
