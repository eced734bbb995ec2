-- ===== src/Kernel/Ipc/Released.antt =====
-- What closing a port does to the threads that wait at it.
use eotan.Prelude.{
  ℕ, ◌≡◌, refl, true, false, some, List, [], ◌∷◌, arith, ◌==◌, Bool-cases, inl, inr,
}
use eotan.Kernel.State.{
  Status, rdy, wai, sus, was, none_set, e_dlt, wait_none, Thread, Kernel, WaitQueue, set_thread,
}
use eotan.Kernel.State.Lists.{elem}
use eotan.Kernel.Ready.{ready_enqueue}
use eotan.Kernel.Sync.{
  release_thread, release, release_all, release_each, release_deleted, waiting_remove,
}

-- The status of a thread that no longer waits.
abbrev pub woken : Status → Status
woken wai = rdy
woken was = sus
woken none_set = rdy
woken s = s

-- The thread `id` was `t`, and waits no longer, for its port was deleted.
pub record Released (t : Thread) (id : ℕ) (k : Kernel) : Type 0 where
  pub thread : Thread
  pub at : k.thread id ≡ some thread
  pub result : thread.wait_result ≡ e_dlt
  pub kind : thread.wait_type ≡ wait_none
  pub status : thread.status ≡ woken t.status

woken_twice : (s : Status) → woken (woken s) ≡ woken s
woken_twice s = ground arith

-- the thread that `release_deleted` leaves
abbrev freed : Thread → Thread
freed t = record t { wait_result = e_dlt; wait_type = wait_none; status = woken t.status }

release_deleted_at :
    (id : ℕ) (t : Thread) (k : Kernel)
    → k.thread id ≡ some t
    → (release_deleted id k).thread id ≡ some (freed t)
unfolding release_deleted release release_thread ready_enqueue set_thread waiting_remove
release_deleted_at id t k e = ground arith

release_deleted_other :
    (id j : ℕ) (k : Kernel) → (id == j) ≡ false → (release_deleted j k).thread id ≡ k.thread id
unfolding release_deleted release release_thread ready_enqueue set_thread waiting_remove
release_deleted_other id j k n = ground arith

module _ (t : Thread) (id : ℕ) where
  release_deleted-Released :
      (j : ℕ) (k : Kernel) → Released t id k → Released t id (release_deleted j k)
  release_deleted-Released j k r = elim (Bool-cases (id == j)) [
    | inl y ↦
        let same : id ≡ j = ground arith in
        record {
          thread = freed r.thread;
          at = rw (← same) (release_deleted_at id r.thread k r.at);
          result = refl;
          kind = refl;
          status = rw r.status (woken_twice t.status);
        }
    | inr n ↦ record {
      thread = r.thread;
      at = rw (release_deleted_other id j k n) r.at;
      result = r.result;
      kind = r.kind;
      status = r.status;
    }
  ]

  release_each-Released :
      (ids : List ℕ) (k : Kernel) → Released t id k → Released t id (release_each ids k)
  unfolding release_each
  release_each-Released [] k r = r
  release_each-Released (j ∷ ids) k r = release_each-Released ids _ (release_deleted-Released j k r)

  release_each-releases :
      (ids : List ℕ) (k : Kernel)
      → elem id ids ≡ true
      → k.thread id ≡ some t
      → Released t id (release_each ids k)
  unfolding release_each elem
  release_each-releases [] k h e = ground arith
  release_each-releases (j ∷ ids) k h e = elim (Bool-cases (id == j)) [
    | inl y ↦
        let same : id ≡ j = ground arith in
        release_each-Released ids _ (record {
          thread = freed t;
          at = rw (← same) (release_deleted_at id t k e);
          result = refl;
          kind = refl;
          status = refl;
        })
    | inr n ↦ release_each-releases ids _ (ground arith) (rw (release_deleted_other id j k n) e)
  ]

-- `release_all` of a waiting list ends the wait of every thread that stands in it: its result is
-- `E_DLT`, its wait has no kind, and it is ready if it was waiting, suspended if it was waiting
-- and suspended.
pub release_all-Released :
    (q : WaitQueue) (k : Kernel) (id : ℕ) (t : Thread)
    → elem id (k.wait_queue q) ≡ true
    → k.thread id ≡ some t
    → Released t id (release_all q k)
unfolding release_all
release_all-Released q k id t h e = release_each-releases t id (k.wait_queue q) k h e
