-- ===== src/Kernel/Thread/Queues.antt =====
-- Creating, destroying, starting and ending threads keep the ready queues in order.
use eotan.Prelude.{
  ℕ, ◌≤◌, ◌≡◌, refl, Bool, true, false, Option, none, some, arith, ◌==◌, ◌||◌, leb, ltb, Bool-cases,
  Option-cases, inl, inr,
}
use eotan.Kernel.Palloc.{Memory, palloc}
use eotan.Kernel.State.{rdy, Er, Thread, Kernel, is_ready, max_priority, time_quantum}
use eotan.Kernel.Ready.Queues.{
  Queued, ready_at, ready_enqueue-Queued, queue_remove-Queued, new-Queued, drop-Queued,
}
use eotan.Kernel.Sync.Queues.{
  Queued-fields, leave_serialize-Queued, leave_serialize_and_dispatch-Queued,
}
use eotan.Kernel.Thread.{
  Params, new_thread, fire, setup_page, setup_stack, create_with, has_thread, thread_create,
  release_resources, is_dormant, destroy_thread, thread_destroy, start_thread, thread_start,
  resolve, thread_end, enter, leave, min_manual_id, max_auto_id, kthread_stack_size,
}

pub enter-Queued : (k : Kernel) → Queued k → Queued (enter k)
enter-Queued k v = Queued-fields k _ v refl refl refl

-- A thread that is not ready is in no queue.
unready : (t : Thread) (p : ℕ) → is_ready t.status ≡ false → ready_at (some t) p ≡ false
unready t p h = ground arith

fire-Queued :
    (k : Kernel) (id : ℕ) (t : Thread)
    → Queued k
    → ((p : ℕ) → ready_at (k.thread id) p ≡ false)
    → leb t.attr_priority max_priority ≡ true
    → Queued (fire id t k)
unfolding fire
fire-Queued k id t v n h = leave_serialize_and_dispatch-Queued _ (
    ready_enqueue-Queued k id
      (record t { priority = t.attr_priority; quantum = time_quantum; port_flag = 0; status = rdy })
      v n refl (ground arith))

-- Taking a stack changes the memory alone.
setup_page-Queued :
    (size : ℕ) (r : Option ℕ × Memory) (k : Kernel) → Queued k → Queued (setup_page size r k).1
unfolding setup_page
setup_page-Queued size (none, m) k v = Queued-fields k _ v refl refl refl
setup_page-Queued size (some p, m) k v = Queued-fields k _ v refl refl refl

thread-setup_page :
    (size : ℕ) (r : Option ℕ × Memory) (k : Kernel) → (setup_page size r k).1.thread ≡ k.thread
unfolding setup_page
thread-setup_page size (none, m) k = refl
thread-setup_page size (some p, m) k = refl

setup_stack-Queued : (pk : Params) (k : Kernel) → Queued k → Queued (setup_stack pk k).1
unfolding setup_stack
setup_stack-Queued pk k v = elim (Bool-cases (pk.stk == 0)) [
  | inl y ↦ rw y (setup_page-Queued pk.stksz (palloc k.memory) k v)
  | inr n ↦ rw n v
]

thread-setup_stack : (pk : Params) (k : Kernel) → (setup_stack pk k).1.thread ≡ k.thread
unfolding setup_stack
thread-setup_stack pk k = elim (Bool-cases (pk.stk == 0)) [
  | inl y ↦ rw y (thread-setup_page pk.stksz (palloc k.memory) k)
  | inr n ↦ rw n
]

create_with-Queued :
    (id : ℕ) (pk : Params) (r : Option ℕ × Kernel)
    → Queued r.1
    → r.1.thread id ≡ none
    → pk.itskpri ≤ max_priority
    → Queued (create_with id pk r).1
unfolding create_with new_thread
create_with-Queued id pk (none, k) v f h = leave_serialize-Queued k v
create_with-Queued id pk (some p, k) v f h = elim (Bool-cases pk.act) [
  | inl y ↦ simp y (fire-Queued k id (new_thread p pk) v (λ q. rw f) (ground arith))
  | inr n ↦ simp n (
      leave_serialize-Queued _
        (new-Queued k id (new_thread p pk) v (λ q. rw f) refl (ground arith)))
]

pub leave-Queued : (r : Er × Kernel) → Queued r.1 → Queued (leave r).1
leave-Queued (er, k) v = leave_serialize-Queued k v

absent : (o : Option Thread) → has_thread o ≡ false → o ≡ none
unfolding has_thread
absent none h = refl
absent (some t) h = cc

-- `thread_create` keeps the queues, if the priority asked for is one.
pub thread_create-Queued :
    (entry : Bool) (id : ℕ) (pk : Params) (k : Kernel)
    → Queued k
    → pk.itskpri ≤ max_priority
    → Queued (thread_create entry id pk k).1
unfolding thread_create
thread_create-Queued entry id pk k v h =
    let v' = enter-Queued k v in
    let l = leave_serialize-Queued (enter k) v' in
    elim (Bool-cases (ltb id min_manual_id || ltb max_auto_id id)) [
      | inl y ↦ simp y v
      | inr a ↦ elim (Bool-cases pk.asm) [
        | inl y ↦ simp (a, y) v
        | inr b ↦ elim (Bool-cases (pk.stksz == kthread_stack_size)) [
          | inr y ↦ simp (a, b, y) v
          | inl c ↦ elim (Bool-cases entry) [
            | inr y ↦ simp (a, b, c, y) l
            | inl d ↦ elim (Bool-cases (has_thread (k.thread id))) [
              | inl y ↦ simp (a, b, c, d, y) l
              | inr f ↦
                  simp (a, b, c, d, f)
                    (create_with-Queued id pk (setup_stack pk (enter k))
                      (setup_stack-Queued pk (enter k) v')
                      (rw (thread-setup_stack pk (enter k)) (absent (k.thread id) f)) h)
            ]
          ]
        ]
      ]
    ]

destroy_thread-Queued :
    (id : ℕ) (o : Option Thread) (k : Kernel)
    → Queued k
    → k.thread id ≡ o
    → Queued (destroy_thread id o k).1
unfolding destroy_thread release_resources
destroy_thread-Queued id none k v e = v
destroy_thread-Queued id (some t) k v e = elim (Bool-cases (is_dormant t.status)) [
  | inl y ↦ rw y (Queued-fields _ _ (drop-Queued k id v (λ q. rw e (ground arith))) refl refl refl)
  | inr n ↦ rw n v
]

pub thread_destroy-Queued : (id : ℕ) (k : Kernel) → Queued k → Queued (thread_destroy id k).1
unfolding thread_destroy
thread_destroy-Queued id k v =
    leave-Queued (destroy_thread id (k.thread id) (enter k))
      (destroy_thread-Queued id (k.thread id) (enter k) (enter-Queued k v) refl)

start_thread-Queued :
    (id : ℕ) (o : Option Thread) (k : Kernel)
    → Queued k
    → k.thread id ≡ o
    → Queued (start_thread id o k).1
unfolding start_thread
start_thread-Queued id none k v e = leave_serialize-Queued k v
start_thread-Queued id (some t) k v e = elim (Bool-cases (is_dormant t.status)) [
  | inl y ↦ rw y (fire-Queued k id t v (λ q. rw e (ground arith)) (ground (arith, v.priorities id)))
  | inr n ↦ rw n (leave_serialize-Queued k v)
]

pub thread_start-Queued : (id : ℕ) (k : Kernel) → Queued k → Queued (thread_start id k).1
unfolding thread_start
thread_start-Queued id k v =
    start_thread-Queued (resolve id k) (k.thread (resolve id k)) (enter k) (enter-Queued k v) refl

pub thread_end-Queued : (k : Kernel) → Queued k → Queued (thread_end k)
unfolding thread_end
thread_end-Queued k v = elim (Option-cases (k.thread k.running)) [
  | inl n ↦ rw (n, thread_end) (Queued-fields k _ v refl refl refl)
  | inr (t, e) ↦
      rw (e, thread_end)
        (leave_serialize_and_dispatch-Queued _ (
          queue_remove-Queued (enter k) k.running _ (enter-Queued k v) refl
            (ground (arith, v.priorities k.running))))
]
