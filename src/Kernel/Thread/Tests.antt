-- ===== src/Kernel/Thread/Tests.antt =====
-- A small kernel: the idle thread 1 runs, 5 is dormant at priority 3, 6 is suspended at 2.
use eotan.Prelude.{
  ℕ, ◌-◌, ◌^◌, ◌≡◌, refl, true, false, none, some, [], ◌∷◌, arith, ◌==◌, ◌||◌, Bool-cases, inl, inr,
  if◌then◌else◌,
}
use eotan.Bits.{test_bit, set_bit, count_ntz}
use eotan.Set.Sequence.{Sequence}
use eotan.Kernel.Palloc.{Memory}
use eotan.Kernel.State.{
  Status, run, sus, dmt, wait_none, e_ok, Thread, Kernel, set_thread, set_status,
}
use eotan.Kernel.State.Lists.{elem}
use eotan.Kernel.Ready.{ready_enqueue, ready_dequeue, dequeue_from}
use eotan.Kernel.Ready.Queues.{Queued, ready_at, is_empty}
use eotan.Kernel.Sync.{
  dispatch, resched, start_delay, preempt, switch_to, leave_serialize, leave_serialize_and_dispatch,
}
use eotan.Kernel.Sync.Dispatch.{HighestFirst, dispatch-HighestFirst}
use eotan.Kernel.Thread.{
  Params, thread_create, thread_start, thread_resume, thread_suspend, fire, start_thread,
}
use eotan.Kernel.Thread.Laws.{
  thread_start-HighestFirst, thread_resume-HighestFirst, suspend_by_number,
}
use eotan.Kernel.Thread.Steps.{boot, here, next, Step, reached-Queued}

abbrev no_replies : Sequence
no_replies = record {
  rest = 1;
  clock_block = 0;
  num_of_blocks = 1;
  map = 2 ∷ [];
  mask = 2 ^ 32 - 2;
}

abbrev a_thread : Status → ℕ → Thread
a_thread s p = record {
  status = s;
  wait_type = wait_none;
  wait_result = e_ok;
  wait_size = 0;
  wait_message = 0;
  wait_key = 0;
  priority = p;
  quantum = 10;
  attr_priority = p;
  kstack_tail = 0;
  ustack_top = 4096;
  port_opened = false;
  port_flag = 0;
  port_max_call = 0;
  port_max_reply = 0;
}

abbrev a_memory : Memory
a_memory = record {
  mm = record { rest_pages = 1; clock_block = 0; num_blocks = 1; max_pages = 32; map = 16 ∷ [] };
  mem = λ a. 0;
}

abbrev small : Kernel
small = record {
  thread = λ j.
      if j == 1
      then some (a_thread run 7)
      else if j == 5
      then some (a_thread dmt 3)
      else if j == 6
      then some (a_thread sus 2)
      else none;
  ready_task = λ p. if p == 7 then 1 ∷ [] else [];
  ready_bits = 128;
  running = 1;
  wait_queue = λ _. [];
  interrupt_nest = 0;
  no_request = true;
  serializing = false;
  delay_thread_start = false;
  memory = a_memory;
  replies = λ _. none;
  reply_sequence = no_replies;
  crashed = false;
}

small-queues : (p id : ℕ) → elem id (small.ready_task p) ≡ ready_at (small.thread id) p
unfolding elem
small-queues p id = ground arith

small-bits : (p : ℕ) → (is_empty (small.ready_task p) || test_bit small.ready_bits p) ≡ true
unfolding test_bit
small-bits p = elim (Bool-cases (p == 7)) [
  | inl y ↦ let e : p ≡ 7 = ground arith in rw e
  | inr n ↦ rw n
]

small-Queued : Queued small
small-Queued = record {
  queues = small-queues;
  bits = small-bits;
  word = omega arith;
  priorities = λ id. ground arith;
}

-- The started thread preempts the idle thread.
start_runs :
    ((thread_start 5 small).1.running ≡ 5) × ((thread_start 5 small).1.ready_task 7 ≡ 1 ∷ [])
unfolding thread_start start_thread fire leave_serialize_and_dispatch leave_serialize dispatch
    resched switch_to start_delay ready_dequeue dequeue_from ready_enqueue set_thread set_status
    preempt set_bit count_ntz
start_runs = (refl, refl)

dispatch-HighestFirst_example : HighestFirst (dispatch small) × ((dispatch small).crashed ≡ false)
unfolding start_delay
dispatch-HighestFirst_example = dispatch-HighestFirst small 1 7 small-Queued refl refl

thread_start-HighestFirst_example :
    ((thread_start 5 small).0 ≡ e_ok)
    × (HighestFirst (thread_start 5 small).1 × ((thread_start 5 small).1.crashed ≡ false))
thread_start-HighestFirst_example =
    thread_start-HighestFirst 5 (a_thread dmt 3) small small-Queued refl refl refl refl

thread_resume-HighestFirst_example :
    ((thread_resume 6 small).0 ≡ e_ok)
    × (HighestFirst (thread_resume 6 small).1 × ((thread_resume 6 small).1.crashed ≡ false))
thread_resume-HighestFirst_example =
    thread_resume-HighestFirst 6 (a_thread sus 2) small small-Queued refl refl refl refl

suspend_by_number_example :
    ((thread_suspend 1 small).0 ≡ e_ok)
    × ((thread_suspend 1 small).1.running ≡ 1)
    × ((thread_suspend 1 small).1.thread 1 ≡ some (a_thread sus 7))
suspend_by_number_example =
    suspend_by_number (a_thread run 7) small (λ e. omega (arith, e)) refl refl refl

abbrev params : Params
params = record { asm = false; act = true; itskpri = 3; stksz = 4096; stk = 0; ustack_top = 0 }

abbrev one_thread : Kernel
one_thread = (thread_create true 9 params (boot 1 a_memory no_replies)).1

reached-Queued_example : Queued one_thread
reached-Queued_example =
    reached-Queued 1 a_memory no_replies one_thread
      (next here (Step.create true 9 params (omega arith)))
