-- ===== src/Kernel/Ipc/Tests.antt =====
-- A kernel in which the thread 6 waits to receive at the port of the running thread 1.
use mathlib.Core.Path.{subst}
use eotan.Prelude.{
  ◌≢◌, sym, arith, ltb, ◌≡◌, replicate, ℕ, ◌-◌, ◌^◌, refl, true, false, none, some, List, [], ◌∷◌,
  ◌==◌, if◌then◌else◌,
}
use eotan.Kernel.State.{
  Status, run, wai, wait_receive, wait_none, WaitType, e_ok, Thread, Kernel, WaitQueue, receiver,
  reply, e_sys, e_par, e_obj,
}
use eotan.Kernel.State.Lists.{elem}
use eotan.Kernel.Sync.{release_all}
use eotan.Bits.{and_bits, count_ntz, clear_bit}
use eotan.Bitmap.{bit_at, clear_at}
use eotan.Set.Sequence.{Sequence, get, find, fill, initialize, mask_above}
use eotan.Set.Sequence.Laws.{IsValid, Granted, get-Granted, initialize_lem}
use eotan.Kernel.Ipc.Keys.{Keyed, IsKeyed}
use eotan.Kernel.Ipc.Message.{ipc_initialize, Copy, ipc_call, call_end, create_ipc_tag, failed}
use eotan.Kernel.Ipc.Send.{ipc_send, ipc_reply}
use eotan.Kernel.Ipc.Answered.{ipc_keys}
use eotan.Kernel.Ipc.Laws.{Answered, Untouched, ipc_send-Answered, ipc_reply_too_long}
use eotan.Kernel.Sync.{leave_serialize_and_dispatch}
use eotan.Kernel.Ipc.Released.{Released, release_all-Released}

abbrev a_thread : Status → WaitType → Thread
a_thread s w = record {
  status = s;
  wait_type = w;
  wait_result = e_ok;
  wait_size = 0;
  wait_message = 0;
  wait_key = 0;
  priority = 3;
  quantum = 10;
  attr_priority = 3;
  kstack_tail = 0;
  ustack_top = 4096;
  port_opened = true;
  port_flag = 0;
  port_max_call = 16;
  port_max_reply = 16;
}

abbrev waiting_at : WaitQueue → List ℕ
waiting_at (receiver p) = if p == 1 then 6 ∷ [] else []
waiting_at _ = []

abbrev one_waits : Kernel
one_waits = record {
  thread = λ j.
      if j == 1
      then some (a_thread run wait_none)
      else if j == 6
      then some (a_thread wai wait_receive)
      else none;
  ready_task = λ p. if p == 3 then 1 ∷ [] else [];
  ready_bits = 8;
  running = 1;
  wait_queue = waiting_at;
  interrupt_nest = 0;
  no_request = true;
  serializing = true;
  delay_thread_start = false;
  memory = record {
    mm = record { rest_pages = 0; clock_block = 0; num_blocks = 1; max_pages = 32; map = 0 ∷ [] };
    mem = λ a. 0;
  };
  replies = λ _. none;
  reply_sequence = record {
    rest = 1;
    clock_block = 0;
    num_of_blocks = 1;
    map = 2 ∷ [];
    mask = 2 ^ 32 - 2;
  };
  crashed = false;
}

release_all-Released_example :
    Released (a_thread wai wait_receive) 6 (release_all (receiver 1) one_waits)
unfolding elem
release_all-Released_example =
    release_all-Released (receiver 1) one_waits 6 (a_thread wai wait_receive) refl refl

-- The sequence after `ipc_initialize`
abbrev first_keys : Sequence
first_keys = record {
  rest = 1023;
  clock_block = 0;
  num_of_blocks = 32;
  map = (2 ^ 32 - 2) ∷ replicate 31 (2 ^ 32 - 1);
  mask = 2 ^ 32 - 2;
}

initializes : ipc_initialize ≡ (e_ok, some first_keys)
unfolding ipc_initialize initialize get find fill and_bits count_ntz clear_at clear_bit mask_above
initializes = refl

abbrev all_keys : Sequence
all_keys = record {
  rest = 1024;
  clock_block = 0;
  num_of_blocks = 32;
  map = replicate 32 (2 ^ 32 - 1);
  mask = 2 ^ 32 - 1;
}

all_keys_at : (s : Sequence) → initialize 1024 (some (replicate 32 0)) ≡ some s → all_keys ≡ s
unfolding initialize fill
all_keys_at s e = cc

abbrev AllFree : Sequence → Type 0
AllFree s = IsValid s × ((n : ℕ) → bit_at s.map n ≡ ltb n 1024)

all_keys-IsValid : AllFree all_keys
all_keys-IsValid =
    let (s, e, v, r, b) =
      initialize_lem 1024 (replicate 32 0) (λ e. omega arith) (omega arith) refl in
    subst AllFree (sym (all_keys_at s e)) (v, b)

first_keys-Granted : (n : ℕ) × ((get all_keys).0 ≡ some n) × Granted all_keys n (get all_keys).1
first_keys-Granted = get-Granted all_keys all_keys-IsValid.0 (omega arith)

got_zero : (n : ℕ) → (get all_keys).0 ≡ some n → 0 ≡ n
unfolding get find and_bits count_ntz clear_at clear_bit mask_above
got_zero n e = cc

first_keys-got : (get all_keys).1 ≡ first_keys
unfolding get find and_bits count_ntz clear_at clear_bit mask_above
first_keys-got = refl

first_keys-Keyed : Keyed (λ _. none) first_keys
first_keys-Keyed =
    let (n, e, g) = first_keys-Granted in
    let g' : Granted all_keys 0 first_keys =
      subst (λ s. Granted all_keys 0 s) first_keys-got
        (subst (λ m. Granted all_keys m (get all_keys).1) (sym (got_zero n e)) g) in
    record {
      valid = g'.valid;
      blocks = refl;
      free = λ j. ground (arith, g'.bits j, all_keys-IsValid.1 j);
      keys = λ j. refl;
    }

-- the machine copies nothing
abbrev no_copy : Copy
no_copy a b c d e m = some m

abbrev booted : Kernel
booted = record one_waits { reply_sequence = first_keys }

ipc_keys_example :
    IsKeyed (ipc_call no_copy true 6 100 8 booted).1
    × ((ipc_call no_copy true 6 100 8 booted).0 ≢ some (failed e_sys))
    × IsKeyed (call_end 1 booted).1
    × IsKeyed (ipc_send no_copy (create_ipc_tag 6 1) 100 8 booted).1
ipc_keys_example = ipc_keys no_copy true 6 (create_ipc_tag 6 1) 100 8 1 booted first_keys-Keyed

abbrev answer_queue : WaitQueue → List ℕ
answer_queue (reply p) = if p == 5 then 6 ∷ [] else []
answer_queue _ = []

-- The thread 6 waits for the answer with the key 5.
abbrev one_calls : Kernel
one_calls = record one_waits {
  wait_queue = answer_queue;
  replies = λ j. if j == 5 then some 16 else none;
}

abbrev the_caller : Thread
the_caller = a_thread wai wait_receive

ipc_send-Answered_example :
    (k' : Kernel) × (ipc_send no_copy (create_ipc_tag 6 5) 100 8 one_calls
      ≡ (some e_ok, leave_serialize_and_dispatch k'))
    × Answered k' 6 5 8 the_caller one_calls.memory
ipc_send-Answered_example =
    ipc_send-Answered no_copy 5 100 8 16 6 [] the_caller one_calls.memory one_calls refl
      (omega arith) refl refl refl 6 (omega arith) (omega arith) (omega arith) refl

ipc_reply_too_long_example :
    ((ipc_reply no_copy 5 100 17 one_calls).0 ≡ some e_par)
    × ((ipc_reply no_copy 5 100 17 one_calls).1.replies 5 ≡ none)
    × Untouched one_calls (ipc_reply no_copy 5 100 17 one_calls).1
    × ((message' size' : ℕ)
        → ((ipc_reply no_copy 5 message' size' (ipc_reply no_copy 5 100 17 one_calls).1).0
            ≡ some e_obj)
          × Untouched one_calls
              (ipc_reply no_copy 5 message' size' (ipc_reply no_copy 5 100 17 one_calls).1).1)
ipc_reply_too_long_example =
    ipc_reply_too_long no_copy 5 100 17 one_calls refl 16 refl (omega arith)
