-- ===== src/Kernel/Ipc/Keys.antt =====
-- The keys of the rendezvous against the numbers that are given out for them.
use mathlib.Core.Path.{subst}
use eotan.Prelude.{
  ℕ, ◌≡◌, refl, sym, ◌∙◌, Bool, true, false, Option, none, some, arith, ◌==◌, ◌&&◌, ◌||◌, ltb,
  Bool-cases, Option-cases, inl, inr, if◌then◌else◌,
}
use eotan.Bitmap.{bit_at}
use eotan.Set.Sequence
use eotan.Set.Sequence.{Sequence, get}
use eotan.Set.Sequence.Laws.{IsValid, Granted, release-bits, release-blocks, release-IsValid}
use eotan.Kernel.State.{Thread, Kernel, set_thread, set_status}
use eotan.Kernel.Ready.{ready_enqueue, queue_remove, ready_dequeue}
use eotan.Kernel.Ipc.Message.{max_thread}
use eotan.Kernel.Sync.{
  is_dmt, is_notified, release_thread, release, notify_thread, notify_body, start_delay, skippable,
  preempt, switch_to, resched, dispatch, leave_serialize, leave_serialize_and_dispatch, wait,
  waiting_remove,
}

abbrev is_none : Option ℕ → Bool
is_none none = true
is_none (some max) = false

-- The free numbers are just the numbers from 1 to 1023 that are no key of a rendezvous.
pub record Keyed (replies : ℕ → Option ℕ) (s : Sequence) : Type 0 where
  pub valid : IsValid s
  pub blocks : s.num_of_blocks ≡ 32
  pub free : (j : ℕ) → bit_at s.map j ≡ (ltb 0 j && ltb j max_thread && is_none (replies j))
  pub keys : (j : ℕ) → (is_none (replies j) || (ltb 0 j && ltb j max_thread)) ≡ true

abbrev KeyedTable : (ℕ → Option ℕ) × Sequence → Type 0
KeyedTable (replies, s) = Keyed replies s

abbrev pub IsKeyed : Kernel → Type 0
IsKeyed k = Keyed k.replies k.reply_sequence

-- What no switch of threads touches.
abbrev pub table : Kernel → (ℕ → Option ℕ) × Sequence
table k = (k.replies, k.reply_sequence)

table-ready_dequeue : (k : Kernel) → table (ready_dequeue k).1 ≡ table k
unfolding ready_dequeue
table-ready_dequeue k = refl

table-release_thread : (id : ℕ) (t : Thread) (k : Kernel) → table (release_thread id t k) ≡ table k
unfolding release_thread ready_enqueue set_thread
table-release_thread id t k = ground arith

pub table-release : (id : ℕ) (k : Kernel) → table (release id k) ≡ table k
unfolding release
table-release id k = elim (Option-cases (k.thread id)) [
  | inl n ↦ rw (n, release) refl
  | inr (t, e) ↦ rw (e, release) (table-release_thread id t k)
]

table-notify_thread :
    (id flag : ℕ) (t : Thread) (k : Kernel) → table (notify_thread id flag t k).1 ≡ table k
unfolding notify_thread waiting_remove set_thread
table-notify_thread id flag t k = elim (Bool-cases (is_dmt t.status)) [
  | inl y ↦ rw y refl
  | inr n ↦ elim (Bool-cases (is_notified t.status t.wait_type)) [
    | inl z ↦ rw (n, z) (table-release_thread id _ _)
    | inr z ↦ rw (n, z) refl
  ]
]

table-notify_body : (id flag : ℕ) (k : Kernel) → table (notify_body id flag k).1 ≡ table k
unfolding notify_body
table-notify_body id flag k = elim (Option-cases (k.thread id)) [
  | inl n ↦ rw (n, notify_body) refl
  | inr (t, e) ↦ rw (e, notify_body) (table-notify_thread id flag t k)
]

table-start_delay : (k : Kernel) → table (start_delay k) ≡ table k
unfolding start_delay
table-start_delay k = elim (Bool-cases k.delay_thread_start) [
  | inl y ↦ rw y (table-notify_body _ _ _)
  | inr n ↦ rw n refl
]

table-switch_to : (o : Option ℕ) (k : Kernel) → table (switch_to (o, k)) ≡ table k
unfolding switch_to preempt set_status set_thread
table-switch_to none k = refl
table-switch_to (some id) k = ground arith

pub table-leave_serialize : (k : Kernel) → table (leave_serialize k) ≡ table k
unfolding leave_serialize dispatch resched
table-leave_serialize k = elim (Bool-cases (skippable (record k { serializing = false }))) [
  | inl y ↦ rw y refl
  | inr n ↦ rw n (table-switch_to _ _ ∙ table-ready_dequeue (start_delay _) ∙ table-start_delay _)
]

pub table-wait : (k : Kernel) → table (wait k) ≡ table k
unfolding wait leave_serialize_and_dispatch queue_remove set_thread
table-wait k = elim (Option-cases (k.thread k.running)) [
  | inl n ↦ rw (n, wait) refl
  | inr (t, e) ↦ rw (e, wait) (table-leave_serialize _)
]

pub moved : (k k' : Kernel) → table k' ≡ table k → IsKeyed k → IsKeyed k'
moved k k' e v =
    let w : KeyedTable (table k) = v in
    let w' : KeyedTable (table k') = subst KeyedTable (sym e) w in w'

-- A key is given out.
pub took :
    (replies : ℕ → Option ℕ) (s s' : Sequence) (key max : ℕ)
    → Keyed replies s
    → Granted s key s'
    → Keyed (λ j. if j == key then some max else replies j) s'
took replies s s' key max v g = record {
  valid = g.valid;
  blocks = g.blocks ∙ v.blocks;
  free = λ j. ground (arith, g.bits j, v.free j);
  keys = λ j. ground (arith, v.keys j, v.free key, g.free_before);
}

-- A key is given back.
pub gave_back :
    (replies : ℕ → Option ℕ) (s : Sequence) (key max : ℕ)
    → Keyed replies s
    → replies key ≡ some max
    → Keyed (λ j. if j == key then none else replies j) (Sequence.release s key)
gave_back replies s key max v e = record {
  valid = release-IsValid s key v.valid;
  blocks = release-blocks s key ∙ v.blocks;
  free = λ j. ground (arith, release-bits s key j v.valid, v.free j, v.keys key, v.blocks);
  keys = λ j. ground (arith, v.keys j);
}

-- A number that was given out is no key yet, and given back at once it is free as before.
pub unused :
    (replies : ℕ → Option ℕ) (s s' : Sequence) (key : ℕ)
    → Keyed replies s
    → Granted s key s'
    → (replies key ≡ none) × Keyed replies (Sequence.release s' key)
unused replies s s' key v g = (
  ground (arith, v.free key, g.free_before),
  record {
    valid = release-IsValid s' key g.valid;
    blocks = release-blocks s' key ∙ g.blocks ∙ v.blocks;
    free = λ j. ground (
      arith,
      release-bits s' key j g.valid,
      g.bits j,
      v.free j,
      v.free key,
      g.free_before,
      v.blocks,
      g.blocks,
    );
    keys = v.keys;
  },
)
