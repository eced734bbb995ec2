-- ===== src/Set/Heap.antt =====
-- The binary heap of lib/libnc/set/heap.c.  An `int` is counted from the smallest one, and the
-- buffer is a function of the index.
pub mod Laws
pub mod Up
pub mod Down
pub mod Queue
mod Tests
use eotan.Prelude.{
  ℕ, zero, suc, ◌+◌, ◌-◌, ◌*◌, ◌/◌, ◌^◌, Bool, true, false, ◌==◌, ◌&&◌, ltb, leb, if◌then◌else◌,
}

-- `heap_t`
pub record Heap : Type 0 where
  pub cnt : ℕ
  pub max : ℕ
  pub buf : ℕ → ℕ

abbrev pub put_cell : (ℕ → ℕ) → ℕ → ℕ → ℕ → ℕ
put_cell buf i v j = if j == i then v else buf j

-- The two stores of a round.
unfoldable pub swap : ℕ → ℕ → (ℕ → ℕ) → ℕ → ℕ
swap i j buf = put_cell (put_cell buf i (buf j)) j (buf i)

-- HEAP_EMPTY, which is -1
abbrev pub heap_empty : ℕ
heap_empty = 2 ^ 31 - 1

unfoldable pub heap_initialize : ℕ → (ℕ → ℕ) → Heap
heap_initialize max buf = record { cnt = 0; max = max; buf = buf }

unfoldable pub heap_head : Heap → ℕ
heap_head h = if h.cnt == 0 then heap_empty else h.buf 0

-- The loop of `heap_enqueue` from the child `c` on, on fuel.
unfoldable pub sift_up : ℕ → ℕ → (ℕ → ℕ) → ℕ → ℕ
unfolding swap
sift_up zero c buf = buf
sift_up (suc n) c buf =
    let p = (c - 1) / 2 in
    let rest = sift_up n p (swap p c buf) in if ltb 0 c && ltb (buf c) (buf p) then rest else buf

-- `true` is HEAP_OK, `false` is HEAP_FULL.
unfoldable pub heap_enqueue : ℕ → Heap → Bool × Heap
unfolding sift_up
heap_enqueue val h =
    if leb h.max h.cnt
    then (false, h)
    else (true, record h { cnt = h.cnt + 1; buf = sift_up h.cnt h.cnt (put_cell h.buf h.cnt val) })

-- The child of `p` with the smaller value
unfoldable pub lesser : ℕ → ℕ → (ℕ → ℕ) → ℕ
lesser p cnt buf =
    let c = p * 2 + 1 in if ltb (c + 1) cnt && ltb (buf (c + 1)) (buf c) then c + 1 else c

-- The loop of `heap_dequeue` from the parent `p` on, on fuel.
unfoldable pub sift_down : ℕ → ℕ → ℕ → (ℕ → ℕ) → ℕ → ℕ
unfolding swap lesser
sift_down zero p cnt buf = buf
sift_down (suc n) p cnt buf =
    let c = lesser p cnt buf in
    let rest = sift_down n c cnt (swap p c buf) in
    if ltb (p * 2 + 1) cnt && ltb (buf c) (buf p) then rest else buf

unfoldable pub heap_dequeue : Heap → ℕ × Heap
unfolding sift_down
heap_dequeue h =
    let n = h.cnt - 1 in
    if h.cnt == 0
    then (heap_empty, h)
    else (h.buf 0, record h { cnt = n; buf = sift_down n 0 n (put_cell h.buf 0 (h.buf n)) })
