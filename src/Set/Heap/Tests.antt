-- ===== src/Set/Heap/Tests.antt =====
-- The heap at work.
use eotan.Prelude.{ℕ, ◌≡◌, refl, arith}
use eotan.Set.Heap.{Heap, swap, sift_up, sift_down, lesser, heap_enqueue, heap_dequeue}
use eotan.Set.Heap.Queue.{IsValid, Puts, Takes, heap_enqueue-Puts, heap_dequeue-Takes}

abbrev none_yet : Heap
none_yet = record { cnt = 0; max = 4; buf = λ i. 0 }

none_yet-IsValid : IsValid none_yet
none_yet-IsValid = record { order = λ i z l. elim l [ ]; bound = omega arith }

abbrev put_in : ℕ → Heap → Heap
put_in val h = (heap_enqueue val h).1

put_in-IsValid : (val : ℕ) (h : Heap) → IsValid h → IsValid (put_in val h)
put_in-IsValid val h v = (heap_enqueue-Puts val h v).valid

abbrev three : Heap
three = put_in 3 (put_in 9 (put_in 5 none_yet))

three-IsValid : IsValid three
three-IsValid =
    put_in-IsValid 3 (put_in 9 (put_in 5 none_yet))
      (put_in-IsValid 9 (put_in 5 none_yet) (put_in-IsValid 5 none_yet none_yet-IsValid))

holds_three : three.cnt ≡ 3
unfolding heap_enqueue
holds_three = refl

least_first : (heap_dequeue three).0 ≡ 3
unfolding heap_enqueue heap_dequeue sift_up swap
least_first = refl

then_next : (heap_dequeue (heap_dequeue three).1).0 ≡ 5
unfolding heap_enqueue heap_dequeue sift_up sift_down swap lesser
then_next = refl

heap_enqueue-Puts_example : Puts 7 three (heap_enqueue 7 three).0 (heap_enqueue 7 three).1
heap_enqueue-Puts_example = heap_enqueue-Puts 7 three three-IsValid

heap_dequeue-Takes_example : Takes three (heap_dequeue three).0 (heap_dequeue three).1
heap_dequeue-Takes_example = heap_dequeue-Takes three three-IsValid (rw holds_three (omega arith))
