-- ===== src/Set/Ring/Tests.antt =====
-- The ring buffer at work, and its theorems at a ring that has wrapped round.
use eotan.Prelude.{◌+◌, ◌≡◌, refl, none, [], ◌∷◌, arith, length}
use eotan.Set.Ring.{
  Ring, ring_create, ring_get_rest, span, get_rounds, ring_get, put_rounds, ring_put,
}
use eotan.Set.Ring.Laws.{IsValid, contents, Gets, ring_get-Gets}
use eotan.Set.Ring.Put.{Puts, ring_put-Puts}

-- 13 and 10 are in it, at the places 3 and 0.
abbrev turned : Ring
turned = record { read = 3; write = 1; size = 4; buf = λ i. i + 10 }

turned-IsValid : IsValid turned
turned-IsValid = record { reads = omega arith; writes = omega arith }

too_small : ring_create (λ i. 0) 13 ≡ none
unfolding ring_create
too_small = refl

gets_both : (ring_get turned 5).0 ≡ 13 ∷ 10 ∷ []
unfolding ring_get get_rounds span
gets_both = refl

puts_one : (ring_put turned (7 ∷ 8 ∷ [])).0 ≡ 1
unfolding ring_put put_rounds
puts_one = refl

ring_get-Gets_example : Gets turned 5 (ring_get turned 5)
ring_get-Gets_example = ring_get-Gets turned 5 turned-IsValid

ring_put-Puts_example :
    Puts turned (7 ∷ 8 ∷ []) (ring_put turned (7 ∷ 8 ∷ []))
    × (ring_get_rest turned + length (contents turned) + 1 ≡ turned.size)
ring_put-Puts_example = ring_put-Puts turned (7 ∷ 8 ∷ []) turned-IsValid
