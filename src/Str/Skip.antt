-- ===== src/Str/Skip.antt =====
-- How far a search may skip.
use eotan.Prelude.{ℕ, zero, suc, ◌+◌, ◌-◌, ◌≤◌, ◌<◌, ◌≡◌, true, List, [], ◌∷◌, arith}
use eotan.Str.{byte_at, strlen, put_byte, fill_skip, stands}

-- What stands further on in the key lowers an entry.
fill_skip_below :
    (k i : ℕ) (key : List ℕ) (t : ℕ → ℕ) (c m : ℕ) → t c ≤ m → k - i ≤ m → fill_skip k i key t c ≤ m
unfolding fill_skip
fill_skip_below k i [] t c m l h = l
fill_skip_below k i (x ∷ key) t c m l h =
    fill_skip_below k (i + 1) key (put_byte t x (k - i)) c m (ground (arith, l, h))
      (omega (arith, h))

pub fill_skip_positive :
    (k i : ℕ) (key : List ℕ) (t : ℕ → ℕ) (c : ℕ)
    → i + strlen key ≤ k
    → 0 < t c
    → 0 < fill_skip k i key t c
unfolding fill_skip strlen
fill_skip_positive k i [] t c l p = p
fill_skip_positive k i (x ∷ key) t c l p =
    fill_skip_positive k (i + 1) key (put_byte t x (k - i)) c (omega (arith, l))
      (ground (arith, l, p))

-- The entry of a byte is at most its distance from the end.
pub fill_skip_distance :
    (k i : ℕ) (key : List ℕ) (t : ℕ → ℕ) (d : ℕ)
    → i + strlen key ≤ k
    → d < strlen key
    → fill_skip k i key t (byte_at key d) ≤ k - (i + d)
unfolding fill_skip strlen byte_at
fill_skip_distance k i [] t d l h = elim h [ ]
fill_skip_distance k i (x ∷ key) t zero l h =
    fill_skip_below k (i + 1) key (put_byte t x (k - i)) x (k - (i + 0)) (ground arith)
      (omega arith)
fill_skip_distance k i (x ∷ key) t (suc d) l h =
    let r =
      fill_skip_distance k (i + 1) key (put_byte t x (k - i)) d (omega (arith, l))
        (omega (arith, h)) in
    omega (arith, r)

pub fill_skip_most : (k : ℕ) (key : List ℕ) (c : ℕ) → fill_skip k 0 key (λ x. k + 1) c ≤ k + 1
fill_skip_most k key c = fill_skip_below k 0 key (λ x. k + 1) c (k + 1) (omega arith) (omega arith)

-- Where the key stands, the bytes are the key's.
pub stands_at :
    (haystack : List ℕ) (i : ℕ) (key : List ℕ) (d : ℕ)
    → stands haystack i key ≡ true
    → d < strlen key
    → byte_at haystack (i + d) ≡ byte_at key d
unfolding stands strlen byte_at
stands_at haystack i [] d s l = elim l [ ]
stands_at haystack i (x ∷ key) zero s l = ground (arith, s)
stands_at haystack i (x ∷ key) (suc d) s l =
    let h = stands_at haystack (i + 1) key d (ground (arith, s)) (omega (arith, l)) in
    let e : i + suc d ≡ i + 1 + d = omega arith in rw e h
