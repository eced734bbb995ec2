-- ===== src/Set/Ring.antt =====
-- The ring buffer of lib/libnc/set/ring.c.  `buf` is the memory behind the header; the sizes and
-- positions of a ring are below 2^32, and so are the sums that are made of them.
pub mod Span
pub mod Store
pub mod Laws
pub mod Put
mod Tests
use Prim.Native.Nat.{min}
use eotan.Prelude.{
  ℕ, zero, suc, ◌+◌, ◌-◌, Bool, true, false, Option, none, some, List, [], ◌∷◌, ◌++◌, ◌==◌, ltb,
  leb, if◌then◌else◌, length, drop,
}

-- `ring_t`
pub record Ring : Type 0 where
  pub read : ℕ
  pub write : ℕ
  pub size : ℕ
  pub buf : ℕ → ℕ

-- `sizeof(ring_t)`, and one character more
abbrev pub least_size : ℕ
least_size = 13

unfoldable pub ring_create : (ℕ → ℕ) → ℕ → Option Ring
ring_create buf size =
    if leb size least_size
    then none
    else some (record { read = 0; write = 0; size = size - 12; buf = buf })

abbrev pub cutdown : Ring → ℕ → ℕ
cutdown r n = if leb r.size n then 0 else n

unfoldable pub ring_get_rest : Ring → ℕ
ring_get_rest r = if leb r.read r.write then r.size - r.write + r.read - 1 else r.read - r.write - 1

-- `memcpy` out of the buffer: `n` characters from `i` on
unfoldable pub span : (ℕ → ℕ) → ℕ → ℕ → List ℕ
span buf i zero = []
span buf i (suc n) = buf i ∷ span buf (suc i) n

-- `memcpy` of the first `n` characters of a text to the place `i`
unfoldable pub store : (ℕ → ℕ) → ℕ → ℕ → List ℕ → ℕ → ℕ
store buf i zero xs = buf
store buf i (suc n) [] = buf
store buf i (suc n) (x ∷ xs) =
    let rest = store buf (suc i) n xs in λ j. if j == i then x else rest j

-- What is got of how many, in so many rounds of the loop: the read position wraps round at most
-- once, so the third round would find nothing to do.
unfoldable pub get_rounds : ℕ → Ring → ℕ → List ℕ × Ring
get_rounds zero r rest = ([], r)
get_rounds (suc fuel) r rest =
    let last = leb r.read r.write in
    let len = if last then r.write - r.read else r.size - r.read in
    let n = min len rest in
    let out = span r.buf r.read n in
    let r' = record r { read = cutdown r (r.read + n) } in
    let (more, r'') = get_rounds fuel r' (rest - n) in
    if rest == 0
    then ([], r)
    else if len == 0
    then ([], r)
    else if last
    then (out, r')
    else (out ++ more, r'')

unfoldable pub ring_get : Ring → ℕ → List ℕ × Ring
ring_get r size = get_rounds 2 r size

-- How many were put, in so many rounds; the write position wraps round at most once.
unfoldable pub put_rounds : ℕ → Ring → List ℕ → ℕ × Ring
put_rounds zero r xs = (0, r)
put_rounds (suc fuel) r xs =
    let behind = leb r.read r.write in
    let last = if behind then r.read == 0 else true in
    let len =
      if behind
      then if r.read == 0 then r.size - r.write - 1 else r.size - r.write
      else r.read - r.write - 1 in
    let n = min len (length xs) in
    let r' = record r { buf = store r.buf r.write n xs; write = cutdown r (r.write + n) } in
    let (more, r'') = put_rounds fuel r' (drop n xs) in
    if length xs == 0
    then (0, r)
    else if len == 0
    then (0, r)
    else if last
    then (n, r')
    else (n + more, r'')

unfoldable pub ring_put : Ring → List ℕ → ℕ × Ring
ring_put r xs = put_rounds 2 r xs
