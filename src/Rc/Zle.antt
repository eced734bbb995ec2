-- ===== src/Rc/Zle.antt =====
-- Zero-length encoding: lib/librc/zle_encode.c and zle_decode.c.  A run of zeros is written as
-- the bits of its length plus one, low first and without the leading one; a byte from 1 to 0xfd
-- is written as itself plus one; 0xfe and 0xff are escaped.  `EOF` is `none`.
pub mod Reader
pub mod Encoder
pub mod Decoder
pub mod Laws
mod Tests
use eotan.Prelude.{
  ℕ, zero, suc, ◌+◌, ◌-◌, ◌/◌, ◌%◌, ◌^◌, Bool, true, false, Option, none, some, List, [], ◌∷◌, ◌++◌,
  ◌==◌, ltb, ◌||◌, if◌then◌else◌, length, replicate,
}
use eotan.Bits.{set_bit}

-- The static `cache` and what is left of the input; `cache` is `none` for `NOT_CACHE`.
pub record Input : Type 0 where
  pub cache : Option (Option ℕ)
  pub rest : List ℕ

fgetc : List ℕ → Option ℕ × Input
fgetc [] = (none, record { cache = none; rest = [] })
fgetc (c ∷ rest) = (some c, record { cache = none; rest = rest })

from_cache : Option (Option ℕ) → List ℕ → Option ℕ × Input
from_cache none rest = fgetc rest
from_cache (some c) rest = (c, record { cache = none; rest = rest })

pub bgetc : Input → Option ℕ × Input
unfolding from_cache fgetc
bgetc i = from_cache i.cache i.rest

-- The result is false where the cache is full already, and the code then gives up.
push_back : Option (Option ℕ) → Option ℕ → List ℕ → Bool × Input
push_back none c rest = (true, record { cache = some c; rest = rest })
push_back (some d) c rest = (false, record { cache = some d; rest = rest })

pub bungetc : Option ℕ → Input → Bool × Input
unfolding push_back
bungetc c i = push_back i.cache c i.rest

-- A loop's result: what it wrote, or `none` for `ERR_UNKNOWN` (and for no fuel).
abbrev pub Out : Type 0
Out = Option (List ℕ)

pub emit : List ℕ → Out → Out
emit bytes none = none
emit bytes (some out) = some (bytes ++ out)

-- After `bungetc`: give up, or go on.
pub unless_full : (Input → Out) → Bool × Input → Out
unless_full next (true, i) = next i
unless_full next (false, i) = none

-- `for (count++; count != 1; count >>= 1) fputc(count & 1, out)`, from the value that `count++`
-- gives; 32 rounds empty a 32-bit word.
pub digits : ℕ → ℕ → List ℕ
digits zero count = []
digits (suc fuel) count =
    let rest = digits fuel (count / 2) in if count == 1 then [] else count % 2 ∷ rest

-- `for (count = 1; !(next = bgetc(in)); count++)`: the count, and what ended the run.
pub count_got :
    (ℕ → Input → Option (ℕ × Option ℕ × Input))
    → ℕ
    → Option ℕ × Input
    → Option (ℕ × Option ℕ × Input)
count_got next n (none, i) = some (n, none, i)
count_got next n (some c, i) = if c == 0 then next (n + 1) i else some (n, some c, i)

pub count_zeros : ℕ → ℕ → Input → Option (ℕ × Option ℕ × Input)
count_zeros zero n i = none
count_zeros (suc fuel) n i = count_got (count_zeros fuel) n (bgetc i)

pub encode_run : (Input → Out) → Option (ℕ × Option ℕ × Input) → Out
encode_run next none = none
encode_run next (some (n, c, i)) = emit (digits 32 (n + 1)) (unless_full next (bungetc c i))

-- The bytes for a byte that is not 0.
pub escape : ℕ → List ℕ
escape c = if c == 0xfe then 0xff ∷ 0 ∷ [] else if c == 0xff then 0xff ∷ 1 ∷ [] else (c + 1) ∷ []

pub encode_got : ℕ → (Input → Out) → Option ℕ × Input → Out
encode_got size next (none, i) = some []
encode_got size next (some c, i) =
    if c == 0 then encode_run next (count_zeros size 1 i) else emit (escape c) (next i)

pub encode_from : ℕ → ℕ → Input → Out
encode_from size zero i = none
encode_from size (suc fuel) i = encode_got size (encode_from size fuel) (bgetc i)

abbrev pub opened : List ℕ → Input
opened bytes = record { cache = none; rest = bytes }

-- Each round of the loops reads a byte, so the length of the input bounds their number.
pub encode : List ℕ → Out
encode bytes = encode_from (suc (length bytes)) (suc (length bytes)) (opened bytes)

-- `count |= next << exp`, for a bit `next` and an `exp` below 32, where the shift has a meaning; a run
-- that the encoder writes has no more bits.
pub or_shift : ℕ → ℕ → ℕ → ℕ
or_shift count bit exp = if bit == 0 then count else set_bit count exp

-- `for (exp = 1;; exp++)` of the decoder: the count with its leading one, and what ended the run.
pub bits_got :
    (ℕ → ℕ → Input → Option (ℕ × Option ℕ × Input))
    → ℕ
    → ℕ
    → Option ℕ × Input
    → Option (ℕ × Option ℕ × Input)
bits_got next exp count (none, i) = some (set_bit count exp, none, i)
bits_got next exp count (some c, i) =
    if ltb 1 c then some (set_bit count exp, some c, i) else next (exp + 1) (or_shift count c exp) i

pub read_bits : ℕ → ℕ → ℕ → Input → Option (ℕ × Option ℕ × Input)
read_bits zero exp count i = none
read_bits (suc fuel) exp count i = bits_got (read_bits fuel) exp count (bgetc i)

-- `for (…; --count > 0;) fputc(0, out)`; bit `exp` is set, so the count is not 0.
pub decode_run : (Input → Out) → Option (ℕ × Option ℕ × Input) → Out
decode_run next none = none
decode_run next (some (n, c, i)) = emit (replicate (n - 1) 0) (unless_full next (bungetc c i))

-- The byte behind 0xff.
pub decode_escape : (Input → Out) → Option ℕ × Input → Out
decode_escape next (none, i) = none
decode_escape next (some c, i) = emit ((if c == 0 then 0xfe else 0xff) ∷ []) (next i)

pub decode_got : ℕ → (Input → Out) → Option ℕ × Input → Out
decode_got size next (none, i) = some []
decode_got size next (some c, i) =
    if ltb c 2
    then decode_run next (read_bits size 1 c i)
    else if c == 0xff
    then decode_escape next (bgetc i)
    else emit ((c - 1) ∷ []) (next i)

pub decode_from : ℕ → ℕ → Input → Out
decode_from size zero i = none
decode_from size (suc fuel) i = decode_got size (decode_from size fuel) (bgetc i)

pub decode : List ℕ → Out
decode bytes = decode_from (suc (length bytes)) (suc (length bytes)) (opened bytes)
