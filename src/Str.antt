-- ===== src/Str.antt =====
-- Strings and memory of lib/libnc/string.  A string is the list of its bytes before the NUL; the
-- library's memory is a function of the address.
pub mod Skip
pub mod Place
pub mod Find
pub mod Copy
pub mod Token
mod Tests
use eotan.Prelude.{
  ℕ, zero, suc, ◌+◌, ◌-◌, ◌%◌, ◌^◌, Bool, true, false, Option, none, some, List, [], ◌∷◌, ◌++◌,
  ◌==◌, ◌&&◌, ltb, leb, if◌then◌else◌, length,
}

-- The byte at a place; behind the string is its NUL.
unfoldable pub byte_at : List ℕ → ℕ → ℕ
byte_at [] i = 0
byte_at (x ∷ s) zero = x
byte_at (x ∷ s) (suc i) = byte_at s i

unfoldable pub strlen : List ℕ → ℕ
strlen [] = 0
strlen (x ∷ s) = strlen s + 1

-- Whether `strchr` finds a byte other than the NUL.
unfoldable pub has : List ℕ → ℕ → Bool
has [] ch = false
has (x ∷ s) ch = let rest = has s ch in if x == ch then true else rest

abbrev pub put_byte : (ℕ → ℕ) → ℕ → ℕ → ℕ → ℕ
put_byte m i v j = if j == i then v else m j

-- The second loop of `strstr` over `skip`, from the place `i` of the key on
unfoldable pub fill_skip : ℕ → ℕ → List ℕ → (ℕ → ℕ) → ℕ → ℕ
fill_skip key_len i [] skip = skip
fill_skip key_len i (x ∷ key) skip = fill_skip key_len (i + 1) key (put_byte skip x (key_len - i))

-- Whether the key stands at a place.
unfoldable pub stands : List ℕ → ℕ → List ℕ → Bool
stands haystack i [] = true
stands haystack i (x ∷ key) =
    let rest = stands haystack (i + 1) key in if byte_at haystack i == x then rest else false

-- `<=` of two `int`, given as their words of 32 bits
abbrev pub int_le : ℕ → ℕ → Bool
int_le a b = leb ((a + 2 ^ 31) % 2 ^ 32) ((b + 2 ^ 31) % 2 ^ 32)

-- The last loop of `strstr`, on fuel; `i` and `end` are the words of an `int`.
unfoldable pub search : ℕ → (ℕ → ℕ) → List ℕ → List ℕ → ℕ → ℕ → Option ℕ
search zero skip haystack needle end i = none
search (suc n) skip haystack needle end i =
    let next =
      search n skip haystack needle end
        ((i + skip (byte_at haystack (i + strlen needle))) % 2 ^ 32) in
    if int_le i end then if stands haystack i needle then some i else next else none

-- The place that `strstr` points to.
unfoldable pub strstr : List ℕ → List ℕ → Option ℕ
unfolding search fill_skip
strstr haystack needle =
    let key_len = strlen needle in
    let end = (strlen haystack + 2 ^ 32 - key_len) % 2 ^ 32 in
    let skip = fill_skip key_len 0 needle (λ c. key_len + 1) in
    if key_len == 0 then some 0 else search (strlen haystack + 1) skip haystack needle end 0

unfoldable pub copy_up : ℕ → ℕ → ℕ → (ℕ → ℕ) → ℕ → ℕ
copy_up zero w r m = m
copy_up (suc n) w r m = copy_up n (w + 1) (r + 1) (put_byte m w (m r))

unfoldable pub copy_down : ℕ → ℕ → ℕ → (ℕ → ℕ) → ℕ → ℕ
copy_down zero w r m = m
copy_down (suc n) w r m = copy_down n (w - 1) (r - 1) (put_byte m (w - 1) (m (r - 1)))

-- The memory after `memmove`.
unfoldable pub memmove : ℕ → ℕ → ℕ → (ℕ → ℕ) → ℕ → ℕ
unfolding copy_up copy_down
memmove dest src n m =
    if leb dest src then copy_up n dest src m else copy_down n (dest + n) (src + n) m

-- The memory after `memcpy`.
unfoldable pub memcpy : ℕ → ℕ → ℕ → (ℕ → ℕ) → ℕ → ℕ
unfolding copy_up
memcpy s1 s2 n m = copy_up n s1 s2 m

unfoldable pub set_from : ℕ → ℕ → ℕ → (ℕ → ℕ) → ℕ → ℕ
set_from zero w v m = m
set_from (suc n) w v m = set_from n (w + 1) v (put_byte m w v)

-- The memory after `memset`; `c` is the word of an `int`.
unfoldable pub memset : ℕ → ℕ → ℕ → (ℕ → ℕ) → ℕ → ℕ
unfolding set_from
memset s c n m = set_from n s (c % 256) m

-- The first loop of `strtok_r`, and that of `strspn`
unfoldable pub skip_sep : List ℕ → List ℕ → List ℕ
unfolding has
skip_sep sep [] = []
skip_sep sep (x ∷ s) = let rest = skip_sep sep s in if has sep x then rest else x ∷ s

-- The second loop of `strtok_r`: the token, and what stands behind its separator.
unfoldable pub cut : List ℕ → List ℕ → List ℕ × List ℕ
unfolding has
cut sep [] = ([], [])
cut sep (x ∷ s) = let (token, rest) = cut sep s in if has sep x then ([], s) else (x ∷ token, rest)

-- The token, or none for NULL, and the string that `state` points to then; `s` is the string
-- that is given, or that which `state` points to.
unfoldable pub strtok_r : List ℕ → List ℕ → Option (List ℕ) × List ℕ
unfolding skip_sep cut
strtok_r sep s =
    let start = skip_sep sep s in
    let (token, rest) = cut sep start in
    elim start [ [] ↦ (none, []) | ◌∷◌ x xs ↦ (some token, rest) ]

unfoldable pub strspn : List ℕ → List ℕ → ℕ
unfolding has
strspn [] accept = 0
strspn (x ∷ s) accept = let rest = strspn s accept in if has accept x then rest + 1 else 0

unfoldable pub strcspn : List ℕ → List ℕ → ℕ
unfolding has
strcspn [] reject = 0
strcspn (x ∷ s) reject = let rest = strcspn s reject in if has reject x then 0 else rest + 1

-- The place that is pointed to.
unfoldable pub strpbrk_from : ℕ → List ℕ → List ℕ → Option ℕ
unfolding has
strpbrk_from i [] accept = none
strpbrk_from i (x ∷ s) accept =
    let rest = strpbrk_from (i + 1) s accept in if has accept x then some i else rest

unfoldable pub strpbrk : List ℕ → List ℕ → Option ℕ
unfolding strpbrk_from
strpbrk s accept = strpbrk_from 0 s accept
