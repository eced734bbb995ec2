-- ===== src/Libc/Utf8.antt =====
-- Multibyte characters: lib/libc/stdlib/wctomb.c, mbtowc.c and mblen.c.  A `wchar_t` is a natural
-- number; the negative ones, which no call here makes, are not modelled.  A string is what memory
-- holds behind the pointer, byte by byte; -1 is `none`.
pub mod Laws
mod Tests
use eotan.Prelude.{
  ℕ, zero, suc, ◌+◌, ◌*◌, ◌/◌, ◌%◌, Bool, true, false, Option, none, some, List, [], ◌∷◌, ◌==◌, leb,
  ltb, not, ◌||◌, if◌then◌else◌, length,
}

-- `0xc0 | (ch >> 6)` and the like: the bits of the two sides are apart.
unfoldable pub wctomb_bytes : ℕ → Option (List ℕ)
wctomb_bytes ch =
    if leb ch 0x7f
    then some (ch % 128 ∷ [])
    else if leb ch 0x7ff
    then some ((0xc0 + ch / 64) ∷ (0x80 + ch % 64) ∷ [])
    else if leb ch 0xffff
    then some ((0xe0 + ch / 4096) ∷ (0x80 + ch / 64 % 64) ∷ (0x80 + ch % 64) ∷ [])
    else if leb ch 0x10ffff
    then some (
        (0xf0 + ch / 262144)
        ∷ (0x80 + ch / 4096 % 64)
        ∷ (0x80 + ch / 64 % 64)
        ∷ (0x80 + ch % 64)
        ∷ [])
    else none

-- What `wctomb` returns, and the bytes it writes; `dest` says whether `s` is not null.
pub wctomb : Bool → ℕ → Option ℕ × List ℕ
wctomb false ch = (some 0, [])
wctomb true ch = elim (wctomb_bytes ch) [
  | none ↦ (none, [])
  | some bytes ↦ (some (length bytes), bytes)
]

-- `append_body`: at the bytes from `i` on, the first of which is after the lead.  With at most
-- three of them `ch << 6` stays below 2^32.
unfoldable pub append_body : ℕ → ℕ → (ℕ → ℕ) → ℕ → ℕ
append_body zero ch r i = ch
append_body (suc len) ch r i =
    let next = append_body len (ch * 64 + r i % 64) r (i + 1) in
    if not (r i / 64 == 2) then 0 else next

-- The return value and what is stored at `*w`.
abbrev pub Read : Type 0
Read = Option ℕ × Option ℕ

unfoldable pub mbtowc_bytes : (ℕ → ℕ) → ℕ → Read
unfolding append_body
mbtowc_bytes r n =
    let two = append_body 1 (r 0 % 32) r 1 in
    let three = append_body 2 (r 0 % 16) r 1 in
    let four = append_body 3 (r 0 % 8) r 1 in
    if r 0 / 128 == 0
    then (some (if r 0 == 0 then 0 else 1), some (r 0))
    else if r 0 / 32 == 6
    then (if ltb n 2
        then (none, none)
        else if leb two 0x7f
        then (none, none)
        else (some 2, some two))
    else if r 0 / 16 == 14
    then (if ltb n 3
        then (none, none)
        else if leb three 0x7ff
        then (none, none)
        else (some 3, some three))
    else if r 0 / 8 == 30
    then (if ltb n 4
        then (none, none)
        else if leb four 0xffff || ltb 0x10ffff four
        then (none, none)
        else (some 4, some four))
    else (none, none)

unfoldable pub mblen_bytes : (ℕ → ℕ) → ℕ → Option ℕ
unfolding append_body
mblen_bytes r n =
    let two = append_body 1 (r 0 % 32) r 1 in
    let three = append_body 2 (r 0 % 16) r 1 in
    let four = append_body 3 (r 0 % 8) r 1 in
    if r 0 / 128 == 0
    then some (if r 0 == 0 then 0 else 1)
    else if r 0 / 32 == 6
    then (if ltb n 2 then none else if leb two 0x7f then none else some 2)
    else if r 0 / 16 == 14
    then (if ltb n 3 then none else if leb three 0x7ff then none else some 3)
    else if r 0 / 8 == 30
    then (if ltb n 4 then none else if leb four 0xffff || ltb 0x10ffff four then none else some 4)
    else none

-- `none` for a string is the null pointer.
unfoldable pub mblen : Option (ℕ → ℕ) → ℕ → Option ℕ
mblen none n = some 0
mblen (some r) n = if n == 0 then some 0 else mblen_bytes r n

-- `pwc` says whether the pointer to store at is not null.
unfoldable pub mbtowc : Bool → Option (ℕ → ℕ) → ℕ → Read
mbtowc false s n = (mblen s n, none)
mbtowc true none n = (some 0, none)
mbtowc true (some r) n = if n == 0 then (some 0, none) else mbtowc_bytes r n
