-- ===== src/Libc/Utf8/Laws.antt =====
-- Reading and writing a character agree.
use eotan.Prelude.{
  ℕ, ◌+◌, ◌*◌, ◌/◌, ◌%◌, ◌≤◌, ◌<◌, ◌≡◌, ◌≢◌, arith, Bool, true, Option, some, List, [], ◌∷◌, ◌==◌,
  if◌then◌else◌, length, Bool-cases, inl, inr,
}
use eotan.Libc.Utf8.{wctomb_bytes, append_body, mbtowc_bytes, mblen_bytes, mblen, mbtowc, wctomb}

-- The memory `r` holds `bytes` from `i` on.
unfoldable pub Holds : (ℕ → ℕ) → ℕ → List ℕ → Type 0
Holds r i [] = Unit {0}
Holds r i (b ∷ bytes) = (r i ≡ b) × Holds r (i + 1) bytes

module _ (ch n : ℕ) (r : ℕ → ℕ) where
  read_one : ch ≤ 0x7f → r 0 ≡ ch → mbtowc_bytes r n ≡ (some (if ch == 0 then 0 else 1), some ch)
  unfolding mbtowc_bytes
  read_one h a = ground arith

  read_two :
      0x7f < ch
      → ch ≤ 0x7ff
      → r 0 ≡ 0xc0 + ch / 64
      → r 1 ≡ 0x80 + ch % 64
      → 2 ≤ n
      → mbtowc_bytes r n ≡ (some 2, some ch)
  unfolding mbtowc_bytes append_body
  read_two l h a b s = ground arith

  read_three :
      0x7ff < ch
      → ch ≤ 0xffff
      → r 0 ≡ 0xe0 + ch / 4096
      → r 1 ≡ 0x80 + ch / 64 % 64
      → r 2 ≡ 0x80 + ch % 64
      → 3 ≤ n
      → mbtowc_bytes r n ≡ (some 3, some ch)
  unfolding mbtowc_bytes append_body
  read_three l h a b c s = ground arith

  read_four :
      0xffff < ch
      → ch ≤ 0x10ffff
      → r 0 ≡ 0xf0 + ch / 262144
      → r 1 ≡ 0x80 + ch / 4096 % 64
      → r 2 ≡ 0x80 + ch / 64 % 64
      → r 3 ≡ 0x80 + ch % 64
      → 4 ≤ n
      → mbtowc_bytes r n ≡ (some 4, some ch)
  unfolding mbtowc_bytes append_body
  read_four l h a b c d s = ground arith

-- For a character of at most 0x10ffff, `wctomb` returns the number of bytes that it writes; and
-- `mbtowc`, of memory that holds these bytes and a length that covers them, stores the character
-- and returns their number, or 0 for the character 0.
pub mbtowc-wctomb :
    (ch n : ℕ) (r : ℕ → ℕ)
    → ch ≤ 0x10ffff
    → Holds r 0 (wctomb true ch).1
    → length (wctomb true ch).1 ≤ n
    → ((wctomb true ch).0 ≡ some (length (wctomb true ch).1))
      × (mbtowc true (some r) n
          ≡ (some (if ch == 0 then 0 else length (wctomb true ch).1), some ch))
unfolding wctomb wctomb_bytes mbtowc Holds
mbtowc-wctomb ch n r m h l =
    ground (arith, read_one ch n r, read_two ch n r, read_three ch n r, read_four ch n r)

-- The forms of a character that is read and is not 0: a lead byte and the bytes after it.
data Decoded (r : ℕ → ℕ) (n k ch : ℕ) : Type 0 where
  one : r 0 < 128 → r 0 ≢ 0 → ch ≡ r 0 → k ≡ 1 → Decoded r n k ch
  two :
      r 0 / 32 ≡ 6
      → r 1 / 64 ≡ 2
      → ch ≡ r 0 % 32 * 64 + r 1 % 64
      → 0x7f < ch
      → 2 ≤ n
      → k ≡ 2
      → Decoded r n k ch
  three :
      r 0 / 16 ≡ 14
      → r 1 / 64 ≡ 2
      → r 2 / 64 ≡ 2
      → ch ≡ (r 0 % 16 * 64 + r 1 % 64) * 64 + r 2 % 64
      → 0x7ff < ch
      → 3 ≤ n
      → k ≡ 3
      → Decoded r n k ch
  four :
      r 0 / 8 ≡ 30
      → r 1 / 64 ≡ 2
      → r 2 / 64 ≡ 2
      → r 3 / 64 ≡ 2
      → ch ≡ ((r 0 % 8 * 64 + r 1 % 64) * 64 + r 2 % 64) * 64 + r 3 % 64
      → 0xffff < ch
      → ch ≤ 0x10ffff
      → 4 ≤ n
      → k ≡ 4
      → Decoded r n k ch

module _ (ch n k : ℕ) (r : ℕ → ℕ) (z : k ≢ 0) where
  mbtowc-Decoded : mbtowc_bytes r n ≡ (some k, some ch) → Decoded r n k ch
  unfolding mbtowc_bytes append_body
  mbtowc-Decoded e = elim (Bool-cases (r 0 / 128 == 0)) [
    | inl a ↦ one (ground arith) (ground arith) (ground arith) (ground arith)
    | inr a ↦ elim (Bool-cases (r 0 / 32 == 6)) [
      | inl b ↦
          two (ground arith) (ground arith) (ground arith) (ground arith) (ground arith)
            (ground arith)
      | inr b ↦ elim (Bool-cases (r 0 / 16 == 14)) [
        | inl c ↦
            three (ground arith) (ground arith) (ground arith) (ground arith) (ground arith)
              (ground arith) (ground arith)
        | inr c ↦
            four (ground arith) (ground arith) (ground arith) (ground arith) (ground arith)
              (ground arith) (ground arith) (ground arith) (ground arith)
      ]
    ]
  ]

  Decoded-wctomb :
      Decoded r n k ch
      → ((i : ℕ) → r i < 256)
      → (wctomb true ch).0 ≡ some k × Holds r 0 (wctomb true ch).1
  unfolding wctomb wctomb_bytes Holds
  Decoded-wctomb (one a p q s) b = ground arith
  Decoded-wctomb (two a p q s t u) b = ground (arith, b 0, b 1)
  Decoded-wctomb (three a p q s t u v) b = ground (arith, b 0, b 1, b 2)
  Decoded-wctomb (four a p q s t u v w x) b = ground (arith, b 0, b 1, b 2, b 3)

  Decoded-le : Decoded r n k ch → n ≢ 0 → k ≤ n
  Decoded-le (one a p q s) m = omega arith
  Decoded-le (two a p q s t u) m = omega arith
  Decoded-le (three a p q s t u v) m = omega arith
  Decoded-le (four a p q s t u v w x) m = omega arith

-- Of memory that holds bytes, where `mbtowc` stores a character and returns a number that is not
-- 0, the memory begins with the bytes that `wctomb` writes for the character, which are so many
-- and within the length; so no overlong encoding is accepted.
pub wctomb-mbtowc :
    (ch n k : ℕ) (r : ℕ → ℕ)
    → ((i : ℕ) → r i < 256)
    → mbtowc true (some r) n ≡ (some k, some ch)
    → k ≢ 0
    → (wctomb true ch).0 ≡ some k × Holds r 0 (wctomb true ch).1 × k ≤ n
unfolding mbtowc
wctomb-mbtowc ch n k r b e z =
    let d = mbtowc-Decoded ch n k r z (ground arith) in
    let (w, h) = Decoded-wctomb ch n k r z d b in (w, h, Decoded-le ch n k r z d (ground arith))

mblen-mbtowc : (p : Bool) (s : Option (ℕ → ℕ)) (n : ℕ) → (mbtowc p s n).0 ≡ mblen s n
unfolding mbtowc mblen mbtowc_bytes mblen_bytes append_body
mblen-mbtowc p s n = ground arith
