-- ===== src/Libc/Utf8/Tests.antt =====
-- Characters written and read: U+20AC, the euro sign, whose bytes are e2 82 ac.
use eotan.Prelude.{ℕ, ◌≡◌, ◌≤◌, refl, arith, true, none, some, ◌==◌, if◌then◌else◌, length}
use eotan.Libc.Utf8.{wctomb, wctomb_bytes, mbtowc, mbtowc_bytes, append_body}
use eotan.Libc.Utf8.Laws.{Holds, mbtowc-wctomb, wctomb-mbtowc}

abbrev euro : ℕ → ℕ
euro i = if i == 0 then 0xe2 else if i == 1 then 0x82 else if i == 2 then 0xac else 0

overlong : mbtowc true (some (λ i. if i == 0 then 0xc0 else 0x80)) 4 ≡ (none, none)
unfolding mbtowc mbtowc_bytes append_body
overlong = refl

mbtowc-wctomb_example :
    ((wctomb true 0x20ac).0 ≡ some (length (wctomb true 0x20ac).1))
    × (mbtowc true (some euro) 4
        ≡ (some (if 0x20ac == 0 then 0 else length (wctomb true 0x20ac).1), some 0x20ac))
unfolding Holds wctomb wctomb_bytes
mbtowc-wctomb_example =
    mbtowc-wctomb 0x20ac 4 euro (omega arith) (refl, (refl, (refl, tt))) (omega arith)

wctomb-mbtowc_example :
    (wctomb true 0x20ac).0 ≡ some 3 × Holds euro 0 (wctomb true 0x20ac).1 × 3 ≤ 4
unfolding mbtowc mbtowc_bytes append_body
wctomb-mbtowc_example =
    wctomb-mbtowc 0x20ac 4 3 euro (λ i. ground arith) refl (λ e. omega (arith, e))
