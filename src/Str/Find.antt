-- ===== src/Str/Find.antt =====
-- The search finds the first place of the key.
use eotan.Prelude.{
  ℕ, zero, suc, ◌+◌, ◌-◌, ◌≤◌, ◌<◌, ◌≡◌, ◌≢◌, ◌++◌, ◌^◌, ◌%◌, length, refl, sym, ap, ◌∙◌, true,
  false, Option, none, some, List, [], ◌∷◌, arith, ◌==◌, ltb, leb, if◌then◌else◌, Bool-cases, inl,
  inr,
}
use eotan.Str.{byte_at, strlen, fill_skip, int_le, stands, search, strstr}
use eotan.Str.Place.{strlen-length, stands_in, split_at}
use eotan.Str.Skip.{fill_skip_positive, fill_skip_distance, fill_skip_most, stands_at}

-- The table of a key
abbrev table : List ℕ → ℕ → ℕ
table key = fill_skip (strlen key) 0 key (λ c. strlen key + 1)

-- Between a place where the key does not stand and the next that is tried, it does not stand.
skips :
    (haystack key : List ℕ) (i j : ℕ)
    → i < j
    → j < i + table key (byte_at haystack (i + strlen key))
    → stands haystack j key ≡ false
skips haystack key i j l m = elim (Bool-cases (stands haystack j key)) [
  | inr n ↦ n
  | inl s ↦
      let most = fill_skip_most (strlen key) key (byte_at haystack (i + strlen key)) in
      let d = i + strlen key - j in
      let e : j + d ≡ i + strlen key = omega (arith, l, m, most) in
      elim (Bool-cases (ltb d (strlen key))) [
        | inl o ↦
            let b : byte_at haystack (i + strlen key) ≡ byte_at key d =
              ap (byte_at haystack) (sym e) ∙ stands_at haystack j key d s (ground (arith, o)) in
            let h =
              fill_skip_distance (strlen key) 0 key (λ c. strlen key + 1) d (omega arith)
                (ground (arith, o)) in
            let h' : table key (byte_at haystack (i + strlen key)) ≤ strlen key - (0 + d) =
              rw b h in
            let n : ⊥ = omega (arith, h', m) in elim n [ ]
        | inr o ↦ let n : ⊥ = ground (arith, o, most, m) in elim n [ ]
      ]
]

-- What a search from the place `i` on gives: the first place of the key, or none where there is none.
abbrev Least : List ℕ → List ℕ → ℕ → Option ℕ → Type 0
Least haystack key i none =
    (j : ℕ) → i ≤ j → j + strlen key ≤ strlen haystack → stands haystack j key ≡ false
Least haystack key i (some p) =
    (i ≤ p)
    × (p + strlen key ≤ strlen haystack)
    × (stands haystack p key ≡ true)
    × ((j : ℕ) → i ≤ j → j < p → stands haystack j key ≡ false)

-- `end`, as the word of an `int`
abbrev last : List ℕ → List ℕ → ℕ
last haystack key = (strlen haystack + 2 ^ 32 - strlen key) % 2 ^ 32

-- Below 2^31 the order of the signed numbers is that of the places.
signed_order :
    (i k n : ℕ)
    → n + 1 < 2 ^ 31
    → k < 2 ^ 31
    → i ≤ n + 1
    → int_le i ((n + 2 ^ 32 - k) % 2 ^ 32) ≡ leb (i + k) n
signed_order i k n h g l = elim (Bool-cases (leb k n)) [
  | inl e ↦
      let m : (n + 2 ^ 32 - k) % 2 ^ 32 ≡ n - k = ground (arith, e, h) in
      rw m (ground (arith, e, h, l))
  | inr e ↦
      let m : (n + 2 ^ 32 - k) % 2 ^ 32 ≡ n + 2 ^ 32 - k = ground (arith, e, g) in
      rw m (ground (arith, e, g, h, l))
]

module _ (haystack key : List ℕ) (small : strlen haystack + 1 < 2 ^ 31)
    (short : strlen key < 2 ^ 31) where
  abbrev look : ℕ → ℕ → Option ℕ
  look n i = search n (table key) haystack key (last haystack key) i

  abbrev tried : ℕ → ℕ → Option ℕ
  tried n i =
      if leb (i + strlen key) (strlen haystack)
      then if stands haystack i key
        then some i
        else look n (i + table key (byte_at haystack (i + strlen key)))
      else none

  search_lem : (n i : ℕ) → i ≤ strlen haystack + 1 → look (suc n) i ≡ tried n i
  unfolding search
  search_lem n i l =
      let o = signed_order i (strlen key) (strlen haystack) small short l in
      let most = fill_skip_most (strlen key) key (byte_at haystack (i + strlen key)) in
      elim (Bool-cases (leb (i + strlen key) (strlen haystack))) [
        | inl e ↦
            let w : (i + table key (byte_at haystack (i + strlen key))) % 2 ^ 32
                ≡ i + table key (byte_at haystack (i + strlen key)) =
              ground (arith, e, most, small) in
            rw (o, e, w) refl
        | inr e ↦ rw (o, e) refl
      ]

-- The search from the next place that is tried
module _ (haystack key : List ℕ) (i : ℕ) (n : stands haystack i key ≡ false) where
  abbrev step : ℕ
  step = table key (byte_at haystack (i + strlen key))

  between : (j : ℕ) → i ≤ j → j < i + step → stands haystack j key ≡ false
  between j l m = elim (Bool-cases (i == j)) [
    | inl e ↦ let same : i ≡ j = ground (arith, e) in rw (← same) n
    | inr e ↦ skips haystack key i j (ground (arith, e, l)) m
  ]

  further : (o : Option ℕ) → Least haystack key (i + step) o → Least haystack key i o
  further none f = λ j l m. elim (Bool-cases (ltb j (i + step))) [
    | inl e ↦ between j l (ground (arith, e))
    | inr e ↦ f j (ground (arith, e)) m
  ]
  further (some p) (l, m, s, f) = (
    omega (arith, l),
    m,
    s,
    λ j y z. elim (Bool-cases (ltb j (i + step))) [
      | inl e ↦ between j y (ground (arith, e))
      | inr e ↦ f j (ground (arith, e)) z
    ],
  )

stands_empty : (haystack key : List ℕ) (i : ℕ) → strlen key ≡ 0 → stands haystack i key ≡ true
unfolding stands strlen
stands_empty haystack [] i z = refl
stands_empty haystack (x ∷ key) i z = ground (arith, z)

module _ (haystack key : List ℕ) (small : strlen haystack + 1 < 2 ^ 31)
    (short : strlen key < 2 ^ 31) where
  search-Least :
      (n i : ℕ)
      → strlen haystack < n + i
      → i ≤ strlen haystack + 1
      → Least haystack key i (look haystack key small short n i)
  unfolding search
  search-Least zero i l r = λ j m k. ground (arith, l, m, k)
  search-Least (suc n) i l r =
      rw (search_lem haystack key small short n i r)
        (elim (Bool-cases (leb (i + strlen key) (strlen haystack))) [
          | inr o ↦ rw o (λ j m k. ground (arith, o, m, k))
          | inl o ↦ elim (Bool-cases (stands haystack i key)) [
            | inl s ↦ rw (o, s) (omega arith, ground (arith, o), s, λ j m k. ground (arith, m, k))
            | inr s ↦
                let p =
                  fill_skip_positive (strlen key) 0 key (λ c. strlen key + 1)
                    (byte_at haystack (i + strlen key)) (omega arith) (omega arith) in
                let most = fill_skip_most (strlen key) key (byte_at haystack (i + strlen key)) in
                rw (o, s)
                  (further haystack key i s
                    (look haystack key small short n (i + step haystack key i s))
                    (search-Least n (i + step haystack key i s) (omega (arith, l, p))
                      (ground (arith, o, most))))
          ]
        ])

  strstr-Least : Least haystack key 0 (strstr haystack key)
  unfolding strstr
  strstr-Least = elim (Bool-cases (strlen key == 0)) [
    | inl e ↦
        let z : strlen key ≡ 0 = ground (arith, e) in
        rw e (omega arith, omega (arith, z), stands_empty haystack key 0 z, λ j l m. elim m [ ])
    | inr e ↦ rw e (search-Least (strlen haystack + 1) 0 (omega arith) (omega arith))
  ]

-- What is found: a first place of the key, or none.
abbrev pub First : List ℕ → List ℕ → Option ℕ → Type 0
First haystack key none = (before after : List ℕ) → haystack ≢ before ++ (key ++ after)
First haystack key (some p) =
    ((before : List ℕ) × (after : List ℕ) × (haystack ≡ before ++ (key ++ after))
      × (length before ≡ p))
    × ((before after : List ℕ) → haystack ≡ before ++ (key ++ after) → p ≤ length before)

Least-First : (haystack key : List ℕ) (o : Option ℕ) → Least haystack key 0 o → First haystack key o
Least-First haystack key none f = λ before after e.
    let (s, l) = stands_in before key after haystack e in
    let n = f (length before) (omega arith) l in cc
Least-First haystack key (some p) (l, m, s, f) = (
  split_at haystack p key s m,
  λ before after e.
      let (t, r) = stands_in before key after haystack e in
      elim (Bool-cases (ltb (length before) p)) [
        | inl y ↦
            let n = f (length before) (omega arith) (ground (arith, y)) in ground (arith, n, t)
        | inr y ↦ ground (arith, y)
      ],
)

-- For a string of less than 2^31 - 1 bytes and a key of less than 2^31, `strstr` gives a place
-- behind which the string goes on with the key, and no splitting of the string has the key at an
-- earlier place; it gives none just where the string has no splitting with the key in it.
pub strstr-First :
    (haystack key : List ℕ)
    → length haystack + 1 < 2 ^ 31
    → length key < 2 ^ 31
    → First haystack key (strstr haystack key)
strstr-First haystack key h k =
    Least-First haystack key (strstr haystack key)
      (strstr-Least haystack key (rw (strlen-length haystack) h) (rw (strlen-length key) k))
