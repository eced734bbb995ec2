-- ===== src/Rc/Zle/Reader.antt =====
-- What the reader of either program sees of its input: a list, whatever stands in the cache.
use eotan.Prelude.{ℕ, ◌≡◌, refl, true, Option, none, some, List, [], ◌∷◌}
use eotan.Rc.Zle.{Input, bgetc, bungetc, opened}

-- What is read of `xs`, and the state after it.
abbrev pub got : List ℕ → Option ℕ × Input
got [] = (none, opened [])
got (c ∷ rest) = (some c, opened rest)

-- The next bytes are `xs`.
abbrev pub At : List ℕ → Input → Type 0
At xs i = bgetc i ≡ got xs

pub At-opened : (xs : List ℕ) → At xs (opened xs)
unfolding bgetc
At-opened [] = refl
At-opened (c ∷ rest) = refl

-- The state after a byte, or the end, was read and pushed back.
pub pushed : List ℕ → Input
pushed xs = (bungetc (got xs).0 (got xs).1).1

pub bungetc-got : (xs : List ℕ) → bungetc (got xs).0 (got xs).1 ≡ (true, pushed xs)
unfolding pushed bungetc
bungetc-got [] = refl
bungetc-got (c ∷ rest) = refl

pub At-pushed : (xs : List ℕ) → At xs (pushed xs)
unfolding pushed bungetc bgetc
At-pushed [] = refl
At-pushed (c ∷ rest) = refl
