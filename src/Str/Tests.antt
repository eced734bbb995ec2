-- ===== src/Str/Tests.antt =====
-- Strings at work; 97 is `a`, 98 is `b`, 44 is a comma.
use eotan.Prelude.{
  arith, ℕ, ◌≡◌, refl, none, some, List, [], ◌∷◌, ◌%◌, ◌≤◌, ◌⊎◌, ltb, leb, ◌&&◌, if◌then◌else◌, ◌+◌,
}
use eotan.Str.{
  strstr, search, fill_skip, stands, byte_at, strlen, memmove, memcpy, memset, copy_up, copy_down,
  strtok_r, skip_sep, cut, has, strpbrk, strpbrk_from,
}
use eotan.Str.Find.{First, strstr-First}
use eotan.Str.Copy.{moved, memory_lem}
use eotan.Str.Token.{Token, strtok_r-Token}

abbrev abab : List ℕ
abab = 98 ∷ 97 ∷ 97 ∷ 98 ∷ 97 ∷ 98 ∷ []

found_at : strstr abab (97 ∷ 98 ∷ []) ≡ some 2
unfolding strstr search fill_skip stands byte_at strlen
found_at = refl

not_found : strstr abab (98 ∷ 98 ∷ []) ≡ none
unfolding strstr search fill_skip stands byte_at strlen
not_found = refl

first_token :
    strtok_r (44 ∷ []) (44 ∷ 97 ∷ 98 ∷ 44 ∷ 44 ∷ 98 ∷ []) ≡ (some (97 ∷ 98 ∷ []), 44 ∷ 98 ∷ [])
unfolding strtok_r skip_sep cut has
first_token = refl

up_by_one : memmove 5 4 3 (λ j. j) 7 ≡ 6
unfolding memmove copy_up copy_down
up_by_one = refl

break_at : strpbrk abab (97 ∷ []) ≡ some 1
unfolding strpbrk strpbrk_from has
break_at = refl

strstr-First_example : First abab (97 ∷ 98 ∷ []) (strstr abab (97 ∷ 98 ∷ []))
strstr-First_example = strstr-First abab (97 ∷ 98 ∷ []) (omega arith) (omega arith)

memory_lem_example :
    (memmove 5 4 3 (λ j. j) 7 ≡ moved 5 4 3 (λ j. j) 7)
    × ((5 ≤ 4) ⊎ (4 + 3 ≤ 5) → memcpy 5 4 3 (λ j. j) 7 ≡ moved 5 4 3 (λ j. j) 7)
    × (memset 5 300 3 (λ j. j) 7 ≡ (if leb 5 7 && ltb 7 (5 + 3) then 300 % 256 else 7))
memory_lem_example = memory_lem 5 4 300 3 7 (λ j. j)

strtok_r-Token_example :
    Token
      (44 ∷ [])
      (44 ∷ 97 ∷ 44 ∷ 98 ∷ [])
      (strtok_r (44 ∷ []) (44 ∷ 97 ∷ 44 ∷ 98 ∷ [])).0
      (strtok_r (44 ∷ []) (44 ∷ 97 ∷ 44 ∷ 98 ∷ [])).1
strtok_r-Token_example = strtok_r-Token (44 ∷ []) (44 ∷ 97 ∷ 44 ∷ 98 ∷ [])
