-- ===== src/Ctype/Laws.antt =====
-- The classes against the ranges of ASCII.
use eotan.Prelude.{
  ℕ, zero, suc, ◌+◌, ◌-◌, ◌<◌, ◌≡◌, refl, arith, Bool, true, false, some, ◌==◌, leb, not, ◌&&◌,
  ◌||◌, if◌then◌else◌, Bool-cases, inl, inr,
}
use eotan.Ctype.{
  masked, or_zero, isalnum, isalpha, iscntrl, isdigit, isgraph, islower, isprint, ispunct, isspace,
  isupper, isxdigit, tolower, toupper,
}

abbrev pub within : ℕ → ℕ → ℕ → Bool
within low high c = leb low c && leb c high

abbrev pub holds : ℕ → Bool
holds n = not (n == 0)

-- The classes of the C locale, by the codes of ASCII.
pub record Classified (c : ℕ) : Type 0 where
  pub upper : holds (isupper (some c)) ≡ within 65 90 c
  pub lower : holds (islower (some c)) ≡ within 97 122 c
  pub alpha : holds (isalpha (some c)) ≡ (within 65 90 c || within 97 122 c)
  pub digit : holds (isdigit (some c)) ≡ within 48 57 c
  pub alnum : holds (isalnum (some c)) ≡ (within 48 57 c || (within 65 90 c || within 97 122 c))
  pub xdigit : holds (isxdigit (some c)) ≡ (within 48 57 c || (within 65 70 c || within 97 102 c))
  pub cntrl : holds (iscntrl (some c)) ≡ (leb c 31 || c == 127)
  pub space : holds (isspace (some c)) ≡ (within 9 13 c || c == 32)
  pub graph : holds (isgraph (some c)) ≡ within 33 126 c
  pub print : holds (isprint (some c)) ≡ within 32 126 c
  pub punct :
      holds (ispunct (some c))
      ≡ (within 33 126 c && not (within 48 57 c || (within 65 90 c || within 97 122 c)))

same : Bool → Bool → Bool
same true b = b
same false b = not b

agree_below : ℕ → (ℕ → Bool) → (ℕ → Bool) → Bool
unfolding same
agree_below zero f g = true
agree_below (suc n) f g = same (f n) (g n) && agree_below n f g

agree_below_lem : (n : ℕ) (f g : ℕ → Bool) → agree_below n f g ≡ true → (c : ℕ) → c < n → f c ≡ g c
unfolding agree_below same
agree_below_lem zero f g h c l = ground arith
agree_below_lem (suc n) f g h c l = elim (Bool-cases (c == n)) [
  | inl y ↦ let e : c ≡ n = ground arith in rw e (ground arith)
  | inr m ↦ agree_below_lem n f g (ground arith) c (ground arith)
]

abbrev Agrees : (ℕ → Bool) → (ℕ → Bool) → Type 0
Agrees f g = agree_below 256 f g ≡ true

-- `holds` of each class is, on every byte, the range of its codes.
isupper_lem : Agrees (λ c. holds (isupper (some c))) (λ c. within 65 90 c)
unfolding agree_below same isupper masked or_zero
isupper_lem = refl

islower_lem : Agrees (λ c. holds (islower (some c))) (λ c. within 97 122 c)
unfolding agree_below same islower masked or_zero
islower_lem = refl

isalpha_lem : Agrees (λ c. holds (isalpha (some c))) (λ c. within 65 90 c || within 97 122 c)
unfolding agree_below same isalpha masked or_zero
isalpha_lem = refl

isdigit_lem : Agrees (λ c. holds (isdigit (some c))) (λ c. within 48 57 c)
unfolding agree_below same isdigit masked or_zero
isdigit_lem = refl

isalnum_lem :
    Agrees
      (λ c. holds (isalnum (some c)))
      (λ c. within 48 57 c || (within 65 90 c || within 97 122 c))
unfolding agree_below same isalnum masked or_zero
isalnum_lem = refl

isxdigit_lem :
    Agrees
      (λ c. holds (isxdigit (some c)))
      (λ c. within 48 57 c || (within 65 70 c || within 97 102 c))
unfolding agree_below same isxdigit masked or_zero
isxdigit_lem = refl

iscntrl_lem : Agrees (λ c. holds (iscntrl (some c))) (λ c. leb c 31 || c == 127)
unfolding agree_below same iscntrl masked or_zero
iscntrl_lem = refl

isspace_lem : Agrees (λ c. holds (isspace (some c))) (λ c. within 9 13 c || c == 32)
unfolding agree_below same isspace masked or_zero
isspace_lem = refl

isgraph_lem : Agrees (λ c. holds (isgraph (some c))) (λ c. within 33 126 c)
unfolding agree_below same isgraph masked or_zero
isgraph_lem = refl

isprint_lem : Agrees (λ c. holds (isprint (some c))) (λ c. within 32 126 c)
unfolding agree_below same isprint masked or_zero
isprint_lem = refl

ispunct_lem :
    Agrees
      (λ c. holds (ispunct (some c)))
      (λ c. within 33 126 c && not (within 48 57 c || (within 65 90 c || within 97 122 c)))
unfolding agree_below same ispunct masked or_zero
ispunct_lem = refl

pub byte-Classified : (c : ℕ) → c < 256 → Classified c
byte-Classified c h = record {
  upper = agree_below_lem 256 _ _ isupper_lem c h;
  lower = agree_below_lem 256 _ _ islower_lem c h;
  alpha = agree_below_lem 256 _ _ isalpha_lem c h;
  digit = agree_below_lem 256 _ _ isdigit_lem c h;
  alnum = agree_below_lem 256 _ _ isalnum_lem c h;
  xdigit = agree_below_lem 256 _ _ isxdigit_lem c h;
  cntrl = agree_below_lem 256 _ _ iscntrl_lem c h;
  space = agree_below_lem 256 _ _ isspace_lem c h;
  graph = agree_below_lem 256 _ _ isgraph_lem c h;
  print = agree_below_lem 256 _ _ isprint_lem c h;
  punct = agree_below_lem 256 _ _ ispunct_lem c h;
}

tolower_by :
    (c : ℕ) (b : Bool)
    → holds (isupper (some c)) ≡ b
    → tolower (some c) ≡ some (if b then c + 32 else c)
unfolding tolower
tolower_by c b h = ground arith

toupper_by :
    (c : ℕ) (b : Bool)
    → holds (islower (some c)) ≡ b
    → toupper (some c) ≡ some (if b then c - 32 else c)
unfolding toupper
toupper_by c b h = ground arith

tolower_range : (c : ℕ) → c < 256 → tolower (some c) ≡ some (if within 65 90 c then c + 32 else c)
tolower_range c h = tolower_by c (within 65 90 c) (agree_below_lem 256 _ _ isupper_lem c h)

pub toupper_range :
    (c : ℕ) → c < 256 → toupper (some c) ≡ some (if within 97 122 c then c - 32 else c)
toupper_range c h = toupper_by c (within 97 122 c) (agree_below_lem 256 _ _ islower_lem c h)

toupper-tolower : (c : ℕ) → c < 256 → toupper (tolower (some c)) ≡ toupper (some c)
toupper-tolower c h = elim (Bool-cases (within 65 90 c)) [
  | inl y ↦
      rw (tolower_range c h, y, toupper_range (c + 32) (ground arith), toupper_range c h)
        (ground arith)
  | inr n ↦ rw (tolower_range c h, n) refl
]

-- For a byte, the eleven classes, from `isalnum` to `isxdigit`, hold of just the codes that the C
-- locale gives them in ASCII; `tolower` adds 32 to an upper-case letter and leaves every other
-- code, `toupper` takes 32 from a lower-case letter and leaves every other code, and `toupper`
-- after `tolower` is `toupper`.
pub byte_lem :
    (c : ℕ)
    → c < 256
    → Classified c
      × (tolower (some c) ≡ some (if within 65 90 c then c + 32 else c))
      × (toupper (some c) ≡ some (if within 97 122 c then c - 32 else c))
      × (toupper (tolower (some c)) ≡ toupper (some c))
byte_lem c h = (byte-Classified c h, tolower_range c h, toupper_range c h, toupper-tolower c h)
