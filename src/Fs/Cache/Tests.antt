-- ===== src/Fs/Cache/Tests.antt =====
-- The cache at work, in front of devices that never fail, and its theorems there.
use eotan.Prelude.{ℕ, ◌+◌, ◌*◌, ◌≡◌, refl, Bool, true, false, none, some, [], ◌∷◌, arith, ◌||◌}
use eotan.Kernel.State.Lists.{elem, remove}
use eotan.Fs.Cache.{
  Cache, Devices, set_slot, unlink, cache_initialize, cache_get, cache_create, cache_release,
  cache_flush, load, pick, fill, claim, lock,
}
use eotan.Fs.Cache.Valid.{IsValid}
use eotan.Fs.Cache.Pick.{Writes}
use eotan.Fs.Cache.Laws.{Gets}
use eotan.Fs.Cache.Release.{Releases, cache_release-Releases}
use eotan.Fs.Cache.Whole.{Flushes, cache_flush-Flushes}
use eotan.Fs.Cache.Create.{Creates, cache_create-Creates}
use eotan.Fs.Cache.Served.{Works, cache_get-Serves, cache_get-cache_release}
use eotan.Fs.Cache.Start.{initialize-IsValid}

abbrev good : Devices ℕ
good = record { reads = λ d x y. true; writes = λ d x y a. (true, a) }

abbrev raw : Cache ℕ
raw = record {
  slot = λ i. record { channel = 0; block_no = 0; dirty = false; lock_count = 0; buf = 0 };
  hash = λ x y. none;
  free_list = [];
  lru_list = [];
  locked_list = [];
  disk = λ x y. 100 * x + y;
}

good-Writes : Writes good
good-Writes d x y a e = refl

good-Works : Works good
good-Works = (λ d x y. refl, λ d x y a. refl)

-- Two slots, and just one
abbrev start : ℕ → Cache ℕ
start max = (cache_initialize true max raw).1

abbrev used : ℕ → Cache ℕ
used max = (cache_get good 1 7 (start max)).1

abbrev given_back : ℕ → Cache ℕ
given_back max = (cache_release (some 0) true (used max)).1

used-IsValid : (max : ℕ) → IsValid (used max)
used-IsValid max =
    let (p, q) = cache_get-Serves good good-Writes 1 7 (start max) (initialize-IsValid max raw) in
    p.valid

used_two : (used 2).locked_list ≡ 0 ∷ []
unfolding cache_initialize cache_get load pick lock unlink claim fill set_slot remove
used_two = refl

buf_two : ((used 2).slot 0).buf ≡ 107
unfolding cache_initialize cache_get load pick lock unlink claim fill set_slot remove
buf_two = refl

locked_one : elem 0 (used 1).locked_list ≡ true
unfolding cache_initialize cache_get load pick lock unlink claim fill set_slot remove elem
locked_one = refl

-- A slot that is given back as dirty may hold anything.
marked : (d : Bool) (a b : ℕ) → (d || true) ≡ false → a ≡ b
marked d a b e = ground (arith, e)

given_back-IsValid : (max : ℕ) → elem 0 (used max).locked_list ≡ true → IsValid (given_back max)
given_back-IsValid max l =
    let (o, p) = cache_release-Releases 0 true (used max) (used-IsValid max) l (
      marked ((used max).slot 0).dirty ((used max).slot 0).buf
        ((used max).disk ((used max).slot 0).channel ((used max).slot 0).block_no)) in
    p.valid

cache_get-Serves_example :
    Gets
      (given_back 1)
      2
      5
      (cache_get good 2 5 (given_back 1)).0
      (cache_get good 2 5 (given_back 1)).1
    × (Works good
        → (cache_get good 2 5 (given_back 1)).0 ≡ none
        → ((given_back 1).hash 2 5 ≡ none)
          × ((given_back 1).free_list ≡ [])
          × ((given_back 1).lru_list ≡ []))
cache_get-Serves_example =
    cache_get-Serves good good-Writes 2 5 (given_back 1) (given_back-IsValid 1 locked_one)

cache_release-Releases_example :
    ((cache_release (some 0) true (used 1)).0 ≡ true)
    × Releases 0 true (used 1) (cache_release (some 0) true (used 1)).1
cache_release-Releases_example =
    cache_release-Releases 0 true (used 1) (used-IsValid 1) locked_one (
      marked ((used 1).slot 0).dirty ((used 1).slot 0).buf
        ((used 1).disk ((used 1).slot 0).channel ((used 1).slot 0).block_no))

cache_flush-Flushes_example :
    Flushes 1 true
      (cache_flush good 1 true (given_back 1)).0
      (given_back 1)
      (cache_flush good 1 true (given_back 1)).1
cache_flush-Flushes_example =
    cache_flush-Flushes good good-Writes 1 true (given_back 1) (given_back-IsValid 1 locked_one)

cache_create-Creates_example :
    Creates 0 2 5
      (cache_create good 0 2 5 (given_back 1)).0
      (given_back 1)
      (cache_create good 0 2 5 (given_back 1)).1
cache_create-Creates_example =
    cache_create-Creates good good-Writes 0 2 5 (given_back 1) (given_back-IsValid 1 locked_one)

one_locked : ((used 1).slot 0).lock_count ≡ 1
unfolding cache_initialize cache_get load pick lock unlink claim fill set_slot remove
one_locked = refl

none_free : (used 1).free_list ≡ []
unfolding cache_initialize cache_get load pick lock unlink claim fill set_slot remove
none_free = refl

not_there : (used 1).hash 2 5 ≡ none
unfolding cache_initialize cache_get load pick lock unlink claim fill set_slot remove
not_there = refl

cache_get-cache_release_example : (cache_get good 2 5 (given_back 1)).0 ≡ some 0
cache_get-cache_release_example =
    cache_get-cache_release good good-Works 2 5 0 true (used 1) (used-IsValid 1) locked_one
      (marked ((used 1).slot 0).dirty ((used 1).slot 0).buf
        ((used 1).disk ((used 1).slot 0).channel ((used 1).slot 0).block_no))
      one_locked none_free not_there
