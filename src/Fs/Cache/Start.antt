-- ===== src/Fs/Cache/Start.antt =====
-- The cache before its first use.
use eotan.Prelude.{ℕ, ◌≡◌, refl, true}
use eotan.Kernel.State.Lists.{elem, distinct}
use eotan.Fs.Cache.{Cache, cache_initialize}
use eotan.Fs.Cache.Valid.{view, IsValid}

module _ {ℓ} {V : Type ℓ} (max : ℕ) (c : Cache V) where
  pub initialize-IsValid : IsValid (cache_initialize true max c).1
  unfolding cache_initialize elem distinct
  initialize-IsValid = record {
    keyed = λ x y i h. cc;
    used = λ x y i h. cc;
    held = λ x y i h. cc;
    apart = λ i. refl;
    once = refl;
    listed = λ i l. cc;
    same = λ x y i h l d. cc;
  }

  pub initialize-view : (x y : ℕ) → view (cache_initialize true max c).1 x y ≡ c.disk x y
  unfolding cache_initialize view
  initialize-view x y = refl
