-- ===== src/Fs/Cache/Served.antt =====
-- When a get of a block fails, and which block makes room for it.
use eotan.Prelude.{
  ℕ, ◌≡◌, refl, sym, ap, ◌∙◌, Bool, true, false, Option, none, some, List, [], ◌∷◌, ◌||◌,
  Bool-cases, Option-cases, inl, inr,
}
use eotan.Kernel.State.Lists.{elem, remove}
use eotan.Fs.Cache.{Cache, Devices, evict, sweep, pick, load, cache_get, cache_release}
use eotan.Fs.Cache.Valid.{IsValid}
use eotan.Fs.Cache.Pick.{Writes}
use eotan.Fs.Cache.Laws.{Gets, cache_get-Gets}
use eotan.Fs.Cache.Release.{cache_release-Releases}

-- No read and no write fails.
abbrev pub Works {ℓ} : {V : Type ℓ} → Devices V → Type ℓ
Works {V} dev =
    ((d : ℕ → ℕ → V) (x y : ℕ) → dev.reads d x y ≡ true)
    × ((d : ℕ → ℕ → V) (x y : ℕ) (a : V) → (dev.writes d x y a).0 ≡ true)

module _ {ℓ} {V : Type ℓ} (dev : Devices V) (works : Works dev) where
  evict_works : (i : ℕ) (c : Cache V) → (evict dev i c).0 ≡ some i
  unfolding evict sweep
  evict_works i c = elim (Bool-cases (c.slot i).dirty) [
    | inl d ↦ simp (d, works.1 c.disk (c.slot i).channel (c.slot i).block_no (c.slot i).buf) refl
    | inr d ↦ simp d refl
  ]

  load_works : (ch b i : ℕ) (c : Cache V) → (load dev ch b (some i, c)).0 ≡ some i
  unfolding load
  load_works ch b i c = simp (works.0 c.disk ch b) refl

  load_of : (ch b : ℕ) (o : Option ℕ) (c : Cache V) → (load dev ch b (o, c)).0 ≡ o
  unfolding load
  load_of ch b none c = refl
  load_of ch b (some i) c = load_works ch b i c

  pick_works :
      (free lru : List ℕ) (c : Cache V) → (pick dev free lru c).0 ≡ none → (free ≡ []) × (lru ≡ [])
  unfolding pick
  pick_works [] [] c e = (refl, refl)
  pick_works [] (i ∷ rest) c e = let h = evict_works i c in cc
  pick_works (i ∷ rest) lru c e = cc

  absent :
      (ch b : ℕ) (c : Cache V)
      → c.hash ch b ≡ none
      → (cache_get dev ch b c).0 ≡ (pick dev c.free_list c.lru_list c).0
  unfolding cache_get
  absent ch b c n =
      rw (n, cache_get)
        (load_of ch b (pick dev c.free_list c.lru_list c).0 (pick dev c.free_list c.lru_list c).1)

  present : (ch b i : ℕ) (c : Cache V) → c.hash ch b ≡ some i → (cache_get dev ch b c).0 ≡ some i
  unfolding cache_get
  present ch b i c e = rw (e, cache_get) refl

  served :
      (ch b : ℕ) (c : Cache V)
      → (cache_get dev ch b c).0 ≡ none
      → (c.hash ch b ≡ none) × (c.free_list ≡ []) × (c.lru_list ≡ [])
  served ch b c e = elim (Option-cases (c.hash ch b)) [
    | inl n ↦
        let (f, l) = pick_works c.free_list c.lru_list c (sym (absent ch b c n) ∙ e) in (n, f, l)
    | inr (i, h) ↦ let k = present ch b i c h in cc
  ]

  pick_of :
      (free lru : List ℕ) (i : ℕ) (rest : List ℕ) (c : Cache V)
      → free ≡ []
      → lru ≡ i ∷ rest
      → (pick dev free lru c).0 ≡ some i
  unfolding pick
  pick_of free lru i rest c f l = rw (f, l, pick) (evict_works i c)

  evicted :
      (ch b i : ℕ) (rest : List ℕ) (c : Cache V)
      → c.hash ch b ≡ none
      → c.free_list ≡ []
      → c.lru_list ≡ i ∷ rest
      → (cache_get dev ch b c).0 ≡ some i
  evicted ch b i rest c n f l = absent ch b c n ∙ pick_of c.free_list c.lru_list i rest c f l

-- On a valid cache in front of devices on which a write that succeeds is found again, `cache_get`
-- of a block, whether it succeeds or not, leaves the cache valid, what its users see of every
-- block, and every locked block in its slot with its content; where it returns a slot, the slot
-- holds what the users see of the block and is locked. Where no read and no write fails, it fails
-- only if the block is in no slot and no slot is free or unlocked.
pub cache_get-Serves {ℓ} :
    {V : Type ℓ} (dev : Devices V)
    → Writes dev
    → (ch b : ℕ) (c : Cache V) → IsValid c
    → Gets c ch b (cache_get dev ch b c).0 (cache_get dev ch b c).1
      × (Works dev
          → (cache_get dev ch b c).0 ≡ none
          → (c.hash ch b ≡ none) × (c.free_list ≡ []) × (c.lru_list ≡ []))
cache_get-Serves dev law ch b c v = (cache_get-Gets dev law ch b c v, λ w. served dev w ch b c)

-- On a valid cache without a free slot, in front of devices that never fail, after the last lock
-- of a slot is released, with the slot dirty or as its device has it, `cache_get` of a block that
-- is not in the cache takes just this slot, although other unlocked slots were released before.
pub cache_get-cache_release {ℓ} :
    {V : Type ℓ} (dev : Devices V)
    → Works dev
    → (ch b i : ℕ) (d : Bool) (c : Cache V) → IsValid c
    → elem i c.locked_list ≡ true
    → (((c.slot i).dirty || d) ≡ false
        → (c.slot i).buf ≡ c.disk (c.slot i).channel (c.slot i).block_no)
    → (c.slot i).lock_count ≡ 1
    → c.free_list ≡ []
    → c.hash ch b ≡ none
    → (cache_get dev ch b (cache_release (some i) d c).1).0 ≡ some i
cache_get-cache_release dev w ch b i d c v l s n f h =
    let (o, p) = cache_release-Releases i d c v l s in
    evicted dev w ch b i (remove i c.lru_list) (cache_release (some i) d c).1
      (ap (λ (m : ℕ → ℕ → Option ℕ). m ch b) p.hashed ∙ h) (p.free f) (p.first n)
