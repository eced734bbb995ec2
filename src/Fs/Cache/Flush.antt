-- ===== src/Fs/Cache/Flush.antt =====
-- A flush of the cache.
use eotan.Prelude.{
  ℕ, ◌≡◌, refl, sym, ap, ◌∙◌, Bool, true, false, Option, some, arith, ◌==◌, if◌then◌else◌,
  Bool-cases, Option-cases, inl, inr,
}
use eotan.Kernel.State.Lists.{elem, elem-remove, distinct-remove}
use eotan.Fs.Cache.{Cache, cache_invalidate, unlink, set_free, forget, dispose}
use eotan.Fs.Cache.Valid.{view, IsValid}
use eotan.Fs.Cache.Clean.{Synced, Settled, Cleaned}

module _ {ℓ} {V : Type ℓ} where
  -- What a part of a flush leaves.
  pub record Flushed (done : Bool) (c c' : Cache V) : Type ℓ where
    pub valid : IsValid c'
    pub views : (x y : ℕ) → view c' x y ≡ view c x y
    pub locked : (j : ℕ) → elem j c'.locked_list ≡ elem j c.locked_list
    pub hashed : (x y j : ℕ) → c'.hash x y ≡ some j → c.hash x y ≡ some j
    pub channels : (j : ℕ) → (c'.slot j).channel ≡ (c.slot j).channel
    pub blocks : (j : ℕ) → (c'.slot j).block_no ≡ (c.slot j).block_no
    pub keeps : done ≡ true → (x y : ℕ) → Synced c x y → Synced c' x y
    pub settled : done ≡ true → Settled c → Settled c'

  pub Cleaned-Flushed :
      (i : ℕ) (done : Bool) (c c' : Cache V) → Cleaned i done c c' → Flushed done c c'
  Cleaned-Flushed i done c c' p = record {
    valid = p.valid;
    views = p.views;
    locked = λ j. ap (elem j) p.locked;
    hashed = λ x y j h. ap (λ (f : ℕ → ℕ → Option ℕ). f x y) (sym p.hashed) ∙ h;
    channels = p.channels;
    blocks = p.blocks;
    keeps = p.keeps;
    settled = p.settled;
  }

  dispose-IsValid :
      (i : ℕ) (c : Cache V)
      → IsValid c
      → c.hash (c.slot i).channel (c.slot i).block_no ≡ some i
      → IsValid (dispose i c)
  unfolding dispose forget set_free unlink elem
  dispose-IsValid i c v e = record {
    keyed = λ x y j h. ground (arith, v.keyed x y j);
    used = λ x y j h. ground (arith, v.keyed x y j, v.used x y j, elem-remove j i c.free_list);
    held = λ x y j h. ground (
      arith,
      v.keyed x y j,
      v.held x y j,
      elem-remove j i c.lru_list,
      elem-remove j i c.locked_list,
    );
    apart =
        λ j. ground (arith, v.apart j, elem-remove j i c.lru_list, elem-remove j i c.locked_list);
    once = distinct-remove i c.lru_list v.once;
    listed = λ j m. ground (
      arith,
      v.listed j,
      v.keyed (c.slot j).channel (c.slot j).block_no i,
      elem-remove j i c.lru_list,
      elem-remove j i c.locked_list,
    );
    same = λ x y j h m k. ground (arith, v.same x y j, elem-remove j i c.lru_list);
  }

  pub cache_invalidate-IsValid :
      (ch b : ℕ) (c : Cache V) → IsValid c → IsValid (cache_invalidate ch b c).1
  unfolding cache_invalidate
  cache_invalidate-IsValid ch b c v = elim (Option-cases (c.hash ch b)) [
    | inl n ↦ rw (n, cache_invalidate) v
    | inr (i, h) ↦
        let (p, q) = v.keyed ch b i h in
        rw (h, cache_invalidate) (dispose-IsValid i c v (rw (p, q) h))
  ]

  disposed-Flushed :
      (i : ℕ) (c : Cache V)
      → IsValid c
      → elem i c.lru_list ≡ true
      → Synced c (c.slot i).channel (c.slot i).block_no
      → Flushed true c (dispose i c)
  unfolding dispose forget set_free unlink elem view
  disposed-Flushed i c v l s =
      let e : c.hash (c.slot i).channel (c.slot i).block_no ≡ some i = v.listed i (ground arith) in
      record {
        valid = dispose-IsValid i c v e;
        views = λ x y. ground (arith, e, s);
        locked = λ j. ground (arith, v.apart i, elem-remove j i c.locked_list);
        hashed = λ x y j h. ground arith;
        channels = λ j. refl;
        blocks = λ j. refl;
        keeps = λ o x y t. ground (arith, t);
        settled = λ o t x y j h k. ground (arith, t x y j);
      }

  pub trans_Flushed :
      (done : Bool) (c c1 c2 : Cache V) → Flushed true c c1 → Flushed done c1 c2 → Flushed done c c2
  trans_Flushed done c c1 c2 p q = record {
    valid = q.valid;
    views = λ x y. q.views x y ∙ p.views x y;
    locked = λ j. q.locked j ∙ p.locked j;
    hashed = λ x y j h. p.hashed x y j (q.hashed x y j h);
    channels = λ j. q.channels j ∙ p.channels j;
    blocks = λ j. q.blocks j ∙ p.blocks j;
    keeps = λ o x y s. q.keeps o x y (p.keeps refl x y s);
    settled = λ o s. q.settled o (p.settled refl s);
  }

  -- One round of the first loop
  pub record Round (i : ℕ) (unmount : Bool) (c c' : Cache V) : Type ℓ where
    pub flushed : Flushed true c c'
    pub synced : Synced c' (c.slot i).channel (c.slot i).block_no
    pub stays : (j : ℕ) → (j == i) ≡ false → elem j c.lru_list ≡ true → elem j c'.lru_list ≡ true
    pub gone : unmount ≡ true → (x y j : ℕ) → c'.hash x y ≡ some j → (j == i) ≡ false

  pub round :
      (i : ℕ) (unmount : Bool) (c c' : Cache V)
      → IsValid c
      → elem i c.lru_list ≡ true
      → Cleaned i true c c'
      → Round i unmount c (if unmount then dispose i c' else c')
  unfolding dispose set_free forget unlink
  round i unmount c c' v l p =
      let e : c.hash (c.slot i).channel (c.slot i).block_no ≡ some i = v.listed i (ground arith) in
      let s = p.synced refl (λ d. v.same (c.slot i).channel (c.slot i).block_no i e l d) in
      let q = Cleaned-Flushed i true c c' p in
      elim (Bool-cases unmount) [
        | inl u ↦ rw u (
            let s' : Synced c' (c'.slot i).channel (c'.slot i).block_no =
              rw (p.channels i, p.blocks i) s in
            let r = disposed-Flushed i c' p.valid (ap (elem i) p.lru ∙ l) s' in
            record {
              flushed = trans_Flushed true c c' (dispose i c') q r;
              synced = r.keeps refl (c.slot i).channel (c.slot i).block_no s;
              stays = λ j n m. ground (arith, elem-remove j i c'.lru_list, p.lru);
              gone = λ o x y j h. let k = p.valid.keyed x y j in ground (arith, k);
            })
        | inr u ↦ rw u (record {
          flushed = q;
          synced = s;
          stays = λ j n m. ap (elem j) p.lru ∙ m;
          gone = λ o. cc;
        })
      ]
