-- ===== src/Fs/Cache/Release.antt =====
-- Blocks that are modified, released and invalidated.
use mathlib.Core.Path.{fun_ext}
use eotan.Prelude.{
  ℕ, zero, suc, ◌-◌, ◌≡◌, refl, ap, Bool, true, false, some, [], ◌∷◌, arith, ◌==◌, ◌||◌, ltb,
  if◌then◌else◌, Bool-cases, inl, inr,
}
use eotan.Kernel.State.Lists.{elem, remove, elem-remove, distinct, distinct-remove}
use eotan.Fs.Cache.{Slot, Cache, set_slot, unlink, unlock, cache_release}
use eotan.Fs.Cache.Valid.{view, IsValid}

module _ {ℓ} {V : Type ℓ} where
  -- A new content of a slot.
  abbrev pub changed : ℕ → Bool → ℕ → Cache V → Cache V
  changed i d n c = set_slot i (record (c.slot i) { dirty = d; lock_count = n }) c

  module _ (i : ℕ) (c : Cache V) (v : IsValid c) (l : elem i c.locked_list ≡ true) where
    changed-IsValid : (d : Bool) (n : ℕ) → IsValid (changed i d n c)
    unfolding set_slot
    changed-IsValid d n = record {
      keyed = λ x y j h. ground (arith, v.keyed x y j h);
      used = v.used;
      held = v.held;
      apart = v.apart;
      once = v.once;
      listed = λ j m. ground (arith, v.listed j m);
      same = λ x y j h m k. ground (arith, v.same x y j h m, v.apart j, l);
    }

    -- The slot is put into `lru_list`.
    unlocked-IsValid :
        (d : Bool) (n : ℕ)
        → (d ≡ false → (c.slot i).buf ≡ c.disk (c.slot i).channel (c.slot i).block_no)
        → IsValid (record (unlink i (changed i d n c)) { lru_list = i ∷ remove i c.lru_list })
    unfolding set_slot unlink elem distinct
    unlocked-IsValid d n b = record {
      keyed = λ x y j h. ground (arith, v.keyed x y j h);
      used = λ x y j h. ground (arith, v.used x y j h, elem-remove j i c.free_list);
      held = λ x y j h.
          ground (arith, v.held x y j h, elem-remove j i c.lru_list, elem-remove j i c.locked_list);
      apart =
          λ j. ground (arith, v.apart j, elem-remove j i c.lru_list, elem-remove j i c.locked_list);
      once = ground (arith, elem-remove i i c.lru_list, distinct-remove i c.lru_list v.once);
      listed = λ j m.
          ground (arith, v.listed j, l, elem-remove j i c.lru_list, elem-remove j i c.locked_list);
      same = λ x y j h m k.
          ground (arith, v.same x y j h, v.keyed x y j h, elem-remove j i c.lru_list, b);
    }

  abbrev released : ℕ → Bool → Cache V → Cache V
  released i d c =
      let n = (c.slot i).lock_count - 1 in
      let c' = changed i ((c.slot i).dirty || d) n c in
      if (c.slot i).lock_count == 1
      then record (unlink i c') { lru_list = i ∷ remove i c.lru_list }
      else c'

  unlock_lem :
      (i : ℕ) (d : Bool) (m : ℕ) (c : Cache V)
      → unlock i (changed i d m c) ≡ (
          let c' = changed i d (m - 1) c in
          if m - 1 == 0 then record (unlink i c') { lru_list = i ∷ remove i c'.lru_list } else c')
  unfolding unlock set_slot
  unlock_lem i d m c =
      let self : (i == i) ≡ true = ground arith in
      simp self (
        ap
          (λ (f : ℕ → Slot V).
            if m - 1 == 0
            then record (unlink i (record c { slot = f })) { lru_list = i ∷ remove i c.lru_list }
            else record c { slot = f })
          (fun_ext (λ j. elim (Bool-cases (j == i)) [ inl y ↦ rw y refl | inr n ↦ rw n refl ])))

  unlock_if :
      (i : ℕ) (d : Bool) (m : ℕ) (c : Cache V)
      → (if ltb 0 m then unlock i (changed i d m c) else changed i d m c) ≡ (
          let c' = changed i d (m - 1) c in
          if m == 1 then record (unlink i c') { lru_list = i ∷ remove i c.lru_list } else c')
  unfolding set_slot
  unlock_if i d zero c = refl
  unlock_if i d (suc zero) c = unlock_lem i d 1 c
  unlock_if i d (suc (suc m)) c = rw (unlock_lem i d (suc (suc m)) c) (ground arith)

  cache_release_lem :
      (i : ℕ) (d : Bool) (c : Cache V) → cache_release (some i) d c ≡ (true, released i d c)
  unfolding cache_release
  cache_release_lem i d c =
      ap (λ (f : Cache V). (true, f)) (unlock_if i ((c.slot i).dirty || d) (c.slot i).lock_count c)

  -- What a release of the block in the slot `i` leaves.
  pub record Releases (i : ℕ) (d : Bool) (c c' : Cache V) : Type ℓ where
    pub valid : IsValid c'
    pub views : (x y : ℕ) → view c' x y ≡ view c x y
    pub dirty : (c'.slot i).dirty ≡ ((c.slot i).dirty || d)
    pub count : (c'.slot i).lock_count ≡ (c.slot i).lock_count - 1
    pub locks :
        (j : ℕ)
        → elem j c'.locked_list ≡ (
            if j == i
            then if (c.slot i).lock_count == 1 then false else true
            else elem j c.locked_list)
    pub hashed : c'.hash ≡ c.hash
    pub free : c.free_list ≡ [] → c'.free_list ≡ []
    pub first : (c.slot i).lock_count ≡ 1 → c'.lru_list ≡ i ∷ remove i c.lru_list

  module _ (i : ℕ) (d : Bool) (c : Cache V) (v : IsValid c) (l : elem i c.locked_list ≡ true)
      (b : ((c.slot i).dirty || d) ≡ false
        → (c.slot i).buf ≡ c.disk (c.slot i).channel (c.slot i).block_no) where
    released-Releases : Releases i d c (released i d c)
    unfolding set_slot unlink view remove
    released-Releases = elim (Bool-cases ((c.slot i).lock_count == 1)) [
      | inl o ↦ rw o (record {
        valid = unlocked-IsValid i c v l ((c.slot i).dirty || d) ((c.slot i).lock_count - 1) b;
        views = λ x y. ground arith;
        dirty = ground arith;
        count = ground arith;
        locks = λ j. ground (arith, elem-remove j i c.locked_list);
        hashed = refl;
        free = λ f. ap (remove i) f;
        first = λ n. refl;
      })
      | inr o ↦ rw o (record {
        valid = changed-IsValid i c v l ((c.slot i).dirty || d) ((c.slot i).lock_count - 1);
        views = λ x y. ground arith;
        dirty = ground arith;
        count = ground arith;
        locks = λ j. ground (arith, l);
        hashed = refl;
        free = λ f. f;
        first = λ n. ground arith;
      })
    ]

    -- On a valid cache, `cache_release` of a locked slot, which is dirty then or holds what its
    -- device holds, returns true, keeps the cache valid and what its users see of every block, marks
    -- the slot dirty if it is told to, counts one lock less, and moves the slot to the head of
    -- `lru_list` just if that was the last lock.
    pub cache_release-Releases :
        ((cache_release (some i) d c).0 ≡ true) × Releases i d c (cache_release (some i) d c).1
    cache_release-Releases = rw (cache_release_lem i d c) (refl, released-Releases)
