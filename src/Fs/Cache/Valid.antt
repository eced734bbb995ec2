-- ===== src/Fs/Cache/Valid.antt =====
-- What every operation of the cache keeps.
use eotan.Prelude.{
  ℕ, ◌≡◌, true, false, none, some, List, ◌∷◌, arith, ◌==◌, ◌&&◌, ◌||◌, Option-cases, inl, inr,
}
use eotan.Kernel.State.Lists.{elem, elem-remove, elem_head, distinct, distinct-remove}
use eotan.Fs.Cache.{Slot, Cache, put_at, set_slot, unlink, forget, lock}

module _ {ℓ} {V : Type ℓ} where
  -- What a block holds, to the users of the cache.
  unfoldable pub view : Cache V → ℕ → ℕ → V
  view c x y = elim (c.hash x y) [ none ↦ c.disk x y | some i ↦ (c.slot i).buf ]

  pub record IsValid (c : Cache V) : Type ℓ where
    pub keyed :
        (x y i : ℕ) → c.hash x y ≡ some i → ((c.slot i).channel ≡ x) × ((c.slot i).block_no ≡ y)
    pub used : (x y i : ℕ) → c.hash x y ≡ some i → elem i c.free_list ≡ false
    pub held :
        (x y i : ℕ) → c.hash x y ≡ some i → (elem i c.lru_list || elem i c.locked_list) ≡ true
    pub apart : (i : ℕ) → (elem i c.lru_list && elem i c.locked_list) ≡ false
    pub once : distinct c.lru_list ≡ true
    pub listed :
        (i : ℕ)
        → (elem i c.lru_list || elem i c.locked_list) ≡ true
        → c.hash (c.slot i).channel (c.slot i).block_no ≡ some i
    pub same :
        (x y i : ℕ)
        → c.hash x y ≡ some i
        → elem i c.lru_list ≡ true
        → (c.slot i).dirty ≡ false
        → (c.slot i).buf ≡ c.disk x y

  pub lock-IsValid :
      (i : ℕ) (c : Cache V)
      → IsValid c
      → c.hash (c.slot i).channel (c.slot i).block_no ≡ some i
      → IsValid (lock i c)
  unfolding lock unlink set_slot elem
  lock-IsValid i c v e = record {
    keyed = λ x y j h. ground (arith, v.keyed x y j h);
    used = λ x y j h. ground (arith, v.used x y j h, elem-remove j i c.free_list);
    held = λ x y j h.
        ground (arith, v.held x y j h, elem-remove j i c.lru_list, elem-remove j i c.locked_list);
    apart =
        λ j. ground (arith, v.apart j, elem-remove j i c.lru_list, elem-remove j i c.locked_list);
    once = distinct-remove i c.lru_list v.once;
    listed = λ j l.
        ground (arith, v.listed j, elem-remove j i c.lru_list, elem-remove j i c.locked_list);
    same = λ x y j h l d. ground (arith, v.same x y j, elem-remove j i c.lru_list);
  }

  pub view-lock : (i : ℕ) (c : Cache V) (x y : ℕ) → view (lock i c) x y ≡ view c x y
  unfolding view lock unlink set_slot
  view-lock i c x y = ground arith

  -- A slot whose block is what the device has is given up.
  pub view-forget :
      (i : ℕ) (c : Cache V)
      → c.hash (c.slot i).channel (c.slot i).block_no ≡ some i
      → (c.slot i).buf ≡ c.disk (c.slot i).channel (c.slot i).block_no
      → (x y : ℕ) → view (forget i c) x y ≡ view c x y
  unfolding view forget
  view-forget i c e b x y = ground arith

  -- The blocks in use stay in their slots.
  abbrev pub Kept : Cache V → Cache V → Type ℓ
  Kept c c' =
      (x y j : ℕ)
      → c.hash x y ≡ some j
      → elem j c.locked_list ≡ true
      → (c'.hash x y ≡ some j) × ((c'.slot j).buf ≡ (c.slot j).buf) × (elem j c'.locked_list ≡ true)

  -- Where a slot `i` is taken for another block: it holds none.
  pub record IsTaken (i : ℕ) (c : Cache V) : Type ℓ where
    pub keyed :
        (x y j : ℕ)
        → c.hash x y ≡ some j
        → ((c.slot j).channel ≡ x) × ((c.slot j).block_no ≡ y) × ((j == i) ≡ false)
    pub used : (x y j : ℕ) → c.hash x y ≡ some j → elem j c.free_list ≡ false
    pub held :
        (x y j : ℕ) → c.hash x y ≡ some j → (elem j c.lru_list || elem j c.locked_list) ≡ true
    pub apart : (j : ℕ) → (elem j c.lru_list && elem j c.locked_list) ≡ false
    pub once : distinct c.lru_list ≡ true
    pub idle : elem i c.locked_list ≡ false
    pub listed :
        (j : ℕ)
        → (elem j c.lru_list || elem j c.locked_list) ≡ true
        → (j == i) ≡ false
        → c.hash (c.slot j).channel (c.slot j).block_no ≡ some j
    pub same :
        (x y j : ℕ)
        → c.hash x y ≡ some j
        → elem j c.lru_list ≡ true
        → (c.slot j).dirty ≡ false
        → (c.slot j).buf ≡ c.disk x y

  pub forget-IsTaken :
      (i : ℕ) (c : Cache V)
      → IsValid c
      → c.hash (c.slot i).channel (c.slot i).block_no ≡ some i
      → elem i c.lru_list ≡ true
      → IsTaken i (forget i c)
  unfolding forget
  forget-IsTaken i c v e l = record {
    keyed = λ x y j h. ground (arith, v.keyed x y j);
    used = λ x y j h. ground (arith, v.used x y j);
    held = λ x y j h. ground (arith, v.held x y j);
    apart = v.apart;
    once = v.once;
    idle = ground (arith, v.apart i);
    listed =
        λ j m n. ground (arith, v.listed j m, v.keyed (c.slot j).channel (c.slot j).block_no i);
    same = λ x y j h m d. ground (arith, v.same x y j);
  }

  pub free-IsTaken :
      (i : ℕ) (rest : List ℕ) (c : Cache V) → IsValid c → c.free_list ≡ i ∷ rest → IsTaken i c
  unfolding elem
  free-IsTaken i rest c v e = record {
    keyed = λ x y j h. let (p, q) = v.keyed x y j h in (p, q, other x y j h);
    used = v.used;
    held = v.held;
    apart = v.apart;
    once = v.once;
    idle = idle;
    listed = λ j m n. v.listed j m;
    same = v.same;
  }
    where
      f : elem i c.free_list ≡ true
      f = rw e (elem_head i rest)

      other : (x y j : ℕ) → c.hash x y ≡ some j → (j == i) ≡ false
      other x y j h = ground (arith, v.used x y j h, f)

      idle : elem i c.locked_list ≡ false
      idle = ground (arith, v.listed i, v.used (c.slot i).channel (c.slot i).block_no i, f)

  -- The block of `ch` and `b` is put into the slot `i`.
  abbrev pub taken : ℕ → ℕ → ℕ → Slot V → Cache V → Cache V
  taken i ch b s c = lock i (record (set_slot i s c) { hash = put_at c.hash ch b (some i) })

  pub taken-IsValid :
      (i ch b : ℕ) (s : Slot V) (c : Cache V)
      → IsTaken i c
      → c.hash ch b ≡ none
      → s.channel ≡ ch
      → s.block_no ≡ b
      → IsValid (taken i ch b s c)
  unfolding lock unlink set_slot elem
  taken-IsValid i ch b s c v e p q = record {
    keyed = λ x y j h. ground (arith, v.keyed x y j);
    used = λ x y j h. ground (arith, v.used x y j, elem-remove j i c.free_list);
    held = λ x y j h.
        ground (arith, v.held x y j, elem-remove j i c.lru_list, elem-remove j i c.locked_list);
    apart =
        λ j. ground (arith, v.apart j, elem-remove j i c.lru_list, elem-remove j i c.locked_list);
    once = distinct-remove i c.lru_list v.once;
    listed = λ j l.
        ground (arith, v.listed j, elem-remove j i c.lru_list, elem-remove j i c.locked_list, e);
    same = λ x y j h l d. ground (arith, v.same x y j, elem-remove j i c.lru_list, v.keyed x y j);
  }

  pub view-taken :
      (i ch b : ℕ) (s : Slot V) (c : Cache V)
      → IsTaken i c
      → c.hash ch b ≡ none
      → (x y : ℕ) → view (taken i ch b s c) x y ≡ put_at (view c) ch b s.buf x y
  unfolding view lock unlink set_slot
  view-taken i ch b s c v e x y = elim (Option-cases (c.hash x y)) [
    | inl n ↦ ground arith
    | inr (j, h) ↦ ground (arith, v.keyed x y j h)
  ]

  pub taken-Kept :
      (i ch b : ℕ) (s : Slot V) (c : Cache V)
      → IsTaken i c
      → c.hash ch b ≡ none
      → Kept c (taken i ch b s c)
  unfolding lock unlink set_slot elem
  taken-Kept i ch b s c v e x y j h l =
      ground (arith, v.keyed x y j h, elem-remove j i c.locked_list)
