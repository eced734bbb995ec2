-- ===== src/Fs/Cache/Create.antt =====
-- A block that is made, not read.
use eotan.Prelude.{
  ℕ, ◌≡◌, refl, ◌∙◌, true, false, Option, none, some, arith, Option-cases, inl, inr,
}
use eotan.Kernel.State.Lists.{elem}
use eotan.Fs.Cache.{
  Slot, Cache, Devices, put_at, set_slot, claim, lock, pick, blank, make, cache_create,
}
use eotan.Fs.Cache.Valid.{view, IsValid, lock-IsValid, view-lock, taken, taken-IsValid, view-taken}
use eotan.Fs.Cache.Pick.{Writes, Picked, pick-Picked}
use eotan.Fs.Cache.Laws.{Found, taken-Found, lock-Found}

module _ {ℓ} {V : Type ℓ} where
  -- To the users the block is zeros now, if it could be made.
  abbrev pub made : Option ℕ → V → ℕ → ℕ → Cache V → ℕ → ℕ → V
  made none zeros ch b c = view c
  made (some i) zeros ch b c = put_at (view c) ch b zeros

  pub record Creates (zeros : V) (ch b : ℕ) (o : Option ℕ) (c c' : Cache V) : Type ℓ where
    pub valid : IsValid c'
    pub views : (x y : ℕ) → view c' x y ≡ made o zeros ch b c x y
    pub found : Found o ch b zeros c'

  module _ (zeros : V) (i ch b : ℕ) (c : Cache V) (v : IsValid c) (e : c.hash ch b ≡ some i)
      (l : elem i c.locked_list ≡ true) where
    blank-Creates : (dev : Devices V) → Creates zeros ch b (some i) c (blank dev zeros i c)
    unfolding blank set_slot view
    blank-Creates dev = record {
      valid = record {
        keyed = λ x y j h. ground (arith, v.keyed x y j h);
        used = v.used;
        held = v.held;
        apart = v.apart;
        once = v.once;
        listed = λ j m. ground (arith, v.listed j m);
        same = λ x y j h m k. ground (arith, v.same x y j h m, v.apart j, l);
      };
      views = λ x y. elim (Option-cases (c.hash x y)) [
        | inl n ↦ ground (arith, e)
        | inr (j, h) ↦ ground (arith, e, h, v.keyed x y j h, v.keyed ch b i e)
      ];
      found = ground (arith, e, l);
    }

  trans_Creates :
      (zeros a : V) (i ch b : ℕ) (c c1 c2 : Cache V)
      → ((x y : ℕ) → view c1 x y ≡ put_at (view c) ch b a x y)
      → Creates zeros ch b (some i) c1 c2
      → Creates zeros ch b (some i) c c2
  trans_Creates zeros a i ch b c c1 c2 e p = record {
    valid = p.valid;
    views = λ x y. p.views x y ∙ ground (arith, e x y);
    found = p.found;
  }

  abbrev claimed : ℕ → ℕ → ℕ → Cache V → Slot V
  claimed i ch b c = record (c.slot i) { channel = ch; block_no = b; dirty = false; lock_count = 0 }

  module _ (dev : Devices V) (zeros : V) (ch b : ℕ) (c : Cache V) where
    present :
        (i : ℕ)
        → IsValid c
        → c.hash ch b ≡ some i
        → Creates zeros ch b (some i) c (blank dev zeros i (lock i c))
    present i v e =
        let (p, q) = v.keyed ch b i e in
        let (h, a, l) = lock-Found i ch b c e in
        trans_Creates zeros (view c ch b) i ch b c (lock i c) (blank dev zeros i (lock i c))
          (λ x y. view-lock i c x y ∙ ground arith)
          (blank-Creates zeros i ch b (lock i c) (lock-IsValid i c v (rw (p, q) e)) h l dev)

    absent :
        (c' : Cache V)
        → c.hash ch b ≡ none
        → (o : Option ℕ) → Picked c o c'
        → Creates zeros ch b (make dev zeros ch b (o, c')).0 c (make dev zeros ch b (o, c')).1
    unfolding make claim
    absent c' e none p = record { valid = p.valid refl; views = p.views; found = tt }
    absent c' e (some i) p =
        let t = p.taken i refl in
        let n = p.absent ch b e in
        let s = claimed i ch b c' in
        let (h, a, l) = taken-Found i ch b s c' in
        trans_Creates zeros s.buf i ch b c (taken i ch b s c')
          (blank dev zeros i (taken i ch b s c'))
          (λ x y. view-taken i ch b s c' t n x y ∙ ground (arith, p.views x y))
          (blank-Creates zeros i ch b (taken i ch b s c') (taken-IsValid i ch b s c' t n refl refl)
            h l dev)

  -- On a valid cache in front of devices on which a write that succeeds is found again,
  -- `cache_create` of a block leaves the cache valid; where it returns a slot, the users see zeros
  -- in this block and no change in any other, and the slot holds the zeros and is locked; where it
  -- fails, they see no change.
  pub cache_create-Creates :
      (dev : Devices V)
      → Writes dev
      → (zeros : V) (ch b : ℕ) (c : Cache V) → IsValid c
      → Creates zeros ch b (cache_create dev zeros ch b c).0 c (cache_create dev zeros ch b c).1
  unfolding cache_create
  cache_create-Creates dev law zeros ch b c v = elim (Option-cases (c.hash ch b)) [
    | inl n ↦
        rw (n, cache_create)
          (absent dev zeros ch b c (pick dev c.free_list c.lru_list c).1 n
            (pick dev c.free_list c.lru_list c).0 (pick-Picked dev law c v))
    | inr (i, e) ↦ rw (e, cache_create) (present dev zeros ch b c i v e)
  ]
