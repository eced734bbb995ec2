-- ===== src/Fs/Cache/Laws.antt =====
-- The cache in front of the devices: what its users see.
use mathlib.Core.Path.{fun_ext}
use eotan.Prelude.{
  ℕ, ◌≡◌, refl, sym, ap, ◌∙◌, true, false, Option, none, some, arith, ◌==◌, Bool-cases,
  Option-cases, inl, inr,
}
use eotan.Kernel.State.Lists.{elem, elem-remove, distinct-remove}
use eotan.Fs.Cache.{
  Slot, Cache, Devices, put_at, set_slot, unlink, set_free, claim, lock, pick, fill, load,
  cache_get,
}
use eotan.Fs.Cache.Valid.{
  view, IsValid, IsTaken, Kept, lock-IsValid, view-lock, taken, taken-IsValid, view-taken,
  taken-Kept,
}
use eotan.Fs.Cache.Pick.{Writes, Picked, pick-Picked}

module _ {ℓ} {V : Type ℓ} where
  abbrev claimed : ℕ → ℕ → ℕ → V → Cache V → Slot V
  claimed i ch b a c = record (c.slot i) {
    channel = ch;
    block_no = b;
    dirty = false;
    lock_count = 0;
    buf = a;
  }

  -- What a get of the block finds: it is locked in a slot.
  abbrev pub Found : Option ℕ → ℕ → ℕ → V → Cache V → Type ℓ
  Found none ch b a c = Unit {ℓ}
  Found (some i) ch b a c =
      (c.hash ch b ≡ some i) × ((c.slot i).buf ≡ a) × (elem i c.locked_list ≡ true)

  pub record Gets (c : Cache V) (ch b : ℕ) (o : Option ℕ) (c' : Cache V) : Type ℓ where
    pub valid : IsValid c'
    pub views : (x y : ℕ) → view c' x y ≡ view c x y
    pub kept : Kept c c'
    pub found : Found o ch b (view c ch b) c'

  module _ (dev : Devices V) where
    fill-claim :
        (ch b i : ℕ) (c : Cache V)
        → dev.reads c.disk ch b ≡ true
        → fill dev i (claim i ch b c) ≡ set_slot i (claimed i ch b (c.disk ch b) c) c
    unfolding fill claim set_slot
    fill-claim ch b i c r =
        let self : (i == i) ≡ true = ground arith in
        simp (self, r)
          (ap (λ (f : ℕ → Slot V). record c { slot = f })
            (fun_ext (λ j. elim (Bool-cases (j == i)) [ inl y ↦ rw y refl | inr n ↦ rw n refl ])))

    load_lem :
        (ch b i : ℕ) (c : Cache V)
        → dev.reads c.disk ch b ≡ true
        → load dev ch b (some i, c) ≡ (some i, taken i ch b (claimed i ch b (c.disk ch b) c) c)
    unfolding load
    load_lem ch b i c r = simp r (
        ap (λ (f : Cache V). (some i, lock i (record f { hash = put_at f.hash ch b (some i) })))
          (fill-claim ch b i c r))

    fill_fails :
        (ch b i : ℕ) (c : Cache V)
        → dev.reads c.disk ch b ≡ false
        → fill dev i (claim i ch b c) ≡ claim i ch b c
    unfolding fill claim set_slot
    fill_fails ch b i c r = let self : (i == i) ≡ true = ground arith in simp (self, r) refl

    load_fails :
        (ch b i : ℕ) (c : Cache V)
        → dev.reads c.disk ch b ≡ false
        → load dev ch b (some i, c) ≡ (none, set_free i (claim i ch b c))
    unfolding load
    load_fails ch b i c r =
        simp r (ap (λ (f : Cache V). (none, set_free i f)) (fill_fails ch b i c r))

  module _ (i ch b : ℕ) (c : Cache V) (v : IsTaken i c) where
    freed-IsValid : IsValid (set_free i (claim i ch b c))
    unfolding set_free claim unlink set_slot elem
    freed-IsValid = record {
      keyed = λ x y j h. ground (arith, v.keyed x y j h);
      used =
          λ x y j h. ground (arith, v.keyed x y j h, v.used x y j h, elem-remove j i c.free_list);
      held = λ x y j h. ground (
        arith,
        v.keyed x y j h,
        v.held x y j h,
        elem-remove j i c.lru_list,
        elem-remove j i c.locked_list,
      );
      apart =
          λ j. ground (arith, v.apart j, elem-remove j i c.lru_list, elem-remove j i c.locked_list);
      once = distinct-remove i c.lru_list v.once;
      listed = λ j l.
          ground (arith, v.listed j, elem-remove j i c.lru_list, elem-remove j i c.locked_list);
      same =
          λ x y j h l d. ground (arith, v.same x y j, v.keyed x y j h, elem-remove j i c.lru_list);
    }

    view-freed : (x y : ℕ) → view (set_free i (claim i ch b c)) x y ≡ view c x y
    unfolding view set_free claim unlink set_slot
    view-freed x y = elim (Option-cases (c.hash x y)) [
      | inl n ↦ ground arith
      | inr (j, h) ↦ ground (arith, v.keyed x y j h)
    ]

    freed-Kept : Kept c (set_free i (claim i ch b c))
    unfolding set_free claim unlink set_slot
    freed-Kept x y j h l = ground (arith, v.keyed x y j h, elem-remove j i c.locked_list)

  pub taken-Found :
      (i ch b : ℕ) (s : Slot V) (c : Cache V) → Found (some i) ch b s.buf (taken i ch b s c)
  unfolding lock unlink set_slot elem
  taken-Found i ch b s c = ground arith

  put_at_same :
      (m : ℕ → ℕ → V) (ch b : ℕ) (a : V) → m ch b ≡ a → (x y : ℕ) → put_at m ch b a x y ≡ m x y
  put_at_same m ch b a e x y = ground arith

  lock-Kept : (i : ℕ) (c : Cache V) → Kept c (lock i c)
  unfolding lock unlink set_slot elem
  lock-Kept i c x y j h l = ground (arith, elem-remove j i c.locked_list)

  pub lock-Found :
      (i ch b : ℕ) (c : Cache V)
      → c.hash ch b ≡ some i
      → Found (some i) ch b (view c ch b) (lock i c)
  unfolding lock unlink set_slot elem view
  lock-Found i ch b c e = rw (e, view) (ground arith)

  -- A get of a block that is not there, once a slot was looked for.
  module _ (dev : Devices V) (ch b : ℕ) (c c' : Cache V) (e : c.hash ch b ≡ none) where
    view_absent : (c : Cache V) → c.hash ch b ≡ none → view c ch b ≡ c.disk ch b
    unfolding view
    view_absent c n = rw (n, view) refl

    loaded :
        (i : ℕ)
        → Picked c (some i) c'
        → Gets c ch b (load dev ch b (some i, c')).0 (load dev ch b (some i, c')).1
    loaded i p =
        let t = p.taken i refl in
        let n = p.absent ch b e in
        let old : c'.disk ch b ≡ view c ch b = sym (view_absent c' n) ∙ p.views ch b in
        elim (Bool-cases (dev.reads c'.disk ch b)) [
          | inl r ↦ rw (load_lem dev ch b i c' r) (record {
            valid = taken-IsValid i ch b (claimed i ch b (c'.disk ch b) c') c' t n refl refl;
            views = λ x y.
                view-taken i ch b (claimed i ch b (c'.disk ch b) c') c' t n x y
                ∙ put_at_same (view c') ch b (c'.disk ch b) (view_absent c' n) x y
                ∙ p.views x y;
            kept = λ x y j h l.
                let (h', q, l') = p.kept x y j h l in
                let (h'', q', l'') =
                  taken-Kept i ch b (claimed i ch b (c'.disk ch b) c') c' t n x y j h' l' in
                (h'', q' ∙ q, l'');
            found = rw (← old) (taken-Found i ch b (claimed i ch b (c'.disk ch b) c') c');
          })
          | inr r ↦ rw (load_fails dev ch b i c' r) (record {
            valid = freed-IsValid i ch b c' t;
            views = λ x y. view-freed i ch b c' t x y ∙ p.views x y;
            kept = λ x y j h l.
                let (h', q, l') = p.kept x y j h l in
                let (h'', q', l'') = freed-Kept i ch b c' t x y j h' l' in (h'', q' ∙ q, l'');
            found = tt;
          })
        ]

    get_absent :
        (o : Option ℕ)
        → Picked c o c'
        → Gets c ch b (load dev ch b (o, c')).0 (load dev ch b (o, c')).1
    unfolding load
    get_absent none p = record { valid = p.valid refl; views = p.views; kept = p.kept; found = tt }
    get_absent (some i) p = loaded i p

  lock-Gets :
      (ch b i : ℕ) (c : Cache V)
      → IsValid c
      → c.hash ch b ≡ some i
      → Gets c ch b (some i) (lock i c)
  lock-Gets ch b i c v e =
      let (p, q) = v.keyed ch b i e in
      record {
        valid = lock-IsValid i c v (rw (p, q) e);
        views = view-lock i c;
        kept = lock-Kept i c;
        found = lock-Found i ch b c e;
      }

  pub cache_get-Gets :
      (dev : Devices V)
      → Writes dev
      → (ch b : ℕ) (c : Cache V) → IsValid c
      → Gets c ch b (cache_get dev ch b c).0 (cache_get dev ch b c).1
  unfolding cache_get
  cache_get-Gets dev law ch b c v = elim (Option-cases (c.hash ch b)) [
    | inl n ↦
        rw (n, cache_get)
          (get_absent dev ch b c (pick dev c.free_list c.lru_list c).1 n
            (pick dev c.free_list c.lru_list c).0 (pick-Picked dev law c v))
    | inr (i, e) ↦ rw (e, cache_get) (lock-Gets ch b i c v e)
  ]
