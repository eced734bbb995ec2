-- ===== src/Fs/Cache/Pick.antt =====
-- Taking a slot for another block.
use eotan.Prelude.{
  ℕ, ◌≡◌, refl, sym, ◌∙◌, true, Option, none, some, List, [], ◌∷◌, arith, Bool-cases, inl, inr,
}
use eotan.Kernel.State.Lists.{elem, elem_head}
use eotan.Fs.Cache.{Cache, Devices, put_at, forget, sweep, evict, pick}
use eotan.Fs.Cache.Valid.{view, IsValid, IsTaken, Kept, forget-IsTaken, free-IsTaken, view-forget}

-- A write that succeeds is found again.
abbrev pub Writes {ℓ} : {V : Type ℓ} → Devices V → Type ℓ
Writes {V} dev =
    (d : ℕ → ℕ → V) (x y : ℕ) (a : V) → (dev.writes d x y a).0 ≡ true → (dev.writes d x y a).1 ≡ a

module _ {ℓ} {V : Type ℓ} where
  pub put_at_self : (m : ℕ → ℕ → V) (x y : ℕ) (a : V) → put_at m x y a x y ≡ a
  put_at_self m x y a = ground arith

  -- The cache after the block of the slot `i` was written, or may have been.
  abbrev pub written : ℕ → V → Cache V → Cache V
  written i a c = record c { disk = put_at c.disk (c.slot i).channel (c.slot i).block_no a }

  module _ (i : ℕ) (a : V) (c : Cache V) (v : IsValid c)
      (e : c.hash (c.slot i).channel (c.slot i).block_no ≡ some i) where
    pub view-written : (x y : ℕ) → view (written i a c) x y ≡ view c x y
    unfolding view
    view-written x y = ground arith

    pub written-IsValid : (c.slot i).dirty ≡ true → IsValid (written i a c)
    written-IsValid d = record {
      keyed = v.keyed;
      used = v.used;
      held = v.held;
      apart = v.apart;
      once = v.once;
      listed = v.listed;
      same = λ x y j h l n. ground (arith, v.same x y j h l n, v.keyed x y j h, e);
    }

  -- What is left when a slot was looked for.
  pub record Picked (c : Cache V) (o : Option ℕ) (c' : Cache V) : Type ℓ where
    pub views : (x y : ℕ) → view c' x y ≡ view c x y
    pub absent : (x y : ℕ) → c.hash x y ≡ none → c'.hash x y ≡ none
    pub kept : Kept c c'
    pub taken : (i : ℕ) → o ≡ some i → IsTaken i c'
    pub valid : o ≡ none → IsValid c'

  forget-Picked :
      (i : ℕ) (c : Cache V)
      → IsValid c
      → c.hash (c.slot i).channel (c.slot i).block_no ≡ some i
      → elem i c.lru_list ≡ true
      → (c.slot i).buf ≡ c.disk (c.slot i).channel (c.slot i).block_no
      → Picked c (some i) (forget i c)
  unfolding forget
  forget-Picked i c v e l b = record {
    views = view-forget i c e b;
    absent = λ x y h. ground (arith, h);
    kept = λ x y j h m. ground (arith, v.apart j, v.keyed x y j h);
    taken = λ j h. let same : i ≡ j = cc in rw (← same) (forget-IsTaken i c v e l);
    valid = λ h. cc;
  }

  module _ (dev : Devices V) (law : Writes dev) where
    evict-Picked :
        (i : ℕ) (rest : List ℕ) (c : Cache V)
        → IsValid c
        → c.lru_list ≡ i ∷ rest
        → Picked c (evict dev i c).0 (evict dev i c).1
    unfolding evict sweep
    evict-Picked i rest c v e =
        let l : elem i c.lru_list ≡ true = rw e (elem_head i rest) in
        let h : c.hash (c.slot i).channel (c.slot i).block_no ≡ some i =
          v.listed i (ground arith) in
        elim (Bool-cases (c.slot i).dirty) [
          | inl d ↦
              elim (Bool-cases
                (dev.writes c.disk (c.slot i).channel (c.slot i).block_no (c.slot i).buf).0) [
                  | inl w ↦
                      simp (d, w)
                        (let a =
                            law c.disk (c.slot i).channel (c.slot i).block_no (c.slot i).buf w in
                          let m =
                            (dev.writes c.disk (c.slot i).channel (c.slot i).block_no
                              (c.slot i).buf).1 in
                          let p =
                            forget-Picked i (written i m c) (written-IsValid i m c v h d) h l (
                              sym (
                                put_at_self c.disk (c.slot i).channel (c.slot i).block_no m ∙ a)) in
                          record {
                            views = λ x y. p.views x y ∙ view-written i m c v h x y;
                            absent = p.absent;
                            kept = p.kept;
                            taken = p.taken;
                            valid = p.valid;
                          })
                  | inr w ↦
                      simp (d, w)
                        (let m =
                            (dev.writes c.disk (c.slot i).channel (c.slot i).block_no
                              (c.slot i).buf).1 in
                          record {
                            views = view-written i m c v h;
                            absent = λ x y n. n;
                            kept = λ x y j n k. (n, refl, k);
                            taken = λ j n. cc;
                            valid = λ n. written-IsValid i m c v h d;
                          })
                ]
          | inr d ↦
              simp d
                (forget-Picked i c v h l (v.same (c.slot i).channel (c.slot i).block_no i h l d))
        ]

    pick_from :
        (free lru : List ℕ) (c : Cache V)
        → IsValid c
        → c.free_list ≡ free
        → c.lru_list ≡ lru
        → Picked c (pick dev free lru c).0 (pick dev free lru c).1
    unfolding pick evict
    pick_from (i ∷ rest) lru c v e f = record {
      views = λ x y. refl;
      absent = λ x y n. n;
      kept = λ x y j n k. (n, refl, k);
      taken = λ j h. let same : i ≡ j = cc in rw (← same) (free-IsTaken i rest c v e);
      valid = λ h. cc;
    }
    pick_from [] (i ∷ rest) c v e f = evict-Picked i rest c v f
    pick_from [] [] c v e f = record {
      views = λ x y. refl;
      absent = λ x y n. n;
      kept = λ x y j n k. (n, refl, k);
      taken = λ j h. cc;
      valid = λ h. v;
    }

    pub pick-Picked :
        (c : Cache V)
        → IsValid c
        → Picked c (pick dev c.free_list c.lru_list c).0 (pick dev c.free_list c.lru_list c).1
    pick-Picked c v = pick_from c.free_list c.lru_list c v refl refl
