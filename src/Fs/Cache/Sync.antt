-- ===== src/Fs/Cache/Sync.antt =====
-- The loops of a flush of the cache.
use eotan.Prelude.{
  ℕ, ◌≡◌, refl, ◌∙◌, Bool, true, false, some, List, [], ◌∷◌, arith, ◌==◌, ◌&&◌, if◌then◌else◌,
  Bool-cases, inl, inr,
}
use eotan.Kernel.State.Lists.{elem, distinct}
use eotan.Fs.Cache.{Cache, Devices, dispose, clean, flush_lru}
use eotan.Fs.Cache.Valid.{IsValid}
use eotan.Fs.Cache.Pick.{Writes}
use eotan.Fs.Cache.Clean.{Synced, clean-Cleaned}
use eotan.Fs.Cache.Flush.{Flushed, trans_Flushed, Cleaned-Flushed, Round, round}

module _ {ℓ} {V : Type ℓ} where
  -- What the first loop leaves, which is to go through `rest`.
  pub record Swept (ch : ℕ) (unmount : Bool) (rest : List ℕ) (done : Bool) (c c' : Cache V)
      : Type ℓ where
    pub flushed : Flushed done c c'
    pub synced :
        done ≡ true
        → (j : ℕ) → elem j rest ≡ true
        → (c.slot j).channel ≡ ch
        → Synced c' (c.slot j).channel (c.slot j).block_no
    pub gone :
        done ≡ true
        → unmount ≡ true
        → (x y j : ℕ) → c'.hash x y ≡ some j
        → (elem j rest && x == ch) ≡ false

  module _ (ch : ℕ) (unmount : Bool) (i : ℕ) (rest : List ℕ) (c : Cache V) (v : IsValid c) where
    other :
        (done : Bool) (c' : Cache V)
        → ((c.slot i).channel == ch) ≡ false
        → Swept ch unmount rest done c c'
        → Swept ch unmount (i ∷ rest) done c c'
    unfolding elem
    other done c' n p = record {
      flushed = p.flushed;
      synced = λ o j m q. elim (Bool-cases (i == j)) [
        | inl s ↦ ground (arith, s, q, n)
        | inr s ↦ p.synced o j (ground (arith, m, s)) q
      ];
      gone = λ o u x y j h.
          let k = p.flushed.hashed x y j h in ground (arith, p.gone o u x y j h, v.keyed x y j k);
    }

    stopped : (c' : Cache V) → Flushed false c c' → Swept ch unmount (i ∷ rest) false c c'
    stopped c' p = record { flushed = p; synced = λ o. cc; gone = λ o. cc }

    next :
        (done : Bool) (c1 c' : Cache V)
        → Round i unmount c c1
        → Swept ch unmount rest done c1 c'
        → Swept ch unmount (i ∷ rest) done c c'
    unfolding elem
    next done c1 c' r p = record {
      flushed = trans_Flushed done c c1 c' r.flushed p.flushed;
      synced = λ o j m q. elim (Bool-cases (i == j)) [
        | inl s ↦
            let same : i ≡ j = ground (arith, s) in
            rw (← same) (p.flushed.keeps o (c.slot i).channel (c.slot i).block_no r.synced)
        | inr s ↦
            let h = p.synced o j (ground (arith, m, s)) (r.flushed.channels j ∙ q) in
            rw (r.flushed.channels j, r.flushed.blocks j) at h
      ];
      gone = λ o u x y j h.
          let k = p.flushed.hashed x y j h in ground (arith, p.gone o u x y j h, r.gone u x y j k);
    }

  pub id_Flushed : (c : Cache V) → IsValid c → Flushed true c c
  id_Flushed c v = record {
    valid = v;
    views = λ x y. refl;
    locked = λ j. refl;
    hashed = λ x y j h. h;
    channels = λ j. refl;
    blocks = λ j. refl;
    keeps = λ o x y s. s;
    settled = λ o s. s;
  }

  module _ (dev : Devices V) (law : Writes dev) (ch : ℕ) (unmount : Bool) where
    -- The cache after the round for the slot `i`
    abbrev after : ℕ → Cache V → Cache V
    after i c = if unmount then dispose i (clean dev i c).1 else (clean dev i c).1

    flush_next :
        (i : ℕ) (rest : List ℕ) (c : Cache V)
        → ((c.slot i).channel == ch) ≡ true
        → (clean dev i c).0 ≡ true
        → flush_lru dev ch unmount (i ∷ rest) c ≡ flush_lru dev ch unmount rest (after i c)
    unfolding flush_lru
    flush_next i rest c e w = simp (e, w) refl

    flush_stops :
        (i : ℕ) (rest : List ℕ) (c : Cache V)
        → ((c.slot i).channel == ch) ≡ true
        → (clean dev i c).0 ≡ false
        → flush_lru dev ch unmount (i ∷ rest) c ≡ (false, (clean dev i c).1)
    unfolding flush_lru
    flush_stops i rest c e w = simp (e, w) refl

    flush_other :
        (i : ℕ) (rest : List ℕ) (c : Cache V)
        → ((c.slot i).channel == ch) ≡ false
        → flush_lru dev ch unmount (i ∷ rest) c ≡ flush_lru dev ch unmount rest c
    unfolding flush_lru
    flush_other i rest c e = simp e refl

    flush_nil : (c : Cache V) → flush_lru dev ch unmount [] c ≡ (true, c)
    unfolding flush_lru
    flush_nil c = refl

    pub flush_lru-Swept :
        (rest : List ℕ) (c : Cache V)
        → IsValid c
        → distinct rest ≡ true
        → ((j : ℕ) → elem j rest ≡ true → elem j c.lru_list ≡ true)
        → Swept ch unmount rest
            (flush_lru dev ch unmount rest c).0
            c
            (flush_lru dev ch unmount rest c).1
    unfolding elem distinct
    flush_lru-Swept [] c v d r =
        rw (flush_nil c)
          (record { flushed = id_Flushed c v; synced = λ o j m. cc; gone = λ o u x y j h. refl })
    flush_lru-Swept (i ∷ rest) c v d r =
        let l : elem i c.lru_list ≡ true = r i (ground arith) in
        let p = clean-Cleaned i c v (v.listed i (ground (arith, l))) dev law in
        elim (Bool-cases ((c.slot i).channel == ch)) [
          | inl e ↦ elim (Bool-cases (clean dev i c).0) [
            | inl w ↦ rw (flush_next i rest c e w) (
                let q = round i unmount c (clean dev i c).1 v l (rw w at p) in
                next ch unmount i rest c v (flush_lru dev ch unmount rest (after i c)).0 (after i c)
                  (flush_lru dev ch unmount rest (after i c)).1 q
                  (flush_lru-Swept rest (after i c) q.flushed.valid (ground (arith, d))
                    (λ j m. q.stays j (ground (arith, d, m)) (r j (ground (arith, m))))))
            | inr w ↦ rw (flush_stops i rest c e w) (
                stopped ch unmount i rest c v (clean dev i c).1
                  (Cleaned-Flushed i false c (clean dev i c).1 (rw w at p)))
          ]
          | inr n ↦ rw (flush_other i rest c n) (
              other ch unmount i rest c v (flush_lru dev ch unmount rest c).0
                (flush_lru dev ch unmount rest c).1 n
                (flush_lru-Swept rest c v (ground (arith, d)) (λ j m. r j (ground (arith, m)))))
        ]
