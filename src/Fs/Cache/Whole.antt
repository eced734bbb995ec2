-- ===== src/Fs/Cache/Whole.antt =====
-- A flush of the cache as a whole.
use eotan.Prelude.{
  ℕ, ◌≡◌, refl, sym, ap, ◌∙◌, Bool, true, false, some, List, [], ◌∷◌, arith, ◌==◌, if◌then◌else◌,
  Bool-cases, Option-cases, inl, inr,
}
use eotan.Kernel.State.Lists.{elem}
use eotan.Fs.Cache.{Cache, Devices, clean, flush_lru, flush_locked, cache_flush}
use eotan.Fs.Cache.Valid.{view, IsValid}
use eotan.Fs.Cache.Pick.{Writes}
use eotan.Fs.Cache.Clean.{Synced, Settled, clean-Cleaned}
use eotan.Fs.Cache.Flush.{Flushed, trans_Flushed, Cleaned-Flushed}
use eotan.Fs.Cache.Sync.{Swept, flush_lru-Swept, id_Flushed}

module _ {ℓ} {V : Type ℓ} where
  -- What the second loop leaves, which is to go through `rest`.
  record Written (rest : List ℕ) (done : Bool) (c c' : Cache V) : Type ℓ where
    flushed : Flushed done c c'
    synced :
        done ≡ true
        → Settled c
        → (j : ℕ) → elem j rest ≡ true
        → Synced c' (c.slot j).channel (c.slot j).block_no

  -- What a flush leaves.
  pub record Flushes (ch : ℕ) (unmount : Bool) (done : Bool) (c c' : Cache V) : Type ℓ where
    pub valid : IsValid c'
    pub views : (x y : ℕ) → view c' x y ≡ view c x y
    pub locks : (j : ℕ) → elem j c'.locked_list ≡ elem j c.locked_list
    pub synced :
        done ≡ true
        → Settled c
        → (x y : ℕ) → ((j : ℕ) → c.hash x y ≡ some j → elem j c.lru_list ≡ true → x ≡ ch)
        → c'.disk x y ≡ view c x y
    pub gone :
        done ≡ true
        → unmount ≡ true
        → (y j : ℕ) → c'.hash ch y ≡ some j
        → elem j c.locked_list ≡ true

  module _ (dev : Devices V) (law : Writes dev) where
    flush_locked_nil : (c : Cache V) → flush_locked dev [] c ≡ (true, c)
    unfolding flush_locked
    flush_locked_nil c = refl

    flush_locked_lem :
        (i : ℕ) (rest : List ℕ) (c : Cache V)
        → flush_locked dev (i ∷ rest) c ≡ (
            if (clean dev i c).0
            then flush_locked dev rest (clean dev i c).1
            else (false, (clean dev i c).1))
    unfolding flush_locked
    flush_locked_lem i rest c = refl

    flush_locked-Written :
        (rest : List ℕ) (c : Cache V)
        → IsValid c
        → ((j : ℕ) → elem j rest ≡ true → elem j c.locked_list ≡ true)
        → Written rest (flush_locked dev rest c).0 c (flush_locked dev rest c).1
    unfolding elem
    flush_locked-Written [] c v r =
        rw (flush_locked_nil c) (record { flushed = id_Flushed c v; synced = λ o s j m. cc })
    flush_locked-Written (i ∷ rest) c v r =
        let e : c.hash (c.slot i).channel (c.slot i).block_no ≡ some i =
          v.listed i (ground (arith, r i)) in
        let p = clean-Cleaned i c v e dev law in
        rw (flush_locked_lem i rest c) (elim (Bool-cases (clean dev i c).0) [
          | inl w ↦ rw w (
              let p' = rw w at p in
              let f = Cleaned-Flushed i true c (clean dev i c).1 p' in
              let q =
                flush_locked-Written rest (clean dev i c).1 p'.valid
                  (λ j m. ap (elem j) p'.locked ∙ r j (ground (arith, m))) in
              record {
                flushed =
                    trans_Flushed (flush_locked dev rest (clean dev i c).1).0 c (clean dev i c).1
                      (flush_locked dev rest (clean dev i c).1).1 f q.flushed;
                synced = λ o s j m. elim (Bool-cases (i == j)) [
                  | inl t ↦
                      let same : i ≡ j = ground (arith, t) in
                      rw (← same) (
                        q.flushed.keeps o (c.slot i).channel (c.slot i).block_no (
                          p'.synced refl
                            (λ d. sym (s (c.slot i).channel (c.slot i).block_no i e d))))
                  | inr t ↦
                      let h = q.synced o (p'.settled refl s) j (ground (arith, m, t)) in
                      rw (p'.channels j, p'.blocks j) at h
                ];
              })
          | inr w ↦ rw w (record {
            flushed = Cleaned-Flushed i false c (clean dev i c).1 (rw w at p);
            synced = λ o. cc;
          })
        ])

    flush_whole :
        (ch : ℕ) (unmount : Bool) (c : Cache V)
        → IsValid c
        → (c1 : Cache V) (done : Bool) (c' : Cache V) → Swept ch unmount c.lru_list true c c1
        → Written c1.locked_list done c1 c'
        → Flushes ch unmount done c c'
    unfolding view
    flush_whole ch unmount c v c1 done c' p q =
        let f = trans_Flushed done c c1 c' p.flushed q.flushed in
        record {
          valid = f.valid;
          views = f.views;
          locks = f.locked;
          synced = λ o s x y r. elim (Option-cases (c.hash x y)) [
            | inl n ↦ f.keeps o x y (rw (n, view) refl) ∙ f.views x y
            | inr (j, h) ↦
                let (k, l) = v.keyed x y j h in
                elim (Bool-cases (elem j c.lru_list)) [
                  | inl m ↦
                      let t =
                        q.flushed.keeps o (c.slot j).channel (c.slot j).block_no
                          (p.synced refl j m (k ∙ r j h m)) in
                      (rw (k, l) at t) ∙ f.views x y
                  | inr m ↦
                      let i : elem j c1.locked_list ≡ true =
                        p.flushed.locked j ∙ ground (arith, v.held x y j h, m) in
                      let t = q.synced o (p.flushed.settled refl s) j i in
                      (rw (p.flushed.channels j, p.flushed.blocks j, k, l) at t) ∙ f.views x y
                ]
          ];
          gone = λ o u y j h.
              let k = q.flushed.hashed ch y j h in
              ground (arith, p.gone refl u ch y j k, v.held ch y j (p.flushed.hashed ch y j k));
        }

    flush_fails :
        (ch : ℕ) (unmount : Bool) (c c' : Cache V)
        → Swept ch unmount c.lru_list false c c'
        → Flushes ch unmount false c c'
    flush_fails ch unmount c c' p = record {
      valid = p.flushed.valid;
      views = p.flushed.views;
      locks = p.flushed.locked;
      synced = λ o. cc;
      gone = λ o. cc;
    }

    -- On a valid cache in front of devices on which a write that succeeds is found again,
    -- `cache_flush` leaves the cache valid, what its users see of every block and which slots are
    -- locked, whether it succeeds or not. Where it succeeds and every block that differs from its
    -- device was marked dirty, the devices hold what the users see, but for the unlocked blocks of
    -- other channels; and where the device is unmounted as well, just locked blocks of its channel
    -- are left in the cache.
    pub cache_flush-Flushes :
        (ch : ℕ) (unmount : Bool) (c : Cache V)
        → IsValid c
        → Flushes ch unmount (cache_flush dev ch unmount c).0 c (cache_flush dev ch unmount c).1
    unfolding cache_flush
    cache_flush-Flushes ch unmount c v =
        let p = flush_lru-Swept dev law ch unmount c.lru_list c v v.once (λ j m. m) in
        elim (Bool-cases (flush_lru dev ch unmount c.lru_list c).0) [
          | inl w ↦
              let c1 = (flush_lru dev ch unmount c.lru_list c).1 in
              let p' = rw w at p in
              simp w (
                flush_whole ch unmount c v c1 (flush_locked dev c1.locked_list c1).0
                  (flush_locked dev c1.locked_list c1).1 p'
                  (flush_locked-Written c1.locked_list c1 p'.flushed.valid (λ j m. m)))
          | inr w ↦
              simp w
                (flush_fails ch unmount c (flush_lru dev ch unmount c.lru_list c).1 (rw w at p))
        ]
