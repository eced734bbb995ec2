-- ===== src/Fs/Cache/Clean.antt =====
-- One dirty block is written to its device.
use eotan.Prelude.{
  ℕ, ◌≡◌, refl, sym, ◌∙◌, Bool, true, false, some, arith, ◌==◌, Bool-cases, Option-cases, inl, inr,
}
use eotan.Fs.Cache.{Cache, Devices, set_slot, sweep, clean}
use eotan.Fs.Cache.Valid.{view, IsValid}
use eotan.Fs.Cache.Pick.{Writes, written, view-written, written-IsValid}

module _ {ℓ} {V : Type ℓ} where
  -- The device has the block as the users of the cache see it.
  abbrev pub Synced : Cache V → ℕ → ℕ → Type ℓ
  Synced c x y = c.disk x y ≡ view c x y

  -- A block that differs from the device's is dirty.
  abbrev pub Settled : Cache V → Type ℓ
  Settled c =
      (x y j : ℕ) → c.hash x y ≡ some j → (c.slot j).dirty ≡ false → c.disk x y ≡ (c.slot j).buf

  pub record Cleaned (i : ℕ) (done : Bool) (c c' : Cache V) : Type ℓ where
    pub valid : IsValid c'
    pub views : (x y : ℕ) → view c' x y ≡ view c x y
    pub lru : c'.lru_list ≡ c.lru_list
    pub locked : c'.locked_list ≡ c.locked_list
    pub hashed : c'.hash ≡ c.hash
    pub channels : (j : ℕ) → (c'.slot j).channel ≡ (c.slot j).channel
    pub blocks : (j : ℕ) → (c'.slot j).block_no ≡ (c.slot j).block_no
    pub keeps : done ≡ true → (x y : ℕ) → Synced c x y → Synced c' x y
    pub synced :
        done ≡ true
        → ((c.slot i).dirty ≡ false
            → (c.slot i).buf ≡ c.disk (c.slot i).channel (c.slot i).block_no)
        → Synced c' (c.slot i).channel (c.slot i).block_no
    pub settled : done ≡ true → Settled c → Settled c'

  -- The slot `i` as its device has it now
  abbrev cleaned : ℕ → Cache V → Cache V
  cleaned i c = set_slot i (record (c.slot i) { dirty = false }) (written i (c.slot i).buf c)

  module _ (i : ℕ) (c : Cache V) (v : IsValid c)
      (e : c.hash (c.slot i).channel (c.slot i).block_no ≡ some i) where
    view_of : view c (c.slot i).channel (c.slot i).block_no ≡ (c.slot i).buf
    unfolding view
    view_of = rw (e, view) refl

    keeps_on : (x y : ℕ) → Synced c x y → Synced (cleaned i c) x y
    unfolding set_slot view
    keeps_on x y s = elim (Option-cases (c.hash x y)) [
      | inl n ↦ let t : c.disk x y ≡ view c x y = s in ground (arith, e, n)
      | inr (j, h) ↦ elim (Bool-cases (j == i)) [
        | inl q ↦ ground (arith, v.keyed x y j h, h)
        | inr q ↦ ground (arith, e, h, s)
      ]
    ]

    cleaned-Cleaned : Cleaned i true c (cleaned i c)
    unfolding set_slot view
    cleaned-Cleaned = record {
      valid = record {
        keyed = λ x y j h. ground (arith, v.keyed x y j h);
        used = v.used;
        held = v.held;
        apart = v.apart;
        once = v.once;
        listed = λ j m. ground (arith, v.listed j m);
        same = λ x y j h m k. ground (arith, v.same x y j h m, v.keyed x y j h, e);
      };
      views = λ x y. ground (arith, e);
      lru = refl;
      locked = refl;
      hashed = refl;
      channels = λ j. ground arith;
      blocks = λ j. ground arith;
      keeps = λ o x y s. keeps_on x y s;
      synced = λ o s. ground (arith, e);
      settled = λ o s x y j h k. ground (arith, s x y j h, v.keyed x y j h, e);
    }

    failed-Cleaned : (a : V) → (c.slot i).dirty ≡ true → Cleaned i false c (written i a c)
    failed-Cleaned a d = record {
      valid = written-IsValid i a c v e d;
      views = view-written i a c v e;
      lru = refl;
      locked = refl;
      hashed = refl;
      channels = λ j. refl;
      blocks = λ j. refl;
      keeps = λ o. cc;
      synced = λ o. cc;
      settled = λ o. cc;
    }

    same-Cleaned : (c.slot i).dirty ≡ false → Cleaned i true c c
    same-Cleaned d = record {
      valid = v;
      views = λ x y. refl;
      lru = refl;
      locked = refl;
      hashed = refl;
      channels = λ j. refl;
      blocks = λ j. refl;
      keeps = λ o x y s. s;
      synced = λ o s. sym (s d) ∙ sym view_of;
      settled = λ o s. s;
    }

    pub clean-Cleaned :
        (dev : Devices V) → Writes dev → Cleaned i (clean dev i c).0 c (clean dev i c).1
    unfolding clean sweep
    clean-Cleaned dev law = elim (Bool-cases (c.slot i).dirty) [
      | inl d ↦
          elim (Bool-cases
            (dev.writes c.disk (c.slot i).channel (c.slot i).block_no (c.slot i).buf).0) [
              | inl w ↦
                  simp (d, w, law c.disk (c.slot i).channel (c.slot i).block_no (c.slot i).buf w)
                    cleaned-Cleaned
              | inr w ↦
                  simp (d, w)
                    (failed-Cleaned
                      (dev.writes c.disk (c.slot i).channel (c.slot i).block_no (c.slot i).buf).1 d)
            ]
      | inr d ↦ simp d (same-Cleaned d)
    ]
