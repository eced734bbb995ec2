-- ===== src/Fs/Cache.antt =====
-- The block cache of lib/libvfs/cache.c.  A slot is its index in `cache`; the hash table, which has
-- room for every slot, is a map from a channel and a block number; a list of slots is the list of
-- their indexes, from `next` of the guard on.  `V` is what a block holds.
pub mod Valid
pub mod Pick
pub mod Laws
pub mod Release
pub mod Clean
pub mod Flush
pub mod Sync
pub mod Whole
pub mod Create
pub mod Served
pub mod Start
mod Tests
use eotan.Prelude.{
  ℕ, zero, suc, ◌+◌, ◌-◌, ◌%◌, ◌^◌, Bool, true, false, Option, none, some, List, [], ◌∷◌, ◌==◌,
  ◌&&◌, ◌||◌, ltb, if◌then◌else◌,
}
use eotan.Kernel.State.Lists.{remove}

module _ {ℓ} where
  -- `cache_t`; `channel` is `dev->channel`.
  pub record Slot (V : Type ℓ) : Type ℓ where
    pub channel : ℕ
    pub block_no : ℕ
    pub dirty : Bool
    pub lock_count : ℕ
    pub buf : V

  -- The variables of the file, and the blocks of the devices.
  pub record Cache (V : Type ℓ) : Type ℓ where
    pub slot : ℕ → Slot V
    pub hash : ℕ → ℕ → Option ℕ
    pub free_list : List ℕ
    pub lru_list : List ℕ
    pub locked_list : List ℕ
    pub disk : ℕ → ℕ → V

  -- The functions of a `block_device_t`: whether a read gives the whole block, and whether a write
  -- succeeds and what the block holds then.
  pub record Devices (V : Type ℓ) : Type ℓ where
    pub reads : (ℕ → ℕ → V) → ℕ → ℕ → Bool
    pub writes : (ℕ → ℕ → V) → ℕ → ℕ → V → Bool × V

abbrev indexes : ℕ → ℕ → List ℕ
indexes i zero = []
indexes i (suc n) = i ∷ indexes (i + 1) n

abbrev pub put_at {ℓ} : {A : Type ℓ} → (ℕ → ℕ → A) → ℕ → ℕ → A → ℕ → ℕ → A
put_at m ch b a x y = if x == ch && y == b then a else m x y

module _ {ℓ} {V : Type ℓ} where
  unfoldable pub set_slot : ℕ → Slot V → Cache V → Cache V
  set_slot i s c = record c { slot = λ j. if j == i then s else c.slot j }

  -- `created` is whether `hash_create` succeeds, `max` is `MAX_CACHE`.
  unfoldable pub cache_initialize : Bool → ℕ → Cache V → Bool × Cache V
  cache_initialize false max c = (false, c)
  cache_initialize true max c = (
    true,
    record c { hash = λ x y. none; free_list = indexes 0 max; lru_list = []; locked_list = [] },
  )

  -- `list_remove(&(cp->lru))`
  unfoldable pub unlink : ℕ → Cache V → Cache V
  unlink i c = record c {
    free_list = remove i c.free_list;
    lru_list = remove i c.lru_list;
    locked_list = remove i c.locked_list;
  }

  -- `list_remove` and `list_insert` into `free_list`
  unfoldable pub set_free : ℕ → Cache V → Cache V
  unfolding unlink
  set_free i c = record (unlink i c) { free_list = i ∷ remove i c.free_list }

  -- `hash_remove(hash, cp)`
  unfoldable pub forget : ℕ → Cache V → Cache V
  forget i c = record c { hash = put_at c.hash (c.slot i).channel (c.slot i).block_no none }

  unfoldable pub claim : ℕ → ℕ → ℕ → Cache V → Cache V
  unfolding set_slot
  claim i ch b c =
      set_slot i (record (c.slot i) { channel = ch; block_no = b; dirty = false; lock_count = 0 }) c

  -- The end of `cache_get` and `cache_create`
  unfoldable pub lock : ℕ → Cache V → Cache V
  unfolding set_slot unlink
  lock i c =
      record (unlink i
        (set_slot i (record (c.slot i) { lock_count = ((c.slot i).lock_count + 1) % 2 ^ 32 }) c)) {
          locked_list = i ∷ remove i c.locked_list;
        }

  unfoldable pub dispose : ℕ → Cache V → Cache V
  unfolding set_free forget
  dispose i c = forget i (set_free i c)

  -- The pointer to a buffer is given as its slot.
  unfoldable pub cache_modify : Option ℕ → Cache V → Bool × Cache V
  unfolding set_slot
  cache_modify none c = (false, c)
  cache_modify (some i) c = (true, set_slot i (record (c.slot i) { dirty = true }) c)

  unfoldable pub unlock : ℕ → Cache V → Cache V
  unfolding set_slot unlink
  unlock i c =
      let n = (c.slot i).lock_count - 1 in
      let c' = set_slot i (record (c.slot i) { lock_count = n }) c in
      if n == 0 then record (unlink i c') { lru_list = i ∷ remove i c.lru_list } else c'

  unfoldable pub cache_release : Option ℕ → Bool → Cache V → Bool × Cache V
  unfolding set_slot unlock
  cache_release none dirty c = (false, c)
  cache_release (some i) dirty c =
      let c' = set_slot i (record (c.slot i) { dirty = (c.slot i).dirty || dirty }) c in
      (true, if ltb 0 (c.slot i).lock_count then unlock i c' else c')

  unfoldable pub cache_invalidate : ℕ → ℕ → Cache V → Bool × Cache V
  cache_invalidate ch b c = elim (c.hash ch b) [ none ↦ (false, c) | some i ↦ (true, dispose i c) ]

  module _ (dev : Devices V) where
    -- `true` is the result 0.
    unfoldable pub sweep : ℕ → Cache V → Bool × Cache V
    sweep i c =
        let s = c.slot i in
        let (done, v) = dev.writes c.disk s.channel s.block_no s.buf in
        (done, record c { disk = put_at c.disk s.channel s.block_no v })

    unfoldable pub evict : ℕ → Cache V → Option ℕ × Cache V
    unfolding sweep forget
    evict i c =
        let (done, c') = sweep i c in
        if (c.slot i).dirty
        then if done then (some i, forget i c') else (none, c')
        else (some i, forget i c)

    -- The slot for a block that is not in the cache
    unfoldable pub pick : List ℕ → List ℕ → Cache V → Option ℕ × Cache V
    unfolding evict
    pick (i ∷ _) _ c = (some i, c)
    pick [] (i ∷ _) c = evict i c
    pick [] [] c = (none, c)

    -- What a read that fails leaves in the buffer is not read again.
    unfoldable pub fill : ℕ → Cache V → Cache V
    unfolding set_slot
    fill i c =
        let s = c.slot i in
        if dev.reads c.disk s.channel s.block_no
        then set_slot i (record s { buf = c.disk s.channel s.block_no }) c
        else c

    unfoldable pub load : ℕ → ℕ → Option ℕ × Cache V → Option ℕ × Cache V
    unfolding fill claim lock set_free
    load ch b (none, c) = (none, c)
    load ch b (some i, c) =
        let c' = fill i (claim i ch b c) in
        if dev.reads c.disk ch b
        then (some i, lock i (record c' { hash = put_at c'.hash ch b (some i) }))
        else (none, set_free i c')

    unfoldable pub cache_get : ℕ → ℕ → Cache V → Option ℕ × Cache V
    unfolding load pick lock
    cache_get ch b c = elim (c.hash ch b) [
      | none ↦ load ch b (pick c.free_list c.lru_list c)
      | some i ↦ (some i, lock i c)
    ]

    -- `memset(cp->buf, 0, sizeof(cp->buf))`
    unfoldable pub blank : V → ℕ → Cache V → Cache V
    unfolding set_slot
    blank zeros i c = set_slot i (record (c.slot i) { buf = zeros }) c

    unfoldable pub make : V → ℕ → ℕ → Option ℕ × Cache V → Option ℕ × Cache V
    unfolding claim lock blank
    make zeros ch b (none, c) = (none, c)
    make zeros ch b (some i, c) =
        let c' = claim i ch b c in
        (some i, blank zeros i (lock i (record c' { hash = put_at c'.hash ch b (some i) })))

    unfoldable pub cache_create : V → ℕ → ℕ → Cache V → Option ℕ × Cache V
    unfolding make pick lock blank
    cache_create zeros ch b c = elim (c.hash ch b) [
      | none ↦ make zeros ch b (pick c.free_list c.lru_list c)
      | some i ↦ (some i, blank zeros i (lock i c))
    ]

    -- A dirty slot is written; `true` is the result 0.
    unfoldable pub clean : ℕ → Cache V → Bool × Cache V
    unfolding sweep set_slot
    clean i c =
        let (done, c') = sweep i c in
        if (c.slot i).dirty
        then if done
          then (true, set_slot i (record (c.slot i) { dirty = false }) c')
          else (false, c')
        else (true, c)

    -- The first loop of `cache_flush`: `next` is read before the slot is disposed of.
    unfoldable pub flush_lru : ℕ → Bool → List ℕ → Cache V → Bool × Cache V
    unfolding clean dispose
    flush_lru ch unmount [] c = (true, c)
    flush_lru ch unmount (i ∷ rest) c =
        let (done, c') = clean i c in
        let c'' = if unmount then dispose i c' else c' in
        let other = flush_lru ch unmount rest c in
        let others = flush_lru ch unmount rest c'' in
        if (c.slot i).channel == ch then if done then others else (false, c') else other

    unfoldable pub flush_locked : List ℕ → Cache V → Bool × Cache V
    unfolding clean
    flush_locked [] c = (true, c)
    flush_locked (i ∷ rest) c =
        let (done, c') = clean i c in
        let others = flush_locked rest c' in if done then others else (false, c')

    unfoldable pub cache_flush : ℕ → Bool → Cache V → Bool × Cache V
    unfolding flush_lru flush_locked
    cache_flush ch unmount c =
        let (done, c') = flush_lru ch unmount c.lru_list c in
        let locked = flush_locked c'.locked_list c' in if done then locked else (false, c')
