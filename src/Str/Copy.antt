-- ===== src/Str/Copy.antt =====
-- Copying over memory that may overlap.
use eotan.Prelude.{
  ℕ, zero, suc, ◌+◌, ◌-◌, ◌≤◌, ◌<◌, ◌%◌, ◌≡◌, ◌⊎◌, ◌∙◌, arith, ◌&&◌, ltb, leb, if◌then◌else◌,
  Bool-cases, inl, inr,
}
use eotan.Str.{put_byte, copy_up, copy_down, memmove, memcpy, set_from, memset}

-- The memory with `n` bytes from `src` on put to `dest`
abbrev pub moved : ℕ → ℕ → ℕ → (ℕ → ℕ) → ℕ → ℕ
moved dest src n m j = if leb dest j && ltb j (dest + n) then m (src + (j - dest)) else m j

copy_up_lem : (n w r j : ℕ) (m : ℕ → ℕ) → w ≤ r → copy_up n w r m j ≡ moved w r n m j
unfolding copy_up
copy_up_lem zero w r j m l = ground arith
copy_up_lem (suc n) w r j m l =
    let h = copy_up_lem n (w + 1) (r + 1) j (put_byte m w (m r)) (omega arith) in h ∙ ground arith

copy_down_lem :
    (n w r j : ℕ) (m : ℕ → ℕ) → r < w → copy_down n (w + n) (r + n) m j ≡ moved w r n m j
unfolding copy_down
copy_down_lem zero w r j m l = ground arith
copy_down_lem (suc n) w r j m l =
    let a : w + suc n - 1 ≡ w + n = omega arith in
    let b : r + suc n - 1 ≡ r + n = omega arith in
    let h = copy_down_lem n w r j (put_byte m (w + n) (m (r + n))) l in rw (a, b) (h ∙ ground arith)

memmove_lem : (dest src n j : ℕ) (m : ℕ → ℕ) → memmove dest src n m j ≡ moved dest src n m j
unfolding memmove
memmove_lem dest src n j m = elim (Bool-cases (leb dest src)) [
  | inl e ↦ rw e (copy_up_lem n dest src j m (ground (arith, e)))
  | inr e ↦ rw e (copy_down_lem n dest src j m (ground (arith, e)))
]

apart_lem : (n w r j : ℕ) (m : ℕ → ℕ) → r + n ≤ w → copy_up n w r m j ≡ moved w r n m j
unfolding copy_up
apart_lem zero w r j m l = ground arith
apart_lem (suc n) w r j m l =
    let h = apart_lem n (w + 1) (r + 1) j (put_byte m w (m r)) (omega arith) in h ∙ ground arith

set_from_lem :
    (n w v j : ℕ) (m : ℕ → ℕ) → set_from n w v m j ≡ (if leb w j && ltb j (w + n) then v else m j)
unfolding set_from
set_from_lem zero w v j m = ground arith
set_from_lem (suc n) w v j m =
    let h = set_from_lem n (w + 1) v j (put_byte m w v) in h ∙ ground arith

memcpy_lem :
    (s1 s2 n j : ℕ) (m : ℕ → ℕ) → (s1 ≤ s2) ⊎ (s2 + n ≤ s1) → memcpy s1 s2 n m j ≡ moved s1 s2 n m j
unfolding memcpy
memcpy_lem s1 s2 n j m (inl l) = copy_up_lem n s1 s2 j m l
memcpy_lem s1 s2 n j m (inr l) = apart_lem n s1 s2 j m l

memset_lem :
    (s c n j : ℕ) (m : ℕ → ℕ)
    → memset s c n m j ≡ (if leb s j && ltb j (s + n) then c % 256 else m j)
unfolding memset
memset_lem s c n j m = set_from_lem n s (c % 256) j m

-- After `memmove`, each of the `n` bytes from `dest` on is what stood at its place from `src` on
-- before, however the two overlap, and every other byte is as before; after `memcpy` likewise,
-- where `dest` is not above `src` or the bytes of `src` end before `dest`; and after `memset`
-- each of the `n` bytes is the low byte of `c`, and every other byte is as before.
pub memory_lem :
    (dest src c n j : ℕ) (m : ℕ → ℕ)
    → (memmove dest src n m j ≡ moved dest src n m j)
      × ((dest ≤ src) ⊎ (src + n ≤ dest) → memcpy dest src n m j ≡ moved dest src n m j)
      × (memset dest c n m j ≡ (if leb dest j && ltb j (dest + n) then c % 256 else m j))
memory_lem dest src c n j m =
    (memmove_lem dest src n j m, memcpy_lem dest src n j m, memset_lem dest c n j m)
