-- ===== src/Set/Links/Laws.antt =====
-- The operations on a linked list, as operations on the sequence of its entries.
use eotan.Prelude.{
  ℕ, ◌≡◌, refl, true, false, List, [], ◌∷◌, ◌++◌, arith, ◌==◌, ◌||◌, Bool-cases, inl, inr,
}
use eotan.Kernel.State.Lists.{elem, remove, distinct, elem-remove, elem-append, distinct-remove}
use eotan.Set.Links.{Links, list_initialize, list_append, list_insert, list_remove}
use eotan.Set.Links.Chain.{Leads, same_links, last_in, prev_in, next_in, remove_absent}

-- The guard `g` heads the list of `xs`.
pub record IsList (g : ℕ) (xs : List ℕ) (l : Links) : Type 0 where
  pub leads : Leads l g xs g
  pub once : distinct xs ≡ true
  pub apart : elem g xs ≡ false

insert-Leads :
    (g e : ℕ) (xs : List ℕ) (l : Links)
    → Leads l g xs g
    → distinct xs ≡ true
    → elem g xs ≡ false
    → elem e (g ∷ xs) ≡ false
    → Leads (list_insert g e l) g (e ∷ xs) g
unfolding list_insert elem distinct
insert-Leads g e [] l (h, k) d a f =
    (ground arith, ground (arith, f, h), (ground (arith, f, h), ground (arith, h)))
insert-Leads g e (x ∷ xs) l (h, k, r) d a f = (
  ground arith,
  ground (arith, f, h),
  (
    ground (arith, f, h),
    ground (arith, h),
    same_links l (list_insert g e l) x xs g (λ y m. ground (arith, a, f, m, d, h))
        (λ y m. ground (arith, a, f, m, d, h)) r,
  ),
)

append-Leads :
    (g e a : ℕ) (xs : List ℕ) (l : Links)
    → Leads l a xs g
    → distinct xs ≡ true
    → elem a xs ≡ false
    → elem g xs ≡ false
    → elem e xs ≡ false
    → (a == e) ≡ false
    → (g == e) ≡ false
    → Leads (list_append g e l) a (xs ++ e ∷ []) g
unfolding list_append elem distinct
append-Leads g e a [] l (h, k) d n m f i j =
    (ground (arith, k, i), ground (arith, k, i, j), (ground (arith, k, i, j), ground arith))
append-Leads g e a (x ∷ xs) l (h, k, r) d n m f i j =
    let t = last_in l x xs g r in
    (
      ground (arith, h, t, n, i),
      ground (arith, k, m, f),
      append-Leads g e x xs l r (ground (arith, d)) (ground (arith, d)) (ground (arith, m))
          (ground (arith, f)) (ground (arith, f)) j,
    )

remove_first :
    (g e a : ℕ) (xs : List ℕ) (l : Links)
    → l.next a ≡ e
    → l.prev e ≡ a
    → Leads l e xs g
    → distinct xs ≡ true
    → elem e xs ≡ false
    → elem a xs ≡ false
    → (a == e) ≡ false
    → elem g xs ≡ false
    → (g == e) ≡ false
    → Leads (list_remove e l) a xs g
unfolding list_remove list_initialize elem distinct
remove_first g e a [] l h k (p, q) d n m i f j = (ground (arith, k, p, i), ground (arith, k, p, j))
remove_first g e a (x ∷ xs) l h k (p, q, r) d n m i f j = (
  ground (arith, k, p, i),
  ground (arith, k, p, n),
  same_links l (list_remove e l) x xs g (λ y t. ground (arith, k, n, m, t))
      (λ y t. ground (arith, p, n, f, d, j, t)) r,
)

remove-Leads :
    (g e a : ℕ) (xs : List ℕ) (l : Links)
    → Leads l a xs g
    → distinct xs ≡ true
    → elem a xs ≡ false
    → elem g xs ≡ false
    → elem e xs ≡ true
    → Leads (list_remove e l) a (remove e xs) g
unfolding list_remove list_initialize elem distinct remove
remove-Leads g e a [] l r d n m f = (ground (arith, f), ground (arith, f))
remove-Leads g e a (x ∷ xs) l (h, k, r) d n m f = elim (Bool-cases (x == e)) [
  | inl s ↦
      let same : x ≡ e = ground (arith, s) in
      let absent = remove_absent e xs (ground (arith, d, s)) in
      rw (s, absent)
        (remove_first g e a xs l (ground (arith, h, same)) (ground (arith, k, same)) (rw same at r)
          (ground (arith, d)) (ground (arith, d, s)) (ground (arith, n)) (ground (arith, n, s))
          (ground (arith, m)) (ground (arith, m, s)))
  | inr s ↦
      let p = prev_in l x xs g e r (ground (arith, f, s)) in
      let q = next_in l x xs g e r (ground (arith, f, s)) in
      rw s (
        ground (arith, h, p, n, f),
        ground (arith, k, q, d, m, s),
        remove-Leads g e x xs l r (ground (arith, d)) (ground (arith, d)) (ground (arith, m))
            (ground (arith, f, s)),
      )
]

-- Another list, which shares no entry with `xs`, nor its guard, and does not have `e`
abbrev pub Others : ℕ → ℕ → List ℕ → Links → Links → Type 0
Others e g xs l l' =
    (h : ℕ) (ys : List ℕ)
    → IsList h ys l
    → ((i : ℕ) → (e == i || elem i (g ∷ xs)) ≡ true → elem i (h ∷ ys) ≡ false)
    → IsList h ys l'

others :
    (e g : ℕ) (xs : List ℕ) (l l' : Links)
    → ((i : ℕ)
        → (e == i || elem i (g ∷ xs)) ≡ false
        → (l'.next i ≡ l.next i) × (l'.prev i ≡ l.prev i))
    → Others e g xs l l'
unfolding elem
others e g xs l l' same h ys v d = record {
  leads =
      same_links l l' h ys h (λ y m. (same y (ground (arith, d y, m))).0)
        (λ y m. (same y (ground (arith, d y, m))).1) v.leads;
  once = v.once;
  apart = v.apart;
}

distinct-append :
    (e : ℕ) (xs : List ℕ) → distinct xs ≡ true → elem e xs ≡ false → distinct (xs ++ e ∷ []) ≡ true
unfolding distinct elem
distinct-append e [] d f = refl
distinct-append e (x ∷ xs) d f = ground (arith, distinct-append e xs, d, f, elem-append x e xs)

module _ (g : ℕ) (xs : List ℕ) (l : Links) (v : IsList g xs l) where
  pub inserted : (e : ℕ) → elem e (g ∷ xs) ≡ false → IsList g (e ∷ xs) (list_insert g e l)
  unfolding elem distinct
  inserted e f = record {
    leads = insert-Leads g e xs l v.leads v.once v.apart f;
    once = ground (arith, v.once, f);
    apart = ground (arith, v.apart, f);
  }

  pub appended : (e : ℕ) → elem e (g ∷ xs) ≡ false → IsList g (xs ++ e ∷ []) (list_append g e l)
  unfolding elem distinct
  appended e f = record {
    leads =
        append-Leads g e g xs l v.leads v.once v.apart v.apart (ground (arith, f))
          (ground (arith, f)) (ground (arith, f));
    once = distinct-append e xs v.once (ground (arith, f));
    apart = ground (arith, v.apart, f, elem-append g e xs);
  }

  pub removed : (e : ℕ) → elem e xs ≡ true → IsList g (remove e xs) (list_remove e l)
  unfolding elem distinct
  removed e f = record {
    leads = remove-Leads g e g xs l v.leads v.once v.apart v.apart f;
    once = distinct-remove e xs v.once;
    apart = ground (arith, v.apart, elem-remove g e xs);
  }

  pub alone : (e : ℕ) → IsList e [] (list_remove e l)
  unfolding list_remove list_initialize elem distinct
  alone e = record { leads = (ground arith, ground arith); once = refl; apart = refl }

  pub insert_others : (e : ℕ) → Others e g xs l (list_insert g e l)
  unfolding list_insert elem
  insert_others e =
      let q = next_in l g xs g g v.leads (ground arith) in
      others e g xs l (list_insert g e l) (λ i n. (ground (arith, n), ground (arith, n, q)))

  pub append_others : (e : ℕ) → Others e g xs l (list_append g e l)
  unfolding list_append elem
  append_others e =
      let q = last_in l g xs g v.leads in
      others e g xs l (list_append g e l) (λ i n. (ground (arith, n, q), ground (arith, n)))

  pub remove_others : (e : ℕ) → elem e xs ≡ true → Others e g xs l (list_remove e l)
  unfolding list_remove list_initialize elem
  remove_others e f =
      let p = prev_in l g xs g e v.leads f in
      let q = next_in l g xs g e v.leads (ground (arith, f)) in
      others e g xs l (list_remove e l) (λ i n. (ground (arith, n, p), ground (arith, n, q)))
