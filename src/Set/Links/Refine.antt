-- ===== src/Set/Links/Refine.antt =====
-- A linked list stands for the sequence of its entries.
use eotan.Prelude.{
  ℕ, zero, suc, ◌<◌, ◌≡◌, refl, ◌∙◌, Bool, true, false, Option, none, some, List, [], ◌∷◌, ◌++◌,
  arith, ◌==◌, ◌||◌, Bool-cases, inl, inr, length,
}
use eotan.Kernel.State.Lists.{elem, remove, distinct}
use eotan.Set.Links.{
  Links, list_initialize, list_append, list_insert, list_remove, list_pick, list_release,
  release_from, list_head, list_is_empty, list_edge_to_null,
}
use eotan.Set.Links.Chain.{Leads, remove_absent}
use eotan.Set.Links.Laws.{
  IsList, Others, inserted, appended, removed, alone, insert_others, append_others, remove_others,
}

-- What a pick gives, and the list that it leaves.
abbrev pub Picks : ℕ → List ℕ → Links → Option ℕ → Links → Type 0
Picks g [] l o l' = (o ≡ none) × (l' ≡ l)
Picks g (x ∷ xs) l o l' = (o ≡ some x) × IsList g xs l' × IsList x [] l' × Others x g (x ∷ xs) l l'

picks :
    (g : ℕ) (xs : List ℕ) (l : Links)
    → IsList g xs l
    → Picks g xs l (list_pick g l).0 (list_pick g l).1
unfolding list_pick elem remove distinct
picks g [] l v =
    let empty : (g == l.next g) ≡ true = ground (arith, v.leads.0) in simp empty (refl, refl)
picks g (x ∷ xs) l v =
    let first : l.next g ≡ x = v.leads.0 in
    let some_left : (g == x) ≡ false = ground (arith, v.apart) in
    let self : (x == x) ≡ true = ground arith in
    let r = removed g (x ∷ xs) l v x (ground arith) in
    let gone : remove x (x ∷ xs) ≡ xs = ground (arith, remove_absent x xs, v.once) in
    simp (first, some_left)
      (refl, (rw gone at r), alone g (x ∷ xs) l v x, remove_others g (x ∷ xs) l v x (ground arith))

-- The links lead forward from `a` through `xs` to `g`.
abbrev Nexts : Links → ℕ → List ℕ → ℕ → Type 0
Nexts l a [] g = l.next a ≡ g
Nexts l a (x ∷ xs) g = (l.next a ≡ x) × Nexts l x xs g

forward : (l : Links) (a : ℕ) (xs : List ℕ) (g : ℕ) → Leads l a xs g → Nexts l a xs g
forward l a [] g (h, k) = h
forward l a (x ∷ xs) g (h, k, r) = (h, forward l x xs g r)

same_next :
    (l l' : Links) (a : ℕ) (xs : List ℕ) (g : ℕ)
    → ((x : ℕ) → (a == x || elem x xs) ≡ true → l'.next x ≡ l.next x)
    → Nexts l a xs g
    → Nexts l' a xs g
unfolding elem
same_next l l' a [] g n h = n a (ground arith) ∙ h
same_next l l' a (x ∷ xs) g n (h, r) =
    (n a (ground arith) ∙ h, same_next l l' x xs g (λ y e. n y (ground (arith, e))) r)

-- The entries of `xs` are alone, and all others as before.
abbrev pub Released : List ℕ → Links → Links → Type 0
Released xs l l' =
    (i : ℕ)
    → (elem i xs ≡ true → (l'.next i ≡ i) × (l'.prev i ≡ i))
      × (elem i xs ≡ false → (l'.next i ≡ l.next i) × (l'.prev i ≡ l.prev i))

init_alone : (a : ℕ) (l : Links) → Released (a ∷ []) l (list_initialize a l)
unfolding list_initialize elem
init_alone a l i =
    (λ e. (ground (arith, e), ground (arith, e)), λ e. (ground (arith, e), ground (arith, e)))

join :
    (a : ℕ) (xs : List ℕ) (l l' l'' : Links)
    → elem a xs ≡ false
    → Released (a ∷ []) l l'
    → Released xs l' l''
    → Released (a ∷ xs) l l''
unfolding elem
join a xs l l' l'' n p q i =
    let (p1, p2) = p i in
    let (q1, q2) = q i in
    (
      λ e. elim (Bool-cases (elem i xs)) [
        | inl m ↦ q1 m
        | inr m ↦ let (h, k) = p1 (ground (arith, e, m)) in let (h', k') = q2 m in (h' ∙ h, k' ∙ k)
      ],
      λ e.
          let (h, k) = p2 (ground (arith, e)) in
          let (h', k') = q2 (ground (arith, e)) in (h' ∙ h, k' ∙ k),
    )

release_from-Released :
    (n g a : ℕ) (xs : List ℕ) (l : Links)
    → length xs < n
    → Nexts l a xs g
    → elem a xs ≡ false
    → distinct xs ≡ true
    → elem g xs ≡ false
    → Released (a ∷ xs) l (release_from n g a l)
unfolding release_from elem distinct
release_from-Released zero g a xs l m h d o f = elim m [ ]
release_from-Released (suc n) g a [] l m h d o f =
    let last : (g == l.next a) ≡ true = ground (arith, h) in simp last (init_alone a l)
release_from-Released (suc n) g a (x ∷ xs) l m (h, r) d o f =
    let more : (g == x) ≡ false = ground (arith, f) in
    simp (h, more)
      (join a (x ∷ xs) l (list_initialize a l) (release_from n g x (list_initialize a l)) d
        (init_alone a l)
        (release_from-Released n g x xs (list_initialize a l) (omega (arith, m))
          (same_next l (list_initialize a l) x xs g
            (λ y e. ((init_alone a l y).1 (ground (arith, e, d))).0) r)
          (ground (arith, o)) (ground (arith, o)) (ground (arith, f))))

list_release-Released :
    (rounds g : ℕ) (xs : List ℕ) (l : Links)
    → IsList g xs l
    → length xs < rounds
    → Released (g ∷ xs) l (list_release rounds g l)
unfolding list_release
list_release-Released rounds g xs l v m =
    release_from-Released rounds g g xs l m (forward l g xs g v.leads) v.apart v.once v.apart

abbrev pub first : List ℕ → Option ℕ
first [] = none
first (x ∷ xs) = some x

abbrev pub nothing : List ℕ → Bool
nothing [] = true
nothing (x ∷ xs) = false

head-first :
    (g : ℕ) (xs : List ℕ) (l : Links)
    → IsList g xs l
    → (list_head g l ≡ first xs) × (list_is_empty g l ≡ nothing xs)
unfolding list_head list_edge_to_null list_is_empty elem
head-first g [] l v =
    let empty : (g == l.next g) ≡ true = ground (arith, v.leads.0) in
    (simp empty refl, ground (arith, v.leads.0))
head-first g (x ∷ xs) l v =
    let some_left : (g == x) ≡ false = ground (arith, v.apart) in
    (simp (v.leads.0, some_left) refl, ground (arith, v.leads.0, some_left))

-- What the operations do to a list.
pub record Refines (g : ℕ) (xs : List ℕ) (l : Links) : Type 0 where
  pub insert :
      (e : ℕ)
      → elem e (g ∷ xs) ≡ false
      → IsList g (e ∷ xs) (list_insert g e l) × Others e g xs l (list_insert g e l)
  pub append :
      (e : ℕ)
      → elem e (g ∷ xs) ≡ false
      → IsList g (xs ++ e ∷ []) (list_append g e l) × Others e g xs l (list_append g e l)
  pub take :
      (e : ℕ)
      → elem e xs ≡ true
      → IsList g (remove e xs) (list_remove e l)
        × IsList e [] (list_remove e l)
        × Others e g xs l (list_remove e l)
  pub pick : Picks g xs l (list_pick g l).0 (list_pick g l).1
  pub head : list_head g l ≡ first xs
  pub empty : list_is_empty g l ≡ nothing xs
  pub release : (rounds : ℕ) → length xs < rounds → Released (g ∷ xs) l (list_release rounds g l)

-- Where a guard heads a linked list of distinct entries, the operations on the links are those on
-- the sequence of the entries: `list_insert` of an address that is not in the list puts it first,
-- `list_append` puts it last, `list_remove` of an entry takes just it out and leaves it alone,
-- `list_pick` gives the first entry, if there is one, and takes it out; all of these leave every
-- other list that shares no entry with it. `list_head` gives the first entry, `list_is_empty`
-- whether there is none, and `list_release`, in as many rounds as there are entries and one more,
-- leaves every entry alone and all other links as they were.
pub IsList-Refines : (g : ℕ) (xs : List ℕ) (l : Links) → IsList g xs l → Refines g xs l
IsList-Refines g xs l v = record {
  insert = λ e f. (inserted g xs l v e f, insert_others g xs l v e);
  append = λ e f. (appended g xs l v e f, append_others g xs l v e);
  take = λ e f. (removed g xs l v e f, alone g xs l v e, remove_others g xs l v e f);
  pick = picks g xs l v;
  head = (head-first g xs l v).0;
  empty = (head-first g xs l v).1;
  release = λ rounds m. list_release-Released rounds g xs l v m;
}
