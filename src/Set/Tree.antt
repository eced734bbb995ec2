-- ===== src/Set/Tree.antt =====
-- The balanced tree of lib/libnc/set/aatree.c, aatree_first.c, aatree_root.c and aatree_traverse.c.
-- A key is its `int` counted from the smallest one, in the order of `compare_int`; `leaf` is the
-- shared `nil_node`, whose level is 0 and whose children are itself; what the owner keeps in a node
-- is its `V`.
pub mod Assoc
pub mod Content
pub mod Entries
pub mod Balance
pub mod Rebalance
pub mod Linked
pub mod Remove
pub mod Height
pub mod Laws
pub mod Reached
mod Tests
use eotan.Prelude.{
  ℕ, suc, ◌+◌, ◌-◌, ◌==◌, Bool, true, false, Option, none, some, ltb, ◌||◌, if◌then◌else◌,
}

module _ {ℓ} where
  pub data Node (V : Type ℓ) : Type ℓ where
    leaf : Node V
    node : ℕ → Node V → ℕ → V → Node V → Node V

  -- The node that was removed, if there was one, and the tree.
  abbrev pub Removed : Type ℓ → Type ℓ
  Removed V = Option (Option V × Node V)

  -- `tree_t`
  pub record Tree (V : Type ℓ) : Type ℓ where
    pub root : Node V
    pub node_num : ℕ

module _ {ℓ} {V : Type ℓ} where
  unfoldable pub level : Node V → ℕ
  level leaf = 0
  level (node n l k v r) = n

  unfoldable pub right : Node V → Node V
  right leaf = leaf
  right (node n l k v r) = r

  -- A node has a level of at least 1, so neither the nil node nor one above it is turned.
  unfoldable pub node_skew : Node V → Node V
  node_skew (node n (node m a j w b) k v r) =
      if m == n then node m a j w (node n b k v r) else node n (node m a j w b) k v r
  node_skew t = t

  -- On the nil node, see `split_right`.
  unfoldable pub node_split : Node V → Node V
  unfolding level right
  node_split (node n l k v (node m a j w b)) =
      if level b == n then node (m + 1) (node n l k v a) j w b else node n l k v (node m a j w b)
  node_split t = t

  put_left : Option (Node V) → ℕ → ℕ → V → Node V → Option (Node V)
  unfolding node_skew node_split
  put_left none n k v r = none
  put_left (some l) n k v r = some (node_split (node_skew (node n l k v r)))

  put_right : Option (Node V) → ℕ → Node V → ℕ → V → Option (Node V)
  unfolding node_skew node_split
  put_right none n l k v = none
  put_right (some r) n l k v = some (node_split (node_skew (node n l k v r)))

  -- `none` where the key is there already.
  unfoldable pub node_put : Node V → ℕ → V → Option (Node V)
  unfolding put_left put_right
  node_put leaf q x = some (node 1 leaf q x leaf)
  node_put (node n l k v r) q x =
      let smaller = put_left (node_put l q x) n k v r in
      let larger = put_right (node_put r q x) n l k v in
      if q == k then none else if ltb q k then smaller else larger

  unfoldable pub skew_right : Node V → Node V
  unfolding node_skew
  skew_right leaf = leaf
  skew_right (node n l k v r) = node n l k v (node_skew r)

  unfoldable pub skew_right_right : Node V → Node V
  unfolding skew_right
  skew_right_right leaf = leaf
  skew_right_right (node n l k v r) = node n l k v (skew_right r)

  -- `p->right = node_split(p->right)`.  To split the nil node would raise the level of every empty
  -- tree, and is `none` here.
  unfoldable pub split_right : Node V → Option (Node V)
  unfolding node_split
  split_right leaf = none
  split_right (node n l k v leaf) = none
  split_right (node n l k v (node m a j w b)) = some (node n l k v (node_split (node m a j w b)))

  -- `if (p->right->level > p->level) p->right->level = p->level`
  unfoldable pub lower : ℕ → Node V → Node V
  lower n leaf = leaf
  lower n (node m l k v r) = if ltb n m then node n l k v r else node m l k v r

  -- Where `node_rebalance` finds a child too low, its node is at `n` already.
  unfoldable pub rotate_all : Node V → Option (Node V)
  unfolding node_skew node_split skew_right skew_right_right split_right
  rotate_all p = split_right (node_split (skew_right_right (skew_right (node_skew p))))

  -- The levels of a node are at least 1, so `p->level - 1` is exact.
  unfoldable pub node_rebalance : Node V → Option (Node V)
  unfolding level rotate_all lower
  node_rebalance leaf = some leaf
  node_rebalance (node n l k v r) =
      if ltb (level l) (n - 1) || ltb (level r) (n - 1)
      then rotate_all (node (n - 1) l k v (lower (n - 1) r))
      else some (node n l k v r)

  rebalance_under : Option (ℕ × V × Node V) → ℕ → ℕ → V → Node V → Option (ℕ × V × Node V)
  unfolding node_rebalance
  rebalance_under none n k v r = none
  rebalance_under (some (j, w, l)) n k v r = elim (node_rebalance (node n l k v r)) [
    | none ↦ none
    | some p ↦ some (j, w, p)
  ]

  -- The node of the least key, which goes to the place of the removed one, and what is left.
  unfoldable pub node_remove_swap : Node V → Option (ℕ × V × Node V)
  unfolding rebalance_under
  node_remove_swap leaf = none
  node_remove_swap (node n leaf k v r) = some (k, v, r)
  node_remove_swap (node n (node m a j w b) k v r) =
      rebalance_under (node_remove_swap (node m a j w b)) n k v r

  replace : V → ℕ → Node V → Option (ℕ × V × Node V) → Removed V
  unfolding node_rebalance
  replace v n l none = none
  replace v n l (some (j, w, r)) = elim (node_rebalance (node n l j w r)) [
    | none ↦ none
    | some p ↦ some (some v, p)
  ]

  -- `node_remove` of a node whose key is found
  unfoldable pub remove_here : ℕ → Node V → V → Node V → Removed V
  unfolding replace
  remove_here n leaf v r = some (some v, r)
  remove_here n (node m a j w b) v leaf = some (some v, node m a j w b)
  remove_here n (node m a j w b) v (node i c h u d) =
      replace v n (node m a j w b) (node_remove_swap (node i c h u d))

  rebalance_left : Removed V → ℕ → ℕ → V → Node V → Removed V
  unfolding node_rebalance
  rebalance_left none n k v r = none
  rebalance_left (some (x, l)) n k v r = elim (node_rebalance (node n l k v r)) [
    | none ↦ none
    | some p ↦ some (x, p)
  ]

  rebalance_right : Removed V → ℕ → Node V → ℕ → V → Removed V
  unfolding node_rebalance
  rebalance_right none n l k v = none
  rebalance_right (some (x, r)) n l k v = elim (node_rebalance (node n l k v r)) [
    | none ↦ none
    | some p ↦ some (x, p)
  ]

  unfoldable pub node_remove : Node V → ℕ → Removed V
  unfolding remove_here rebalance_left rebalance_right
  node_remove leaf q = some (none, leaf)
  node_remove (node n l k v r) q =
      let smaller = rebalance_left (node_remove l q) n k v r in
      let larger = rebalance_right (node_remove r q) n l k v in
      if q == k then remove_here n l v r else if ltb q k then smaller else larger

  pub tree_create : Tree V
  tree_create = record { root = leaf; node_num = 0 }

  unfoldable pub node_get : Node V → ℕ → Option V
  node_get leaf q = none
  node_get (node n l k v r) q =
      let smaller = node_get l q in
      let larger = node_get r q in if q == k then some v else if ltb q k then smaller else larger

  unfoldable pub tree_get : Tree V → ℕ → Option V
  tree_get t q = node_get t.root q

  -- Whether the node was put, and the tree.
  unfoldable pub tree_put : Tree V → ℕ → V → Bool × Tree V
  tree_put t q x = elim (node_put t.root q x) [
    | none ↦ (false, t)
    | some p ↦ (true, record t { root = p; node_num = t.node_num + 1 })
  ]

  counted : Option V → ℕ → ℕ
  counted none n = n
  counted (some x) n = n - 1

  -- The removed node, and the tree; `node_destroy` counts it off.
  unfoldable pub tree_remove : Tree V → ℕ → Option (Option V × Tree V)
  unfolding counted
  tree_remove t q = elim (node_remove t.root q) [
    | none ↦ none
    | some (x, p) ↦ some (x, record t { root = p; node_num = counted x t.node_num })
  ]

  unfoldable pub node_first : Node V → Option V
  node_first leaf = none
  node_first (node n leaf k v r) = some v
  node_first (node n (node m a j w b) k v r) = node_first (node m a j w b)

  unfoldable pub tree_first : Tree V → Option V
  tree_first t = node_first t.root

  unfoldable pub node_here : Node V → Option V
  node_here leaf = none
  node_here (node n l k v r) = some v

  unfoldable pub tree_root : Tree V → Option V
  tree_root t = node_here t.root

  -- `_traverse` with a callback that changes the state and says whether to stop.
  unfoldable pub traverse {μ} : {S : Type μ} → (V → S → Bool × S) → Node V → S → Bool × S
  traverse callback leaf s = (false, s)
  traverse callback (node n l k v r) s =
      let (stop, s') = traverse callback l s in
      let (stop', s'') = callback v s' in
      let rest = traverse callback r s'' in
      if stop then (true, s') else if stop' then (true, s'') else rest
