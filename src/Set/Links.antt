-- ===== src/Set/Links.antt =====
-- The linked lists of lib/libnc/set/list.c, list_release.c and include/set/list.h: an entry is an
-- address, and the links of all entries are one store.
pub mod Chain
pub mod Laws
pub mod Refine
mod Tests
use eotan.Prelude.{ℕ, zero, suc, Bool, true, false, Option, none, some, ◌==◌, if◌then◌else◌}

-- `list_t`, of every address
pub record Links : Type 0 where
  pub next : ℕ → ℕ
  pub prev : ℕ → ℕ

abbrev pub link : (ℕ → ℕ) → ℕ → ℕ → ℕ → ℕ
link f a b x = if x == a then b else f x

unfoldable pub list_initialize : ℕ → Links → Links
list_initialize entry l = record { next = link l.next entry entry; prev = link l.prev entry entry }

unfoldable pub list_append : ℕ → ℕ → Links → Links
list_append to entry l =
    let prev = l.prev to in
    record {
      next = link (link l.next entry to) prev entry;
      prev = link (link l.prev entry prev) to entry;
    }

unfoldable pub list_insert : ℕ → ℕ → Links → Links
list_insert to entry l =
    let next = l.next to in
    record {
      next = link (link l.next entry next) to entry;
      prev = link (link l.prev entry to) next entry;
    }

unfoldable pub list_remove : ℕ → Links → Links
unfolding list_initialize
list_remove entry l =
    let next = l.next entry in
    let prev = l.prev entry in
    list_initialize entry (record { next = link l.next prev next; prev = link l.prev next prev })

unfoldable pub list_is_empty : ℕ → Links → Bool
list_is_empty entry l = l.next entry == entry

unfoldable pub list_edge_to_null : ℕ → ℕ → Option ℕ
list_edge_to_null guard entry = if guard == entry then none else some entry

unfoldable pub list_head : ℕ → Links → Option ℕ
unfolding list_edge_to_null
list_head guard l = list_edge_to_null guard (l.next guard)

unfoldable pub list_tail : ℕ → Links → Option ℕ
unfolding list_edge_to_null
list_tail guard l = list_edge_to_null guard (l.prev guard)

unfoldable pub list_pick : ℕ → Links → Option ℕ × Links
unfolding list_remove
list_pick guard l =
    let entry = l.next guard in
    if guard == entry then (none, l) else (some entry, list_remove entry l)

-- The loop of `list_release` from an entry on, on fuel.
unfoldable pub release_from : ℕ → ℕ → ℕ → Links → Links
unfolding list_initialize
release_from zero guard entry l = l
release_from (suc n) guard entry l =
    let next = l.next entry in
    let rest = release_from n guard next (list_initialize entry l) in
    if guard == next then list_initialize entry l else rest

unfoldable pub list_release : ℕ → ℕ → Links → Links
unfolding release_from
list_release rounds guard l = release_from rounds guard guard l
