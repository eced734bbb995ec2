-- ===== src/Set/Links/Tests.antt =====
-- Linked lists at work, and their theorems at a list of three entries.
use eotan.Prelude.{◌≡◌, refl, some, [], ◌∷◌}
use eotan.Kernel.State.Lists.{elem, distinct}
use eotan.Set.Links.{
  Links, list_initialize, list_append, list_insert, list_remove, list_pick, list_release,
  release_from,
}
use eotan.Set.Links.Laws.{IsList}
use eotan.Set.Links.Refine.{Refines, IsList-Refines}

-- The guard 9, with 5, 3 and 7 behind it
abbrev three : Links
three = list_append 9 7 (
    list_insert 9 5 (list_append 9 3 (list_initialize 9 (record { next = λ i. i; prev = λ i. i }))))

three-IsList : IsList 9 (5 ∷ 3 ∷ 7 ∷ []) three
unfolding list_append list_insert list_initialize elem distinct
three-IsList = record {
  leads = (refl, refl, (refl, refl, (refl, refl, (refl, refl))));
  once = refl;
  apart = refl;
}

picked : (list_pick 9 three).0 ≡ some 5
unfolding list_pick list_append list_insert list_initialize
picked = refl

without_three : (list_remove 3 three).next 5 ≡ 7
unfolding list_remove list_append list_insert list_initialize
without_three = refl

IsList-Refines_example : Refines 9 (5 ∷ 3 ∷ 7 ∷ []) three
IsList-Refines_example = IsList-Refines 9 (5 ∷ 3 ∷ 7 ∷ []) three three-IsList

all_alone : (list_release 4 9 three).next 3 ≡ 3
unfolding list_release release_from list_append list_insert list_initialize
all_alone = refl
