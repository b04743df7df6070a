-- ===== src/Avl/Tests.antt =====
-- Runs of the trees of avl.tree.hpp over numbers, with an allocator that counts addresses up and has
-- memory for eight nodes, and the theorems at these inputs.
use beelzebub.Common.{
  ℕ, ◌+◌, ◌*◌, ◌^◌, ◌≤◌, ◌<◌, ◌≡◌, refl, List, [], ◌∷◌, Bool, true, false, none, some, compare,
  Ordering, ltb, ◌==◌, if◌then◌else◌, length, arith,
}
use beelzebub.Handles.{okay, out_of_memory, is_okay}
use beelzebub.Avl.Node.{Cell, null, node, to_list, get_height, balance}
use beelzebub.Avl.Edit.{Allocator}
use beelzebub.Avl.Edit
use beelzebub.Avl.Order.{IsKey, IsOrder}
use beelzebub.Avl.Visit.{pre_order, in_order, post_order, level_order}
use beelzebub.Avl.Visit
use beelzebub.Avl.Tree.{AvlTree, find, insert, insert_or_find, remove, traverse}
use beelzebub.Avl.Invariant.{IsWellFormed, contents, wf-IsCut}
use beelzebub.Avl.Inserting.{insert-IsWellFormed, insert-find}
use beelzebub.Avl.Removing.{remove-IsWellFormed, remove-find}
use beelzebub.Avl.Counting.{insert-height, insert_or_find_uncounted}
use beelzebub.Avl.Levels.{traverse-visit, order_list}
use beelzebub.Avl.Traversal.{visit}

abbrev bump : Allocator ℕ
bump = record {
  allocate =
      λ n. record { result = if ltb n 8 then okay else out_of_memory; address = n; state = n + 1 };
  release = λ a n. (okay, n);
}

abbrev by_number : ℕ → ℕ → Ordering
by_number a b = compare a b

by_number-IsKey : (p : ℕ) → IsKey by_number (λ q. by_number q p)
by_number-IsKey p = record { below = λ a b h n. ground arith; above = λ a b h n. ground arith }

by_number-IsOrder : IsOrder by_number
by_number-IsOrder = record {
  flip_lt = λ a b h. ground arith;
  flip_gt = λ a b h. ground arith;
  is_key = by_number-IsKey;
}

abbrev empty : AvlTree ℕ ℕ
empty = record { root = null; node_count = 0; cookie = 0 }

abbrev add : ℕ → AvlTree ℕ ℕ → AvlTree ℕ ℕ
add p t = (insert bump by_number p t).tree

abbrev cell : ℕ → ℕ → Cell ℕ
cell a p = record { address = a; payload = p }

-- 1, 2, 3 come in rising order, and one rotation makes 2 the root.
abbrev three : AvlTree ℕ ℕ
three = record {
  root = node (node null 1 (cell 0 1) null) 2 (cell 1 2) (node null 1 (cell 2 3) null);
  node_count = 3;
  cookie = 3;
}

add-three : add 3 (add 2 (add 1 empty)) ≡ three
unfolding insert Edit.insert balance
add-three = refl

three-IsWellFormed : IsWellFormed by_number three
unfolding get_height to_list
three-IsWellFormed = record {
  balanced = omega arith;
  sorted = ((refl, (refl, tt)), ((refl, tt), (tt, tt)));
  counted = refl;
}

three_fits : length (contents three) + 1 < 2 ^ 64
unfolding to_list
three_fits = omega arith

three_small : length (contents three) < 2 ^ 64
unfolding to_list
three_small = omega arith

find_five : find bump (λ q. by_number q 5) three ≡ none
unfolding find Edit.find
find_five = refl

tall : 2 * 1 ≤ get_height (insert bump by_number 5 three).tree.root
unfolding insert Edit.insert balance get_height
tall = omega arith

insert-IsWellFormed_example : IsWellFormed by_number (insert bump by_number 5 three).tree
insert-IsWellFormed_example =
    insert-IsWellFormed bump by_number by_number-IsOrder 5 three three-IsWellFormed three_fits

insert_five : is_okay (insert bump by_number 5 three).result ≡ true
unfolding insert Edit.insert
insert_five = refl

insert-find_example :
    find bump (λ q. by_number q 5) (insert bump by_number 5 three).tree ≡ some (cell 3 5)
insert-find_example =
    insert-find bump by_number by_number-IsOrder 5 three three-IsWellFormed insert_five _
      (by_number-IsKey 5)

remove-IsWellFormed_example : IsWellFormed by_number (remove bump (λ q. by_number q 2) three).tree
remove-IsWellFormed_example =
    remove-IsWellFormed bump by_number _ (by_number-IsKey 2) three three-IsWellFormed three_small

remove-find_example :
    find bump (λ q. by_number q 2) (remove bump (λ q. by_number q 2) three).tree ≡ none
unfolding find Edit.find
remove-find_example =
    remove-find bump by_number _ (by_number-IsKey 2) three three-IsWellFormed _ (by_number-IsKey 2)

-- The successor, 3, takes the place of 2.
remove_two :
    (remove bump (λ q. by_number q 2) three).tree.root
    ≡ node (node null 1 (cell 0 1) null) 2 (cell 2 3) null
unfolding remove Edit.remove Edit.remove_minimum balance
remove_two = refl

insert_or_find_uncounted_example :
    (is_okay (insert_or_find bump by_number (λ c. c) 5 three).result ≡ true)
    × ((insert_or_find bump by_number (λ c. c) 5 three).tree.node_count + 1
        ≡ length (contents (insert_or_find bump by_number (λ c. c) 5 three).tree))
insert_or_find_uncounted_example =
    insert_or_find_uncounted bump by_number (λ c. c) 5 three
      (wf-IsCut three-IsWellFormed (by_number-IsKey 5)) find_five refl three-IsWellFormed.counted

-- A callback that collects what it visits, and stops at 9.
abbrev collect : Cell ℕ → List ℕ → Bool × List ℕ
collect c seen = ((if c.payload == 9 then false else true), c.payload ∷ seen)

traverse-visit_example :
    Visit.traverse collect 3 level_order three.root []
    ≡ visit collect (order_list level_order three.root) []
unfolding get_height
traverse-visit_example =
    traverse-visit collect 3 level_order three.root [] three-IsWellFormed.balanced (omega arith)

traverse_levels_of_three : traverse bump 3 level_order collect three [] ≡ (true, 3 ∷ 1 ∷ 2 ∷ [])
unfolding traverse Visit.traverse Visit.traverse_levels
traverse_levels_of_three = refl

insert-height_example : 2 ^ 1 ≤ length (contents (insert bump by_number 5 three).tree) + 1
insert-height_example =
    insert-height bump by_number by_number-IsOrder 5 three three-IsWellFormed three_fits 1 tall
