-- ===== src/Avl/Examples.antt =====
-- Trees of numbers, built by `_avl_add`, and the theorems at them.
use mikucos.Base.{ℕ, ◌≡◌, refl, some, arith, if◌then◌else◌}
use mikucos.Base.Int.{ℤ}
use mikucos.Avl.{
  Tree, Res, avl_none, avl_left, avl_ok, null, node, null_avl_node, avl_add, avl_find,
}
use mikucos.Avl.Balance.{IsAvl, Balanced, avl_add-Balanced}
use mikucos.Avl.Order.{Sorted, to_list, insert, avl_add-insert}
use mikucos.Avl.Find.{same, or_else, avl_find-add}
use mikucos.Avl.Keys.{avl_make_compare, avl_make_match, avl_make_compare-IsOrder}

abbrev cmp : ℕ → ℕ → ℤ
cmp = avl_make_compare (λ n. n)

abbrev matches : ℕ → ℕ → ℤ
matches = avl_make_match (λ n. n)

abbrev two : Tree ℕ
two = node (null_avl_node 1) 3 avl_left null

-- The third insertion makes the double rotation.
double_rotation :
    avl_add cmp 2 (null_avl_node 2) two
    ≡ some (node (null_avl_node 1) 2 avl_none (null_avl_node 3), avl_ok)
unfolding avl_add avl_make_compare
double_rotation = refl

two-IsAvl : IsAvl two
two-IsAvl = omega arith

two-Sorted : Sorted cmp (to_list two)
unfolding to_list avl_make_compare
two-Sorted = ((refl, tt), (tt, tt))

avl_add-Balanced_example : Balanced 2 (avl_add cmp 2 (null_avl_node 2) two)
avl_add-Balanced_example = avl_add-Balanced cmp 2 two two-IsAvl

avl_add-insert_example :
    (t' : Tree ℕ) × (res : Res) × (avl_add cmp 2 (null_avl_node 2) two ≡ some (t', res))
    × (to_list t' ≡ insert cmp 2 (to_list two))
avl_add-insert_example =
    avl_add-insert cmp (avl_make_compare-IsOrder (λ n. n)).0 2 two two-IsAvl two-Sorted

avl_find-add_example :
    (t' : Tree ℕ) × (res : Res) × (avl_add cmp 2 (null_avl_node 2) two ≡ some (t', res))
    × Sorted cmp (to_list t')
    × ((a : ℕ)
        → avl_find matches a t' ≡ (
            if same cmp a 2
            then or_else (avl_find matches a two) (some 2)
            else avl_find matches a two))
avl_find-add_example =
    avl_find-add cmp (avl_make_compare-IsOrder (λ n. n)).0 matches (λ n. n)
      (avl_make_compare-IsOrder (λ n. n)).1 2 two two-IsAvl two-Sorted
