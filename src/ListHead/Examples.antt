-- ===== src/ListHead/Examples.antt =====
-- Rings of two and three nodes, and the theorems at them.
use mikucos.Base.{refl, [], ◌∷◌, arith}
use mikucos.ListHead.{Heap, init_list_head, list_add, list_add_tail, list_del, list_del_init}
use mikucos.ListHead.Ring.{Ring}
use mikucos.ListHead.Add.{list_add-Ring}
use mikucos.ListHead.Del.{list_del-Ring}

abbrev memory : Heap
memory = record { next = λ p. 0; prev = λ p. 0 }

-- The ring at 100 with the nodes 1 and 2.
two : Heap
unfolding list_add_tail init_list_head
two = list_add_tail 2 100 (list_add_tail 1 100 (init_list_head 100 memory))

two-Ring : Ring two 100 (1 ∷ 2 ∷ [])
unfolding two
two-Ring = record { links = omega arith; distinct = (refl, (refl, (refl, tt))) }

list_add-Ring_example :
    Ring (list_add 3 100 two) 100 (3 ∷ 1 ∷ 2 ∷ [])
    × Ring (list_add_tail 3 100 two) 100 (1 ∷ 2 ∷ 3 ∷ [])
list_add-Ring_example = list_add-Ring two-Ring 3 refl

list_del-Ring_example :
    Ring (list_del 2 two) 100 (1 ∷ [])
    × Ring (list_del_init 2 two) 100 (1 ∷ [])
    × Ring (list_del_init 2 two) 2 []
list_del-Ring_example = list_del-Ring 2 (1 ∷ []) [] two-Ring
