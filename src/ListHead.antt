-- ===== src/ListHead.antt =====
-- list.h: circular doubly linked lists, through pointers in the structures that they link. A node
-- is named by its address, and the memory gives the two pointers of each node.
pub mod Ring
pub mod Add
pub mod Del
pub mod Examples
use mikucos.Base.{ℕ, Bool, ◌==◌, if◌then◌else◌}

abbrev pub Ptr : Type 0
Ptr = ℕ

pub record Heap : Type 0 where
  pub next : Ptr → Ptr
  pub prev : Ptr → Ptr

abbrev pub write {ℓ} : {A : Type ℓ} → (Ptr → A) → Ptr → A → Ptr → A
write f p v q = if q == p then v else f q

-- `p->next = v` and `p->prev = v`.
abbrev pub set_next : Ptr → Ptr → Heap → Heap
set_next p v h = record h { next = write h.next p v }

abbrev pub set_prev : Ptr → Ptr → Heap → Heap
set_prev p v h = record h { prev = write h.prev p v }

pub init_list_head : Ptr → Heap → Heap
init_list_head p h = set_prev p p (set_next p p h)

-- `__list_add`.
pub list_add_between : Ptr → Ptr → Ptr → Heap → Heap
list_add_between new prev next h =
    set_next prev new (set_prev new prev (set_next new next (set_prev next new h)))

unfoldable pub list_add : Ptr → Ptr → Heap → Heap
unfolding list_add_between
list_add new head h = list_add_between new head (h.next head) h

unfoldable pub list_add_tail : Ptr → Ptr → Heap → Heap
unfolding list_add_between
list_add_tail new head h = list_add_between new (h.prev head) head h

-- `__list_del`.
pub list_del_between : Ptr → Ptr → Heap → Heap
list_del_between prev next h = set_next prev next (set_prev next prev h)

unfoldable pub list_del : Ptr → Heap → Heap
unfolding list_del_between
list_del entry h = list_del_between (h.prev entry) (h.next entry) h

unfoldable pub list_del_init : Ptr → Heap → Heap
unfolding list_del_between init_list_head
list_del_init entry h = init_list_head entry (list_del_between (h.prev entry) (h.next entry) h)

unfoldable pub list_empty : Ptr → Heap → Bool
list_empty head h = h.next head == head

unfoldable pub list_splice : Ptr → Ptr → Heap → Heap
list_splice list head h =
    let first = h.next list in
    let last = h.prev list in
    let at = h.next head in
    if first == list
    then h
    else set_prev at last (set_next last at (set_next head first (set_prev first head h)))
