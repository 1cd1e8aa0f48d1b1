-- ===== src/Avl/Order.antt =====
-- `_avl_add` is insertion into a sorted list, and `avl_find` a search in it.
use mathlib.Core.List.{append_assoc}
use mikucos.Base.{
  ℕ, ◌≡◌, refl, Bool, true, false, Option, none, some, List, [], ◌∷◌, ◌++◌, arith, if◌then◌else◌,
  inl, inr, Bool-cases,
}
use mikucos.Base.Int.{ℤ, pos, ltb_ℤ}
use mikucos.Avl.{
  Skew, avl_none, avl_left, avl_right, Res, avl_error, avl_ok, avl_balance, Tree, null, node,
  null_avl_node, ◌>>=◌, left_heavy, right_heavy, avl_grown_left, avl_grown_right, after_left,
  after_right, avl_add,
}
use mikucos.Avl.Balance.{IsAvl, Balanced, height, avl_add-Balanced}

unfoldable pub to_list {ℓ} : {A : Type ℓ} → Tree A → List A
to_list null = []
to_list (node l x s r) = to_list l ++ (x ∷ to_list r)

-- The result, if there is one, holds these items in this order.
abbrev Holds {ℓ} : {A : Type ℓ} → List A → Option (Tree A × Res) → Type ℓ
Holds xs none = Unit
Holds xs (some (t, res)) = to_list t ≡ xs

module _ {ℓ} {A : Type ℓ} where
  left_heavy-Holds :
      (l : Tree A) (x : A) (r : Tree A) → Holds (to_list l ++ (x ∷ to_list r)) (left_heavy l x r)
  unfolding left_heavy to_list
  left_heavy-Holds null x r = tt
  left_heavy-Holds (node ll lx avl_left lr) x r = simp append_assoc
  left_heavy-Holds (node ll lx avl_none null) x r = tt
  left_heavy-Holds (node ll lx avl_right null) x r = tt
  left_heavy-Holds (node ll lx avl_none (node a y k b)) x r = simp append_assoc
  left_heavy-Holds (node ll lx avl_right (node a y k b)) x r = simp append_assoc

  right_heavy-Holds :
      (l : Tree A) (x : A) (r : Tree A) → Holds (to_list l ++ (x ∷ to_list r)) (right_heavy l x r)
  unfolding right_heavy to_list
  right_heavy-Holds l x null = tt
  right_heavy-Holds l x (node rl rx avl_right rr) = simp append_assoc
  right_heavy-Holds l x (node null rx avl_none rr) = tt
  right_heavy-Holds l x (node null rx avl_left rr) = tt
  right_heavy-Holds l x (node (node a y k b) rx avl_none rr) = simp append_assoc
  right_heavy-Holds l x (node (node a y k b) rx avl_left rr) = simp append_assoc

  after_left-Holds :
      (g : Option (Tree A × Res)) (ys : List A) (x : A) (s : Skew) (r : Tree A)
      → Holds ys g
      → Holds (ys ++ (x ∷ to_list r)) (g >>= λ g. after_left g x s r)
  unfolding after_left avl_grown_left to_list
  after_left-Holds none ys x s r h = tt
  after_left-Holds (some (t, avl_error)) ys x s r h = rw (← h)
  after_left-Holds (some (t, avl_ok)) ys x s r h = rw (← h)
  after_left-Holds (some (t, avl_balance)) ys x avl_none r h = rw (← h)
  after_left-Holds (some (t, avl_balance)) ys x avl_right r h = rw (← h)
  after_left-Holds (some (t, avl_balance)) ys x avl_left r h = rw (← h) (left_heavy-Holds t x r)

  after_right-Holds :
      (g : Option (Tree A × Res)) (ys : List A) (x : A) (s : Skew) (l : Tree A)
      → Holds ys g
      → Holds (to_list l ++ (x ∷ ys)) (g >>= λ g. after_right l x s g)
  unfolding after_right avl_grown_right to_list
  after_right-Holds none ys x s l h = tt
  after_right-Holds (some (t, avl_error)) ys x s l h = rw (← h)
  after_right-Holds (some (t, avl_ok)) ys x s l h = rw (← h)
  after_right-Holds (some (t, avl_balance)) ys x avl_none l h = rw (← h)
  after_right-Holds (some (t, avl_balance)) ys x avl_left l h = rw (← h)
  after_right-Holds (some (t, avl_balance)) ys x avl_right l h = rw (← h) (right_heavy-Holds l x t)

-- Of a comparison function: it orders the structures, those that it does not tell apart having one
-- place among the others.
pub record IsOrder {ℓ} {A : Type ℓ} (compare : A → A → ℤ) : Type ℓ where
  pub flip : (a b : A) → ltb_ℤ (compare a b) (pos 0) ≡ ltb_ℤ (pos 0) (compare b a)
  pub less_of_not_less :
      (a b c : A)
      → ltb_ℤ (compare a b) (pos 0) ≡ true
      → ltb_ℤ (compare c b) (pos 0) ≡ false
      → ltb_ℤ (compare a c) (pos 0) ≡ true

module _ {ℓ} {A : Type ℓ} (compare : A → A → ℤ) where
  abbrev pub less : A → A → Bool
  less a b = ltb_ℤ (compare a b) (pos 0)

  abbrev pub AllAbove : A → List A → Type 0
  AllAbove a [] = Unit
  AllAbove a (x ∷ xs) = (less a x ≡ true) × AllAbove a xs

  abbrev pub AllBelow : List A → A → Type 0
  AllBelow [] a = Unit
  AllBelow (x ∷ xs) a = (less x a ≡ true) × AllBelow xs a

  abbrev pub Sorted : List A → Type 0
  Sorted [] = Unit
  Sorted (x ∷ xs) = AllAbove x xs × Sorted xs

  less-append : (a x : A) (ys zs : List A) → AllAbove a (ys ++ (x ∷ zs)) → less a x ≡ true
  less-append a x [] zs h = h.0
  less-append a x (y ∷ ys) zs h = less-append a x ys zs h.1

  AllAbove-left : (a : A) (ys zs : List A) → AllAbove a (ys ++ zs) → AllAbove a ys
  AllAbove-left a [] zs h = tt
  AllAbove-left a (y ∷ ys) zs h = (h.0, AllAbove-left a ys zs h.1)

  -- The parts of a sorted list around one of its items.
  pub Sorted-parts :
      (x : A) (ys zs : List A)
      → Sorted (ys ++ (x ∷ zs))
      → AllBelow ys x × Sorted ys × AllAbove x zs × Sorted zs
  Sorted-parts x [] zs h = (tt, tt, h.0, h.1)
  Sorted-parts x (y ∷ ys) zs h =
      let rest = Sorted-parts x ys zs h.1 in
      (
        (less-append y x ys zs h.0, rest.0),
        (AllAbove-left y ys (x ∷ zs) h.0, rest.1),
        rest.2,
        rest.3,
      )

  -- Insertion before the first greater item; an item that is there already stays.
  unfoldable pub insert : A → List A → List A
  insert new [] = new ∷ []
  insert new (x ∷ xs) =
      if ltb_ℤ (compare new x) (pos 0)
      then new ∷ x ∷ xs
      else if ltb_ℤ (pos 0) (compare new x)
      then x ∷ insert new xs
      else x ∷ xs

  insert-append_left :
      (new x : A) (ys zs : List A)
      → less new x ≡ true
      → insert new (ys ++ (x ∷ zs)) ≡ insert new ys ++ (x ∷ zs)
  unfolding insert
  insert-append_left new x [] zs h = rw h
  insert-append_left new x (y ∷ ys) zs h = ground (arith, insert-append_left new x ys zs h)

-- A comparison function that orders the structures.
module _ {ℓ} {A : Type ℓ} (compare : A → A → ℤ) (order : IsOrder compare) where
  less-asymm : (a b : A) → less compare a b ≡ true → less compare b a ≡ false
  less-asymm a b h = ground (arith, order.flip a b)

  pub less_trans :
      (a b c : A) → less compare a b ≡ true → less compare b c ≡ true → less compare a c ≡ true
  less_trans a b c h k = order.less_of_not_less a b c h (less-asymm b c k)

  insert-append_right :
      (new x : A) (ys zs : List A)
      → less compare new x ≡ false
      → AllBelow compare ys x
      → insert compare new (ys ++ (x ∷ zs)) ≡ ys ++ insert compare new (x ∷ zs)
  unfolding insert
  insert-append_right new x [] zs h b = refl
  insert-append_right new x (y ∷ ys) zs h b =
      let above : less compare y new ≡ true = order.less_of_not_less y x new b.0 h in
      let e = insert-append_right new x ys zs h b.1 in ground (arith, order.flip y new, e)

  insert-greater :
      (new x : A) (xs : List A)
      → less compare new x ≡ false
      → ltb_ℤ (pos 0) (compare new x) ≡ true
      → insert compare new (x ∷ xs) ≡ x ∷ insert compare new xs
  unfolding insert
  insert-greater new x xs e e' = rw (e, e')

  insert-same :
      (new x : A) (xs : List A)
      → less compare new x ≡ false
      → ltb_ℤ (pos 0) (compare new x) ≡ false
      → insert compare new (x ∷ xs) ≡ x ∷ xs
  unfolding insert
  insert-same new x xs e e' = rw (e, e')

  -- The items behind an insertion that succeeds.
  avl_add-Holds :
      (new : A) (t : Tree A)
      → Sorted compare (to_list t)
      → Holds (insert compare new (to_list t)) (avl_add compare new (null_avl_node new) t)
  unfolding avl_add to_list
  avl_add-Holds new null b = unfold insert in refl
  avl_add-Holds new (node l x s r) b =
      let parts = Sorted-parts compare x (to_list l) (to_list r) b in
      elim (Bool-cases (less compare new x)) [
        | inl e ↦
            rw (e, insert-append_left compare new x (to_list l) (to_list r) e)
              (after_left-Holds _ _ x s r (avl_add-Holds new l parts.1))
        | inr e ↦
            rw (e, insert-append_right new x (to_list l) (to_list r) e parts.0)
              (elim (Bool-cases (ltb_ℤ (pos 0) (compare new x))) [
                | inl e' ↦
                    rw (e', insert-greater new x (to_list r) e e')
                      (after_right-Holds _ _ x s l (avl_add-Holds new r parts.3))
                | inr e' ↦ rw (e', insert-same new x (to_list r) e e')
              ])
      ]

  result :
      (h : ℕ) (xs : List A) (g : Option (Tree A × Res))
      → Balanced h g
      → Holds xs g
      → (t : Tree A) × (res : Res) × (g ≡ some (t, res)) × (to_list t ≡ xs)
  result h xs none b e = absurd b
  result h xs (some (t, res)) b e = (t, res, refl, e)

  -- Into a balanced tree in order, `_avl_add` of a `null_avl_node` succeeds: it puts the structure at
  -- its place among the others, and leaves the tree with the items it had if one compares equal; the
  -- order of the items is that of `compare`.
  pub avl_add-insert :
      (new : A) (t : Tree A)
      → IsAvl t
      → Sorted compare (to_list t)
      → (t' : Tree A) × (res : Res) × (avl_add compare new (null_avl_node new) t ≡ some (t', res))
        × (to_list t' ≡ insert compare new (to_list t))
  avl_add-insert new t b s =
      result (height t) (insert compare new (to_list t)) (avl_add compare new (null_avl_node new) t)
        (avl_add-Balanced compare new t b) (avl_add-Holds new t s)
