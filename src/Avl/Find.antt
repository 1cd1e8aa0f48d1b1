-- ===== src/Avl/Find.antt =====
-- The macro `avl_find` against a search of all items, before and after an insertion.
use mikucos.Base.{
  ◌≡◌, refl, Bool, true, false, not, ◌&&◌, Option, none, some, List, [], ◌∷◌, ◌++◌, arith,
  if◌then◌else◌,
}
use mikucos.Base.Int.{ℤ, pos, ltb_ℤ, is_zero}
use mikucos.Avl.{Tree, Res, null, node, null_avl_node, avl_add, avl_find}
use mikucos.Avl.Balance.{IsAvl}
use mikucos.Avl.Order.{
  to_list, IsOrder, less, AllAbove, AllBelow, Sorted, Sorted-parts, insert, less_trans,
  avl_add-insert,
}

abbrev pub or_else {ℓ} : {A : Type ℓ} → Option A → Option A → Option A
or_else none o = o
or_else (some x) o = some x

module _ {ℓ} {A : Type ℓ} (compare : A → A → ℤ) where
  abbrev pub same : A → A → Bool
  same a b = not (less compare a b) && not (ltb_ℤ (pos 0) (compare a b))

  -- The first item that compares equal, in a search of the whole list.
  pub lookup : A → List A → Option A
  lookup a [] = none
  lookup a (x ∷ xs) = if same a x then some x else lookup a xs

  lookup-append :
      (a : A) (xs ys : List A) → lookup a (xs ++ ys) ≡ or_else (lookup a xs) (lookup a ys)
  unfolding lookup
  lookup-append a [] ys = refl
  lookup-append a (x ∷ xs) ys = ground (arith, lookup-append a xs ys)

-- A key against the structures: it is in front of those behind one that it is in front of, and behind
-- those in front of another.
pub record IsPlaced {ℓ} {A : Type ℓ} (compare : A → A → ℤ) (against : A → ℤ) : Type ℓ where
  pub in_front :
      (x y : A)
      → ltb_ℤ (against x) (pos 0) ≡ true
      → less compare x y ≡ true
      → ltb_ℤ (against y) (pos 0) ≡ true
  pub behind :
      (x y : A)
      → ltb_ℤ (against x) (pos 0) ≡ false
      → less compare y x ≡ true
      → ltb_ℤ (pos 0) (against y) ≡ true

-- The first structure that the key agrees with, in a search of the whole list.
unfoldable pub first_equal {ℓ} : {A : Type ℓ} → (A → ℤ) → List A → Option A
first_equal against [] = none
first_equal against (x ∷ xs) =
    let rest = first_equal against xs in if is_zero (against x) then some x else rest

module _ {ℓ} {A : Type ℓ} (compare : A → A → ℤ) (against : A → ℤ)
    (placed : IsPlaced compare against) where
  first_equal-append :
      (xs ys : List A)
      → first_equal against (xs ++ ys) ≡ or_else (first_equal against xs) (first_equal against ys)
  unfolding first_equal
  first_equal-append [] ys = refl
  first_equal-append (x ∷ xs) ys = ground (arith, first_equal-append xs ys)

  first_equal-above :
      (x : A) (xs : List A)
      → ltb_ℤ (against x) (pos 0) ≡ true
      → AllAbove compare x xs
      → first_equal against xs ≡ none
  unfolding first_equal
  first_equal-above x [] h b = refl
  first_equal-above x (y ∷ xs) h b =
      ground (arith, placed.in_front x y h b.0, first_equal-above x xs h b.1)

  first_equal-below :
      (x : A) (xs : List A)
      → ltb_ℤ (against x) (pos 0) ≡ false
      → AllBelow compare xs x
      → first_equal against xs ≡ none
  unfolding first_equal
  first_equal-below x [] h b = refl
  first_equal-below x (y ∷ xs) h b =
      ground (arith, placed.behind x y h b.0, first_equal-below x xs h b.1)

-- In a tree in order, the search from the root finds the first structure that the key agrees with.
pub avl_find-first {κ} :
    {A : Type 0} {K : Type κ} (compare : A → A → ℤ) (match : K → A → ℤ) (key : K)
    → IsPlaced compare (match key)
    → (t : Tree A) → Sorted compare (to_list t)
    → avl_find match key t ≡ first_equal (match key) (to_list t)
unfolding avl_find to_list first_equal
avl_find-first compare match key placed null b = refl
avl_find-first compare match key placed (node l x s r) b =
    let parts = Sorted-parts compare x (to_list l) (to_list r) b in
    ground (
      arith,
      avl_find-first compare match key placed l parts.1,
      avl_find-first compare match key placed r parts.3,
      first_equal-append compare (match key) placed (to_list l) (x ∷ to_list r),
      λ (h : ltb_ℤ (match key x) (pos 0) ≡ true).
          first_equal-above compare (match key) placed x (to_list r) h parts.2,
      λ (h : ltb_ℤ (match key x) (pos 0) ≡ false).
          first_equal-below compare (match key) placed x (to_list l) h parts.0,
    )

module _ {ℓ} {A : Type ℓ} (compare : A → A → ℤ) (order : IsOrder compare) where
  lookup-above :
      (a x : A) (xs : List A)
      → less compare a x ≡ true
      → AllAbove compare x xs
      → lookup compare a xs ≡ none
  unfolding lookup
  lookup-above a x [] h b = refl
  lookup-above a x (y ∷ xs) h b =
      ground (arith, less_trans compare order a x y h b.0, lookup-above a x xs h b.1)

  lookup-below :
      (a x : A) (xs : List A)
      → less compare a x ≡ false
      → AllBelow compare xs x
      → lookup compare a xs ≡ none
  unfolding lookup
  lookup-below a x [] h b = refl
  lookup-below a x (y ∷ xs) h b =
      ground (arith, order.flip y a, order.less_of_not_less y x a b.0 h, lookup-below a x xs h b.1)

  -- In a tree whose items are in order, the search from the root finds what a search of all items
  -- finds, if the function that compares a key with an item agrees with `compare`.
  pub avl_find-lookup {κ} :
      {K : Type κ} (match : K → A → ℤ) (key : A → K)
      → ((a b : A) → match (key a) b ≡ compare a b)
      → (a : A) (t : Tree A) → Sorted compare (to_list t)
      → avl_find match (key a) t ≡ lookup compare a (to_list t)
  unfolding avl_find to_list lookup
  avl_find-lookup match key agree a null b = refl
  avl_find-lookup match key agree a (node l x s r) b =
      let parts = Sorted-parts compare x (to_list l) (to_list r) b in
      ground (
        arith,
        agree a x,
        avl_find-lookup match key agree a l parts.1,
        avl_find-lookup match key agree a r parts.3,
        lookup-append compare a (to_list l) (x ∷ to_list r),
        λ (h : less compare a x ≡ true). lookup-above a x (to_list r) h parts.2,
        λ (h : less compare a x ≡ false). lookup-below a x (to_list l) h parts.0,
      )

  same-less : (a x y : A) → same compare a x ≡ true → same compare a y ≡ same compare x y
  same-less a x y h = grind (
    arith,
    order.flip a x,
    order.flip a y,
    order.flip x y,
    order.less_of_not_less a y x,
    order.less_of_not_less x y a,
    order.less_of_not_less y x a,
    order.less_of_not_less y a x,
  )

  same_not_less : (a x : A) → same compare a x ≡ true → less compare a x ≡ false
  same_not_less a x h = ground arith

  lookup-insert :
      (a new : A) (xs : List A)
      → Sorted compare xs
      → lookup compare a (insert compare new xs) ≡ (
          if same compare a new
          then or_else (lookup compare a xs) (some new)
          else lookup compare a xs)
  unfolding lookup insert
  lookup-insert a new [] b = refl
  lookup-insert a new (x ∷ xs) b = ground (
    arith,
    lookup-insert a new xs b.1,
    order.flip new a,
    λ (h : same compare a new ≡ true). same-less a new x h,
    λ (h : less compare new x ≡ true) (k : less compare a x ≡ false).
        order.less_of_not_less new x a h k,
    λ (h : less compare a x ≡ true). lookup-above a x xs h b.0,
  )

  AllAbove-insert :
      (a new : A) (xs : List A)
      → less compare a new ≡ true
      → AllAbove compare a xs
      → AllAbove compare a (insert compare new xs)
  unfolding insert
  AllAbove-insert a new [] h b = (h, tt)
  AllAbove-insert a new (x ∷ xs) h b = ground (arith, AllAbove-insert a new xs h b.1)

  AllAbove-trans :
      (a x : A) (xs : List A)
      → less compare a x ≡ true
      → AllAbove compare x xs
      → AllAbove compare a xs
  AllAbove-trans a x [] h b = tt
  AllAbove-trans a x (y ∷ xs) h b =
      (less_trans compare order a x y h b.0, AllAbove-trans a x xs h b.1)

  pub insert-Sorted :
      (new : A) (xs : List A) → Sorted compare xs → Sorted compare (insert compare new xs)
  unfolding insert
  insert-Sorted new [] b = (tt, tt)
  insert-Sorted new (x ∷ xs) b = ground (
    arith,
    order.flip x new,
    insert-Sorted new xs b.1,
    λ (h : less compare new x ≡ true). AllAbove-trans new x xs h b.0,
    λ (h : less compare x new ≡ true). AllAbove-insert x new xs h b.0,
  )

  -- Into a balanced tree in order, `_avl_add` of a `null_avl_node` succeeds and keeps the items in
  -- order. `avl_find` then finds what it found before, and, for a key that compares equal with the new
  -- structure, the structure that was there already or else the new one.
  pub avl_find-add {κ} :
      {K : Type κ} (match : K → A → ℤ) (key : A → K)
      → ((a b : A) → match (key a) b ≡ compare a b)
      → (new : A) (t : Tree A) → IsAvl t
      → Sorted compare (to_list t)
      → (t' : Tree A) × (res : Res) × (avl_add compare new (null_avl_node new) t ≡ some (t', res))
        × Sorted compare (to_list t')
        × ((a : A)
            → avl_find match (key a) t' ≡ (
                if same compare a new
                then or_else (avl_find match (key a) t) (some new)
                else avl_find match (key a) t))
  avl_find-add match key agree new t b srt =
      let (t', res, e, h) = avl_add-insert compare order new t b srt in
      (t', res, e, rw h (insert-Sorted new (to_list t) srt), finds t' h)
    where
      finds :
          (t' : Tree A)
          → to_list t' ≡ insert compare new (to_list t)
          → (a : A)
          → avl_find match (key a) t' ≡ (
              if same compare a new
              then or_else (avl_find match (key a) t) (some new)
              else avl_find match (key a) t)
      finds t' e a =
          let srt' : Sorted compare (to_list t') = rw e (insert-Sorted new (to_list t) srt) in
          rw (avl_find-lookup match key agree a t' srt', avl_find-lookup match key agree a t srt, e)
            (lookup-insert a new (to_list t) srt)
