-- ===== src/Avl.antt =====
-- avl.c and avl.h: the balanced search trees that index drivers, devices, mounts, interfaces and
-- thread data. A tree holds the structures that its nodes are embedded in; `compare` and `match`
-- are the functions that the macros of avl.h build for each type. `none` is a read through a null
-- pointer.
pub mod Balance
pub mod Order
pub mod Find
pub mod Keys
pub mod Examples
use mathlib.Core.Path.{◌≡◌}
use mikucos.Base.{ℕ, Bool, true, false, Option, none, some, if◌then◌else◌}
use mikucos.Base.Int.{ℤ, pos, ltb_ℤ}

pub data Skew : Type 0 where
  avl_none avl_left avl_right : Skew

pub data Res : Type 0 where
  avl_error avl_ok avl_balance : Res

pub data Tree {ℓ} (A : Type ℓ) : Type ℓ where
  null : Tree A
  node : Tree A → A → Skew → Tree A → Tree A

-- A node as `null_avl_node` leaves it.
abbrev pub null_avl_node {ℓ} : {A : Type ℓ} → A → Tree A
null_avl_node a = node null a avl_none null

infixl 5 ◌>>=◌
abbrev pub ◌>>=◌ {ℓ κ} : {A : Type ℓ} {B : Type κ} → Option A → (A → Option B) → Option B
none >>= f = none
some a >>= f = f a

-- The switch on `left->right->skew`: the new skew of the node, and that of its left child.
pub skews_left : Skew → Skew × Skew
skews_left avl_left = (avl_right, avl_none)
skews_left avl_right = (avl_none, avl_left)
skews_left avl_none = (avl_none, avl_none)

-- The switch on `right->left->skew`.
pub skews_right : Skew → Skew × Skew
skews_right avl_right = (avl_left, avl_none)
skews_right avl_left = (avl_none, avl_right)
skews_right avl_none = (avl_none, avl_none)

module _ {ℓ} {A : Type ℓ} where
  pub avl_rotate_right : Tree A → Option (Tree A)
  avl_rotate_right null = none
  avl_rotate_right (node null y t c) = none
  avl_rotate_right (node (node a x s b) y t c) = some (node a x s (node b y t c))

  pub avl_rotate_left : Tree A → Option (Tree A)
  avl_rotate_left null = none
  avl_rotate_left (node a x s null) = none
  avl_rotate_left (node a x s (node b y t c)) = some (node (node a x s b) y t c)

  -- `avl_grownLeft` on a node that leans to the left already.
  pub left_heavy : Tree A → A → Tree A → Option (Tree A × Res)
  unfolding avl_rotate_right avl_rotate_left skews_left
  left_heavy null x r = none
  left_heavy (node ll lx avl_left lr) x r = do
    t ← avl_rotate_right (node (node ll lx avl_none lr) x avl_none r)
    some (t, avl_ok)
  left_heavy (node ll lx ls null) x r = none
  left_heavy (node ll lx ls (node a y k b)) x r = do
    l ← avl_rotate_left (node ll lx (skews_left k).1 (node a y avl_none b))
    t ← avl_rotate_right (node l x (skews_left k).0 r)
    some (t, avl_ok)

  pub avl_grown_left : Tree A → Option (Tree A × Res)
  unfolding left_heavy
  avl_grown_left null = none
  avl_grown_left (node l x avl_left r) = left_heavy l x r
  avl_grown_left (node l x avl_right r) = some (node l x avl_none r, avl_ok)
  avl_grown_left (node l x avl_none r) = some (node l x avl_left r, avl_balance)

  pub right_heavy : Tree A → A → Tree A → Option (Tree A × Res)
  unfolding avl_rotate_right avl_rotate_left skews_right
  right_heavy l x null = none
  right_heavy l x (node rl rx avl_right rr) = do
    t ← avl_rotate_left (node l x avl_none (node rl rx avl_none rr))
    some (t, avl_ok)
  right_heavy l x (node null rx rs rr) = none
  right_heavy l x (node (node a y k b) rx rs rr) = do
    r ← avl_rotate_right (node (node a y avl_none b) rx (skews_right k).1 rr)
    t ← avl_rotate_left (node l x (skews_right k).0 r)
    some (t, avl_ok)

  unfoldable pub avl_grown_right : Tree A → Option (Tree A × Res)
  unfolding right_heavy
  avl_grown_right null = none
  avl_grown_right (node l x avl_left r) = some (node l x avl_none r, avl_ok)
  avl_grown_right (node l x avl_right r) = right_heavy l x r
  avl_grown_right (node l x avl_none r) = some (node l x avl_right r, avl_balance)

  -- What follows the recursive call for the left and for the right subtree.
  pub after_left : Tree A × Res → A → Skew → Tree A → Option (Tree A × Res)
  unfolding avl_grown_left
  after_left (l, avl_balance) x s r = avl_grown_left (node l x s r)
  after_left (l, avl_ok) x s r = some (node l x s r, avl_ok)
  after_left (l, avl_error) x s r = some (node l x s r, avl_ok)

  unfoldable pub after_right : Tree A → A → Skew → Tree A × Res → Option (Tree A × Res)
  unfolding avl_grown_right
  after_right l x s (r, avl_balance) = avl_grown_right (node l x s r)
  after_right l x s (r, avl_ok) = some (node l x s r, avl_ok)
  after_right l x s (r, avl_error) = some (node l x s r, avl_ok)

-- `new` is the structure to insert, `fresh` its node, which is linked in as it is.
module _ {ℓ} {A : Type ℓ} (compare : A → A → ℤ) where
  unfoldable pub avl_add : A → Tree A → Tree A → Option (Tree A × Res)
  unfolding after_left after_right
  avl_add new fresh null = some (fresh, avl_balance)
  avl_add new fresh (node l x s r) =
      let left = avl_add new fresh l >>= λ g. after_left g x s r in
      let right = avl_add new fresh r >>= λ g. after_right l x s g in
      if ltb_ℤ (compare new x) (pos 0)
      then left
      else if ltb_ℤ (pos 0) (compare new x)
      then right
      else some (node l x s r, avl_ok)

-- The loop of the macro `avl_find`, down from the root.
module _ {ℓ κ} {K : Type κ} {A : Type ℓ} (match : K → A → ℤ) where
  unfoldable pub avl_find : K → Tree A → Option A
  avl_find key null = none
  avl_find key (node l x s r) =
      let left = avl_find key l in
      let right = avl_find key r in
      if ltb_ℤ (match key x) (pos 0)
      then left
      else if ltb_ℤ (pos 0) (match key x)
      then right
      else some x
