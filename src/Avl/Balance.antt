-- ===== src/Avl/Balance.antt =====
-- avl.c keeps its trees balanced, and so shallow.
use Prim.Native.Nat.{max}
use mikucos.Base.{ℕ, zero, suc, ◌+◌, ◌≤◌, ◌≡◌, Option, none, some, arith, inl, inr, Bool-cases}
use mikucos.Base.Int.{ℤ, pos, ltb_ℤ}
use mikucos.Avl.{
  Skew, avl_none, avl_left, avl_right, Res, avl_error, avl_ok, avl_balance, Tree, null, node,
  null_avl_node, ◌>>=◌, left_heavy, right_heavy, avl_grown_left, avl_grown_right, after_left,
  after_right, avl_add,
}

module _ {ℓ} {A : Type ℓ} where
  abbrev pub height : Tree A → ℕ
  height null = 0
  height (node l x s r) = suc (max (height l) (height r))

  abbrev pub size : Tree A → ℕ
  size null = 0
  size (node l x s r) = suc (size l + size r)

-- What a skew says of the heights of the two subtrees.
abbrev pub Leans : Skew → ℕ → ℕ → Type 0
Leans avl_none m n = m ≡ n
Leans avl_left m n = m ≡ suc n
Leans avl_right m n = n ≡ suc m

-- By how much a result says that the tree has grown.
abbrev pub growth : Res → ℕ
growth avl_balance = 1
growth avl_ok = 0
growth avl_error = 0

module _ {ℓ} {A : Type ℓ} where
  abbrev pub IsAvl : Tree A → Type 0
  IsAvl null = Unit
  IsAvl (node l x s r) = Leans s (height l) (height r) × IsAvl l × IsAvl r

  -- A tree that has just grown leans to a side, or is a single node.
  abbrev pub IsLeaning : Tree A → Type 0
  IsLeaning null = Unit
  IsLeaning (node l x avl_none r) = height l ≡ 0
  IsLeaning (node l x avl_left r) = Unit
  IsLeaning (node l x avl_right r) = Unit

  abbrev pub Grown : Res → Tree A → Type 0
  Grown avl_error t = Unit
  Grown avl_ok t = Unit
  Grown avl_balance t = IsLeaning t

  -- A result that is balanced and as high as it says, over a tree of height `h`.
  abbrev pub Balanced : ℕ → Option (Tree A × Res) → Type 0
  Balanced h none = ⊥
  Balanced h (some (t, res)) = IsAvl t × (height t ≡ h + growth res) × Grown res t

  left_heavy-Balanced :
      (l : Tree A) (x : A) (r : Tree A)
      → IsAvl l
      → IsAvl r
      → IsLeaning l
      → height l ≡ suc (suc (height r))
      → Balanced (height l) (left_heavy l x r)
  unfolding left_heavy
  left_heavy-Balanced null x r bl br g h = absurd (omega arith)
  left_heavy-Balanced (node ll lx avl_left lr) x r bl br g h = ground arith
  left_heavy-Balanced (node ll lx avl_none lr) x r bl br g h = absurd (omega arith)
  left_heavy-Balanced (node ll lx avl_right null) x r bl br g h = absurd (omega arith)
  left_heavy-Balanced (node ll lx avl_right (node a y avl_none b)) x r bl br g h = ground arith
  left_heavy-Balanced (node ll lx avl_right (node a y avl_left b)) x r bl br g h = ground arith
  left_heavy-Balanced (node ll lx avl_right (node a y avl_right b)) x r bl br g h = ground arith

  right_heavy-Balanced :
      (l : Tree A) (x : A) (r : Tree A)
      → IsAvl l
      → IsAvl r
      → IsLeaning r
      → height r ≡ suc (suc (height l))
      → Balanced (height r) (right_heavy l x r)
  unfolding right_heavy
  right_heavy-Balanced l x null bl br g h = absurd (omega arith)
  right_heavy-Balanced l x (node rl rx avl_right rr) bl br g h = ground arith
  right_heavy-Balanced l x (node null rx avl_none rr) bl br g h = absurd (omega arith)
  right_heavy-Balanced l x (node null rx avl_left rr) bl br g h = absurd (omega arith)
  right_heavy-Balanced l x (node (node a y k b) rx avl_none rr) bl br g h = absurd (omega arith)
  right_heavy-Balanced l x (node (node a y avl_none b) rx avl_left rr) bl br g h = ground arith
  right_heavy-Balanced l x (node (node a y avl_left b) rx avl_left rr) bl br g h = ground arith
  right_heavy-Balanced l x (node (node a y avl_right b) rx avl_left rr) bl br g h = ground arith

  after_left-Balanced :
      (g : Option (Tree A × Res)) (x : A) (s : Skew) (l r : Tree A)
      → IsAvl (node l x s r)
      → Balanced (height l) g
      → Balanced (height (node l x s r)) (g >>= λ g. after_left g x s r)
  unfolding after_left avl_grown_left
  after_left-Balanced none x s l r b g = absurd g
  after_left-Balanced (some (t, avl_error)) x s l r b (bt, e, _) =
      let e' : height t ≡ height l = omega arith in ground (arith, e')
  after_left-Balanced (some (t, avl_ok)) x s l r b (bt, e, _) =
      let e' : height t ≡ height l = omega arith in ground (arith, e')
  after_left-Balanced (some (t, avl_balance)) x avl_none l r b g = ground arith
  after_left-Balanced (some (t, avl_balance)) x avl_left l r b (bt, e, lean) =
      let e' : height t ≡ height (node l x avl_left r) = omega arith in
      rw (← e') (left_heavy-Balanced t x r bt b.2 lean (omega arith))
  after_left-Balanced (some (t, avl_balance)) x avl_right l r b g = ground arith

  after_right-Balanced :
      (g : Option (Tree A × Res)) (x : A) (s : Skew) (l r : Tree A)
      → IsAvl (node l x s r)
      → Balanced (height r) g
      → Balanced (height (node l x s r)) (g >>= λ g. after_right l x s g)
  unfolding after_right avl_grown_right
  after_right-Balanced none x s l r b g = absurd g
  after_right-Balanced (some (t, avl_error)) x s l r b (bt, e, _) =
      let e' : height t ≡ height r = omega arith in ground (arith, e')
  after_right-Balanced (some (t, avl_ok)) x s l r b (bt, e, _) =
      let e' : height t ≡ height r = omega arith in ground (arith, e')
  after_right-Balanced (some (t, avl_balance)) x avl_none l r b g = ground arith
  after_right-Balanced (some (t, avl_balance)) x avl_right l r b (bt, e, lean) =
      let e' : height t ≡ height (node l x avl_right r) = omega arith in
      rw (← e') (right_heavy-Balanced l x t b.1 bt lean (omega arith))
  after_right-Balanced (some (t, avl_balance)) x avl_left l r b g = ground arith

  unchanged-Balanced : (t : Tree A) → IsAvl t → Balanced (height t) (some (t, avl_ok))
  unchanged-Balanced t b = (b, omega arith, tt)

-- Into a balanced tree, whatever the comparison says, `_avl_add` inserts a `null_avl_node` without
-- reading through a null pointer; the tree is balanced again, with every skew right, and
-- `AVL_BALANCE` is returned exactly when it has become higher.
pub avl_add-Balanced {ℓ} :
    {A : Type ℓ} (compare : A → A → ℤ) (new : A) (t : Tree A)
    → IsAvl t
    → Balanced (height t) (avl_add compare new (null_avl_node new) t)
unfolding avl_add
avl_add-Balanced compare new null b = omega arith
avl_add-Balanced compare new (node l x s r) b = elim (Bool-cases (ltb_ℤ (compare new x) (pos 0))) [
  | inl e ↦ rw e (after_left-Balanced _ x s l r b (avl_add-Balanced compare new l b.1))
  | inr e ↦ rw e (elim (Bool-cases (ltb_ℤ (pos 0) (compare new x))) [
    | inl e' ↦ rw e' (after_right-Balanced _ x s l r b (avl_add-Balanced compare new r b.2))
    | inr e' ↦ rw e' (unchanged-Balanced (node l x s r) b)
  ])
]

pub fib : ℕ → ℕ
fib zero = 0
fib (suc zero) = 1
fib (suc (suc n)) = fib (suc n) + fib n

fib-suc : (n : ℕ) → fib n ≤ fib (suc n)
unfolding fib
fib-suc zero = omega arith
fib-suc (suc n) = omega arith

-- A balanced tree of height `h` has at least `fib (h + 2) - 1` nodes.
pub fib-height-le {ℓ} :
    {A : Type ℓ} (t : Tree A) → IsAvl t → fib (suc (suc (height t))) ≤ size t + 1
unfolding fib
fib-height-le null b = omega arith
fib-height-le (node l x avl_none r) b =
    let e : max (height l) (height r) ≡ height r = omega arith in
    let e' : height l ≡ height r = b.0 in
    let left : fib (suc (suc (height r))) ≤ size l + 1 = rw e' at (fib-height-le l b.1) in
    rw e (omega (arith, left, fib-height-le r b.2, fib-suc (height r)))
fib-height-le (node l x avl_left r) b =
    let e : max (height l) (height r) ≡ suc (height r) = omega arith in
    let e' : height l ≡ suc (height r) = b.0 in
    let left : fib (suc (suc (suc (height r)))) ≤ size l + 1 = rw e' at (fib-height-le l b.1) in
    rw e (omega (arith, left, fib-height-le r b.2))
fib-height-le (node l x avl_right r) b =
    let e : max (height l) (height r) ≡ suc (height l) = omega arith in
    let e' : height r ≡ suc (height l) = b.0 in
    let right : fib (suc (suc (suc (height l)))) ≤ size r + 1 = rw e' at (fib-height-le r b.2) in
    rw e (omega (arith, right, fib-height-le l b.1))
