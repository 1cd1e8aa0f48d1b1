-- ===== src/Avl/Keys.antt =====
-- The comparison functions that avl.h makes for a numeric key, with `avl_make_compare` and
-- `avl_make_match`.
use mikucos.Base.{ℕ, ◌≡◌, refl, arith, ltb, ◌==◌, if◌then◌else◌}
use mikucos.Base.Int.{ℤ, pos, negsuc}
use mikucos.Avl.Order.{IsOrder}

module _ {ℓ} {A : Type ℓ} (key : A → ℕ) where
  unfoldable pub avl_make_compare : A → A → ℤ
  avl_make_compare a b =
      if ltb (key a) (key b) then negsuc 0 else if key a == key b then pos 0 else pos 1

  unfoldable pub avl_make_match : ℕ → A → ℤ
  avl_make_match k b = if ltb k (key b) then negsuc 0 else if k == key b then pos 0 else pos 1

  -- The comparison that `avl_make_compare` defines orders the structures by their keys, and the match
  -- function agrees with it on the key of a structure.
  pub avl_make_compare-IsOrder :
      IsOrder avl_make_compare × ((a b : A) → avl_make_match (key a) b ≡ avl_make_compare a b)
  unfolding avl_make_compare avl_make_match
  avl_make_compare-IsOrder = (
    record { flip = λ a b. ground arith; less_of_not_less = λ a b c h k. ground arith },
    λ a b. refl,
  )
