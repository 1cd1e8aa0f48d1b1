-- ===== src/Driver/Lookup.antt =====
-- What `driver_find` finds.
use mikucos.Base.{
  ℕ, suc, ◌≡◌, ◌<◌, ◌≤◌, refl, sym, ap, ◌∙◌, inl, inr, Bool, true, false, ◌||◌, ◌==◌, if◌then◌else◌,
  Option, none, some, List, [], ◌∷◌, length, lt→ltb, Bool-cases, Option-cases, arith,
}
use mikucos.Base.Outcome.{ok}
use mikucos.Avl.{avl_find}
use mikucos.Avl.Order.{to_list, Sorted, less_trans}
use mikucos.Avl.Find.{IsPlaced, first_equal, avl_find-first}
use mikucos.CString.{strcmp}
use mikucos.CString.Compare.{same_name, strcmp-same_name, strcmp-IsOrder}
use mikucos.Driver.{
  Drivers, driver_t_avlmatch, driver_t_avlcompare, up_to_pend, driver_find_relative, driver_find,
}

unfoldable pub has_slash : List ℕ → Bool
has_slash [] = false
has_slash (c ∷ path) = (c == b'/') || has_slash path

-- The first of some drivers that has the name.
unfoldable pub first_with : Drivers → List ℕ → List ℕ → Option ℕ
first_with d name [] = none
first_with d name (b ∷ drivers) =
    let rest = first_with d name drivers in if same_name name (d.name b) then some b else rest

-- The children of each driver are in the order of their names, and none has the empty name.
pub record IsNamed (d : Drivers) : Type 0 where
  pub in_order : (r : ℕ) → Sorted (driver_t_avlcompare d) (to_list (d.children r))
  pub no_empty : (r : ℕ) → first_with d [] (to_list (d.children r)) ≡ none

without_slash : (path : List ℕ) → has_slash path ≡ false → up_to_pend path ≡ (path, [])
unfolding has_slash up_to_pend
without_slash [] h = refl
without_slash (c ∷ path) h =
    let here : (c == b'/') ≡ false = ground arith in
    rw here (rw (without_slash path (ground arith)) refl)

with_slash :
    (path : List ℕ) → has_slash path ≡ true → (rest : List ℕ) × ((up_to_pend path).1 ≡ b'/' ∷ rest)
unfolding has_slash up_to_pend
with_slash [] h = absurd (ground arith)
with_slash (c ∷ path) h = elim (Bool-cases (c == b'/')) [
  | inl e ↦ (path, let same : c ≡ b'/' = ground arith in rw e (ap (λ x. x ∷ path) same))
  | inr e ↦ let (rest, p) = with_slash path (ground arith) in (rest, rw e p)
]

up_to_pend-le : (path : List ℕ) → length (up_to_pend path).0 ≤ length path
unfolding up_to_pend
up_to_pend-le [] = omega arith
up_to_pend-le (c ∷ path) = ground (arith, up_to_pend-le path)

first_equal-with :
    (d : Drivers) (name : List ℕ) (drivers : List ℕ)
    → first_equal (driver_t_avlmatch d name) drivers ≡ first_with d name drivers
unfolding first_equal first_with
first_equal-with d name [] = refl
first_equal-with d name (b ∷ drivers) =
    rw (strcmp-same_name name (d.name b), first_equal-with d name drivers) refl

match-IsPlaced :
    (d : Drivers) (name : List ℕ) → IsPlaced (driver_t_avlcompare d) (driver_t_avlmatch d name)
match-IsPlaced d name =
    let order = strcmp-IsOrder.0 in
    record {
      in_front = λ x y h k. less_trans strcmp order name (d.name x) (d.name y) h k;
      behind = λ x y h k.
          sym (order.flip (d.name y) name) ∙ order.less_of_not_less (d.name y) (d.name x) name k h;
    }

-- The search of the tree finds the child with the name.
find-child :
    (d : Drivers) (name : List ℕ) (r : ℕ)
    → IsNamed d
    → avl_find (driver_t_avlmatch d) name (d.children r)
      ≡ first_with d name (to_list (d.children r))
find-child d name r h =
    avl_find-first (driver_t_avlcompare d) (driver_t_avlmatch d) name (match-IsPlaced d name)
      (d.children r) (h.in_order r)
    ∙ first_equal-with d name (to_list (d.children r))

step-none :
    (calls : ℕ) (d : Drivers) (c : ℕ) (path : List ℕ) (r : ℕ)
    → length (up_to_pend (c ∷ path)).0 < 256
    → avl_find (driver_t_avlmatch d) (up_to_pend (c ∷ path)).0 (d.children r) ≡ none
    → driver_find_relative (suc calls) d (c ∷ path) r ≡ ok none
unfolding driver_find_relative
step-none calls d c path r l e =
    rw (driver_find_relative, lt→ltb (length (up_to_pend (c ∷ path)).0) 256 l, e) refl

step-some :
    (calls : ℕ) (d : Drivers) (c : ℕ) (path : List ℕ) (r child : ℕ)
    → length (up_to_pend (c ∷ path)).0 < 256
    → avl_find (driver_t_avlmatch d) (up_to_pend (c ∷ path)).0 (d.children r) ≡ some child
    → driver_find_relative (suc calls) d (c ∷ path) r
      ≡ driver_find_relative calls d (up_to_pend (c ∷ path)).1 child
unfolding driver_find_relative
step-some calls d c path r child l e =
    rw (driver_find_relative, lt→ltb (length (up_to_pend (c ∷ path)).0) 256 l, e) refl

-- A path that begins with a slash stands for the empty name.
slash-none :
    (calls : ℕ) (d : Drivers) (rest : List ℕ) (r : ℕ)
    → IsNamed d
    → driver_find_relative (suc calls) d (b'/' ∷ rest) r ≡ ok none
unfolding up_to_pend
slash-none calls d rest r h =
    step-none calls d b'/' rest r (omega arith) (find-child d [] r h ∙ h.no_empty r)

-- The children of each driver are in the order of their names, none of them empty, and the path has less
-- than 256 characters: two calls are enough. A path of one name gives the child of the root that has
-- the name, or null; a path with a slash in it gives null, also when it names a driver below another.
pub driver_find-one_name :
    (calls : ℕ) (d : Drivers) (c : ℕ) (path : List ℕ)
    → IsNamed d
    → length (c ∷ path) < 256
    → driver_find (suc (suc calls)) d (c ∷ path)
      ≡ ok (
          if has_slash (c ∷ path)
          then none
          else first_with d (c ∷ path) (to_list (d.children d.root_driver)))
unfolding driver_find driver_find_relative
driver_find-one_name calls d c path h l =
    let name = (up_to_pend (c ∷ path)).0 in
    let fits : length name < 256 = omega (arith, up_to_pend-le (c ∷ path)) in
    let find = find-child d name d.root_driver h in
    elim (Bool-cases (has_slash (c ∷ path))) [
      | inl e ↦
          let (rest, p) = with_slash (c ∷ path) e in
          rw e
            (elim (Option-cases (avl_find (driver_t_avlmatch d) name (d.children d.root_driver))) [
              | inl n ↦ step-none (suc calls) d c path d.root_driver fits n
              | inr (child, s) ↦
                  step-some (suc calls) d c path d.root_driver child fits s
                  ∙ ap (λ x. driver_find_relative (suc calls) d x child) p
                  ∙ slash-none calls d rest child h
            ])
      | inr e ↦
          let p = without_slash (c ∷ path) e in
          let key =
            sym (ap (λ x. first_with d x.0 (to_list (d.children d.root_driver))) p) ∙ sym find in
          rw e
            (elim (Option-cases (avl_find (driver_t_avlmatch d) name (d.children d.root_driver))) [
              | inl n ↦ step-none (suc calls) d c path d.root_driver fits n ∙ ap ok (sym (key ∙ n))
              | inr (child, s) ↦
                  step-some (suc calls) d c path d.root_driver child fits s
                  ∙ ap (λ x. driver_find_relative (suc calls) d x.1 child) p
                  ∙ ap ok (sym (key ∙ s))
            ])
    ]
