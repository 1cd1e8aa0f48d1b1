-- ===== src/Driver/Examples.antt =====
-- The drivers `pci` and `ide` below the root, and `ide` below `pci`.
use mikucos.Base.{Bool-cases, inl, inr, ◌≡◌, refl, arith, ◌==◌, if◌then◌else◌, none, some, [], ◌∷◌}
use mikucos.Base.Outcome.{ok}
use mikucos.Avl.{null, node, avl_none, avl_right, avl_find}
use mikucos.Avl.Order.{to_list}
use mikucos.CString.{strcmp}
use mikucos.CString.Compare.{same_name}
use mikucos.Driver.{Drivers, up_to_pend, driver_find_relative, driver_find}
use mikucos.Driver.Lookup.{has_slash, first_with, IsNamed, driver_find-one_name}

abbrev drivers : Drivers
drivers = record {
  name = λ r. if r == 2 then b'p' ∷ b'c' ∷ b'i' ∷ [] else b'i' ∷ b'd' ∷ b'e' ∷ [];
  children = λ r.
      if r == 1
      then node null 2 avl_right (node null 3 avl_none null)
      else if r == 2
      then node null 3 avl_none null
      else null;
  root_driver = 1;
}

drivers-IsNamed : IsNamed drivers
unfolding to_list first_with same_name strcmp
drivers-IsNamed = record {
  in_order = λ r. elim (Bool-cases (r == 1)) [
    | inl e ↦ rw e ((refl, tt), (tt, tt))
    | inr e ↦ elim (Bool-cases (r == 2)) [ inl f ↦ rw (e, f) (tt, tt) | inr f ↦ rw (e, f) tt ]
  ];
  no_empty = λ r. ground arith;
}

driver_find-one_name_example :
    driver_find 2 drivers (b'i' ∷ b'd' ∷ b'e' ∷ [])
    ≡ ok (
        if has_slash (b'i' ∷ b'd' ∷ b'e' ∷ [])
        then none
        else first_with drivers (b'i' ∷ b'd' ∷ b'e' ∷ []) (to_list (drivers.children 1)))
driver_find-one_name_example =
    driver_find-one_name 0 drivers b'i' (b'd' ∷ b'e' ∷ []) drivers-IsNamed (omega arith)

-- By one name `pci` is found, and `ide` from there.
by_one_name :
    (driver_find 2 drivers (b'p' ∷ b'c' ∷ b'i' ∷ []) ≡ ok (some 2))
    × (driver_find_relative 2 drivers (b'i' ∷ b'd' ∷ b'e' ∷ []) 2 ≡ ok (some 3))
unfolding driver_find driver_find_relative up_to_pend avl_find strcmp
by_one_name = (refl, refl)
