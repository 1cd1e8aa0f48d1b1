-- ===== src/Methods/Examples.antt =====
-- A device at 32 without operations, below one at 16 that has the method at offset 4.
use mikucos.Base.{◌≡◌, refl, ◌==◌, if◌then◌else◌, none, some, [], ◌∷◌, arith}
use mikucos.Base.Outcome.{ok}
use mikucos.Methods.{Ops, Objects, driver_t_invoke_lookup, device_t_invoke_lookup}
use mikucos.Methods.Nearest.{nearest, invoke_lookup-nearest}

abbrev objects : Objects
objects = record {
  ops =
      λ this. if this == 16 then some (λ offset. if offset == 4 then some 900 else none) else none;
  parent = λ this. if this == 32 then 16 else 0;
}

abbrev default_ops : Ops
default_ops offset = if offset == 8 then some 700 else none

invoke_lookup-nearest_example :
    (driver_t_invoke_lookup 666 3 objects 32 8 ≡ ok 666)
    × (device_t_invoke_lookup 666 default_ops 3 objects 32 8 ≡ ok 700)
unfolding nearest
invoke_lookup-nearest_example =
    invoke_lookup-nearest 666 default_ops 3 objects 32 8 (32 ∷ 16 ∷ []) (omega arith)
      (refl, refl, (refl, refl, refl))
