-- ===== src/Driver.antt =====
-- driver.c: how a driver is found by its path. The children of a driver are a tree of Avl, by their
-- names; a driver is named by its address. The registration and the methods are left out.
pub mod Lookup
pub mod Examples
use mikucos.Base.{
  ℕ, zero, suc, Bool, true, false, ◌==◌, ltb, length, if◌then◌else◌, Option, none, some, List, [],
  ◌∷◌,
}
use mikucos.Base.Int.{ℤ}
use mikucos.Base.Outcome.{Outcome, ok, panic, blocked}
use mikucos.Avl.{Tree, avl_find}
use mikucos.CString.{strcmp}

pub record Drivers : Type 0 where
  pub name : ℕ → List ℕ
  pub children : ℕ → Tree ℕ
  pub root_driver : ℕ

abbrev pub driver_t_avlmatch : Drivers → List ℕ → ℕ → ℤ
driver_t_avlmatch d key b = strcmp key (d.name b)

-- The comparison of the same macros, by which `driver_register_driver` adds a child.
abbrev pub driver_t_avlcompare : Drivers → ℕ → ℕ → ℤ
driver_t_avlcompare d a b = strcmp (d.name a) (d.name b)

-- The characters from `path` to `pend`, and those from `pend` on.
pub up_to_pend : List ℕ → List ℕ × List ℕ
up_to_pend [] = ([], [])
up_to_pend (c ∷ path) =
    let (pname, pend) = up_to_pend path in if c == b'/' then ([], c ∷ path) else (c ∷ pname, pend)

-- With a count of the calls, which is `blocked` when it is used up; `none` is the null pointer. A name
-- that does not fit in the 256 characters of `pname`, the final 0 included, is written behind them, and
-- a panic here.
pub driver_find_relative : ℕ → Drivers → List ℕ → ℕ → Outcome (Option ℕ)
driver_find_relative zero d path root = blocked
driver_find_relative (suc calls) d [] root = ok (some root)
driver_find_relative (suc calls) d (c ∷ path) root =
    let (pname, pend) = up_to_pend (c ∷ path) in
    let searched =
      elim (avl_find (driver_t_avlmatch d) pname (d.children root)) as (λ o. Outcome (Option ℕ)) [
        | none ↦ ok none
        | some child ↦ driver_find_relative calls d pend child
      ] in
    if ltb (length pname) 256 then searched else panic

pub driver_find : ℕ → Drivers → List ℕ → Outcome (Option ℕ)
driver_find calls d path = driver_find_relative calls d path d.root_driver
