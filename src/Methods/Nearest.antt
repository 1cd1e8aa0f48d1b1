-- ===== src/Methods/Nearest.antt =====
-- A lookup against the chain of the parents.
use mikucos.Base.{
  ℕ, sym, ap, ◌∙◌, zero, suc, ◌<◌, ◌≡◌, refl, false, ◌==◌, Option, none, some, List, [], ◌∷◌,
  length, arith, Option-cases, inl, inr,
}
use mikucos.Base.Outcome.{ok}
use mikucos.Methods.{
  Ops, Objects, own_method, lookup_loop, found_or, driver_t_invoke_lookup, device_t_invoke_lookup,
}

-- The object and its parents, up to the one that has none.
abbrev pub IsChain : Objects → ℕ → List ℕ → Type 0
IsChain objects this [] = this ≡ 0
IsChain objects this (a ∷ chain) =
    (a ≡ this) × ((this == 0) ≡ false) × IsChain objects (objects.parent this) chain

-- The method of the first that has it, or the default.
unfoldable pub nearest : Objects → ℕ → ℕ → List ℕ → ℕ
nearest objects offset default [] = default
nearest objects offset default (a ∷ chain) = elim (own_method objects offset a) [
  | none ↦ nearest objects offset default chain
  | some f ↦ f
]

loop-own :
    (rounds : ℕ) (objects : Objects) (offset this f : ℕ)
    → (this == 0) ≡ false
    → own_method objects offset this ≡ some f
    → lookup_loop (suc rounds) objects offset this ≡ ok (some f)
unfolding lookup_loop
loop-own rounds objects offset this f z m = rw (lookup_loop, z, m) refl

loop-climbs :
    (rounds : ℕ) (objects : Objects) (offset this : ℕ)
    → (this == 0) ≡ false
    → own_method objects offset this ≡ none
    → lookup_loop (suc rounds) objects offset this
      ≡ lookup_loop rounds objects offset (objects.parent this)
unfolding lookup_loop
loop-climbs rounds objects offset this z m = rw (lookup_loop, z, m) refl

loop-ends :
    (rounds : ℕ) (objects : Objects) (offset this : ℕ)
    → this ≡ 0
    → lookup_loop (suc rounds) objects offset this ≡ ok none
unfolding lookup_loop
loop-ends rounds objects offset this e = rw (lookup_loop, e) refl

nearest-own :
    (objects : Objects) (offset default a f : ℕ) (chain : List ℕ)
    → own_method objects offset a ≡ some f
    → nearest objects offset default (a ∷ chain) ≡ f
unfolding nearest
nearest-own objects offset default a f chain m = rw (nearest, m) refl

nearest-climbs :
    (objects : Objects) (offset default a : ℕ) (chain : List ℕ)
    → own_method objects offset a ≡ none
    → nearest objects offset default (a ∷ chain) ≡ nearest objects offset default chain
unfolding nearest
nearest-climbs objects offset default a chain m = rw (nearest, m) refl

lookup_loop-nearest :
    (rounds : ℕ) (objects : Objects) (offset this : ℕ) (chain : List ℕ)
    → length chain < rounds
    → IsChain objects this chain
    → (found : Option ℕ) × (lookup_loop rounds objects offset this ≡ ok found)
      × ((default : ℕ) → found_or default found ≡ nearest objects offset default chain)
unfolding nearest
lookup_loop-nearest zero objects offset this chain l h = absurd (omega arith)
lookup_loop-nearest (suc rounds) objects offset this [] l h =
    (none, loop-ends rounds objects offset this h, λ d. refl)
lookup_loop-nearest (suc rounds) objects offset this (a ∷ chain) l (e, z, h) =
    let (found, r, n) =
      lookup_loop-nearest rounds objects offset (objects.parent this) chain (omega arith) h in
    elim (Option-cases (own_method objects offset this)) [
      | inl m ↦
          let m' = ap (own_method objects offset) e ∙ m in
          (
            found,
            loop-climbs rounds objects offset this z m ∙ r,
            λ d. n d ∙ sym (nearest-climbs objects offset d a chain m'),
          )
      | inr (f, m) ↦
          let m' = ap (own_method objects offset) e ∙ m in
          (
            some f,
            loop-own rounds objects offset this f z m,
            λ d. sym (nearest-own objects offset d a f chain m'),
          )
    ]

module _ (invoke_panic : ℕ) (default_ops : Ops) where
  -- What a lookup gives for an object whose parents are a chain: with more rounds than the chain has
  -- objects both lookups end. They give the method of the nearest object in the chain that has it; when
  -- there is none, the lookup for a driver gives `invoke_panic`, and that for a device the default
  -- method, or `invoke_panic` when this is missing too.
  pub invoke_lookup-nearest :
      (rounds : ℕ) (objects : Objects) (this offset : ℕ) (chain : List ℕ)
      → length chain < rounds
      → IsChain objects this chain
      → (driver_t_invoke_lookup invoke_panic rounds objects this offset
          ≡ ok (nearest objects offset invoke_panic chain))
        × (device_t_invoke_lookup invoke_panic default_ops rounds objects this offset
            ≡ ok (nearest objects offset (found_or invoke_panic (default_ops offset)) chain))
  unfolding driver_t_invoke_lookup device_t_invoke_lookup
  invoke_lookup-nearest rounds objects this offset chain l h =
      let (found, r, n) = lookup_loop-nearest rounds objects offset this chain l h in
      (rw r (ap ok (n invoke_panic)), rw r (ap ok (n (found_or invoke_panic (default_ops offset)))))
