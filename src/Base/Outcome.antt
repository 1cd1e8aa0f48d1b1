-- ===== src/Base/Outcome.antt =====
-- The result of kernel code that may stop the machine: `panicf` and a failed `assert` are `panic`,
-- a wait that nothing in the model ends is `blocked`.
use mathlib.Core.Path.{◌≡◌, refl}
use mathlib.Core.Bool.{Bool, true, false}
use mikucos.Base.Tests.{if◌then◌else◌}

pub data Outcome {ℓ} (A : Type ℓ) : Type ℓ where
  ok : A → Outcome A
  panic : Outcome A
  blocked : Outcome A

infixl 5 ◌>>=◌
abbrev pub ◌>>=◌ {ℓ κ} : {A : Type ℓ} {B : Type κ} → Outcome A → (A → Outcome B) → Outcome B
ok a >>= f = f a
panic >>= f = panic
blocked >>= f = blocked

-- The computation ends well, with a result that satisfies `P`.
abbrev pub Succeeds {ℓ} : {A : Type ℓ} → (A → Type 0) → Outcome A → Type 0
Succeeds P (ok a) = P a
Succeeds P panic = ⊥
Succeeds P blocked = ⊥

module _ {ℓ} {A : Type ℓ} (P : A → Type 0) where
  pub Succeeds-bind {κ} :
      {B : Type κ} (Q : B → Type 0) (o : Outcome A) (f : A → Outcome B)
      → Succeeds P o
      → ((a : A) → P a → Succeeds Q (f a))
      → Succeeds Q (o >>= f)
  Succeeds-bind Q (ok a) f h k = k a h
  Succeeds-bind Q panic f h k = absurd h
  Succeeds-bind Q blocked f h k = absurd h

  pub Succeeds-result : (o : Outcome A) → Succeeds P o → (a : A) × (o ≡ ok a) × P a
  Succeeds-result (ok a) h = (a, refl, h)
  Succeeds-result panic h = absurd h
  Succeeds-result blocked h = absurd h

  -- Both branches of a test, each with the outcome of the test.
  pub if-holds :
      (b : Bool) {x y : A} → (b ≡ true → P x) → (b ≡ false → P y) → P (if b then x else y)
  if-holds true h k = h refl
  if-holds false h k = k refl
