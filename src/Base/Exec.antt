-- ===== src/Base/Exec.antt =====
-- Go methods on a mutable receiver. What a method wrote before it returned an error, panicked or
-- ended the process stays written, so the state comes back with every outcome.
use mathlib.Core.Path.{◌≡◌, refl}
use mathlib.Core.Logic.{◌⊎◌, inl, inr}
use mathlib.Core.Option.{Option, none, some}

-- `E` is the type of error values. `fatal` is `log.Fatal`, which ends the process.
pub data Outcome {ℓ} (E A : Type ℓ) : Type ℓ where
  ok : A → Outcome E A
  err : E → Outcome E A
  panic fatal : Outcome E A

abbrev pub Exec {ℓ} : Type ℓ → Type ℓ → Type ℓ → Type ℓ
Exec E S A = S → Outcome E A × S

module _ {ℓ} {E S A : Type ℓ} where
  abbrev pub pure : A → Exec E S A
  pure a s = (ok a, s)

  abbrev pub raise : E → Exec E S A
  raise e s = (err e, s)

  abbrev pub panics : Exec E S A
  panics s = (panic, s)

  abbrev pub exits : Exec E S A
  exits s = (fatal, s)

  abbrev pub lift : Outcome E A → Exec E S A
  lift r s = (r, s)

  abbrev pub gets : (S → A) → Exec E S A
  gets f s = (ok (f s), s)

  abbrev handle : Outcome E A → (E → Exec E S A) → Exec E S A
  handle (err e) h s = h e s
  handle r h s = (r, s)

  -- `if err != nil { … }`: `h` runs on an error, and the rest of the method does not.
  abbrev pub on_error : Exec E S A → (E → Exec E S A) → Exec E S A
  on_error m h s = let (r, s') = m s in handle r h s'

module _ {ℓ} {E S A B : Type ℓ} where
  abbrev pub continue : Outcome E A → (A → Exec E S B) → Exec E S B
  continue (ok a) f s = f a s
  continue (err e) f s = (err e, s)
  continue panic f s = (panic, s)
  continue fatal f s = (fatal, s)

  infixl 10 ◌>>=◌ ◌>>◌
  abbrev pub ◌>>=◌ : Exec E S A → (A → Exec E S B) → Exec E S B
  ◌>>=◌ first next s = let (outcome, after) = first s in continue outcome next after

  abbrev pub ◌>>◌ : Exec E S A → Exec E S B → Exec E S B
  first >> second = first >>= λ _. second

abbrev attempted {ℓ} : {E A : Type ℓ} → Outcome E A → Outcome E (Option A)
attempted (ok a) = ok (some a)
attempted (err e) = ok none
attempted panic = panic
attempted fatal = fatal

-- A call whose error is dropped, so that its result is nil.
abbrev pub attempt {ℓ} : {E S A : Type ℓ} → Exec E S A → Exec E S (Option A)
attempt m s = let (r, s') = m s in (attempted r, s')

-- `_, _ = f()`
abbrev pub ignore {ℓ} : {E S A : Type ℓ} → Exec E S A → Exec E S (Unit {ℓ})
ignore m = attempt m >>= λ _. pure tt

pub Outcome-cases {ℓ} :
    {E A : Type ℓ} (outcome : Outcome E A)
    → ((result : A) × (outcome ≡ ok result))
      ⊎ ((error : E) × (outcome ≡ err error))
      ⊎ (outcome ≡ panic)
      ⊎ (outcome ≡ fatal)
Outcome-cases (ok a) = inl (a, refl)
Outcome-cases (err e) = inr (inl (e, refl))
Outcome-cases panic = inr (inr (inl refl))
Outcome-cases fatal = inr (inr (inr refl))

module _ {ℓ} {E S A B : Type ℓ} where
  continue-inv :
      (r : Outcome E A) (s : S) (f : A → Exec E S B) (b : B)
      → (continue r f s).0 ≡ ok b
      → (a : A) × (r ≡ ok a) × (continue r f s ≡ f a s)
  continue-inv (ok a) s f b h = (a, refl, refl)
  continue-inv (err e) s f b h = absurd (cc)
  continue-inv panic s f b h = absurd (cc)
  continue-inv fatal s f b h = absurd (cc)

  -- What a chain that succeeds has passed through.
  pub bind-inv :
      (m : Exec E S A) (f : A → Exec E S B) (s : S) (b : B)
      → ((m >>= f) s).0 ≡ ok b
      → (a : A) × ((m s).0 ≡ ok a) × ((m >>= f) s ≡ f a (m s).1)
  bind-inv m f s b h = let (r, s') = m s in continue-inv r s' f b h
