-- ===== src/Effect.antt =====
-- Go's results `(value, error)`, and actions that also change a state.
pub mod Keeps
pub mod Ensures
pub mod Unseen
use loca_agent.Base.{◌≡◌, refl, ◌⊎◌, inl, inr, Option, none, some}
use loca_agent.Errs.{Error}

pub data Result {ℓ} (A : Type ℓ) : Type ℓ where
  ok : A → Result A
  err : Error → Result A

-- A chain of results that stops at the first error.
abbrev pub and_then {ℓ κ} : {A : Type ℓ} {B : Type κ} → Result A → (A → Result B) → Result B
and_then (ok a) f = f a
and_then (err e) f = err e

-- What was changed before an error stays changed, so the state comes back beside it.
abbrev pub Action {ℓ} : Type ℓ → Type ℓ → Type ℓ
Action W A = W → Result A × W

module _ {ℓ} {W A : Type ℓ} where
  abbrev pub pure : A → Action W A
  pure a w = (ok a, w)

  abbrev pub fail : Error → Action W A
  fail e w = (err e, w)

  abbrev pub lift : Result A → Action W A
  lift r w = (r, w)

module _ {ℓ} {W A B : Type ℓ} where
  abbrev pub resume : Result A → W → (A → Action W B) → Result B × W
  resume (ok a) w f = f a w
  resume (err e) w f = (err e, w)

  infixl 5 ◌>>=◌ ◌>>◌
  abbrev pub ◌>>=◌ : Action W A → (A → Action W B) → Action W B
  ◌>>=◌ m f w = let (r, w') = m w in resume r w' f

  abbrev pub ◌>>◌ : Action W A → Action W B → Action W B
  m >> n = m >>= λ _. n

-- `if err != nil { return errs.Wrap(err, ...) }`, or another return of a changed error.
abbrev pub map_error {ℓ} : {A : Type ℓ} → (Error → Error) → Result A → Result A
map_error f (ok a) = ok a
map_error f (err e) = err (f e)

abbrev pub or_fail {ℓ} : {W A : Type ℓ} → Action W A → (Error → Error) → Action W A
or_fail m f w = let (r, w') = m w in (map_error f r, w')

-- A call that returns only an `error`.
abbrev pub check : Option Error → Result (Unit {0})
check none = ok tt
check (some e) = err e

-- To split on a computed result and keep the equation.
pub Result-cases {ℓ} :
    {A : Type ℓ} (r : Result A) → ((a : A) × (r ≡ ok a)) ⊎ ((e : Error) × (r ≡ err e))
Result-cases (ok a) = inl (a, refl)
Result-cases (err e) = inr (e, refl)
