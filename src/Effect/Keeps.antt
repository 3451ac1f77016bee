-- ===== src/Effect/Keeps.antt =====
-- Actions that keep a property of the state, whether they fail or not.
use loca_agent.Base.{◌≡◌, refl, Bool, true, false, if◌then◌else◌}
use loca_agent.Errs.{Error}
use loca_agent.Effect.{Result, ok, err, Action, lift, resume, or_fail, ◌>>=◌}

module _ {W : Type 0} (I : W → Type 0) where
  abbrev pub Keeps : {A : Type 0} → Action W A → Type 0
  Keeps m = (w : W) → I w → I (m w).1

  resume-Keeps :
      {A B : Type 0} (r : Result A) (w : W) (f : A → Action W B)
      → ((a : A) → Keeps (f a))
      → I w
      → I (resume r w f).1
  resume-Keeps (ok a) w f k i = k a w i
  resume-Keeps (err e) w f k i = i

  pub bind-Keeps :
      {A B : Type 0} (m : Action W A) (f : A → Action W B)
      → Keeps m
      → ((a : A) → Keeps (f a))
      → Keeps (m >>= f)
  bind-Keeps m f km kf w i = resume-Keeps (m w).0 (m w).1 f kf (km w i)

  pub or_fail-Keeps :
      {A : Type 0} (m : Action W A) (g : Error → Error) → Keeps m → Keeps (or_fail m g)
  or_fail-Keeps m g k w i = k w i

  pub lift-Keeps : {A : Type 0} (r : Result A) → Keeps (lift r)
  lift-Keeps r w i = i

  -- What is known of a result may be used behind it.
  pub lift-bind-Keeps :
      {A B : Type 0} (r : Result A) (f : A → Action W B)
      → ((a : A) → r ≡ ok a → Keeps (f a))
      → Keeps (lift r >>= f)
  lift-bind-Keeps (ok a) f k w i = k a refl w i
  lift-bind-Keeps (err e) f k w i = i

  pub if-Keeps :
      {A : Type 0} (b : Bool) (m n : Action W A) → Keeps m → Keeps n → Keeps (if b then m else n)
  if-Keeps true m n km kn = km
  if-Keeps false m n km kn = kn
