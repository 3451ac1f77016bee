-- ===== src/Effect/Unseen.antt =====
-- Actions that a view of the state does not show, whether they fail or not.
use loca_agent.Base.{◌≡◌, refl, ◌∙◌, Bool, true, false, if◌then◌else◌}
use loca_agent.Effect.{Result, ok, err, Action, lift, resume, ◌>>=◌}

module _ {W V : Type 0} (view : W → V) where
  abbrev pub Unseen : {A : Type 0} → Action W A → Type 0
  Unseen m = (w : W) → view (m w).1 ≡ view w

  resume-Unseen :
      {A B : Type 0} (r : Result A) (w : W) (f : A → Action W B)
      → ((a : A) → Unseen (f a))
      → view (resume r w f).1 ≡ view w
  resume-Unseen (ok a) w f k = k a w
  resume-Unseen (err e) w f k = refl

  pub bind-Unseen :
      {A B : Type 0} (m : Action W A) (f : A → Action W B)
      → Unseen m
      → ((a : A) → Unseen (f a))
      → Unseen (m >>= f)
  bind-Unseen m f um uf w = resume-Unseen (m w).0 (m w).1 f uf ∙ um w

  pub lift-bind-Unseen :
      {A B : Type 0} (r : Result A) (f : A → Action W B)
      → ((a : A) → Unseen (f a))
      → Unseen (lift r >>= f)
  lift-bind-Unseen r f uf = bind-Unseen (lift r) f (λ w. refl) uf

  pub if-Unseen :
      {A : Type 0} (b : Bool) (m n : Action W A) → Unseen m → Unseen n → Unseen (if b then m else n)
  if-Unseen true m n um un = um
  if-Unseen false m n um un = un
