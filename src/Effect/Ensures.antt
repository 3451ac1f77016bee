-- ===== src/Effect/Ensures.antt =====
-- What holds after an action, on success and on failure.
use mathlib.Core.Path.{subst}
use loca_agent.Base.{◌≡◌, refl, Bool, true, false, if◌then◌else◌}
use loca_agent.Errs.{Error}
use loca_agent.Effect.{Result, ok, err, Action, resume, map_error, or_fail, ◌>>=◌}

module _ {W : Type 0} where
  abbrev pub Outcome : {A : Type 0} → (A → W → Type 0) → (W → Type 0) → Result A → W → Type 0
  Outcome Q E (ok a) w = Q a w
  Outcome Q E (err e) w = E w

  -- From a state in which `P` holds, the action ends with `Q` of its result, or fails with `E`.
  abbrev pub Ensures :
      {A : Type 0} → (W → Type 0) → Action W A → (A → W → Type 0) → (W → Type 0) → Type 0
  Ensures P m Q E = (w : W) → P w → Outcome Q E (m w).0 (m w).1

  resume-Ensures :
      {A B : Type 0} (r : Result A) (w : W) (f : A → Action W B) (R : A → W → Type 0)
      (Q : B → W → Type 0) (E : W → Type 0)
      → Outcome R E r w
      → ((a : A) → Ensures (R a) (f a) Q E)
      → Outcome Q E (resume r w f).0 (resume r w f).1
  resume-Ensures (ok a) w f R Q E h k = k a w h
  resume-Ensures (err e) w f R Q E h k = h

  pub bind-Ensures :
      {A B : Type 0} {P : W → Type 0} (m : Action W A) (f : A → Action W B) (R : A → W → Type 0)
      (Q : B → W → Type 0) (E : W → Type 0)
      → Ensures P m R E
      → ((a : A) → Ensures (R a) (f a) Q E)
      → Ensures P (m >>= f) Q E
  bind-Ensures m f R Q E hm hf w p = resume-Ensures (m w).0 (m w).1 f R Q E (hm w p) hf

  map_error-Outcome :
      {A : Type 0} (g : Error → Error) (r : Result A) (w : W) (Q : A → W → Type 0) (E : W → Type 0)
      → Outcome Q E r w
      → Outcome Q E (map_error g r) w
  map_error-Outcome g (ok a) w Q E h = h
  map_error-Outcome g (err e) w Q E h = h

  pub or_fail-Ensures :
      {A : Type 0} {P : W → Type 0} (m : Action W A) (g : Error → Error) (Q : A → W → Type 0)
      (E : W → Type 0)
      → Ensures P m Q E
      → Ensures P (or_fail m g) Q E
  or_fail-Ensures m g Q E h w p = map_error-Outcome g (m w).0 (m w).1 Q E (h w p)

  pub if-Ensures :
      {A : Type 0} {P : W → Type 0} (b : Bool) (m n : Action W A) (Q : A → W → Type 0)
      (E : W → Type 0)
      → (b ≡ true → Ensures P m Q E)
      → (b ≡ false → Ensures P n Q E)
      → Ensures P (if b then m else n) Q E
  if-Ensures true m n Q E hm hn = hm refl
  if-Ensures false m n Q E hm hn = hn refl

  pub Outcome-ok :
      {A : Type 0} (Q : A → W → Type 0) (E : W → Type 0) (r : Result A) (a : A) (w : W)
      → r ≡ ok a
      → Outcome Q E r w
      → Q a w
  Outcome-ok Q E (ok b) a w q h = subst (λ x. Q x w) (ok_injective q) h
    where
      ok_injective : {A : Type 0} {x y : A} → ok x ≡ ok y → x ≡ y
      ok_injective e = cc
  Outcome-ok Q E (err e) a w q h = absurd cc
