-- ===== src/Installer/Engine/Trace.antt =====
-- A run of the engine against a relation that says, step by step, what a run is (engine.go).
use loca_agent.Base.{List, [], ◌∷◌, ◌++◌, Option, none, some, ◌≡◌, refl}
use loca_agent.Base.{append_assoc, append-nil, ◌⊎◌, inl, inr, ap, Option-cases}
use mathlib.Core.Path.{subst}
use loca_agent.Errs.{Error}
use loca_agent.Installer.{Step}
use loca_agent.Installer.Engine.{
  Engine, Machine, Attempt, satisfied, completed, broken, rollback, attempt, run_from, run,
}

attempt_cases :
    (a : Attempt) → (a ≡ satisfied) ⊎ ((a ≡ completed) ⊎ ((cause : Error) × (a ≡ broken cause)))
attempt_cases satisfied = inl refl
attempt_cases completed = inr (inl refl)
attempt_cases (broken cause) = inr (inr (cause, refl))

at_second : {A B : Type 0} {r : A × B} {a : A} → r.0 ≡ a → r ≡ (a, r.1)
at_second {r} p = λ i. (p i, r.1)

module _ {S : Type 0} (e : Engine) (ctx : S → Option Error) where
  -- `Passes steps m past m'`: the steps all pass, the engine goes from `m` to `m'`, and `past` are
  -- the steps among them that ran, in order.
  pub data Passes : List (Step S) → Machine S → List (Step S) → Machine S → Type 0 where
    stop : {m : Machine S} → Passes [] m [] m
    skip :
        {step : Step S} {steps past : List (Step S)} {m n o : Machine S}
        → ctx m.sys ≡ none
        → attempt e step m ≡ (satisfied, n)
        → Passes steps n past o
        → Passes (step ∷ steps) m past o
    ran :
        {step : Step S} {steps past : List (Step S)} {m n o : Machine S}
        → ctx m.sys ≡ none
        → attempt e step m ≡ (completed, n)
        → Passes steps n past o
        → Passes (step ∷ steps) m (step ∷ past) o

  -- `Breaks step m cause n`: before the step the context is done, or the step itself fails.
  pub data Breaks (step : Step S) (m : Machine S) : Error → Machine S → Type 0 where
    cancelled :
        {cause : Error} {n : Machine S} → ctx m.sys ≡ some cause → m ≡ n → Breaks step m cause n
    failing :
        {cause : Error} {n : Machine S}
        → ctx m.sys ≡ none
        → attempt e step m ≡ (broken cause, n)
        → Breaks step m cause n

  -- Where a run ends: behind the whole plan, or behind the rollback of what ran before a break.
  -- `before` are steps that had run when the plan began.
  pub data Ends (before steps : List (Step S)) (m : Machine S)
      : Option Error × Machine S → Type 0 where
    finished :
        {past : List (Step S)} {n : Machine S}
        → Passes steps m past n
        → Ends before steps m (none, n)
    undone :
        (front : List (Step S)) (step : Step S) (back past : List (Step S)) {cause : Error}
        {n o : Machine S}
        → steps ≡ front ++ (step ∷ back)
        → Passes front m past n
        → Breaks step n cause o
        → Ends before steps m (rollback e (before ++ past) cause o)

  Ends-skip :
      (before steps : List (Step S)) {step : Step S} {m n : Machine S}
      {r : Option Error × Machine S}
      → ctx m.sys ≡ none
      → attempt e step m ≡ (satisfied, n)
      → Ends before steps n r
      → Ends before (step ∷ steps) m r
  Ends-skip before steps h q (finished p) = finished (skip h q p)
  Ends-skip before steps {step} h q (undone front s back past eq p b) =
      undone (step ∷ front) s back past (ap (λ l. step ∷ l) eq) (skip h q p) b

  Ends-ran :
      (before steps : List (Step S)) {step : Step S} {m n : Machine S}
      {r : Option Error × Machine S}
      → ctx m.sys ≡ none
      → attempt e step m ≡ (completed, n)
      → Ends (before ++ (step ∷ [])) steps n r
      → Ends before (step ∷ steps) m r
  Ends-ran before steps h q (finished p) = finished (ran h q p)
  Ends-ran before steps {step} h q (undone front s back past eq p b) =
      rw append_assoc
        (undone (step ∷ front) s back (step ∷ past) (ap (λ l. step ∷ l) eq) (ran h q p) b)

  Ends-Breaks :
      (before steps : List (Step S)) {step : Step S} {m n : Machine S} {cause : Error}
      → Breaks step m cause n
      → Ends before (step ∷ steps) m (rollback e before cause n)
  Ends-Breaks before steps {step} {m} {n} {cause} b =
      subst (λ l. Ends before (step ∷ steps) m (rollback e l cause n)) (append-nil before)
        (undone [] step steps [] refl stop b)

  run_from-Ends :
      (before steps : List (Step S)) (m : Machine S)
      → Ends before steps m (run_from e ctx before steps m)
  unfolding run_from
  run_from-Ends before [] m = finished stop
  run_from-Ends before (step ∷ steps) m = elim (Option-cases (ctx m.sys)) [
    | inr (cause, h) ↦ rw (h, run_from) (Ends-Breaks before steps (cancelled h refl))
    | inl h ↦ elim (attempt_cases (attempt e step m).0) [
      | inl q ↦
          rw (h, q, run_from)
            (Ends-skip before steps h (at_second q) (run_from-Ends before steps _))
      | inr (inl q) ↦
          rw (h, q, run_from)
            (Ends-ran before steps h (at_second q) (run_from-Ends (before ++ (step ∷ [])) steps _))
      | inr (inr (cause, q)) ↦
          rw (h, q, run_from) (Ends-Breaks before steps (failing h (at_second q)))
    ]
  ]

  -- A run passes the whole plan and returns no error, or it passes a front of the plan, meets a step
  -- that breaks, and returns that step's cause from the rollback of the steps that ran.
  pub run-Ends : (steps : List (Step S)) (m : Machine S) → Ends [] steps m (run e ctx steps m)
  unfolding run
  run-Ends steps m = run_from-Ends [] steps m
