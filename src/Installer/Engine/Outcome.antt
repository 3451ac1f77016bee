-- ===== src/Installer/Engine/Outcome.antt =====
-- What a run returns and reports (engine.go): where the error comes from, and one settled status per step.
use mathlib.Core.Path.{subst}
use loca_agent.Base.{Text, List, [], ◌∷◌, ◌++◌, Option, none, some, ◌≡◌, refl, sym, ◌∙◌, arith, ap}
use loca_agent.Base.{lit, true, Has, Has-middle, quote, inl, inr, map, append_assoc, append-nil}
use loca_agent.Errs.{Error, wrapped}
use loca_agent.Effect.{err, Result-cases}
use loca_agent.Installer.{Step, StepStatus, running, skipped, done}
use loca_agent.Installer.Engine.{
  Engine, Machine, Event, progress, debug, warn_rollback, Attempt, satisfied, completed, broken,
  report_events, rollback, attempt, run,
}
use loca_agent.Installer.Engine.Trace.{Passes, stop, skip, ran, Breaks, Ends, run-Ends}

-- The steps that a list of events reports as skipped or done, in order.
abbrev pub settled : List Event → List Text
settled [] = []
settled (progress name StepStatus.skipped ∷ events) = name ∷ settled events
settled (progress name StepStatus.done ∷ events) = name ∷ settled events
settled (progress name StepStatus.running ∷ events) = settled events
settled (progress name StepStatus.failed ∷ events) = settled events
settled (progress name StepStatus.rolled_back ∷ events) = settled events
settled (debug name status ∷ events) = settled events
settled (warn_rollback name cause ∷ events) = settled events

settled-append : (xs ys : List Event) → settled (xs ++ ys) ≡ settled xs ++ settled ys
settled-append [] ys = refl
settled-append (progress name StepStatus.skipped ∷ xs) ys =
    ap (λ l. name ∷ l) (settled-append xs ys)
settled-append (progress name StepStatus.done ∷ xs) ys = ap (λ l. name ∷ l) (settled-append xs ys)
settled-append (progress name StepStatus.running ∷ xs) ys = settled-append xs ys
settled-append (progress name StepStatus.failed ∷ xs) ys = settled-append xs ys
settled-append (progress name StepStatus.rolled_back ∷ xs) ys = settled-append xs ys
settled-append (debug name status ∷ xs) ys = settled-append xs ys
settled-append (warn_rollback name cause ∷ xs) ys = settled-append xs ys

settled_step :
    {S : Type 0} (step : Step S) (steps : List (Step S)) (m : Machine S) {n : Machine S}
    {a : Attempt} {r : Attempt × Machine S}
    → r ≡ (a, n)
    → settled r.1.events ≡ settled m.events ++ (step.name ∷ [])
    → settled n.events ++ map (λ (s : Step S). s.name) steps
      ≡ settled m.events ++ (step.name ∷ map (λ (s : Step S). s.name) steps)
settled_step {S} step steps m {r} q h =
    ap (λ (r : Attempt × Machine S). settled r.1.events ++ map (λ (s : Step S). s.name) steps)
      (sym q)
    ∙ ap (λ l. l ++ map (λ (s : Step S). s.name) steps) h
    ∙ append_assoc (settled m.events) (step.name ∷ []) (map (λ (s : Step S). s.name) steps)

module _ {S : Type 0} (e : Engine) (watched : e.has_progress ≡ true) where
  settled-satisfied :
      (step : Step S) (m : Machine S)
      → (attempt e step m).0 ≡ satisfied
      → settled (attempt e step m).1.events ≡ settled m.events ++ (step.name ∷ [])
  unfolding attempt
  settled-satisfied step m h =
      ground (arith, settled-append m.events (report_events e step.name skipped))

  settled-completed :
      (step : Step S) (m : Machine S)
      → (attempt e step m).0 ≡ completed
      → settled (attempt e step m).1.events ≡ settled m.events ++ (step.name ∷ [])
  unfolding attempt
  settled-completed step m h = ground (
    arith,
    settled-append m.events (report_events e step.name running),
    settled-append (m.events ++ report_events e step.name running) (report_events e step.name done),
    append-nil (settled m.events),
  )

  module _ (ctx : S → Option Error) where
    settled-Passes :
        {steps past : List (Step S)} {m n : Machine S}
        → Passes e ctx steps m past n
        → settled n.events ≡ settled m.events ++ map (λ (s : Step S). s.name) steps
    settled-Passes (stop {m}) = sym (append-nil (settled m.events))
    settled-Passes (skip {step} {steps} {m} h q r) =
        settled-Passes r
        ∙ settled_step step steps m q
            (settled-satisfied step m (ap (λ (a : Attempt × Machine S). a.0) q))
    settled-Passes (ran {step} {steps} {m} h q r) =
        settled-Passes r
        ∙ settled_step step steps m q
            (settled-completed step m (ap (λ (a : Attempt × Machine S). a.0) q))

    settled-Ends :
        {steps : List (Step S)} {m : Machine S} {r : Option Error × Machine S}
        → Ends e ctx [] steps m r
        → r.0 ≡ none
        → settled r.1.events ≡ settled m.events ++ map (λ (s : Step S). s.name) steps
    unfolding rollback
    settled-Ends (Ends.finished p) h = settled-Passes p
    settled-Ends (Ends.undone front step back past eq p b) h = cc

    -- A run without an error reports each step of the plan once as skipped or done, in plan order,
    -- where the engine has a progress callback.
    pub run_settles :
        (steps : List (Step S)) (m : Machine S)
        → (run e ctx steps m).0 ≡ none
        → settled (run e ctx steps m).1.events
          ≡ settled m.events ++ map (λ (s : Step S). s.name) steps
    run_settles steps m h = settled-Ends (run-Ends e ctx steps m) h

module _ {S : Type 0} (ctx : S → Option Error) (steps : List (Step S)) where
  -- Where the error of a run may come from. Only an error of Verify is wrapped.
  pub data Origin (cause : Error) : Type 0 where
    of_context : (s : S) → ctx s ≡ some cause → Origin cause
    of_verify :
        (step : Step S) (s : S) (inner : Error)
        → Has step steps
        → (step.verify s).0 ≡ err inner
        → cause ≡ wrapped (lit "verify " ++ (quote step.name ++ lit ": ")) inner []
        → Origin cause
    of_run : (step : Step S) (s : S) → Has step steps → (step.run s).0 ≡ err cause → Origin cause

  module _ (e : Engine) where
    Origin-attempt :
        (step : Step S) (m : Machine S) (cause : Error)
        → Has step steps
        → (attempt e step m).0 ≡ broken cause
        → Origin cause
    unfolding attempt
    Origin-attempt step m cause h p = elim (Result-cases (step.verify m.sys).0) [
      | inr (inner, q) ↦ of_verify step m.sys inner h q (ground arith)
      | inl (b, q) ↦ of_run step (step.verify m.sys).1 h (ground arith)
    ]

    Origin-Ends :
        {m : Machine S} {r : Option Error × Machine S}
        → Ends e ctx [] steps m r
        → (cause : Error) → r.0 ≡ some cause
        → Origin cause
    unfolding rollback
    Origin-Ends (Ends.finished p) cause h = cc
    Origin-Ends (Ends.undone front step back past {n} eq p (Breaks.cancelled q _)) cause h =
        of_context n.sys (cc)
    Origin-Ends (Ends.undone front step back past {n} eq p (Breaks.failing _ q)) cause h =
        Origin-attempt step n cause (subst (Has step) (sym eq) (Has-middle front step back))
          (ap (λ (a : Attempt × Machine S). a.0) q ∙ cc)

    -- An error that a run returns is what the context, a step's Verify or a step's Run gave; of these
    -- only the error of Verify is wrapped, and an error of Rollback is never returned.
    pub run-Origin :
        (m : Machine S) (cause : Error) → (run e ctx steps m).0 ≡ some cause → Origin cause
    run-Origin m cause h = Origin-Ends (run-Ends e ctx steps m) cause h
