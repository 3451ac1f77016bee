-- ===== src/Installer/Engine/Restore.antt =====
-- A failed run leaves no trace in whatever the steps can undo (engine.go, `rollback`).
use mathlib.Core.List.{reverse, reverse-append}
use loca_agent.Base.{
  List, [], ◌∷◌, ◌++◌, Option, none, ◌≡◌, ◌≢◌, false, refl, sym, ◌∙◌, arith, All, All-front, ap,
}
use mathlib.Core.Path.{subst}
use loca_agent.Errs.{Error}
use loca_agent.Effect.{ok, err}
use loca_agent.Installer.{Step}
use loca_agent.Installer.Engine.{
  Engine, Machine, Attempt, satisfied, completed, broken, rollback_one, rollback_each, rollback,
  attempt, run,
}
use loca_agent.Installer.Engine.Trace.{Passes, stop, skip, ran, Breaks, Ends, run-Ends}

module _ {S V : Type 0} (view : S → V) where
  -- What a step promises of `view`: Verify leaves it alone, and of the runs behind a Verify that finds
  -- the step not satisfied only a successful one changes it, which the rollback undoes from every state
  -- that looks as the run left it.
  pub record Undoes (step : Step S) : Type 0 where
    pub verify_keeps : (s : S) → view (step.verify s).1 ≡ view s
    pub failure_keeps :
        (s : S) (cause : Error)
        → (step.verify s).0 ≡ ok false
        → (step.run (step.verify s).1).0 ≡ err cause
        → view (step.run (step.verify s).1).1 ≡ view s
    pub rollback_undoes :
        (s t : S)
        → (step.verify s).0 ≡ ok false
        → (step.run (step.verify s).1).0 ≡ ok tt
        → view t ≡ view (step.run (step.verify s).1).1
        → view (step.rollback t).1 ≡ view s

  module _ (e : Engine) where
    view-broken :
        (step : Step S) (m : Machine S) (cause : Error)
        → Undoes step
        → (attempt e step m).0 ≡ broken cause
        → view (attempt e step m).1.sys ≡ view m.sys
    unfolding attempt
    view-broken step m cause u h = ground (arith, u.verify_keeps m.sys, u.failure_keeps m.sys cause)

    view-satisfied :
        (step : Step S) (m : Machine S)
        → Undoes step
        → (attempt e step m).0 ≡ satisfied
        → view (attempt e step m).1.sys ≡ view m.sys
    unfolding attempt
    view-satisfied step m u h = ground (arith, u.verify_keeps m.sys)

    view-rollback_one :
        (step : Step S) (m o : Machine S)
        → Undoes step
        → (attempt e step m).0 ≡ completed
        → view o.sys ≡ view (attempt e step m).1.sys
        → view (rollback_one e step o).sys ≡ view m.sys
    unfolding attempt rollback_one
    view-rollback_one step m o u h p = ground (arith, u.rollback_undoes m.sys o.sys)

    rollback_each-append :
        (xs ys : List (Step S)) (m : Machine S)
        → rollback_each e (xs ++ ys) m ≡ rollback_each e ys (rollback_each e xs m)
    unfolding rollback_each
    rollback_each-append [] ys m = refl
    rollback_each-append (x ∷ xs) ys m = rollback_each-append xs ys (rollback_one e x m)

    view-rollback_last :
        (step : Step S) (past : List (Step S)) (m o : Machine S)
        → Undoes step
        → (attempt e step m).0 ≡ completed
        → view (rollback_each e past o).sys ≡ view (attempt e step m).1.sys
        → view (rollback_each e (past ++ (step ∷ [])) o).sys ≡ view m.sys
    view-rollback_last step past m o u h p =
        rw (rollback_each-append past (step ∷ []) o)
          (unfold rollback_each in view-rollback_one step m (rollback_each e past o) u h p)

    module _ (ctx : S → Option Error) where
      view-Breaks :
          {step : Step S} {m n : Machine S} {cause : Error}
          → Breaks e ctx step m cause n
          → Undoes step
          → view n.sys ≡ view m.sys
      view-Breaks (Breaks.cancelled h p) u = ap (λ (o : Machine S). view o.sys) (sym p)
      view-Breaks {step} {m} {cause} (Breaks.failing h q) u =
          ap (λ (r : Attempt × Machine S). view r.1.sys) (sym q)
          ∙ view-broken step m cause u (ap (λ (r : Attempt × Machine S). r.0) q)

      view-rollback_each :
          {steps past : List (Step S)} {m n : Machine S}
          → Passes e ctx steps m past n
          → All Undoes steps
          → (o : Machine S) → view o.sys ≡ view n.sys
          → view (rollback_each e (reverse past) o).sys ≡ view m.sys
      view-rollback_each stop us o p = unfold rollback_each in p
      view-rollback_each (skip {step} {m} h q r) us o p =
          view-rollback_each r us.1 o p
          ∙ ap (λ (r : Attempt × Machine S). view r.1.sys) (sym q)
          ∙ view-satisfied step m us.0 (ap (λ (r : Attempt × Machine S). r.0) q)
      view-rollback_each (ran {step} {past} {m} h q r) us o p =
          subst (λ l. view (rollback_each e l o).sys ≡ view m.sys)
            (sym (reverse-append (step ∷ []) past))
            (view-rollback_last step (reverse past) m o us.0
              (ap (λ (r : Attempt × Machine S). r.0) q)
              (view-rollback_each r us.1 o p
                ∙ ap (λ (r : Attempt × Machine S). view r.1.sys) (sym q)))

      view-Ends :
          {steps : List (Step S)} {m : Machine S} {r : Option Error × Machine S}
          → Ends e ctx [] steps m r
          → All Undoes steps
          → r.0 ≢ none
          → view r.1.sys ≡ view m.sys
      unfolding rollback
      view-Ends (Ends.finished p) us h = absurd (h refl)
      view-Ends (Ends.undone front step back past {o} eq p b) us h =
          let (front_undoes, step_undoes) =
            All-front Undoes front step back (subst (All Undoes) eq us) in
          view-rollback_each p front_undoes o (view-Breaks b step_undoes)

      -- If every step of the plan undoes its changes of `view`, a run that returns an error leaves
      -- `view` as it was before the run.
      pub run_restores :
          (steps : List (Step S)) (m : Machine S)
          → All Undoes steps
          → (run e ctx steps m).0 ≢ none
          → view (run e ctx steps m).1.sys ≡ view m.sys
      run_restores steps m us h = view-Ends (run-Ends e ctx steps m) us h
