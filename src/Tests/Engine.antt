-- ===== src/Tests/Engine.antt =====
-- The engine's theorems on plans over a counter.
use loca_agent.Base.{ℕ, suc, ◌-◌, List, [], ◌∷◌, ◌++◌, Option, none, ltb, true, false}
use loca_agent.Base.{◌≡◌, ◌≢◌, refl, arith, map}
use loca_agent.Errs.{Error, plain}
use loca_agent.Effect.{ok, pure, fail}
use loca_agent.Installer.{Step}
use loca_agent.Installer.Engine.{Engine, Machine, run, attempt, rollback}
use loca_agent.Installer.Engine.Trace.{Ends, run-Ends}
use loca_agent.Installer.Engine.Outcome.{settled, run_settles, Origin, run-Origin}
use loca_agent.Installer.Engine.Restore.{Undoes, run_restores}

abbrev watched : Engine
watched = record { has_log = true; has_progress = true }

abbrev never : ℕ → Option Error
never _ = none

-- A step that raises a counter which is at 0.
abbrev raise : Step ℕ
raise = record {
  name = 114 ∷ [];
  verify = λ n. (ok (ltb 0 n), n);
  run = λ n. (ok tt, suc n);
  rollback = λ n. (ok tt, n - 1);
}

abbrev refuse : Step ℕ
refuse = record { name = 120 ∷ []; verify = pure false; run = fail (plain []); rollback = pure tt }

abbrev initial : Machine ℕ
initial = record { sys = 0; events = [] }

abbrev raised : Machine ℕ
raised = record { sys = 1; events = [] }

abbrev good_plan : List (Step ℕ)
good_plan = raise ∷ []

abbrev bad_plan : List (Step ℕ)
bad_plan = raise ∷ refuse ∷ []

run-Ends_example : Ends watched never [] bad_plan initial (run watched never bad_plan initial)
run-Ends_example = run-Ends watched never bad_plan initial

run_settles_example :
    settled (run watched never good_plan initial).1.events
    ≡ settled initial.events ++ map (λ (s : Step ℕ). s.name) good_plan
unfolding run attempt rollback
run_settles_example = run_settles watched refl never good_plan initial refl

run-Origin_example : Origin never bad_plan (plain [])
unfolding run attempt rollback
run-Origin_example = run-Origin never bad_plan watched initial (plain []) refl

Undoes-raise : Undoes (λ n. n) raise
Undoes-raise = record {
  verify_keeps = λ s. refl;
  failure_keeps = λ s cause v h. absurd cc;
  rollback_undoes = λ s t v h p. omega arith;
}

Undoes-refuse : Undoes (λ n. n) refuse
Undoes-refuse = record {
  verify_keeps = λ s. refl;
  failure_keeps = λ s cause v h. refl;
  rollback_undoes = λ s t v h p. absurd cc;
}

fails : (run watched never bad_plan initial).0 ≢ none
unfolding run attempt rollback
fails h = absurd cc

run_restores_example : (run watched never bad_plan initial).1.sys ≡ 0
run_restores_example =
    run_restores (λ n. n) watched never bad_plan initial (Undoes-raise, (Undoes-refuse, tt)) fails
