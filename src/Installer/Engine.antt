-- ===== src/Installer/Engine.antt =====
-- internal/installer/engine.go: the engine that runs a plan of steps and rolls it back on failure.
use mathlib.Core.List.{reverse}
pub mod Trace
pub mod Outcome
pub mod Restore
use loca_agent.Base.{Text, List, [], ◌∷◌, ◌++◌, Option, none, some, lit, Bool, true, false}
use loca_agent.Base.{if◌then◌else◌, quote}
use loca_agent.Errs.{Error, wrapped}
use loca_agent.Effect.{Result, ok, err}
use loca_agent.Installer.{Step, StepStatus, skipped, running, done, failed, rolled_back}

-- Which of the two observers of an Engine are set.
pub record Engine : Type 0 where
  pub has_log : Bool
  pub has_progress : Bool

-- The calls that the engine makes of its observers.
pub data Event : Type 0 where
  progress : Text → StepStatus → Event
  debug : Text → StepStatus → Event
  warn_rollback : Text → Error → Event

-- The state of the steps, and the calls of the observers so far, oldest first.
pub record Machine (S : Type 0) : Type 0 where
  pub sys : S
  pub events : List Event

-- What the loop's body does with one step: go on, with or without a completed step, or fail.
pub data Attempt : Type 0 where
  satisfied completed : Attempt
  broken : Error → Attempt

module _ (e : Engine) where
  unfoldable pub report_events : Text → StepStatus → List Event
  report_events name status =
      (if e.has_progress then progress name status ∷ [] else [])
      ++ (if e.has_log then debug name status ∷ [] else [])

  module _ {S : Type 0} where
    -- Engine.report
    unfoldable pub report : Text → StepStatus → Machine S → Machine S
    unfolding report_events
    report name status m = record m { events = m.events ++ report_events name status }

    warn : Text → Error → Machine S → Machine S
    warn name cause m =
        if e.has_log then record m { events = m.events ++ (warn_rollback name cause ∷ []) } else m

    -- One round of the loop in `rollback`.
    rollback_one : Step S → Machine S → Machine S
    unfolding report warn
    rollback_one s m =
        let (r, sys) = s.rollback m.sys in
        let m' : Machine S = record { sys = sys; events = m.events } in
        elim r [ ok _ ↦ report s.name rolled_back m' | err cause ↦ warn s.name cause m' ]

    rollback_each : List (Step S) → Machine S → Machine S
    unfolding rollback_one
    rollback_each [] m = m
    rollback_each (s ∷ steps) m = rollback_each steps (rollback_one s m)

    -- Engine.rollback: the completed steps from the last to the first. It returns the cause.
    unfoldable pub rollback : List (Step S) → Error → Machine S → Option Error × Machine S
    unfolding rollback_each
    rollback steps cause m = (some cause, rollback_each (reverse steps) m)

    run_step : Step S → Machine S → Attempt × Machine S
    unfolding report
    run_step step m =
        let started = report step.name running m in
        let (r, sys) = step.run started.sys in
        let m' : Machine S = record { sys = sys; events = started.events } in
        elim r [
          | ok _ ↦ (completed, report step.name done m')
          | err cause ↦ (broken cause, report step.name failed m')
        ]

    -- The body of the loop in `Run`, from `Verify` on.
    unfoldable pub attempt : Step S → Machine S → Attempt × Machine S
    unfolding report run_step
    attempt step m =
        let (r, sys) = step.verify m.sys in
        let m' : Machine S = record { sys = sys; events = m.events } in
        elim r [
          | err cause ↦ (
            broken (wrapped (lit "verify " ++ (quote step.name ++ lit ": ")) cause []),
            report step.name failed m',
          )
          | ok true ↦ (satisfied, report step.name skipped m')
          | ok false ↦ run_step step m'
        ]

    -- The loop in `Run`. `ctx` is what ctx.Err() returns in the current state.
    run_from :
        (S → Option Error) → List (Step S) → List (Step S) → Machine S → Option Error × Machine S
    run_from ctx past [] m = (none, m)
    run_from ctx past (step ∷ steps) m = elim (ctx m.sys) [
      | some cause ↦ rollback past cause m
      | none ↦
          let (a, m') = attempt step m in
          elim a [
            | satisfied ↦ run_from ctx past steps m'
            | completed ↦ run_from ctx (past ++ (step ∷ [])) steps m'
            | broken cause ↦ rollback past cause m'
          ]
    ]

    -- Engine.Run
    unfoldable pub run : (S → Option Error) → List (Step S) → Machine S → Option Error × Machine S
    unfolding run_from
    run ctx steps m = run_from ctx [] steps m
