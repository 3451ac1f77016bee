-- ===== src/Service.antt =====
-- internal/service/service.go: the Windows service that runs llama-server, through nssm.
pub mod Commands
use loca_agent.Base.{
  Text, lit, List, [], ◌∷◌, ◌++◌, Option, none, some, Bool, true, false, ◌==◌, ◌||◌, text_eq,
}
use loca_agent.Base.{if◌then◌else◌, map, contains, to_lower, to_upper, trim_space}
use loca_agent.Errs.{Error, wrapped, error_text}
use loca_agent.Effect.{Result, ok, err, Action, pure, check, or_fail, ◌>>=◌, ◌>>◌}
use loca_agent.Sys.{Runner, Output}
use loca_agent.Model.{sort_strings}

-- State of service.go
pub data ServiceState : Type 0 where
  running stopped not_installed unknown : ServiceState

pub record Spec : Type 0 where
  pub name : Text
  pub display_name : Text
  pub executable : Text
  pub args : List Text
  pub working_dir : Text
  pub env : List (Text × Text)
  pub stdout : Text
  pub stderr : Text
  pub auto_start : Bool

-- spec.Env[k]: "" for a missing key
unfoldable pub env_value : List (Text × Text) → Text → Text
env_value [] k = []
env_value ((j, v) ∷ env) k = if j == k then v else env_value env k

abbrev env_keys : List (Text × Text) → List Text
env_keys env = sort_strings (map (λ (kv : Text × Text). kv.0) env)

unfoldable pub env_pairs : List (Text × Text) → List Text
unfolding env_value
env_pairs env = map (λ (k : Text). k ++ (b'=' ∷ env_value env k)) (env_keys env)

-- The closure `set` of settings
abbrev set_command : Text → Text → List Text → List Text
set_command name key vals = lit "set" ∷ name ∷ key ∷ vals

unfoldable pub set_text : Text → Text → Text → List (List Text)
set_text name key value = if value == [] then [] else set_command name key (value ∷ []) ∷ []

unfoldable pub set_env : Text → List (Text × Text) → List (List Text)
set_env name [] = []
set_env name (kv ∷ env) = set_command name (lit "AppEnvironmentExtra") (env_pairs (kv ∷ env)) ∷ []

-- NSSMManager.settings
unfoldable pub settings : Spec → List (List Text)
unfolding set_text set_env env_pairs
settings s =
    set_text s.name (lit "DisplayName") s.display_name
    ++ (set_text s.name (lit "AppDirectory") s.working_dir
        ++ (set_text s.name (lit "AppStdout") s.stdout
            ++ (set_text s.name (lit "AppStderr") s.stderr
                ++ (set_env s.name s.env
                    ++ (set_command s.name (lit "Start") (
                          (if s.auto_start
                            then lit "SERVICE_AUTO_START"
                            else lit "SERVICE_DEMAND_START")
                          ∷ [])
                        ∷ [])))))

-- notInstalled
unfoldable pub says_not_installed : Text → Error → Bool
says_not_installed out e =
    let hay = to_lower out ++ (b' ' ∷ to_lower (error_text e)) in
    contains hay (lit "can't open service")
    || contains hay (lit "does not exist")
    || contains hay (lit "service not found")

-- The state that the output of `nssm status` names.
unfoldable pub read_state : Text → ServiceState
read_state out =
    let s = to_upper (trim_space out) in
    if s == []
    then not_installed
    else if contains s (lit "SERVICE_RUNNING")
    then running
    else if contains s (lit "SERVICE_STOPPED") || contains s (lit "SERVICE_PAUSED")
    then stopped
    else unknown

-- NewNSSM: the executable, "nssm" by default
unfoldable pub nssm_path : Text → Text
nssm_path path = if path == [] then lit "nssm" else path

module _ {W : Type 0} (run : Runner W) (nssm : Text) where
  -- exec, where the output is not used
  exec : List Text → Action W (Unit {0})
  exec args w = let (o, w') = run nssm args w in (check o.error, w')

  exec_each : List (List Text) → Action W (Unit {0})
  unfolding exec
  exec_each [] = pure tt
  exec_each (c ∷ cs) = do exec c; exec_each cs

  -- NSSMManager.Install
  unfoldable pub install : Spec → Action W (Unit {0})
  unfolding exec exec_each
  install s = do
    or_fail (exec (lit "install" ∷ s.name ∷ s.executable ∷ s.args))
        (λ e. wrapped (lit "nssm install " ++ (s.name ++ lit ": ")) e [])
    or_fail (exec_each (settings s))
        (λ e. wrapped (lit "nssm configure " ++ (s.name ++ lit ": ")) e [])

  -- NSSMManager.Start
  unfoldable pub start : Text → Action W (Unit {0})
  unfolding exec
  start name =
      or_fail (exec (lit "start" ∷ name ∷ []))
        (λ e. wrapped (lit "nssm start " ++ (name ++ lit ": ")) e [])

  -- NSSMManager.Stop
  unfoldable pub stop : Text → Action W (Unit {0})
  unfolding exec
  stop name =
      or_fail (exec (lit "stop" ∷ name ∷ []))
        (λ e. wrapped (lit "nssm stop " ++ (name ++ lit ": ")) e [])

  -- NSSMManager.Remove: the result of the stop is dropped.
  unfoldable pub remove : Text → Action W (Unit {0})
  unfolding exec
  remove name w =
      let (_, w') = exec (lit "stop" ∷ name ∷ []) w in
      or_fail (exec (lit "remove" ∷ name ∷ lit "confirm" ∷ []))
        (λ e. wrapped (lit "nssm remove " ++ (name ++ lit ": ")) e []) w'

  -- NSSMManager.Status
  unfoldable pub status : Text → Action W ServiceState
  status name w =
      let (o, w') = run nssm (lit "status" ∷ name ∷ []) w in
      (
        elim o.error [
          | none ↦ ok (read_state o.stdout)
          | some e ↦
              if says_not_installed o.stdout e
              then ok not_installed
              else err (wrapped (lit "nssm status " ++ (name ++ lit ": ")) e [])
        ],
        w',
      )
