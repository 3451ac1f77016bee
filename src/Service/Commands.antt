-- ===== src/Service/Commands.antt =====
-- The nssm commands that Install issues (internal/service/service.go).
use loca_agent.Base.{
  Text, List, [], ◌∷◌, ◌++◌, none, some, lit, append_assoc, append-nil, map, ◌==◌, text_eq,
  if◌then◌else◌, Bool-cases,
}
use loca_agent.Base.{◌≡◌, refl, sym, ap, inl, inr, Option-cases}
use loca_agent.Model.{sort_strings}
use loca_agent.Sys.{Runner, Output, Command}
use loca_agent.Service.{
  Spec, settings, set_text, set_env, env_pairs, env_value, exec, exec_each, install,
}

abbrev pub command_of : Text → List Text → Command
command_of nssm args = record { bin = nssm; args = args }

-- A runner that answers by the command and records it.
unfoldable pub recording : (Command → Output) → Runner (List Command)
recording answer bin args w = (answer (command_of bin args), w ++ (command_of bin args ∷ []))

-- The commands up to the first that fails, which is the last that is run.
unfoldable pub until_failure : (Command → Output) → List Command → List Command
until_failure answer [] = []
until_failure answer (c ∷ cs) =
    c ∷ elim (answer c).error [ none ↦ until_failure answer cs | some _ ↦ [] ]

-- The settings with a value, of those that each have one value.
unfoldable pub given : List (Text × Text) → List (Text × List Text)
given [] = []
given ((key, value) ∷ rest) = if value == [] then given rest else (key, value ∷ []) ∷ given rest

-- The variables as `name=value`, by name, where there are any.
unfoldable pub environment : List (Text × Text) → List (Text × List Text)
environment [] = []
environment (first ∷ env) =
    let names = sort_strings (map (λ (kv : Text × Text). kv.0) (first ∷ env)) in
    (
      lit "AppEnvironmentExtra",
      map (λ (name : Text). name ++ (b'=' ∷ env_value (first ∷ env) name)) names,
    )
    ∷ []

abbrev start_mode : Spec → List (Text × List Text)
start_mode s =
    (
      lit "Start",
      (if s.auto_start then lit "SERVICE_AUTO_START" else lit "SERVICE_DEMAND_START") ∷ [],
    )
    ∷ []

-- The settings that a service is to have, with their values, in the order in which they are set.
unfoldable pub wanted : Spec → List (Text × List Text)
wanted s =
    given (
      (lit "DisplayName", s.display_name)
      ∷ (lit "AppDirectory", s.working_dir)
      ∷ (lit "AppStdout", s.stdout)
      ∷ (lit "AppStderr", s.stderr)
      ∷ [])
    ++ (environment s.env ++ start_mode s)

-- `nssm set name key values`
abbrev pub set_of : Text → Text → Text × List Text → Command
set_of nssm name (key, values) = record { bin = nssm; args = lit "set" ∷ name ∷ key ∷ values }

abbrev pub create_of : Text → Spec → Command
create_of nssm s = record { bin = nssm; args = lit "install" ∷ s.name ∷ s.executable ∷ s.args }

exec_each-until_failure :
    (answer : Command → Output) (nssm : Text) (cs : List (List Text)) (w : List Command)
    → (exec_each (recording answer) nssm cs w).1
      ≡ w ++ until_failure answer (map (command_of nssm) cs)
unfolding exec_each exec recording until_failure
exec_each-until_failure answer nssm [] w = sym (append-nil w)
exec_each-until_failure answer nssm (c ∷ cs) w =
    elim (Option-cases (answer (command_of nssm c)).error) [
      | inl good ↦ rw (
        good,
        exec_each-until_failure answer nssm cs (w ++ (command_of nssm c ∷ [])),
        append_assoc,
      )
      | inr (e, bad) ↦ rw (bad)
    ]

module _ (nssm name : Text) where
  abbrev Same : List (List Text) → List (Text × List Text) → Type 0
  Same commands wants = map (command_of nssm) commands ≡ map (set_of nssm name) wants

  text-Same :
      (key value : Text) (rest : List (Text × Text)) (cs : List (List Text))
      (tail : List (Text × List Text))
      → Same cs (given rest ++ tail)
      → Same (set_text name key value ++ cs) (given ((key, value) ∷ rest) ++ tail)
  unfolding given set_text
  text-Same key value rest cs tail same = elim (Bool-cases (value == [])) [
    | inl empty ↦ rw (empty, given) same
    | inr set ↦ rw (set, given) (ap (λ l. set_of nssm name (key, value ∷ []) ∷ l) same)
  ]

  env-Same :
      (env : List (Text × Text)) (cs : List (List Text)) (tail : List (Text × List Text))
      → Same cs tail
      → Same (set_env name env ++ cs) (environment env ++ tail)
  unfolding set_env env_pairs environment
  env-Same [] cs tail same = same
  env-Same (kv ∷ env) cs tail same = rw same refl

settings-wanted : (nssm : Text) (s : Spec) → Same nssm s.name (settings s) (wanted s)
unfolding settings wanted given
settings-wanted nssm s =
    let tail = environment s.env ++ start_mode s in
    let errors : List (Text × Text) = (lit "AppStderr", s.stderr) ∷ [] in
    let outs : List (Text × Text) = (lit "AppStdout", s.stdout) ∷ errors in
    let dirs : List (Text × Text) = (lit "AppDirectory", s.working_dir) ∷ outs in
    text-Same nssm s.name (lit "DisplayName") s.display_name dirs _ tail (
      text-Same nssm s.name (lit "AppDirectory") s.working_dir outs _ tail (
        text-Same nssm s.name (lit "AppStdout") s.stdout errors _ tail (
          text-Same nssm s.name (lit "AppStderr") s.stderr [] _ tail
            (env-Same nssm s.name s.env _ (start_mode s) refl))))

-- Install sends nssm, and no other program, the `install` command with the executable and its
-- arguments, then one `set` command for each setting that the service is to have, in order (of the
-- display name, the directory and both log files those that are given, the environment where it is not
-- empty, and whether to start on boot), and stops behind the first command that fails.
pub install-until_failure :
    (answer : Command → Output) (nssm : Text) (s : Spec) (w : List Command)
    → (install (recording answer) nssm s w).1
      ≡ w ++ until_failure answer (create_of nssm s ∷ map (set_of nssm s.name) (wanted s))
unfolding install exec until_failure recording
install-until_failure answer nssm s w = elim (Option-cases (answer (create_of nssm s)).error) [
  | inl good ↦ rw (
    good,
    exec_each-until_failure answer nssm (settings s) (w ++ (create_of nssm s ∷ [])),
    settings-wanted nssm s,
    append_assoc,
  )
  | inr (e, bad) ↦ rw (bad)
]
