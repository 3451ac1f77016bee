-- ===== src/Cli.antt =====
-- internal/cli/root.go and internal/app/app.go: the start of a command, and how its error is shown.
pub mod Messages
use loca_agent.Base.{Text, lit, ℕ, List, [], ◌∷◌, ◌++◌, Option, none, some, ◌==◌, text_eq, nat_eq}
use loca_agent.Base.{if◌then◌else◌, ℤ, leb, format_nat}
use loca_agent.Errs.{Error, as_user, error_text, wrapped}
use loca_agent.Effect.{Result, ok, err, ◌>>=◌, check, Action, pure, lift, or_fail, ◌>>◌}
use loca_agent.Sys.{Os}
use loca_agent.Filepath.{dir_name}
use loca_agent.Config.{Config}
use loca_agent.Config.Load.{Host, Domain, Yaml, load, default_user_dir}
use loca_agent.Logging.{Record, level_info, level_debug, level_verbose}
use loca_agent.WgTunnel.{mkdir_all}
use loca_agent.Ui.{Line, failure, note}

-- The level of the console for a count of -v flags.
unfoldable pub verbosity_level : ℕ → ℤ
verbosity_level verbose =
    if leb 2 verbose then level_verbose else if verbose == 1 then level_debug else level_info

abbrev note_fix : Text → List Line
note_fix fix = if fix == [] then [] else note (lit "Suggested fix: " ++ fix) ∷ []

-- What printError prints.
unfoldable pub error_lines : Error → List Line
error_lines e = elim (as_user e) [
  | some u ↦ failure u.message ∷ note_fix u.fix
  | none ↦ failure (error_text e) ∷ []
]

-- What printError logs: the cause of a user-facing error.
unfoldable pub cause_record : Error → Option Record
cause_record e = elim (as_user e) [
  | none ↦ none
  | some u ↦ elim u.cause [
    | none ↦ none
    | some cause ↦ some (record {
      level = level_debug;
      message = lit "error cause";
      attrs =
          record { key = lit "code"; shown = u.code }
          ∷ record { key = lit "cause"; shown = error_text cause }
          ∷ [];
    })
  ]
]

-- What Execute prints and its exit code, from what the command returned.
unfoldable pub finish : Option Error → List Line × ℕ
finish none = ([], 0)
finish (some e) = (error_lines e, 1)

-- App.NotImplemented
unfoldable pub not_implemented : Text → ℕ → List Line
not_implemented feature phase =
    note (
      feature
      ++ (lit " is planned for Phase "
          ++ (format_nat phase ++ lit " and is not implemented in this build.")))
    ∷ []

-- What the commands print that are not implemented.
unfoldable pub update_lines : List Line
update_lines = not_implemented (lit "Updating") 8

unfoldable pub uninstall_lines : List Line
uninstall_lines = not_implemented (lit "Uninstallation") 8

unfoldable pub configure_lines : List Line
configure_lines = not_implemented (lit "Configuration management") 9

unfoldable pub logs_lines : List Line
logs_lines = not_implemented (lit "Log viewing") 10

unfoldable pub benchmark_lines : List Line
benchmark_lines = not_implemented (lit "Benchmarking") 10

-- The error that a command returns, if any
abbrev failure_of : Result (Unit {0}) → Option Error
failure_of (ok a) = none
failure_of (err e) = some e

-- logging.New's file: its directory, and opening it to append, which `open_log` does.
module _ (os : Os) (open_log : Text → os.World → Option Error × os.World) where
  open_file : Text → Action os.World (Unit {0})
  open_file path w = let (e, w') = open_log path w in (check e, w')

  -- The part of logging.New that can fail.
  unfoldable pub new_logger : Text → Action os.World (Unit {0})
  unfolding open_file mkdir_all
  new_logger file = if file == [] then pure tt else do
    or_fail (mkdir_all os (dir_name file) 0o755) (λ e. wrapped (lit "create log directory: ") e [])
    or_fail (open_file file) (λ e. wrapped (lit "open log file: ") e [])

  module _ (yaml : Yaml) (h : Host) (embedded : Domain → Result Text)
      (overrides : Text → Domain → Option (Result Text)) (empty : Config) where
    -- PersistentPreRunE: the config of the app
    unfoldable pub pre_run : Text → Text → Action os.World Config
    unfolding new_logger
    pre_run log_file config_dir =
        let dir = if config_dir == [] then default_user_dir h else config_dir in
        do new_logger log_file; lift (load yaml h embedded (overrides dir) dir empty)

    -- Execute, once cobra has chosen the command: what it prints at its end, and the exit code.
    unfoldable pub execute :
        (Config → Action os.World (Unit {0})) → Text → Text → os.World → (List Line × ℕ) × os.World
    unfolding pre_run
    execute command log_file config_dir w =
        let (r, w') = (pre_run log_file config_dir >>= command) w in (finish (failure_of r), w')
