-- ===== src/Cli/Messages.antt =====
-- How the program ends on an error (internal/cli/root.go), whatever fmt.Errorf has put around it.
use loca_agent.Base.{Text, lit, List, [], ◌∷◌, ◌++◌, some, ◌==◌, text_eq, if◌then◌else◌, ◌≡◌, refl}
use loca_agent.Errs.{Error, wrapped, user, user_wrap, as_user}
use loca_agent.Ui.{failure, note}
use loca_agent.Cli.{finish, error_lines}

-- fmt.Errorf with %w, any number of times, the outermost first.
abbrev pub layered : List (Text × Text) → Error → Error
layered [] e = e
layered ((before, after) ∷ layers) e = wrapped before (layered layers e) after

as_user-layered : (layers : List (Text × Text)) (e : Error) → as_user (layered layers e) ≡ as_user e
unfolding as_user
as_user-layered [] e = refl
as_user-layered ((before, after) ∷ layers) e = as_user-layered layers e

-- Where fmt.Errorf has been put around a user-facing error any number of times, the program ends with
-- exit code 1 and prints the message of that error, then its fix where it has one, and nothing of the
-- texts of fmt.Errorf nor of the error's own cause, which may itself be a user-facing error.
pub finish-layered :
    (layers : List (Text × Text)) (code message fix : Text) (cause : Error)
    → let shown =
        failure message ∷ (if fix == [] then [] else note (lit "Suggested fix: " ++ fix) ∷ []) in
      (finish (some (layered layers (user code message fix))) ≡ (shown, 1))
      × (finish (some (layered layers (user_wrap cause code message fix))) ≡ (shown, 1))
unfolding finish error_lines as_user
finish-layered layers code message fix cause = (
  rw (as_user-layered layers (user code message fix), error_lines, finish) refl,
  rw (as_user-layered layers (user_wrap cause code message fix), error_lines, finish) refl,
)
