-- ===== src/Command/Install/Unattended.antt =====
-- The install command (internal/command/install/install.go) with --yes.
use loca_agent.Base.{
  Text, [], Option, Bool, true, ◌==◌, text_eq, ◌≡◌, refl, ◌∙◌, inl, inr, Bool-cases,
}
use loca_agent.Errs.{Error}
use loca_agent.Effect.{Result, ok, err}
use loca_agent.Sys.{Os}
use loca_agent.Config.{Config}
use loca_agent.Installer.{MachineKind, mac_client, windows_server}
use loca_agent.Installer.Session.{Session, Globals}
use loca_agent.Installer.Windows
use loca_agent.Installer.Mac
use loca_agent.Ui.{Console}
use loca_agent.Command.Install.{
  Flags, Host, required, map_ok, resolve_role, build_windows_deps, build_mac_deps, windows_run,
  mac_run, role_run, install,
}

resolve_role_silent :
    (on_windows has_ui : Bool) (flag : Text) (assume_yes : Bool) (c : Console)
    → assume_yes ≡ true
    → (resolve_role on_windows has_ui flag assume_yes c).1 ≡ c
unfolding resolve_role
resolve_role_silent on_windows has_ui flag assume_yes c agreed = elim (Bool-cases (flag == [])) [
  | inl missing ↦ rw (missing, agreed, resolve_role) refl
  | inr given ↦ rw (given, resolve_role) refl
]

required_silent :
    (flag : Text) (assume_yes : Bool) (e : Error) (question def : Text) (c : Console)
    → assume_yes ≡ true
    → (required flag assume_yes e question def c).1 ≡ c
required_silent flag assume_yes e question def c agreed = elim (Bool-cases (flag == [])) [
  | inl missing ↦ rw (missing, agreed) refl
  | inr given ↦ rw (given) refl
]

map_ok-console : {A B : Type 0} (g : A → B) (r : Result A × Console) → (map_ok g r).1 ≡ r.1
map_ok-console g (ok a, c) = refl
map_ok-console g (err e, c) = refl

module _ (os : Os) (g : Globals os) (h : Host os) (cfg : Config) (has_ui : Bool)
    (ctx : Session os.World → Option Error) (has_log : Bool) where
  windows_run-console :
      (r : Result (Windows.Deps os.World) × Console) (w : os.World)
      → (windows_run os g h cfg has_ui ctx has_log r w).console ≡ r.1
  unfolding windows_run
  windows_run-console (err e, c) w = refl
  windows_run-console (ok d, c) w = refl

  mac_run-console :
      (r : Result (Mac.Deps os.World) × Console) (w : os.World)
      → (mac_run os g h cfg has_ui ctx has_log r w).console ≡ r.1
  unfolding mac_run
  mac_run-console (err e, c) w = refl
  mac_run-console (ok d, c) w = refl

  role_run-silent :
      (f : Flags) (r : Result MachineKind × Console) (w : os.World)
      → f.assume_yes ≡ true
      → (role_run os g h cfg has_ui ctx has_log f r w).console ≡ r.1
  unfolding role_run build_windows_deps build_mac_deps
  role_run-silent f (err e, c) w agreed = refl
  role_run-silent f (ok windows_server, c) w agreed =
      windows_run-console _ w
      ∙ map_ok-console _ _
      ∙ required_silent f.endpoint f.assume_yes _ _ _ c agreed
  role_run-silent f (ok mac_client, c) w agreed =
      mac_run-console _ w ∙ map_ok-console _ _ ∙ required_silent f.token f.assume_yes _ _ _ c agreed

  -- With --yes the command asks nothing: it neither prints a question nor reads a line, whatever the
  -- flags, the host and the result of the run are.
  pub install_unattended :
      (f : Flags) (c : Console) (w : os.World)
      → f.assume_yes ≡ true
      → (install os g h cfg has_ui ctx has_log f c w).console ≡ c
  unfolding install
  install_unattended f c w agreed =
      role_run-silent f _ w agreed
      ∙ resolve_role_silent h.on_windows has_ui f.role f.assume_yes c agreed
