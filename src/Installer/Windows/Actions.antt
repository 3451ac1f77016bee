-- ===== src/Installer/Windows/Actions.antt =====
-- internal/installer/windows: what the steps of the server's plan do (steps.go, helpers.go, firewall.go).
use loca_agent.Base.{Text, lit, List, [], ◌∷◌, Option, none, some, Bool, true, false, if◌then◌else◌}
use loca_agent.Errs.{Error, user}
use loca_agent.Effect.{Result, ok, err, check, Action, pure, fail, ◌>>=◌, ◌>>◌}
use loca_agent.Sys.{Os}
use loca_agent.Platform.{SystemInfo}
use loca_agent.Filepath.{join_path}
use loca_agent.Config.{Model, ModelFile}
use loca_agent.Wireguard.{Keypair, ServerIdentity}
use loca_agent.WgTunnel.{mkdir_all}
use loca_agent.Service.{ServiceState}
use loca_agent.Installer.{str, info, key_system_info, key_server_binary}
use loca_agent.Installer.Session.{Session, Globals, on_world, store, read_world}
use loca_agent.Installer.Windows.{Deps, layout, firewall_rule_name, show_rule_args}

-- m.Files[0].Name; Go panics where a model lists no file.
abbrev pub first_file : List ModelFile → Text
first_file [] = []
first_file (f ∷ fs) = f.name

abbrev pub succeeded : Option Error → Bool
succeeded none = true
succeeded (some _) = false

abbrev pub is_running : ServiceState → Bool
is_running ServiceState.running = true
is_running ServiceState.stopped = false
is_running ServiceState.not_installed = false
is_running ServiceState.unknown = false

module _ (os : Os) (g : Globals os) (d : Deps os.World) where
  abbrev Act : Type 0 → Type 0
  Act A = Action (Session os.World) A

  -- Runner.Run, where stdout is not used
  unfoldable pub run_command : Text → List Text → Act (Unit {0})
  run_command bin args = on_world (λ w. let (o, w') = d.runner bin args w in (check o.error, w'))

  unfoldable pub check_elevated : Option (os.World → Bool) → Act (Unit {0})
  check_elevated none = pure tt
  check_elevated (some elevated) = do
    is_elevated ← read_world elevated
    if is_elevated
        then pure tt
        else fail (
            user (lit "not_elevated")
              (lit "Administrator privileges are required to install the AI server")
              (lit "Re-run bootstrap-ai from an elevated (Administrator) terminal."))

  -- A failed detection leaves the state alone.
  unfoldable pub record_system : Option (Action os.World SystemInfo) → Act (Unit {0})
  record_system none s = (ok tt, s)
  record_system (some detect) s =
      let (r, w) = detect s.world in
      elim r [
        | ok si ↦ store key_system_info (info si) (record s { world = w })
        | err _ ↦ (ok tt, record s { world = w })
      ]

  unfoldable pub fetch_installer : Text → Act (Unit {0})
  fetch_installer dst =
      on_world
        (λ w. let (e, w') = d.fetcher d.cfg.versions.windows_installer_url dst w in (check e, w'))

  unfoldable pub found_binary : Result Text → Act Bool
  found_binary (ok bin) = do store key_server_binary (str bin); pure true
  found_binary (err _) = pure false

  unfoldable pub model_path : Model → Text
  model_path m = join_path ((layout d).model ∷ first_file m.files ∷ [])

  unfoldable pub server_identity : Keypair → ServerIdentity
  server_identity keys =
      let net = d.cfg.network.wireguard in
      record {
        name = lit "windows-server";
        keys = keys;
        address = net.server_address;
        subnet = net.subnet;
        listen_port = net.listen_port;
        endpoint = d.endpoint;
        keepalive = net.keepalive_seconds;
      }

  -- os.MkdirAll, whose error is dropped
  unfoldable pub make_log_dir : Act (Unit {0})
  make_log_dir = on_world (λ w. let (_, w') = mkdir_all os (layout d).log 0o755 w in (ok tt, w'))

  -- firewallRuleExists
  unfoldable pub rule_exists : Act Bool
  rule_exists = on_world (λ w.
      let (o, w') = d.runner (lit "netsh") (show_rule_args firewall_rule_name) w in
      (ok (succeeded o.error), w'))
