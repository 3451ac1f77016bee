-- ===== src/Installer/Mac.antt =====
-- internal/installer/mac: the plan of the macOS client (mac.go, steps.go).
pub mod Restore
use loca_agent.Base.{Text, lit, List, [], ◌∷◌, ◌++◌, Option, none, some, Bool, ◌==◌, text_eq}
use loca_agent.Base.{if◌then◌else◌, trim_space, is_some}
use loca_agent.Errs.{user, user_wrap}
use loca_agent.Effect.{ok, check, Action, pure, fail, lift, or_fail, ◌>>=◌, ◌>>◌}
use loca_agent.Sys.{Os, Runner}
use loca_agent.Filepath.{join_path}
use loca_agent.Config.{Config, endpoint_url}
use loca_agent.Model.{resolve}
use loca_agent.Wireguard.Token.{encode_json, decode_token}
use loca_agent.Wireguard.Client.{enroll}
use loca_agent.Wireguard.Render.{render}
use loca_agent.WgTunnel.{write_config}
use loca_agent.Installer.{
  Step, func_step, str, get_string, key_client_config_path, key_enroll_reply,
}
use loca_agent.Installer.Session.{
  Session, Globals, Tunnel, on_world, store, print, read_world, read_state,
}
use loca_agent.Ui.{heading, note, plain_line}
use loca_agent.OpenCode.{from_config, write}

abbrev pub iface_name : Text
iface_name = lit "wg0"

-- Deps. A nil `Elevated` or `Installed` is `none`. `look_path` is exec.LookPath.
pub record Deps (W : Type 0) : Type 0 where
  pub cfg : Config
  pub has_ui : Bool
  pub runner : Runner W
  pub elevated : Option (W → Bool)
  pub installed : Option (Text → W → Bool)
  pub look_path : Text → W → Option Text
  pub tunnel : Tunnel W
  pub home : Option Text
  pub token : Text
  pub model_id : Text
  pub client_name : Text
  pub with_psk : Bool
  pub opencode_config_path : Text

-- defaultOpenCodePath, from the home directory
unfoldable pub default_opencode_path : Option Text → Text
default_opencode_path none = lit "opencode.json"
default_opencode_path (some home) =
    join_path (home ∷ lit ".config" ∷ lit "opencode" ∷ lit "opencode.json" ∷ [])

pub record Layout : Type 0 where
  pub config : Text
  pub client_conf : Text
  pub opencode : Text

-- Deps.layout
unfoldable pub layout : {W : Type 0} → Deps W → Layout
layout d =
    let dir = d.cfg.installer.paths.config_dir in
    record {
      config = dir;
      client_conf = join_path (dir ∷ (iface_name ++ lit ".conf") ∷ []);
      opencode =
          if d.opencode_config_path == []
          then default_opencode_path d.home
          else d.opencode_config_path;
    }

-- Deps.clientName
unfoldable pub client_name : {W : Type 0} → Deps W → Text
client_name d = if d.client_name == [] then lit "mac-client" else d.client_name

-- Deps.isInstalled
unfoldable pub is_installed : {W : Type 0} → Deps W → Text → W → Bool
is_installed d bin w = elim d.installed [
  | some test ↦ test bin w
  | none ↦ is_some (d.look_path bin w)
]

module _ (os : Os) (g : Globals os) (d : Deps os.World) where
  abbrev Act : Type 0 → Type 0
  Act A = Action (Session os.World) A

  unfoldable pub run_command : Text → List Text → Act (Unit {0})
  run_command bin args = on_world (λ w. let (o, w') = d.runner bin args w in (check o.error, w'))

  -- brewInstall
  unfoldable pub brew_install : Text → Act (Unit {0})
  unfolding run_command
  brew_install pkg = or_fail (run_command (lit "brew") (lit "install" ∷ pkg ∷ [])) (λ e.
      user_wrap e (lit "brew_install") (lit "Failed to install " ++ (pkg ++ lit " via Homebrew"))
        (lit "Run: brew install " ++ pkg))

  unfoldable pub refuse_root : Option (os.World → Bool) → Act (Unit {0})
  refuse_root none = pure tt
  refuse_root (some elevated) = do
    is_root ← read_world elevated
    if is_root
        then fail (
            user (lit "root_not_allowed") (lit "Do not run the macOS client install as root") (
              lit
                "Re-run as your normal user — Homebrew refuses to run as root. The tunnel step uses sudo when needed."))
        else pure tt

  unfoldable pub require_token : Act (Unit {0})
  require_token =
      if trim_space d.token == []
      then fail (
          user (lit "token_required") (lit "A WireGuard join token is required")
            (lit "Pass --token with the token printed by the Windows server install."))
      else pure tt

  unfoldable pub preflight_step : Step (Session os.World)
  unfolding refuse_root require_token func_step
  preflight_step = func_step (record {
    label = lit "preflight";
    verify_func = none;
    run_func = some (do refuse_root d.elevated; require_token);
    rollback_func = none;
  })

  unfoldable pub install_homebrew_step : Step (Session os.World)
  unfolding run_command func_step
  install_homebrew_step = func_step (record {
    label = lit "install-homebrew";
    verify_func = some (read_world (is_installed d (lit "brew")));
    run_func = some (
        or_fail
          (run_command (lit "/bin/bash") (
            lit "-c"
            ∷ (lit "NONINTERACTIVE=1 /bin/bash -c \"$(curl -fsSL "
                ++ (d.cfg.versions.homebrew_install_url ++ lit ")\""))
            ∷ []))
          (λ e.
            user_wrap e (lit "homebrew_install") (lit "Homebrew installation failed")
              (lit "Install Homebrew manually from https://brew.sh, then re-run install.")));
    rollback_func = none;
  })

  unfoldable pub install_git_step : Step (Session os.World)
  unfolding func_step
  install_git_step = func_step (record {
    label = lit "install-git";
    verify_func = some (read_world (is_installed d (lit "git")));
    run_func = some (brew_install (lit "git"));
    rollback_func = none;
  })

  unfoldable pub install_opencode_step : Step (Session os.World)
  unfolding run_command func_step
  install_opencode_step =
      let via = d.cfg.versions.install_via in
      let pkg = d.cfg.versions.package_name in
      func_step (record {
        label = lit "install-opencode";
        verify_func = some (read_world (is_installed d (lit "opencode")));
        run_func = some (
            or_fail
              (if via == lit "brew"
                then brew_install pkg
                else run_command (lit "npm") (lit "install" ∷ lit "-g" ∷ pkg ∷ []))
              (λ e. user_wrap e (lit "opencode_install") (lit "OpenCode installation failed") (
                lit "Install OpenCode manually ("
                ++ (via ++ (b' ' ∷ (pkg ++ lit "), then re-run install."))))));
        rollback_func = none;
      })

  unfoldable pub install_wireguard_step : Step (Session os.World)
  unfolding func_step
  install_wireguard_step = func_step (record {
    label = lit "install-wireguard";
    verify_func = some (read_world (is_installed d (lit "wg")));
    run_func = some (brew_install (lit "wireguard-tools"));
    rollback_func = none;
  })

  unfoldable pub enroll_step : Step (Session os.World)
  unfolding func_step
  enroll_step = func_step (record {
    label = lit "wireguard-enroll";
    verify_func = none;
    run_func = some (do
      token ← or_fail (lift (decode_token g.order g.token_json d.token)) (λ e.
          user_wrap e (lit "invalid_token") (lit "The provided join token is invalid")
            (lit "Get a fresh token from the Windows server install."))
      enr ← on_world (enroll g.v6 g.order g.public os token (client_name d) d.with_psk)
      on_world (write_config os (layout d).client_conf (render enr.config))
      reply ← lift (encode_json g.reply_json enr.reply)
      store key_client_config_path (str (layout d).client_conf)
      store key_enroll_reply (str reply));
    rollback_func = none;
  })

  unfoldable pub bring_tunnel_up_step : Step (Session os.World)
  unfolding func_step
  bring_tunnel_up_step = func_step (record {
    label = lit "wireguard-tunnel-up";
    verify_func = some (on_world (λ w. let (b, w') = d.tunnel.active iface_name w in (ok b, w')));
    run_func = some (on_world (d.tunnel.up iface_name (layout d).client_conf));
    rollback_func = some (on_world (d.tunnel.down iface_name (layout d).client_conf));
  })

  unfoldable pub write_opencode_config_step : Step (Session os.World)
  unfolding func_step
  write_opencode_config_step = func_step (record {
    label = lit "opencode-config";
    verify_func = none;
    run_func = some (do
      m ← lift (resolve d.cfg.models d.model_id)
      on_world (write os (layout d).opencode (from_config d.cfg m)));
    rollback_func = none;
  })

  unfoldable pub report_step : Step (Session os.World)
  unfolding func_step
  report_step = func_step (record {
    label = lit "report";
    verify_func = none;
    run_func = some (do
      reply ← read_state (get_string key_enroll_reply)
      if d.has_ui
          then print (
              heading (lit "macOS client configured")
              ∷ note (lit "Register this client on the Windows server by running there:")
              ∷ plain_line (lit "bootstrap-ai wireguard add-peer " ++ reply)
              ∷ note (lit "OpenCode config written to: " ++ (layout d).opencode)
              ∷ note (lit "Endpoint: " ++ endpoint_url d.cfg.network)
              ∷ [])
          else pure tt);
    rollback_func = none;
  })

  -- The function `Plan` of mac.go
  unfoldable pub plan : List (Step (Session os.World))
  plan =
      preflight_step ∷ install_homebrew_step ∷ install_git_step ∷ install_opencode_step
      ∷ install_wireguard_step ∷ enroll_step ∷ bring_tunnel_up_step ∷ write_opencode_config_step
      ∷ report_step ∷ []
