-- ===== src/Command/Install.antt =====
-- internal/command/install/install.go: the role, the collaborators of a plan, and the run.
pub mod Unattended
use loca_agent.Base.{
  Text, lit, ℕ, List, [], ◌∷◌, ◌++◌, Option, none, some, Bool, true, false, ◌==◌, ◌||◌, text_eq,
  not, ℤ,
}
use loca_agent.Base.{if◌then◌else◌, itoa, is_some}
use loca_agent.Errs.{Error, user}
use loca_agent.Effect.{Result, ok, err, check, Action}
use loca_agent.Sys.{Os, Runner, exec_run, with_sudo}
use loca_agent.Sys.Privilege.{is_root, is_administrator}
use loca_agent.Filepath.{join_path}
use loca_agent.Config.{Config}
use loca_agent.Platform.Detect.{Build, linux, darwin, windows, detect}
use loca_agent.Model.Source.{Client, http_source}
use loca_agent.Model.Download.{Fetcher, download}
use loca_agent.Llama.Unzip.{Entry}
use loca_agent.Llama.Acquire.{acquire}
use loca_agent.Wireguard.{ServerPeer}
use loca_agent.Wireguard.Token.{Codec}
use loca_agent.WgTunnel.Controller.{TunnelPlatform, new_platform}
use loca_agent.WgTunnel.PeerStore
use loca_agent.Service
use loca_agent.Service.{nssm_path}
use loca_agent.Installer.{
  MachineKind, mac_client, windows_server, kind_text, parse_machine_kind, new_state,
}
use loca_agent.Installer.Session.{Session, Globals, Tunnel}
use loca_agent.Installer.Session.Controlled.{controller_tunnel}
use loca_agent.Installer.Engine.{Engine, Machine, run}
use loca_agent.Installer.Windows
use loca_agent.Installer.Windows.Steps
use loca_agent.Installer.Mac
use loca_agent.Ui.{Console, prompt, confirm}

-- The role that the host's system suggests, and the other one.
abbrev pub default_role : Bool → MachineKind
default_role on_windows = if on_windows then windows_server else mac_client

abbrev pub other_role : Bool → MachineKind
other_role on_windows = if on_windows then mac_client else windows_server

abbrev asked_role : Bool → Bool × Console → Result MachineKind × Console
asked_role on_windows (agreed, c) =
    (ok (if agreed then default_role on_windows else other_role on_windows), c)

-- resolveRole: the flag, or the role of the host's system, which the user may turn down.
unfoldable pub resolve_role : Bool → Bool → Text → Bool → Console → Result MachineKind × Console
resolve_role on_windows has_ui flag assume_yes c =
    if flag == []
    then if assume_yes || not has_ui
      then (ok (default_role on_windows), c)
      else asked_role on_windows (
          confirm
            (lit "Install this machine as the " ++ (kind_text (default_role on_windows) ++ lit "?"))
            true c)
    else (parse_machine_kind flag, c)

-- The flags of the command.
pub record Flags : Type 0 where
  pub role : Text
  pub token : Text
  pub endpoint : Text
  pub model : Text
  pub no_psk : Bool
  pub assume_yes : Bool

-- What the collaborators call: the HTTP client, SHA-256, zip archives, the peers' JSON, the user id,
-- opening a file, executables on the PATH, and facts on the host.
pub record Host (os : Os) : Type 0 where
  pub client : Client os.World
  pub sha256 : Text → Text
  pub open_zip : Text → os.World → Result (List Entry)
  pub peers_json : Codec (List ServerPeer)
  pub geteuid : os.World → ℤ
  pub try_open : Text → os.World → Option Error
  pub look_path : Text → os.World → Option Text
  pub on_windows : Bool
  pub build : Build
  pub goos : Text
  pub goarch : Text
  pub cpus : ℕ
  pub home : Option Text

-- sys.IsElevated, as it is built for the host
unfoldable pub is_elevated : {os : Os} → Host os → os.World → Bool
is_elevated h w = elim h.build [
  | linux ↦ is_root h.geteuid w
  | darwin ↦ is_root h.geteuid w
  | windows ↦ is_administrator h.try_open w
]

-- The endpoint or the token: the flag, an error with --yes, or the answer to a prompt.
abbrev pub required : Text → Bool → Error → Text → Text → Console → Result Text × Console
required flag assume_yes e question def c =
    if flag == []
    then if assume_yes
      then (err e, c)
      else (let (answer, c') = prompt question def c in (ok answer, c'))
    else (ok flag, c)

abbrev pub map_ok : {A B : Type 0} → (A → B) → Result A × Console → Result B × Console
map_ok f (ok a, c) = (ok (f a), c)
map_ok f (err e, c) = (err e, c)

module _ (os : Os) (g : Globals os) (h : Host os) (cfg : Config) (has_ui : Bool) where
  runner : Runner os.World
  runner = exec_run os

  -- HTTPSource, of which the callers use the error alone
  source : Fetcher os.World
  source = http_source os h.client

  tunnel_of : Runner os.World → Tunnel os.World
  tunnel_of run = controller_tunnel run (new_platform h.on_windows)

  windows_deps : Text → Text → Windows.Deps os.World
  unfolding runner source tunnel_of
  windows_deps endpoint model_id = record {
    cfg = cfg;
    has_ui = has_ui;
    runner = runner;
    elevated = some (is_elevated h);
    detect =
        some (λ w. let (si, w') = detect os runner h.build h.goos h.goarch h.cpus w in (ok si, w'));
    fetcher = source;
    llama = acquire os source h.open_zip g.walk_dir;
    models =
        λ src m dir w. let (r, w') = download h.sha256 os source src m dir w in (check r.1, w');
    service = record {
      install = Service.install runner (nssm_path (lit "nssm"));
      start = Service.start runner (nssm_path (lit "nssm"));
      stop = Service.stop runner (nssm_path (lit "nssm"));
      remove = Service.remove runner (nssm_path (lit "nssm"));
      status = Service.status runner (nssm_path (lit "nssm"));
    };
    tunnel = tunnel_of runner;
    peers =
        PeerStore.load os h.peers_json
          (join_path (cfg.installer.paths.config_dir ∷ lit "peers.json" ∷ []));
    endpoint = endpoint;
    model_id = model_id;
  }

  -- buildWindowsDeps
  unfoldable pub build_windows_deps :
      Text → Text → Bool → Console → Result (Windows.Deps os.World) × Console
  unfolding windows_deps
  build_windows_deps endpoint model_id assume_yes c =
      map_ok (λ e. windows_deps e model_id)
        (required endpoint assume_yes
          (user (lit "endpoint_required")
            (lit "--endpoint is required (the public host:port clients will dial)")
            (lit "Pass --endpoint your-host:51820, or omit --yes to be prompted."))
          (lit "Public endpoint clients will dial (host:port)")
          (lit "your-host:" ++ itoa cfg.network.wireguard.listen_port) c)

  mac_deps : Text → Text → Bool → Mac.Deps os.World
  unfolding runner tunnel_of
  mac_deps token model_id with_psk = record {
    cfg = cfg;
    has_ui = has_ui;
    runner = runner;
    elevated = some (is_elevated h);
    installed = some (λ bin w. is_some (h.look_path bin w));
    look_path = h.look_path;
    tunnel = tunnel_of (with_sudo runner);
    home = h.home;
    token = token;
    model_id = model_id;
    client_name = [];
    with_psk = with_psk;
    opencode_config_path = [];
  }

  -- buildMacDeps
  unfoldable pub build_mac_deps :
      Text → Text → Bool → Bool → Console → Result (Mac.Deps os.World) × Console
  unfolding mac_deps
  build_mac_deps token model_id with_psk assume_yes c =
      map_ok (λ t. mac_deps t model_id with_psk)
        (required token assume_yes
          (user (lit "token_required") (lit "--token is required on the client")
            (lit "Pass --token <token> printed by the Windows server install."))
          (lit "Paste the join token from the Windows server") [] c)

  -- How the command ends: its error, the console, and, where the engine ran, the state it left.
  pub record Ended : Type 0 where
    pub error : Option Error
    pub console : Console
    pub machine : Option (Machine (Session os.World))

  module _ (ctx : Session os.World → Option Error) (has_log : Bool) where
    engine : Engine
    engine = record { has_log = has_log; has_progress = true }

    start_machine : MachineKind → os.World → Machine (Session os.World)
    start_machine role w = record {
      sys = record { state = new_state role; world = w; printed = [] };
      events = [];
    }

    unfoldable pub windows_run : Result (Windows.Deps os.World) × Console → os.World → Ended
    unfolding engine start_machine
    windows_run (err e, c) w = record { error = some e; console = c; machine = none }
    windows_run (ok d, c) w =
        let (e, m) = run engine ctx (Steps.plan os g d) (start_machine windows_server w) in
        record { error = e; console = c; machine = some m }

    unfoldable pub mac_run : Result (Mac.Deps os.World) × Console → os.World → Ended
    unfolding engine start_machine
    mac_run (err e, c) w = record { error = some e; console = c; machine = none }
    mac_run (ok d, c) w =
        let (e, m) = run engine ctx (Mac.plan os g d) (start_machine mac_client w) in
        record { error = e; console = c; machine = some m }

    unfoldable pub role_run : Flags → Result MachineKind × Console → os.World → Ended
    unfolding windows_run mac_run
    role_run f (err e, c) w = record { error = some e; console = c; machine = none }
    role_run f (ok windows_server, c) w =
        windows_run (build_windows_deps f.endpoint f.model f.assume_yes c) w
    role_run f (ok mac_client, c) w =
        mac_run (build_mac_deps f.token f.model (not f.no_psk) f.assume_yes c) w

    -- The command. What it prints of the run is in `machine`: the reports, and what the steps print.
    unfoldable pub install : Flags → Console → os.World → Ended
    unfolding role_run
    install f c w = role_run f (resolve_role h.on_windows has_ui f.role f.assume_yes c) w
