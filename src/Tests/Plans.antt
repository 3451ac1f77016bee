-- ===== src/Tests/Plans.antt =====
-- The theorems of both plans on a machine of two switches: the tunnel and the firewall rule.
use loca_agent.Base.{
  lit, text_beq, Text, [], ◌∷◌, Option, none, some, Bool, true, false, ◌==◌, text_eq, if◌then◌else◌,
  length, ◌≡◌, refl, ◌⊎◌,
}
use loca_agent.Errs.{Error, plain}
use loca_agent.Effect.{pure, ok}
use loca_agent.Sys.{Runner, Os, Output, missing}
use loca_agent.WgTunnel.Unseen.{IsCalm}
use loca_agent.Wireguard.Token.{Codec}
use loca_agent.Service.{ServiceState}
use loca_agent.Installer.{windows_server, new_state}
use loca_agent.Base.{sym, ◌∙◌, pos}
use loca_agent.Base64.{encode, raw_url_encoding}
use loca_agent.Config.{Config}
use loca_agent.Wireguard.{JoinToken, EnrollmentReply}
use loca_agent.Tests.Tunnel.{server_text, client_text, subnet_text}
use loca_agent.Installer.Engine.{Engine, Machine, run}
use loca_agent.Installer.Session.{Session, Globals}
use loca_agent.Installer.Session.Undo.{both}
use loca_agent.Installer.Session.Controlled.{
  IsWireguard, controller_tunnel, controller_tunnel-IsTunnel,
}
use loca_agent.WgTunnel.Controller.{
  windows_platform, unix_platform, new_platform, up_command, down_command, status_command,
  is_active,
}
use loca_agent.Base.{contains, has_prefix, strip_prefix, to_upper, upper_byte, ◌||◌}
use loca_agent.Installer.Windows
use loca_agent.Installer.Windows.Unseen
use loca_agent.Installer.Windows.Restore.{IsFirewall, server_plan_restores}
use loca_agent.Installer.Mac
use loca_agent.Installer.Mac.Restore.{IsPackaged, client_plan_restores}
use loca_agent.Tests.Files.{config}
use loca_agent.Tests.Tunnel.{no_ip6}

abbrev Switches : Type 0
Switches = Bool × Bool

abbrev switches : Os
switches = record {
  World = Switches;
  stat = λ path w. none;
  create = λ path perm w. (none, w);
  open_append = λ path w. (none, w);
  write = λ path text w. ((length text, none), w);
  read_file = λ path w. missing (plain []);
  write_file = λ path text perm w. (none, w);
  mkdir_all = λ path perm w. (none, w);
  process = λ name args w. (record { stdout = []; stderr = []; failure = none }, w);
  random = λ n w. (ok [], w);
}

abbrev on : Switches → Bool
on w = w.0

abbrev rule : Switches → Bool
rule w = w.1

abbrev seen : Switches → Switches
seen = both on rule

abbrev silent : Option Error → Output
silent e = record { stdout = []; error = e }

abbrev show : Bool → Option Error
show true = none
show false = some (plain [])

-- The tunnel's state, as the commands of both systems show it.
abbrev status : Bool → Output
status true = record { stdout = lit "RUNNING"; error = none }
status false = silent (some (plain []))

abbrev wireguard : Text → Switches → Output × Switches
wireguard verb w =
    if verb == lit "/installtunnelservice" || verb == lit "up"
    then (silent none, (true, w.1))
    else if verb == lit "/uninstalltunnelservice" || verb == lit "down"
    then (silent none, (false, w.1))
    else (status w.0, w)

abbrev netsh : Text → Switches → Output × Switches
netsh verb w =
    if verb == lit "add"
    then (silent none, (w.0, true))
    else if verb == lit "delete"
    then (silent none, (w.0, false))
    else (silent (show w.1), w)

-- Commands are told apart by their arguments.
abbrev machine : Runner Switches
machine bin [] w = (silent none, w)
machine bin (a ∷ []) w = (silent none, w)
machine bin (verb ∷ b ∷ []) w = wireguard verb w
machine bin (a ∷ b ∷ verb ∷ rest) w = netsh verb w

status-windows : (exe : Text) (b : Bool) → is_active (windows_platform exe) (status b) ≡ b
unfolding is_active contains has_prefix strip_prefix to_upper upper_byte lit text_beq
status-windows exe true = refl
status-windows exe false = refl

status-unix : (quick wg : Text) (b : Bool) → is_active (unix_platform quick wg) (status b) ≡ b
unfolding is_active
status-unix quick wg true = refl
status-unix quick wg false = refl

windows-IsWireguard :
    (iface conf : Text) → IsWireguard machine (new_platform true) iface conf on rule
unfolding new_platform up_command down_command status_command text_beq lit
windows-IsWireguard iface conf = record {
  shown = λ w q. sym (status-windows (lit "wireguard") w.0) ∙ q;
  showing = λ w. refl;
  upped = λ w h. refl;
  refused = λ w e h. absurd cc;
  downed = λ w. refl;
}

unix-IsWireguard : (iface conf : Text) → IsWireguard machine (new_platform false) iface conf on rule
unfolding new_platform up_command down_command status_command text_beq lit
unix-IsWireguard iface conf = record {
  shown = λ w q. sym (status-unix (lit "wg-quick") (lit "wg") w.0) ∙ q;
  showing = λ w. refl;
  upped = λ w h. refl;
  refused = λ w e h. absurd cc;
  downed = λ w. refl;
}

switches-IsCalm : IsCalm switches seen
switches-IsCalm = record { made = λ p perm w. refl; wrote = λ p b perm w. refl; drew = λ n w. refl }

abbrev any_json : {A : Type 0} → A → Codec A
any_json v = record { marshal = λ _. ok (123 ∷ 125 ∷ []); unmarshal = λ _. ok v }

abbrev joined : JoinToken
joined = record {
  version = pos 1;
  server_public_key = 113 ∷ [];
  server_address = server_text;
  endpoint = [];
  subnet = subnet_text;
  client_address = client_text;
  listen_port = pos 51820;
  keepalive = pos 25;
}

abbrev replied : EnrollmentReply
replied = record {
  version = pos 1;
  name = [];
  client_public_key = [];
  client_address = client_text;
  preshared_key = [];
}

abbrev networked : Config
networked = record config {
  network = record config.network {
    wireguard = record config.network.wireguard {
      subnet = subnet_text;
      server_address = server_text;
    };
  };
}

abbrev globals : Globals switches
globals = record {
  v6 = no_ip6;
  public = λ k. k;
  token_json = any_json joined;
  reply_json = any_json replied;
  order = [];
  walk_dir = λ path w. [];
  program_files = [];
  temp_dir = [];
}

abbrev server_deps : Windows.Deps Switches
server_deps = record {
  cfg = networked;
  has_ui = true;
  runner = machine;
  elevated = none;
  detect = none;
  fetcher = λ url dst w. (none, w);
  llama = λ v dir. pure [];
  models = λ src m dir. pure tt;
  service = record {
    install = λ spec. pure tt;
    start = λ name. pure tt;
    stop = λ name. pure tt;
    remove = λ name. pure tt;
    status = λ name. pure ServiceState.stopped;
  };
  tunnel = controller_tunnel machine (new_platform true);
  peers = pure [];
  endpoint = [];
  model_id = [];
}

shown_rule : (r : Bool) → Windows.Actions.succeeded (show r) ≡ r
shown_rule true = refl
shown_rule false = refl

machine-IsFirewall : IsFirewall switches server_deps on rule
unfolding Windows.show_rule_args Windows.add_rule_args Windows.delete_rule_args text_beq lit
machine-IsFirewall = record {
  shown = λ w q. sym (shown_rule w.1) ∙ q;
  showing = λ w. refl;
  added = λ w h. refl;
  refused = λ w e h. absurd cc;
  deleted = λ w. refl;
}

server_deps-IsApart : Windows.Unseen.IsApart switches server_deps seen
server_deps-IsApart = record {
  detecting = λ detect h. absurd cc;
  fetching = λ url dst w. refl;
  setting_up = λ bin w. refl;
  acquiring = λ v dir w. refl;
  downloading = λ src m dir w. refl;
  loading = λ w. refl;
  installing = λ spec w. refl;
  starting = λ name w. refl;
  removing = λ name w. refl;
  asking = λ name w. refl;
}

abbrev watched : Engine
watched = record { has_log = true; has_progress = true }

-- The user cancels when the firewall rule has been added.
abbrev cancelled : Session Switches → Option Error
cancelled s = if s.world.1 then some (plain []) else none

abbrev never : Session Switches → Option Error
never _ = none

abbrev initial : Machine (Session Switches)
initial = record {
  sys = record { state = new_state windows_server; world = (false, false); printed = [] };
  events = [];
}

-- The run turns on the tunnel and the rule, is cancelled in front of the report, and turns both off.
server_plan_restores_example :
    let out = run watched cancelled (Windows.Steps.plan switches globals server_deps) initial in
    (out.0 ≡ none) ⊎ (both on rule out.1.sys.world ≡ both on rule initial.sys.world)
server_plan_restores_example =
    server_plan_restores switches globals server_deps on rule machine-IsFirewall
      (controller_tunnel-IsTunnel machine (new_platform true) _ _ on rule (windows-IsWireguard _ _))
      switches-IsCalm server_deps-IsApart watched cancelled initial

-- A client with a token, and with a model that the registry does not have.
abbrev client_deps : Mac.Deps Switches
client_deps = record {
  cfg = networked;
  has_ui = true;
  runner = λ bin args w. (silent none, w);
  elevated = none;
  installed = none;
  look_path = λ bin w. none;
  tunnel = controller_tunnel machine (new_platform false);
  home = none;
  token = encode raw_url_encoding (123 ∷ 125 ∷ []);
  model_id = 120 ∷ [];
  client_name = [];
  with_psk = true;
  opencode_config_path = [];
}

client_deps-IsPackaged : IsPackaged switches client_deps seen
client_deps-IsPackaged = record {
  brewing = λ args w. refl;
  shelling = λ args w. refl;
  noding = λ args w. refl;
}

-- The run brings the tunnel up, fails on the unknown model, and brings the tunnel down.
client_plan_restores_example :
    let out = run watched never (Mac.plan switches globals client_deps) initial in
    (out.0 ≡ none) ⊎ (both on rule out.1.sys.world ≡ both on rule initial.sys.world)
client_plan_restores_example =
    client_plan_restores switches globals client_deps on rule
      (controller_tunnel-IsTunnel machine (new_platform false) _ _ on rule (unix-IsWireguard _ _))
      switches-IsCalm client_deps-IsPackaged watched never initial
