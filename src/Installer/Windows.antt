-- ===== src/Installer/Windows.antt =====
-- internal/installer/windows: the plan of the Windows AI server (windows.go, helpers.go, firewall.go).

pub mod Actions
pub mod Steps
pub mod Unseen
pub mod Restore
use loca_agent.Base.{
  Text, lit, List, [], ◌∷◌, ◌++◌, Option, Bool, ◌==◌, text_eq, if◌then◌else◌, ℤ, itoa,
}
use loca_agent.Effect.{Result, Action}
use loca_agent.Sys.{Os, Runner, Output}
use loca_agent.Platform.{SystemInfo}
use loca_agent.Filepath.{join_path}
use loca_agent.Config.{Config, Versions, Model, ModelSource}
use loca_agent.Wireguard.{ServerPeer}
use loca_agent.Model.Download.{Fetcher}
use loca_agent.Service.{Spec, ServiceState}
use loca_agent.Installer.Session.{Tunnel}

abbrev pub iface_name : Text
iface_name = lit "wg0"

-- The interface service.Manager
pub record Manager (W : Type 0) : Type 0 where
  pub install : Spec → Action W (Unit {0})
  pub start : Text → Action W (Unit {0})
  pub stop : Text → Action W (Unit {0})
  pub remove : Text → Action W (Unit {0})
  pub status : Text → Action W ServiceState

-- Deps. A nil function is `none`; the logger's output is not modelled.
pub record Deps (W : Type 0) : Type 0 where
  pub cfg : Config
  pub has_ui : Bool
  pub runner : Runner W
  pub elevated : Option (W → Bool)
  pub detect : Option (Action W SystemInfo)
  pub fetcher : Fetcher W
  pub llama : Versions → Text → Action W Text
  pub models : ModelSource → Model → Text → Action W (Unit {0})
  pub service : Manager W
  pub tunnel : Tunnel W
  pub peers : Action W (List ServerPeer)
  pub endpoint : Text
  pub model_id : Text

pub record Layout : Type 0 where
  pub install : Text
  pub model : Text
  pub config : Text
  pub log : Text
  pub server_conf : Text
  pub server_key : Text
  pub llama_dir : Text

-- Deps.layout
unfoldable pub layout : {W : Type 0} → Deps W → Layout
layout d =
    let p = d.cfg.installer.paths in
    record {
      install = p.install_dir;
      model = p.model_dir;
      config = p.config_dir;
      log = p.log_dir;
      server_conf = join_path (p.config_dir ∷ (iface_name ++ lit ".conf") ∷ []);
      server_key = join_path (p.config_dir ∷ lit "server.key" ∷ []);
      llama_dir = join_path (p.install_dir ∷ lit "llama.cpp" ∷ []);
    }

-- wireguardExePath, from the variable ProgramFiles
unfoldable pub wireguard_exe_path : Text → Text
wireguard_exe_path program_files = join_path (
    (if program_files == [] then lit "C:\\Program Files" else program_files)
    ∷ lit "WireGuard"
    ∷ lit "wireguard.exe"
    ∷ [])

abbrev pub firewall_rule_name : Text
firewall_rule_name = lit "bootstrap-ai WireGuard"

-- addRuleArgs
unfoldable pub add_rule_args : Text → ℤ → List Text
add_rule_args name port =
    lit "advfirewall"
    ∷ lit "firewall"
    ∷ lit "add"
    ∷ lit "rule"
    ∷ (lit "name=" ++ name)
    ∷ lit "dir=in"
    ∷ lit "action=allow"
    ∷ lit "protocol=UDP"
    ∷ (lit "localport=" ++ itoa port)
    ∷ []

-- showRuleArgs
unfoldable pub show_rule_args : Text → List Text
show_rule_args name =
    lit "advfirewall" ∷ lit "firewall" ∷ lit "show" ∷ lit "rule" ∷ (lit "name=" ++ name) ∷ []

-- deleteRuleArgs
unfoldable pub delete_rule_args : Text → List Text
delete_rule_args name =
    lit "advfirewall" ∷ lit "firewall" ∷ lit "delete" ∷ lit "rule" ∷ (lit "name=" ++ name) ∷ []
