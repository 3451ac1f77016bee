-- ===== src/Config.antt =====
-- internal/config: the schema (schema.go), the registry lookup, and the checks and defaults of load.go.
pub mod Load
use loca_agent.Base.{
  Text, lit, ℕ, List, [], ◌∷◌, ◌++◌, Option, none, some, ◌==◌, text_eq, if◌then◌else◌,
}
use loca_agent.Base.{ℤ, itoa, replace_all}

-- The fields of the nested structs LlamaCpp, WireGuard, OpenCode and Homebrew, in one record.
pub record Versions : Type 0 where
  pub release_tag : Text
  pub windows_asset : Text
  pub download_base : Text
  pub windows_installer_url : Text
  pub install_via : Text
  pub package_name : Text
  pub homebrew_install_url : Text

pub record ModelSource : Type 0 where
  pub base_url : Text
  pub file_url_template : Text

pub record ModelFile : Type 0 where
  pub name : Text
  pub sha256 : Text

pub record Model : Type 0 where
  pub id : Text
  pub name : Text
  pub repo : Text
  pub quant : Text
  pub files : List ModelFile
  pub context_length : ℤ
  pub min_vram_gb : ℤ
  pub recommended_vram_gb : ℤ
  pub notes : Text

pub record ModelRegistry : Type 0 where
  pub default_id : Text
  pub source : ModelSource
  pub models : List Model

pub record WireGuardNet : Type 0 where
  pub subnet : Text
  pub server_address : Text
  pub client_addresses : List Text
  pub listen_port : ℤ
  pub keepalive_seconds : ℤ

pub record InferenceNet : Type 0 where
  pub listen_address : Text
  pub port : ℤ
  pub path : Text
  pub scheme : Text

pub record Network : Type 0 where
  pub wireguard : WireGuardNet
  pub inference : InferenceNet

pub record Paths : Type 0 where
  pub install_dir : Text
  pub model_dir : Text
  pub config_dir : Text
  pub log_dir : Text

pub record Service : Type 0 where
  pub name : Text
  pub display_name : Text

pub record InstallerConfig : Type 0 where
  pub paths : Paths
  pub service : Service
  pub backend : Text
  pub service_supervisor : Text

pub record Config : Type 0 where
  pub versions : Versions
  pub models : ModelRegistry
  pub network : Network
  pub installer : InstallerConfig

-- Versions.WindowsAssetName
unfoldable pub windows_asset_name : Versions → Text
windows_asset_name v = replace_all v.windows_asset (lit "{tag}") v.release_tag

find_model : Text → List Model → Option Model
find_model id [] = none
find_model id (m ∷ ms) = if m.id == id then some m else find_model id ms

-- ModelRegistry.Find
unfoldable pub find : ModelRegistry → Text → Option Model
unfolding find_model
find r id = find_model id r.models

-- ModelRegistry.DefaultModel
unfoldable pub default_model : ModelRegistry → Option Model
default_model r = find r r.default_id

-- Network.EndpointURL
unfoldable pub endpoint_url : Network → Text
endpoint_url n =
    n.inference.scheme
    ++ (lit "://"
        ++ (n.wireguard.server_address ++ (b':' ∷ (itoa n.inference.port ++ n.inference.path))))
