-- ===== src/Config/Load.antt =====
-- internal/config/load.go: merging overrides, filling in defaults, and validation.
pub mod Checked
use loca_agent.Base.{
  Text, lit, List, [], ◌∷◌, ◌++◌, Option, none, some, Bool, ◌==◌, text_eq, int_eq,
}
use loca_agent.Base.{if◌then◌else◌, pos, quote, is_some}
use loca_agent.Errs.{user, user_wrap}
use loca_agent.Effect.{Result, ok, err, and_then, map_error}
use loca_agent.Filepath.{join_path}
use loca_agent.Config.{Config, ModelSource, Paths, default_model}

-- What `defaultInstallDir` and `DefaultUserDir` read from the host: the system, the variable
-- ProgramData, the home directory and the user's config directory, where they are known.
pub record Host : Type 0 where
  pub is_windows : Bool
  pub program_data : Text
  pub home : Option Text
  pub user_config_dir : Option Text

-- DefaultUserDir
unfoldable pub default_user_dir : Host → Text
default_user_dir h = elim h.user_config_dir [
  | none ↦ []
  | some dir ↦ join_path (dir ∷ lit "bootstrap-ai" ∷ [])
]

-- defaultInstallDir
unfoldable pub default_install_dir : Host → Text
default_install_dir h =
    if h.is_windows
    then if h.program_data == []
      then lit "C:\\ProgramData\\bootstrap-ai"
      else join_path (h.program_data ∷ lit "bootstrap-ai" ∷ [])
    else elim h.home [
      | some home ↦ join_path (home ∷ lit ".bootstrap-ai" ∷ [])
      | none ↦ lit "/opt/bootstrap-ai"
    ]

-- `if field == "" { field = value }`
abbrev or_default : Text → Text → Text
or_default field value = if field == [] then value else field

resolve_paths : Host → Paths → Paths
unfolding default_install_dir default_user_dir
resolve_paths h p =
    let install = or_default p.install_dir (default_install_dir h) in
    record {
      install_dir = install;
      model_dir = or_default p.model_dir (join_path (install ∷ lit "models" ∷ []));
      config_dir = or_default p.config_dir (default_user_dir h);
      log_dir = or_default p.log_dir (join_path (install ∷ lit "logs" ∷ []));
    }

resolve_source : ModelSource → ModelSource
resolve_source s = record {
  base_url = or_default s.base_url (lit "https://huggingface.co");
  file_url_template = or_default s.file_url_template (lit "{base}/{repo}/resolve/main/{file}");
}

-- Config.resolveDefaults
unfoldable pub resolve_defaults : Host → Config → Config
unfolding resolve_paths resolve_source
resolve_defaults h c = record {
  versions = record c.versions {
    homebrew_install_url =
        or_default c.versions.homebrew_install_url
          (lit "https://raw.githubusercontent.com/Homebrew/install/HEAD/install.sh");
  };
  models = record c.models { source = resolve_source c.models.source };
  network = c.network;
  installer = record c.installer { paths = resolve_paths h c.installer.paths };
}

abbrev invalid : Text → Text → Result (Unit {0})
invalid message fix = err (user (lit "config_invalid") message fix)

-- Config.Validate
unfoldable pub validate : Config → Result (Unit {0})
validate c =
    if c.models.default_id == []
    then invalid (lit "models.yaml has no default model")
        (lit "Set `default:` to one of the model ids in models.yaml.")
    else if is_some (default_model c.models)
    then if c.network.wireguard.server_address == []
      then invalid (lit "network.yaml is missing wireguard.server_address")
          (lit "Set a tunnel address such as 10.50.0.1.")
      else if c.network.inference.port == pos 0
      then invalid (lit "network.yaml is missing inference.port")
          (lit "Set the llama.cpp server port, e.g. 8080.")
      else ok tt
    else invalid
        (lit "default model "
          ++ (quote c.models.default_id ++ lit " is not defined in models.yaml"))
        (lit "Add a matching model entry or fix the `default:` value.")

-- The four files, in the order of `domains`.
pub data Domain : Type 0 where
  versions_file models_file network_file installer_file : Domain

abbrev pub domains : List Domain
domains = versions_file ∷ models_file ∷ network_file ∷ installer_file ∷ []

abbrev pub domain_file : Domain → Text
domain_file versions_file = lit "versions.yaml"
domain_file models_file = lit "models.yaml"
domain_file network_file = lit "network.yaml"
domain_file installer_file = lit "installer.yaml"

-- yaml.Unmarshal of a text onto the part of a Config that a domain names: a parameter of the model.
abbrev pub Yaml : Type 0
Yaml = Domain → Text → Config → Result Config

module _ (yaml : Yaml) where
  -- The first loop of Load: the embedded file of every domain.
  unfoldable pub load_defaults : (Domain → Result Text) → List Domain → Config → Result Config
  load_defaults embedded [] c = ok c
  load_defaults embedded (d ∷ ds) c =
      and_then
        (map_error
          (λ e.
            user_wrap e (lit "config_defaults")
              (lit "failed to read built-in defaults for " ++ domain_file d)
              (lit "This indicates a corrupt build. Reinstall bootstrap-ai."))
          (and_then (embedded d) (λ text. yaml d text c)))
        (λ c'. load_defaults embedded ds c')

  -- The second loop: `overrides d` is `none` where os.Stat finds no file.
  unfoldable pub load_overrides :
      Text → (Domain → Option (Result Text)) → List Domain → Config → Result Config
  load_overrides dir overrides [] c = ok c
  load_overrides dir overrides (d ∷ ds) c = elim (overrides d) [
    | none ↦ load_overrides dir overrides ds c
    | some file ↦
        and_then
          (map_error
            (λ e.
              user_wrap e (lit "config_override")
                (lit "failed to parse override " ++ join_path (dir ∷ domain_file d ∷ []))
                (lit "Check the file for YAML syntax errors."))
            (and_then file (λ text. yaml d text c)))
          (λ c'. load_overrides dir overrides ds c')
  ]

  -- Load, from the zero Config `empty`
  unfoldable pub load :
      Host
      → (Domain → Result Text)
      → (Domain → Option (Result Text))
      → Text
      → Config
      → Result Config
  unfolding load_defaults load_overrides
  load h embedded overrides user_dir empty =
      and_then (load_defaults embedded domains empty) (λ base.
        and_then
          (if user_dir == [] then ok base else load_overrides user_dir overrides domains base)
          (λ merged. let c = resolve_defaults h merged in and_then (validate c) (λ _. ok c)))
