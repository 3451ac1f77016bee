-- ===== src/Tests/Files.antt =====
-- The theorems on configs, downloads, archives and services at concrete inputs.
use loca_agent.Base.{quote, quote_byte, quote_bytes}
use loca_agent.Base.{map, Text, lit, List, [], ◌∷◌, ◌++◌, none, some, true, false}
use loca_agent.Json.Read.{read_json}
use loca_agent.OpenCode.{from_config, render}
use loca_agent.OpenCode.Accepted.{config_tree, read_json-render}
use loca_agent.Base.{
  ◌≡◌, ◌↔◌, refl, pos, text_beq, int_beq, to_lower, length, All, has_prefix, split, join,
}
use loca_agent.Effect.{ok}
use loca_agent.Sys.{Os, Output, Command, contents}
use loca_agent.Filepath.{clean, join_path}
use loca_agent.Config.{default_model, find, Config, Model, ModelSource}
use loca_agent.Config.Load.{Host, resolve_defaults, validate, load}
use loca_agent.Config.Load.Checked.{IsUsable, IsFilled, merged, validate-IsUsable, load-IsUsable}
use loca_agent.Service.{Spec, install}
use loca_agent.Service.Commands.{
  recording, until_failure, wanted, set_of, create_of, install-until_failure,
}
use loca_agent.Model.Download.{Fetcher}
use loca_agent.Llama.Acquire.{Visit, rank, visit_file, walk, find_server_binary}
use loca_agent.Llama.Acquire.Binary.{IsBest, find_server_binary-IsBest}
use loca_agent.Llama.Unzip.{Entry, unzip, target_of}
use loca_agent.Llama.Unzip.ZipSlip.{Within, unzip-Keeps}

abbrev host : Host
host = record {
  is_windows = false;
  program_data = [];
  home = some (47 ∷ 104 ∷ []);
  user_config_dir = none;
}

abbrev pub model : Model
model = record {
  id = 109 ∷ [];
  name = [];
  repo = 114 ∷ [];
  quant = [];
  files = record { name = 97 ∷ []; sha256 = [] } ∷ record { name = 98 ∷ []; sha256 = 48 ∷ [] } ∷ [];
  context_length = pos 0;
  min_vram_gb = pos 0;
  recommended_vram_gb = pos 0;
  notes = [];
}

abbrev pub config : Config
config = record {
  versions = record {
    release_tag = [];
    windows_asset = [];
    download_base = [];
    windows_installer_url = [];
    install_via = [];
    package_name = [];
    homebrew_install_url = [];
  };
  models = record {
    default_id = 109 ∷ [];
    source = record { base_url = []; file_url_template = [] };
    models = model ∷ [];
  };
  network = record {
    wireguard = record {
      subnet = [];
      server_address = 49 ∷ [];
      client_addresses = [];
      listen_port = pos 0;
      keepalive_seconds = pos 0;
    };
    inference = record { listen_address = []; port = pos 8080; path = []; scheme = [] };
  };
  installer = record {
    paths = record { install_dir = []; model_dir = []; config_dir = []; log_dir = [] };
    service = record { name = []; display_name = [] };
    backend = [];
    service_supervisor = [];
  };
}

validate-IsUsable_example : (validate config ≡ ok tt) ↔ IsUsable config
validate-IsUsable_example = validate-IsUsable config

load-IsUsable_example :
    IsUsable (resolve_defaults host config)
    × ((given : Config) × (merged (λ d text c. ok config) (λ d. ok []) (λ d. none) [] config
          ≡ ok given)
        × IsFilled host given (resolve_defaults host config))
unfolding load validate default_model text_beq int_beq resolve_defaults find
load-IsUsable_example =
    load-IsUsable (λ d text c. ok config) host (λ d. ok []) (λ d. none) [] config
      (resolve_defaults host config) refl

abbrev spec : Spec
spec = record {
  name = 115 ∷ [];
  display_name = 100 ∷ [];
  executable = 101 ∷ [];
  args = [];
  working_dir = 119 ∷ [];
  env = [];
  stdout = [];
  stderr = 108 ∷ [];
  auto_start = true;
}

abbrev always_good : Command → Output
always_good c = record { stdout = []; error = none }

install-until_failure_example :
    (install (recording always_good) (lit "nssm") spec []).1
    ≡ []
      ++ until_failure always_good
          (create_of (lit "nssm") spec ∷ map (set_of (lit "nssm") spec.name) (wanted spec))
install-until_failure_example = install-until_failure always_good (lit "nssm") spec []

-- A system that lists the files opened, and whose files all read as empty.
abbrev listing : Os
listing = record {
  World = List Text;
  stat = λ path w. none;
  create = λ path perm w. (none, path ∷ w);
  open_append = λ path w. (none, w);
  write = λ path text w. ((length text, none), w);
  read_file = λ path w. contents [];
  write_file = λ path text perm w. (none, w);
  mkdir_all = λ path perm w. (none, w);
  process = λ name args w. (record { stdout = []; stderr = []; failure = none }, w);
  random = λ n w. (ok [], w);
}

abbrev hub : ModelSource
hub = record { base_url = []; file_url_template = [] }

abbrev fetch_nothing : Fetcher (List Text)
fetch_nothing url dst w = (none, w)

-- `/d/server`
abbrev server_path : Text
server_path = 47 ∷ 100 ∷ 47 ∷ 115 ∷ 101 ∷ 114 ∷ 118 ∷ 101 ∷ 114 ∷ []

abbrev visits : List Visit
visits =
    record { path = 47 ∷ 100 ∷ []; name = 100 ∷ []; is_dir = true; problem = none }
    ∷ record {
      path = server_path;
      name = 115 ∷ 101 ∷ 114 ∷ 118 ∷ 101 ∷ 114 ∷ [];
      is_dir = false;
      problem = none;
    }
    ∷ []

find_server_binary-IsBest_example : IsBest visits server_path
unfolding find_server_binary rank text_beq lit to_lower visit_file walk
find_server_binary-IsBest_example = find_server_binary-IsBest visits server_path refl

abbrev entry : Entry
entry = record {
  name = 120 ∷ [];
  is_dir = false;
  perm = 0;
  opened = none;
  body = 1 ∷ [];
  broken = none;
}

-- `/d`
abbrev dest : Text
dest = 47 ∷ 100 ∷ []

unzip-Keeps_example :
    All (λ path. Within (clean dest) path) (unzip listing (λ path w. ok (entry ∷ [])) [] dest []).1
unzip-Keeps_example =
    unzip-Keeps listing (λ w. All (λ path. Within (clean dest) path) w) dest refl
      (λ path perm w i. i)
      (λ path h. record { creating = λ perm w i. (h, i); writing = λ text w i. i })
      (λ path w. ok (entry ∷ [])) [] [] tt

-- Below the destination `..`, the entry `../x` is accepted as `../../x`.
target_of-dot_dot :
    target_of (46 ∷ 46 ∷ []) (46 ∷ 46 ∷ 47 ∷ 120 ∷ []) ≡ ok (46 ∷ 46 ∷ 47 ∷ 46 ∷ 46 ∷ 47 ∷ 120 ∷ [])
unfolding target_of join_path text_beq has_prefix split join
target_of-dot_dot = refl

-- A name with a quote, a backslash and a byte that is not part of UTF-8.
read_json-render_example :
    read_json (render (record (from_config config model) { model_name = 34 ∷ 92 ∷ 255 ∷ [] }))
    ≡ some (config_tree (record (from_config config model) { model_name = 34 ∷ 92 ∷ 255 ∷ [] }))
read_json-render_example =
    read_json-render (record (from_config config model) { model_name = 34 ∷ 92 ∷ 255 ∷ [] })

-- A letter, a quote, a line break and a zero byte under %q.
quoted_text :
    quote (97 ∷ 34 ∷ 10 ∷ 0 ∷ []) ≡ 34 ∷ 97 ∷ 92 ∷ 34 ∷ 92 ∷ 110 ∷ 92 ∷ 120 ∷ 48 ∷ 48 ∷ 34 ∷ []
unfolding quote quote_byte quote_bytes
quoted_text = refl
