-- ===== src/Llama.antt =====
-- internal/llama: the release URL and the launch arguments of llama-server (llama.go).
pub mod Acquire
pub mod Unzip
use loca_agent.Base.{Text, lit, ℕ, List, [], ◌∷◌, ◌++◌, ◌==◌, ◌||◌, text_eq, nat_eq, if◌then◌else◌}
use loca_agent.Base.{ℤ, pos, itoa, is_positive, trim_right}
use loca_agent.Config.{Versions, windows_asset_name, Network, Model}

abbrev pub all_gpu_layers : ℤ
all_gpu_layers = pos 999

-- AssetURL
unfoldable pub asset_url : Versions → Text
asset_url v =
    let base = trim_right (λ c. c == b'/') v.download_base in
    if base == [] || v.release_tag == [] || v.windows_asset == []
    then []
    else base ++ (b'/' ∷ (v.release_tag ++ (b'/' ∷ windows_asset_name v)))

pub record ServerOptions : Type 0 where
  pub model_path : Text
  pub host : Text
  pub port : ℤ
  pub context_size : ℤ
  pub gpu_layers : ℤ
  pub alias : Text

-- OptionsFromConfig
unfoldable pub options_from_config : Network → Model → Text → ServerOptions
options_from_config net m model_path = record {
  model_path = model_path;
  host = net.inference.listen_address;
  port = net.inference.port;
  context_size = m.context_length;
  gpu_layers = all_gpu_layers;
  alias = m.id;
}

abbrev text_flag : Text → Text → List Text
text_flag flag value = if value == [] then [] else flag ∷ value ∷ []

abbrev int_flag : Text → ℤ → List Text
int_flag flag value = if is_positive value then flag ∷ itoa value ∷ [] else []

-- Args
unfoldable pub server_args : ServerOptions → List Text
server_args opt =
    (lit "-m" ∷ opt.model_path ∷ [])
    ++ (text_flag (lit "--host") opt.host
        ++ (int_flag (lit "--port") opt.port
            ++ (int_flag (lit "-c") opt.context_size
                ++ ((lit "-ngl" ∷ itoa opt.gpu_layers ∷ [])
                    ++ text_flag (lit "--alias") opt.alias))))
