-- ===== src/OpenCode.antt =====
-- internal/opencode: the client's config file, of templates/opencode/opencode.json.tmpl.
pub mod Accepted
use loca_agent.Base.{Text, lit, [], ◌++◌}
use loca_agent.Errs.{wrapped}
use loca_agent.Effect.{Action, or_fail, ◌>>◌}
use loca_agent.Sys.{Os}
use loca_agent.Filepath.{dir_name}
use loca_agent.Config.{Config, Model, endpoint_url}
use loca_agent.WgTunnel.{mkdir_all, write_file}
use loca_agent.Json.{json_string}

pub record Params : Type 0 where
  pub provider_id : Text
  pub provider_name : Text
  pub npm_package : Text
  pub base_url : Text
  pub model_id : Text
  pub model_name : Text

-- FromConfig
unfoldable pub from_config : Config → Model → Params
from_config cfg m = record {
  provider_id = lit "llama-local";
  provider_name = lit "Local llama.cpp (bootstrap-ai)";
  npm_package = lit "@ai-sdk/openai-compatible";
  base_url = endpoint_url cfg.network;
  model_id = m.id;
  model_name = m.name;
}

-- Render: the template parses, and encoding a string does not fail.
unfoldable pub render : Params → Text
render p =
    lit "{\n  \"$schema\": \"https://opencode.ai/config.json\",\n  \"provider\": {\n    "
    ++ (json_string p.provider_id
        ++ (lit ": {\n      \"npm\": "
            ++ (json_string p.npm_package
                ++ (lit ",\n      \"name\": "
                    ++ (json_string p.provider_name
                        ++ (lit ",\n      \"options\": {\n        \"baseURL\": "
                            ++ (json_string p.base_url
                                ++ (lit "\n      },\n      \"models\": {\n        "
                                    ++ (json_string p.model_id
                                        ++ (lit ": {\n          \"name\": "
                                            ++ (json_string p.model_name
                                                ++ lit
                                                    "\n        }\n      }\n    }\n  }\n}\n")))))))))))

-- Write
unfoldable pub write : (os : Os) → Text → Params → Action os.World (Unit {0})
unfolding mkdir_all write_file
write os path p = do
  or_fail (mkdir_all os (dir_name path) 0o755)
      (λ e. wrapped (lit "create opencode config directory: ") e [])
  write_file os path (render p) 0o644
