-- ===== src/OpenCode/Accepted.antt =====
-- The config file of internal/opencode, read back as JSON.
use loca_agent.Base.{Text, lit, List, [], ◌∷◌, ◌++◌, some, ◌≡◌, refl}
use loca_agent.Json.{json_string}
use loca_agent.Json.Read.{
  Json, string, object, member, no_members, Token, text, left_brace, right_brace, colon, comma,
  outside, put, tokens_from, members, read_json,
}
use loca_agent.Json.Runes.{to_valid}
use loca_agent.Json.Strings.{read-json_string}
use loca_agent.OpenCode.{Params, render}

abbrev one : Text → Json → Json
one key v = object (member key v no_members)

-- What OpenCode is to find in the file.
unfoldable pub config_tree : Params → Json
config_tree p = object (
    member (lit "$schema") (string (lit "https://opencode.ai/config.json")) (
      member (lit "provider")
        (one (to_valid p.provider_id) (
          object (
            member (lit "npm") (string (to_valid p.npm_package)) (
              member (lit "name") (string (to_valid p.provider_name)) (
                member (lit "options") (one (lit "baseURL") (string (to_valid p.base_url))) (
                  member (lit "models")
                    (one (to_valid p.model_id) (one (lit "name") (string (to_valid p.model_name))))
                    no_members))))))
        no_members))

tokens-json_string :
    (s r : Text)
    → tokens_from outside [] (json_string s ++ r)
      ≡ put (text (to_valid s)) (tokens_from outside [] r)
tokens-json_string s r = read-json_string r [] s

written : Params → List Token
written p =
    left_brace
    ∷ text (lit "$schema")
    ∷ colon
    ∷ text (lit "https://opencode.ai/config.json")
    ∷ comma
    ∷ text (lit "provider")
    ∷ colon
    ∷ left_brace
    ∷ text (to_valid p.provider_id)
    ∷ colon
    ∷ left_brace
    ∷ text (lit "npm")
    ∷ colon
    ∷ text (to_valid p.npm_package)
    ∷ comma
    ∷ text (lit "name")
    ∷ colon
    ∷ text (to_valid p.provider_name)
    ∷ comma
    ∷ text (lit "options")
    ∷ colon
    ∷ left_brace
    ∷ text (lit "baseURL")
    ∷ colon
    ∷ text (to_valid p.base_url)
    ∷ right_brace
    ∷ comma
    ∷ text (lit "models")
    ∷ colon
    ∷ left_brace
    ∷ text (to_valid p.model_id)
    ∷ colon
    ∷ left_brace
    ∷ text (lit "name")
    ∷ colon
    ∷ text (to_valid p.model_name)
    ∷ right_brace
    ∷ right_brace
    ∷ right_brace
    ∷ right_brace
    ∷ right_brace
    ∷ []

tokens-render : (p : Params) → tokens_from outside [] (render p) ≡ some (written p)
unfolding lit render tokens_from written
tokens-render p =
    rw
      (
        tokens-json_string p.provider_id,
        tokens-json_string p.npm_package,
        tokens-json_string p.provider_name,
        tokens-json_string p.base_url,
        tokens-json_string p.model_id,
        tokens-json_string p.model_name,
      )
      refl

-- The config file is valid JSON whatever its parameters are, and holds them, with the replacement
-- character for each byte that is not part of valid UTF-8.
pub read_json-render : (p : Params) → read_json (render p) ≡ some (config_tree p)
unfolding lit read_json members config_tree written
read_json-render p = rw (tokens-render p, read_json) refl
