-- ===== src/Model.antt =====
-- internal/model: resolving models and their URLs (model.go). Transfers are in the modules below.
pub mod Source
pub mod Verify
pub mod Download
use loca_agent.Base.{
  Text, lit, ℕ, List, [], ◌∷◌, ◌++◌, Option, none, some, Bool, true, false, ◌==◌, text_eq, nat_eq,
}
use loca_agent.Base.{if◌then◌else◌, map, quote, join, replace, trim_right, ltb}
use loca_agent.Errs.{Error, user}
use loca_agent.Effect.{Result, ok, err}
use loca_agent.Config.{Model, ModelRegistry, ModelSource, ModelFile, find}

-- Go's `<=` on strings
text_le : Text → Text → Bool
text_le [] t = true
text_le (c ∷ s) [] = false
text_le (c ∷ s) (d ∷ t) = if c == d then text_le s t else ltb c d

insert_sorted : Text → List Text → List Text
insert_sorted x [] = x ∷ []
insert_sorted x (y ∷ ys) = if text_le x y then x ∷ y ∷ ys else y ∷ insert_sorted x ys

-- sort.Strings
unfoldable pub sort_strings : List Text → List Text
unfolding insert_sorted text_le
sort_strings [] = []
sort_strings (x ∷ xs) = insert_sorted x (sort_strings xs)

-- availableIDs
unfoldable pub available_ids : ModelRegistry → List Text
available_ids reg = sort_strings (map (λ (m : Model). m.id) reg.models)

-- Resolve
unfoldable pub resolve : ModelRegistry → Text → Result Model
resolve reg id =
    let wanted = if id == [] then reg.default_id else id in
    elim (find reg wanted) [
      | some m ↦ ok m
      | none ↦ err (
          user (lit "model_unknown")
            (lit "model " ++ (quote wanted ++ lit " is not in the registry"))
            (lit "Choose one of: " ++ join (available_ids reg) (lit ", ")))
    ]

-- FileURL
unfoldable pub file_url : ModelSource → Model → ModelFile → Text
file_url src m f =
    replace
      ((lit "{base}", trim_right (λ c. c == b'/') src.base_url)
        ∷ (lit "{repo}", m.repo)
        ∷ (lit "{file}", f.name)
        ∷ [])
      src.file_url_template
