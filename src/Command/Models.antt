-- ===== src/Command/Models.antt =====
-- internal/command/models/models.go: the listing of the registry.
use loca_agent.Base.{
  Text, lit, ℕ, zero, suc, ◌-◌, List, [], ◌∷◌, ◌++◌, ◌==◌, text_eq, if◌then◌else◌,
}
use loca_agent.Base.{itoa, rune_count}
use loca_agent.Config.{Model, ModelRegistry}
use loca_agent.Ui.{Line, heading, plain_line, dimmed}

abbrev spaces : ℕ → Text
spaces zero = []
spaces (suc n) = b' ' ∷ spaces n

-- `%-22s`: padded to a width in runes
abbrev padded : ℕ → Text → Text
padded width s = s ++ spaces (width - rune_count s)

unfoldable pub model_lines : Text → List Model → List Line
model_lines default_id [] = []
model_lines default_id (m ∷ ms) =
    plain_line (
      (if m.id == default_id then lit "* " else lit "  ")
      ++ (padded 22 m.id ++ (lit " " ++ m.name)))
    ∷ dimmed (
        lit "    repo="
        ++ (m.repo
            ++ (lit " quant="
                ++ (m.quant
                    ++ (lit " ctx="
                        ++ (itoa m.context_length
                            ++ (lit " min_vram=" ++ (itoa m.min_vram_gb ++ lit "GB"))))))))
    ∷ model_lines default_id ms

-- The lines of the command
unfoldable pub registry_lines : ModelRegistry → List Line
unfolding model_lines
registry_lines r =
    heading (lit "Available models (default: " ++ (r.default_id ++ lit ")"))
    ∷ model_lines r.default_id r.models
