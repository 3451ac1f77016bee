-- ===== src/Command/Status.antt =====
-- internal/command/status/status.go: what the command prints.
use loca_agent.Base.{
  Text, lit, List, [], ◌∷◌, ◌++◌, Option, none, some, ◌==◌, text_eq, if◌then◌else◌,
}
use loca_agent.Base.{format_nat, join}
use loca_agent.Platform.{SystemInfo, primary_gpu, backend_hint}
use loca_agent.Platform.Human.{ram_human}
use loca_agent.Config.{Config, default_model, endpoint_url}
use loca_agent.Ui.{Line, heading, plain_line}

-- orUnknown
unfoldable pub or_unknown : Text → Text
or_unknown s = if s == [] then lit "unknown" else s

abbrev gpu_text : SystemInfo → Text
gpu_text si = elim (primary_gpu si) [
  | none ↦ lit "(none detected)"
  | some gpu ↦ gpu.model ++ (lit " (" ++ (gpu.vendor ++ lit ")"))
]

-- %v of a []string
abbrev bracketed : List Text → Text
bracketed ts = lit "[" ++ (join ts (lit " ") ++ lit "]")

abbrev system_lines : SystemInfo → Text → List Line
system_lines si ram =
    heading (lit "System")
    ∷ plain_line (lit "  OS/Arch : " ++ (si.os ++ (lit "/" ++ si.arch)))
    ∷ plain_line (
        lit "  CPU     : "
        ++ (or_unknown si.cpu.model
            ++ (lit " (" ++ (format_nat si.cpu.logical ++ lit " logical)"))))
    ∷ plain_line (lit "  RAM     : " ++ ram)
    ∷ plain_line (lit "  GPU     : " ++ gpu_text si)
    ∷ plain_line (lit "  Backend : " ++ (backend_hint si ++ lit " (hint)"))
    ∷ []

-- The zero Model has an empty name.
abbrev model_name : Config → Text
model_name c = elim (default_model c.models) [ none ↦ [] | some m ↦ m.name ]

config_lines : Config → List Line
config_lines c =
    heading (lit "Configuration")
    ∷ plain_line (lit "  Model    : " ++ model_name c)
    ∷ plain_line (lit "  Endpoint : " ++ endpoint_url c.network)
    ∷ plain_line (
        lit "  Tunnel   : server="
        ++ (c.network.wireguard.server_address
            ++ (lit " clients=" ++ bracketed c.network.wireguard.client_addresses)))
    ∷ plain_line (lit "  Install  : " ++ c.installer.paths.install_dir)
    ∷ []

-- The lines of the command, from the detected system. RAMHuman may panic, which is `none`.
unfoldable pub status_lines : SystemInfo → Config → Option (List Line)
unfolding or_unknown config_lines
status_lines si c = elim (ram_human si) [
  | none ↦ none
  | some ram ↦ some (system_lines si ram ++ config_lines c)
]
