-- ===== src/Platform/Detect/Windows.antt =====
-- internal/platform/detect_windows.go: what PowerShell tells.
use loca_agent.Base.{Text, lit, ℕ, List, [], ◌∷◌, none, some, ◌==◌, ◌||◌, text_eq}
use loca_agent.Base.{if◌then◌else◌, trim_space, cut, parse_uint}
use loca_agent.Sys.{Runner, Output}
use loca_agent.Platform.{GpuInfo, gpu_of}

abbrev halves : Text → Text × Text
halves line = elim (cut line (lit "|")) [ none ↦ (line, []) | some p ↦ p ]

abbrev vram_of : Text → ℕ
vram_of s = elim (parse_uint (trim_space s)) [ none ↦ 0 | some n ↦ n ]

-- The loop of detectGPUWindows: an empty line has an empty name, too.
unfoldable pub gpus : List Text → List GpuInfo
gpus [] = []
gpus (line ∷ lines) =
    let rest = gpus lines in
    let (name, ram) = halves (trim_space line) in
    if trim_space line == [] || trim_space name == []
    then rest
    else gpu_of (trim_space name) (vram_of ram) ∷ rest

-- psQuery
unfoldable pub ps_query : {W : Type 0} → Runner W → Text → W → Output × W
ps_query run expr =
    run (lit "powershell") (lit "-NoProfile" ∷ lit "-NonInteractive" ∷ lit "-Command" ∷ expr ∷ [])
