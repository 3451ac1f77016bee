-- ===== src/Platform/Detect/Darwin.antt =====
-- internal/platform/detect_darwin.go: what system_profiler tells.
use loca_agent.Base.{Text, lit, List, [], ◌∷◌, none, some, ◌==◌, text_eq}
use loca_agent.Base.{if◌then◌else◌, trim_space, has_prefix, strip_prefix}
use loca_agent.Platform.{GpuInfo, gpu_of}

abbrev behind : Text → Text → Text
behind prefix line = elim (strip_prefix prefix line) [ none ↦ line | some rest ↦ rest ]

-- The loop of detectGPUDarwin
unfoldable pub gpus : List Text → List GpuInfo
gpus [] = []
gpus (line ∷ lines) =
    let rest = gpus lines in
    let t = trim_space line in
    let model = trim_space (behind (lit "Chipset Model:") t) in
    if has_prefix t (lit "Chipset Model:")
    then (if model == [] then rest else gpu_of model 0 ∷ rest)
    else rest
