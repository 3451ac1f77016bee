-- ===== src/Command/Doctor.antt =====
-- internal/command/doctor/doctor.go: what the command prints.
use loca_agent.Base.{lit, List, [], ◌∷◌, ◌++◌, none, some, ◌==◌, text_eq, if◌then◌else◌}
use loca_agent.Platform.{SystemInfo, primary_gpu, backend_hint}
use loca_agent.Probe.{Status}
use loca_agent.Ui.{Line, heading, success, warning, note}

unfoldable pub gpu_line : SystemInfo → Line
gpu_line si = elim (primary_gpu si) [
  | none ↦ warning (lit "No GPU detected — inference would fall back to CPU")
  | some gpu ↦ success (
      lit "GPU detected: "
      ++ (gpu.model ++ (lit " (backend hint: " ++ (backend_hint si ++ lit ")"))))
]

unfoldable pub status_line : Status → Line
status_line st =
    if st.installed
    then if st.version == []
      then success (st.name ++ lit " installed")
      else success (st.name ++ (lit " installed (" ++ (st.version ++ lit ")")))
    else warning (st.name ++ lit " not found")

unfoldable pub status_lines : List Status → List Line
unfolding status_line
status_lines [] = []
status_lines (st ∷ sts) = status_line st ∷ status_lines sts

-- The lines of the command, from the detected system and the probes
unfoldable pub doctor_lines : SystemInfo → List Status → List Line
unfolding gpu_line status_lines
doctor_lines si sts =
    (heading (lit "bootstrap-ai doctor")
      ∷ success (lit "Configuration loaded and valid")
      ∷ gpu_line si
      ∷ heading (lit "Dependencies")
      ∷ [])
    ++ (status_lines sts
        ++ (note (lit "Endpoint, WireGuard-link, and latency checks arrive in Phase 10.") ∷ []))
