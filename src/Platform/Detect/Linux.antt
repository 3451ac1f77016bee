-- ===== src/Platform/Detect/Linux.antt =====
-- internal/platform/detect_linux.go: what /proc and lspci tell.
use loca_agent.Base.{Text, lit, ℕ, ◌*◌, ◌%◌, ◌^◌, List, [], ◌∷◌, Option, none, some, ◌||◌, text_eq}
use loca_agent.Base.{
  if◌then◌else◌, contains, to_lower, trim_space, has_prefix, cut, fields, scan_lines, parse_uint,
}
use loca_agent.Sys.{Read, contents, missing, unreadable}
use loca_agent.Platform.{GpuInfo, classify_vendor}

-- The file of a scanner: no line where it cannot be opened.
abbrev pub lines_of : Read → List Text
lines_of (contents text) = scan_lines text
lines_of (missing _) = []
lines_of (unreadable _) = []

-- The second field of a line: kB, whose product with 1024 wraps around.
mem_of : List Text → Option ℕ
mem_of (label ∷ kb ∷ rest) = elim (parse_uint kb) [
  | none ↦ none
  | some n ↦ some (n * 1024 % 2 ^ 64)
]
mem_of _ = none

-- The loop of readMemTotal
unfoldable pub mem_total : List Text → ℕ
unfolding mem_of
mem_total [] = 0
mem_total (line ∷ lines) =
    let rest = mem_total lines in
    if has_prefix line (lit "MemTotal:")
    then elim (mem_of (fields line)) [ none ↦ rest | some n ↦ n ]
    else rest

-- The loop of readCPUModel
unfoldable pub cpu_model : List Text → Text
cpu_model [] = []
cpu_model (line ∷ lines) =
    let rest = cpu_model lines in
    if has_prefix line (lit "model name")
    then elim (cut line (lit ":")) [ none ↦ rest | some (label, val) ↦ trim_space val ]
    else rest

abbrev described : Text → Text
described line = elim (cut line (lit ": ")) [ none ↦ line | some (slot, after) ↦ after ]

-- The loop of detectGPULinux. The vendor is read from the text before it is trimmed.
unfoldable pub gpus : List Text → List GpuInfo
gpus [] = []
gpus (line ∷ lines) =
    let rest = gpus lines in
    let l = to_lower line in
    if contains l (lit "vga compatible controller") || contains l (lit "3d controller")
    then record {
      vendor = classify_vendor (described line);
      model = trim_space (described line);
      vram_bytes = 0;
    }
      ∷ rest
    else rest
