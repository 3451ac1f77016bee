-- ===== src/Platform.antt =====
-- internal/platform: the host profile, vendor classification and the backend hint.
pub mod Human
pub mod Detect
use loca_agent.Base.{Text, List, [], ◌∷◌, ℕ, Option, none, some, lit, ◌||◌, ◌==◌, text_eq}
use loca_agent.Base.{if◌then◌else◌, contains, to_lower}

pub record CpuInfo : Type 0 where
  pub model : Text
  pub logical : ℕ

pub record GpuInfo : Type 0 where
  pub vendor : Text
  pub model : Text
  pub vram_bytes : ℕ

pub record SystemInfo : Type 0 where
  pub os : Text
  pub arch : Text
  pub cpu : CpuInfo
  pub gpu : List GpuInfo
  pub ram_bytes : ℕ

abbrev pub vendor_amd : Text
vendor_amd = lit "amd"

abbrev pub vendor_nvidia : Text
vendor_nvidia = lit "nvidia"

abbrev pub vendor_apple : Text
vendor_apple = lit "apple"

abbrev pub vendor_intel : Text
vendor_intel = lit "intel"

abbrev pub vendor_other : Text
vendor_other = lit "other"

-- SystemInfo.PrimaryGPU
unfoldable pub primary_gpu : SystemInfo → Option GpuInfo
primary_gpu si = elim si.gpu [ [] ↦ none | g ∷ _ ↦ some g ]

-- SystemInfo.BackendHint
unfoldable pub backend_hint : SystemInfo → Text
unfolding primary_gpu
backend_hint si = elim (primary_gpu si) [
  | none ↦ lit "cpu"
  | some gpu ↦
      if gpu.vendor == vendor_amd
      then lit "vulkan"
      else if gpu.vendor == vendor_nvidia
      then lit "cuda"
      else if gpu.vendor == vendor_apple
      then lit "metal"
      else lit "cpu"
]

-- classifyVendor
unfoldable pub classify_vendor : Text → Text
classify_vendor desc =
    let d = to_lower desc in
    if contains d (lit "amd") || contains d (lit "radeon") || contains d (lit "advanced micro")
    then vendor_amd
    else if contains d (lit "nvidia") || contains d (lit "geforce") || contains d (lit "rtx")
    then vendor_nvidia
    else if contains d (lit "apple")
    then vendor_apple
    else if contains d (lit "intel")
    then vendor_intel
    else vendor_other

abbrev pub gpu_of : Text → ℕ → GpuInfo
gpu_of model vram = record { vendor = classify_vendor model; model = model; vram_bytes = vram }
