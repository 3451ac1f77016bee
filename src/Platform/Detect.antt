-- ===== src/Platform/Detect.antt =====
-- Detect of internal/platform/platform.go, and the three versions of detectSpecifics.
pub mod Linux
pub mod Darwin
pub mod Windows
use loca_agent.Base.{
  Text, lit, ℕ, ◌*◌, ◌%◌, ◌^◌, List, [], ◌∷◌, ◌++◌, Option, none, some, ◌==◌, ◌||◌, text_eq,
}
use loca_agent.Base.{
  if◌then◌else◌, contains, to_lower, trim_space, has_prefix, strip_prefix, split, cut, fields,
  scan_lines, parse_uint,
}
use loca_agent.Sys.{Os, Read, contents, missing, unreadable, Runner, Output}
use loca_agent.Platform.{SystemInfo, GpuInfo, gpu_of, classify_vendor}
use loca_agent.Platform.Detect.Linux
use loca_agent.Platform.Detect.Linux.{lines_of}
use loca_agent.Platform.Detect.Darwin
use loca_agent.Platform.Detect.Windows

-- A field keeps its value where a query fails.
abbrev text_or : Text → Output → Text
text_or old o = elim o.error [ none ↦ trim_space o.stdout | some _ ↦ old ]

abbrev number_or : ℕ → Output → ℕ
number_or old o = elim o.error [
  | some _ ↦ old
  | none ↦ elim (parse_uint (trim_space o.stdout)) [ none ↦ old | some n ↦ n ]
]

abbrev more_gpus : (List Text → List GpuInfo) → SystemInfo → Output → SystemInfo
more_gpus gpus si o = elim o.error [
  | some _ ↦ si
  | none ↦ record si { gpu = si.gpu ++ gpus (split 10 o.stdout) }
]

abbrev set_ram : SystemInfo → Output → SystemInfo
set_ram si o = record si { ram_bytes = number_or si.ram_bytes o }

abbrev set_cpu : SystemInfo → Output → SystemInfo
set_cpu si o = record si { cpu = record si.cpu { model = text_or si.cpu.model o } }

-- The three versions of detectSpecifics, of which a build has one.
pub data Build : Type 0 where
  linux darwin windows : Build

module _ (os : Os) (run : Runner os.World) where
  linux_specifics : SystemInfo → os.World → SystemInfo × os.World
  linux_specifics si w =
      let (o, w') = run (lit "lspci") [] w in
      (
        more_gpus Linux.gpus
            (record si {
              ram_bytes = Linux.mem_total (lines_of (os.read_file (lit "/proc/meminfo") w));
              cpu = record si.cpu {
                model = Linux.cpu_model (lines_of (os.read_file (lit "/proc/cpuinfo") w));
              };
            })
            o,
        w',
      )

  darwin_specifics : SystemInfo → os.World → SystemInfo × os.World
  darwin_specifics si w =
      let (mem, w1) = run (lit "sysctl") (lit "-n" ∷ lit "hw.memsize" ∷ []) w in
      let (cpu, w2) = run (lit "sysctl") (lit "-n" ∷ lit "machdep.cpu.brand_string" ∷ []) w1 in
      let (gpu, w3) = run (lit "system_profiler") (lit "SPDisplaysDataType" ∷ []) w2 in
      (more_gpus Darwin.gpus (set_cpu (set_ram si mem) cpu) gpu, w3)

  windows_specifics : SystemInfo → os.World → SystemInfo × os.World
  windows_specifics si w =
      let (mem, w1) =
        Windows.ps_query run (lit "(Get-CimInstance Win32_ComputerSystem).TotalPhysicalMemory") w in
      let (cpu, w2) =
        Windows.ps_query run (lit "(Get-CimInstance Win32_Processor | Select-Object -First 1).Name")
          w1 in
      let (gpu, w3) =
        Windows.ps_query run
          (lit
            "Get-CimInstance Win32_VideoController | ForEach-Object { \"$($_.Name)|$($_.AdapterRAM)\" }")
          w2 in
      (more_gpus Windows.gpus (set_cpu (set_ram si mem) cpu) gpu, w3)

  unfoldable pub detect_specifics : Build → SystemInfo → os.World → SystemInfo × os.World
  unfolding linux_specifics darwin_specifics windows_specifics
  detect_specifics linux = linux_specifics
  detect_specifics darwin = darwin_specifics
  detect_specifics windows = windows_specifics

  -- Detect, from runtime.GOOS, runtime.GOARCH and runtime.NumCPU. It never fails.
  unfoldable pub detect : Build → Text → Text → ℕ → os.World → SystemInfo × os.World
  detect b goos arch cpus = detect_specifics b (record {
    os = goos;
    arch = arch;
    cpu = record { model = []; logical = cpus };
    gpu = [];
    ram_bytes = 0;
  })
