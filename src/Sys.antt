-- ===== src/Sys.antt =====
-- internal/sys: running external commands. The operating system is a parameter of the model.
pub mod Privilege
use loca_agent.Base.{Text, Bool, List, ◌∷◌, ◌++◌, Option, none, some, lit, ℕ}
use loca_agent.Base.{trim_space}
use loca_agent.Errs.{Error, wrapped}
use loca_agent.Effect.{Result, ok, err}

-- os.ReadFile tells a missing file from one that cannot be read.
pub data Read : Type 0 where
  contents : Text → Read
  missing : Error → Read
  unreadable : Error → Read

-- What a process leaves: both streams, and how it failed if it did.
pub record Finished : Type 0 where
  pub stdout : Text
  pub stderr : Text
  pub failure : Option Error

-- What a Runner returns: stdout also beside an error.
pub record Output : Type 0 where
  pub stdout : Text
  pub error : Option Error

-- A command with its arguments.
pub record Command : Type 0 where
  pub bin : Text
  pub args : List Text

abbrev pub Runner : Type 0 → Type 0
Runner W = Text → List Text → W → Output × W

-- os.FileInfo
pub record FileInfo : Type 0 where
  pub is_dir : Bool
  pub size : ℕ

-- The operating system as the program calls it. `create` opens a file empty, with permission bits for
-- a new one. `write` is File.Write at the end of an open file: it
-- returns how many bytes it wrote.
pub record Os : Type 1 where
  pub World : Type 0
  pub stat : Text → World → Option FileInfo
  pub create : Text → ℕ → World → Option Error × World
  pub open_append : Text → World → Option Error × World
  pub write : Text → Text → World → (ℕ × Option Error) × World
  pub read_file : Text → World → Read
  pub write_file : Text → Text → ℕ → World → Option Error × World
  pub mkdir_all : Text → ℕ → World → Option Error × World
  pub process : Text → List Text → World → Finished × World
  pub random : ℕ → World → Result Text × World

-- ExecRunner.Run without its log line: the error carries stderr.
exec_output : Text → Finished → Output
exec_output name f = elim f.failure [
  | none ↦ record { stdout = f.stdout; error = none }
  | some e ↦ record {
    stdout = f.stdout;
    error = some (wrapped (name ++ lit ": ") e (lit ": " ++ trim_space f.stderr));
  }
]

unfoldable pub exec_run : (os : Os) → Runner os.World
unfolding exec_output
exec_run os name args w = let (f, w') = os.process name args w in (exec_output name f, w')

-- SudoRunner.Run
unfoldable pub with_sudo : {W : Type 0} → Runner W → Runner W
with_sudo inner name args = inner (lit "sudo") (name ∷ args)

-- A run whose stdout is not used.
abbrev pub as_result : Output → Result Text
as_result o = elim o.error [ none ↦ ok o.stdout | some e ↦ err e ]
