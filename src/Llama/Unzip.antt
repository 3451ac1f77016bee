-- ===== src/Llama/Unzip.antt =====
-- internal/llama/unzip.go: extraction with a guard against entries that escape the destination.
pub mod ZipSlip
use loca_agent.Base.{
  Text, lit, ℕ, List, [], ◌∷◌, ◌++◌, Option, none, some, Bool, true, false, ◌==◌, ◌||◌,
}
use loca_agent.Base.{text_eq, nat_eq, if◌then◌else◌, has_prefix, quote, length}
use loca_agent.Errs.{Error, plain, wrapped}
use loca_agent.Effect.{Result, ok, err, check, Action, pure, lift, or_fail, ◌>>=◌, ◌>>◌}
use loca_agent.Sys.{Os}
use loca_agent.Filepath.{slash, clean, join_path, dir_name}
use loca_agent.WgTunnel.{mkdir_all}

-- One entry of the archive: its name, whether it is a directory, its permission bits, how opening it
-- fails, the data that it yields, and how reading on fails.
pub record Entry : Type 0 where
  pub name : Text
  pub is_dir : Bool
  pub perm : ℕ
  pub opened : Option Error
  pub body : Text
  pub broken : Option Error

-- The guard: the target is the destination, or lies below it.
unfoldable pub target_of : Text → Text → Result Text
target_of clean_dest name =
    let target = join_path (clean_dest ∷ name ∷ []) in
    if target == clean_dest || has_prefix target (clean_dest ++ slash)
    then ok target
    else err (plain (lit "illegal path in zip (zip slip): " ++ quote name))

module _ (os : Os) where
  -- io.Copy of the entry into the open file, the data as one chunk.
  copy_entry : Entry → Text → Action os.World (Unit {0})
  copy_entry f target w =
      let (result, w') = os.write target f.body w in
      (
        elim result.1 [
          | some e ↦ err e
          | none ↦
              if result.0 == length f.body then check f.broken else err (plain (lit "short write"))
        ],
        w',
      )

  create_file : Text → ℕ → Action os.World (Unit {0})
  create_file target perm w = let (e, w') = os.create target perm w in (check e, w')

  -- extractOne
  unfoldable pub extract_one : Entry → Text → Action os.World (Unit {0})
  unfolding copy_entry create_file
  extract_one f target = do
    lift (check f.opened)
    create_file target (if f.perm == 0 then 0o644 else f.perm)
    or_fail (copy_entry f target) (λ e. wrapped (lit "extract " ++ (f.name ++ lit ": ")) e [])

  -- The body of the loop: the paths that it adds.
  unfoldable pub extract_entry : Text → Entry → Action os.World (List Text)
  unfolding extract_one mkdir_all
  extract_entry clean_dest f = do
    target ← lift (target_of clean_dest f.name)
    if f.is_dir
        then (do mkdir_all os target 0o755; pure [])
        else do mkdir_all os (dir_name target) 0o755; extract_one f target; pure (target ∷ [])

  extract_all : Text → List Entry → Action os.World (List Text)
  extract_all clean_dest [] = pure []
  extract_all clean_dest (f ∷ fs) = do
    here ← extract_entry clean_dest f
    rest ← extract_all clean_dest fs
    pure (here ++ rest)

  -- Unzip, of an archive that `open_zip` reads
  unfoldable pub unzip :
      (Text → os.World → Result (List Entry)) → Text → Text → Action os.World (List Text)
  unfolding extract_all
  unzip open_zip src dest w = elim (open_zip src w) [
    | err e ↦ (err (wrapped (lit "open zip " ++ (src ++ lit ": ")) e []), w)
    | ok entries ↦ extract_all (clean dest) entries w
  ]
