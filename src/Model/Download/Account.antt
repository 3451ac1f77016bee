-- ===== src/Model/Download/Account.antt =====
-- What Downloader.Download accounts for (internal/model/download.go).
use loca_agent.Base.{Text, List, [], ◌∷◌, ◌++◌, Option, none, map}
use loca_agent.Base.{◌≡◌, refl, inl, inr}
use loca_agent.Base.{◌⊎◌, ◌≢◌, if◌then◌else◌}
use loca_agent.Filepath.{join_path}
use loca_agent.Errs.{Error}
use loca_agent.Sys.{Os}
use loca_agent.Config.{Model, ModelFile, ModelSource}
use loca_agent.Model.{file_url}
use loca_agent.Model.Verify.{verify_sha256}
use loca_agent.Model.Download.{FileResult, Fetcher, Verdict, verified, unverified, rejected, judge}

abbrev pub files_of : List FileResult → List ModelFile
files_of rs = map (λ (r : FileResult). r.file) rs

pub Verdict-cases :
    (v : Verdict) → (v ≡ verified) ⊎ ((v ≡ unverified) ⊎ ((e : Error) × (v ≡ rejected e)))
Verdict-cases verified = inl refl
Verdict-cases unverified = inr (inl refl)
Verdict-cases (rejected e) = inr (inr (e, refl))

module _ (sha256 : Text → Text) (os : Os) (source : Fetcher os.World) (src : ModelSource)
    (m : Model) (dir : Text) where
  abbrev place : ModelFile → Text
  place f = join_path (dir ∷ f.name ∷ [])

  abbrev fetched : ModelFile → os.World → Option Error × os.World
  fetched f w = source (file_url src m f) (place f) w

  -- How the check of a file comes out, in the world that its fetch left.
  abbrev verdict_of : ModelFile → os.World → Verdict
  verdict_of f w = judge (verify_sha256 sha256 os (place f) f.sha256 (fetched f w).1)

  -- Files that were fetched one after the other, each from the world that the one before it left. Each
  -- fetch ended without an error, and each result is at the file's place and is marked verified or
  -- unverified as the check behind the fetch came out.
  pub data Fetches : os.World → List FileResult → os.World → Type 0 where
    stop : {w : os.World} → Fetches w [] w
    next :
        {w w' : os.World} {rs : List FileResult} {r : FileResult}
        → r.path ≡ place r.file
        → (fetched r.file w).0 ≡ none
        → verdict_of r.file w ≡ (if r.verified then verified else unverified)
        → Fetches (fetched r.file w).1 rs w'
        → Fetches w (r ∷ rs) w'

  -- The end: no file is left and there is no error, or there is one since the fetch of the next file
  -- failed or its check did.
  abbrev pub Stops : List ModelFile → os.World → Option Error → os.World → Type 0
  Stops [] w e w' = (e ≡ none) × (w' ≡ w)
  Stops (f ∷ fs) w e w' =
      (e ≢ none)
      × ((w' ≡ (fetched f w).1)
          × (((fetched f w).0 ≢ none) ⊎ ((cause : Error) × (verdict_of f w ≡ rejected cause))))

  -- The results are of the first files, in order.
  pub record Accounts (fs : List ModelFile) (w : os.World) (rs : List FileResult) (e : Option Error)
      (w' : os.World) : Type 0 where
    pub rest : List ModelFile
    pub reached : os.World
    pub split : files_of rs ++ rest ≡ fs
    pub fetches : Fetches w rs reached
    pub stops : Stops rest reached e w'

  abbrev Done : List ModelFile → os.World → (List FileResult × Option Error) × os.World → Type 0
  Done fs w out = Accounts fs w out.0.0 out.0.1 out.1
