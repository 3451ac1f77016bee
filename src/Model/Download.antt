-- ===== src/Model/Download.antt =====
-- internal/model/download.go: all files of a model.
pub mod Account
pub mod Whole
use loca_agent.Base.{
  Text, lit, List, [], ◌∷◌, ◌++◌, Option, none, some, Bool, true, false, if◌then◌else◌,
}
use loca_agent.Errs.{Error, user_wrap, is_no_checksum}
use loca_agent.Sys.{Os}
use loca_agent.Filepath.{join_path}
use loca_agent.Config.{Model, ModelFile, ModelSource}
use loca_agent.Model.{file_url}
use loca_agent.Model.Verify.{verify_sha256}

-- Result of download.go
pub record FileResult : Type 0 where
  pub file : ModelFile
  pub path : Text
  pub verified : Bool

-- The interface Source, of which the caller uses the error alone.
abbrev pub Fetcher : Type 0 → Type 0
Fetcher W = Text → Text → W → Option Error × W

-- What the switch on the error of VerifySHA256 decides: verified, unverified, or a failure.
pub data Verdict : Type 0 where
  verified unverified : Verdict
  rejected : Error → Verdict

unfoldable pub judge : Option Error → Verdict
judge none = verified
judge (some e) = if is_no_checksum e then unverified else rejected e

module _ (sha256 : Text → Text) (os : Os) (source : Fetcher os.World) where
  module _ (src : ModelSource) (m : Model) (dest_dir : Text) where
    -- The loop of Download over the files that are left. The results so far come back beside an error.
    unfoldable pub download_files :
        List ModelFile → os.World → (List FileResult × Option Error) × os.World
    unfolding judge
    download_files [] w = (([], none), w)
    download_files (f ∷ fs) w =
        let dst = join_path (dest_dir ∷ f.name ∷ []) in
        let (e, w') = source (file_url src m f) dst w in
        elim e [
          | some cause ↦ (
            (
              [],
              some (
                  user_wrap cause (lit "model_download_failed")
                    (lit "Model download failed for " ++ f.name)
                    (lit
                      "Check your network connection and the repo/file names in models.yaml, then re-run install to resume.")),
            ),
            w',
          )
          | none ↦ elim (judge (verify_sha256 sha256 os dst f.sha256 w')) [
            | rejected cause ↦ (
              (
                [],
                some (
                    user_wrap cause (lit "model_checksum_mismatch")
                      (lit "Downloaded file failed its integrity check: " ++ f.name)
                      (lit "Delete the file and re-run install to download it again.")),
              ),
              w',
            )
            | verified ↦
                let (r, w'') = download_files fs w' in
                ((record { file = f; path = dst; verified = true } ∷ r.0, r.1), w'')
            | unverified ↦
                let (r, w'') = download_files fs w' in
                ((record { file = f; path = dst; verified = false } ∷ r.0, r.1), w'')
          ]
        ]

    -- Downloader.Download
    unfoldable pub download : os.World → (List FileResult × Option Error) × os.World
    unfolding download_files
    download w = download_files m.files w
