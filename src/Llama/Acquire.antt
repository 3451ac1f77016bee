-- ===== src/Llama/Acquire.antt =====
-- internal/llama/acquire.go: fetching and unpacking the release, and finding the server binary.
pub mod Binary
use loca_agent.Base.{
  Text, lit, ℕ, List, [], ◌∷◌, ◌++◌, Option, none, some, Bool, true, false, ◌==◌, text_eq,
}
use loca_agent.Base.{if◌then◌else◌, to_lower, ltb}
use loca_agent.Errs.{Error, user, user_wrap}
use loca_agent.Effect.{
  Result, ok, err, and_then, map_error, Action, pure, lift, check, or_fail, ◌>>=◌, ◌>>◌,
}
use loca_agent.Sys.{Os}
use loca_agent.Filepath.{join_path, base_name}
use loca_agent.Config.{Versions, windows_asset_name}
use loca_agent.Model.Download.{Fetcher}
use loca_agent.Llama.{asset_url}
use loca_agent.Llama.Unzip.{Entry, unzip}

-- serverBinaryRank
unfoldable pub rank : Text → Option ℕ
rank name =
    if name == lit "llama-server.exe"
    then some 0
    else if name == lit "llama-server"
    then some 1
    else if name == lit "server.exe"
    then some 2
    else if name == lit "server"
    then some 3
    else none

-- What filepath.WalkDir hands to its callback.
pub record Visit : Type 0 where
  pub path : Text
  pub name : Text
  pub is_dir : Bool
  pub problem : Option Error

-- The two variables of the callback.
pub record Best : Type 0 where
  pub path : Text
  pub rank : ℕ

unfoldable pub visit_file : Best → Visit → Best
visit_file best v = elim (rank (to_lower v.name)) [
  | none ↦ best
  | some r ↦ if ltb r best.rank then record { path = v.path; rank = r } else best
]

-- The walk: the callback's error ends it.
unfoldable pub walk : Best → List Visit → Result Best
walk best [] = ok best
walk best (v ∷ vs) = elim v.problem [
  | some e ↦ err e
  | none ↦ walk (if v.is_dir then best else visit_file best v) vs
]

-- FindServerBinary, over the walk of the directory in lexical order
unfoldable pub find_server_binary : List Visit → Result Text
find_server_binary visits =
    and_then
      (map_error
        (λ e.
          user_wrap e (lit "llama_scan_failed")
            (lit "Failed to scan the extracted llama.cpp directory") [])
        (walk (record { path = []; rank = 5 }) visits))
      (λ best.
        if best.path == []
        then err (
            user (lit "llama_binary_not_found")
              (lit "Could not find the llama-server binary in the release archive")
              (lit
                "The release asset may have an unexpected layout; check windows_asset in versions.yaml."))
        else ok best.path)

module _ (os : Os) (source : Fetcher os.World) (open_zip : Text → os.World → Result (List Entry))
    (walk_dir : Text → os.World → List Visit) where
  find_in : Text → Action os.World Text
  find_in dir w = (find_server_binary (walk_dir dir w), w)

  fetch_asset : Text → Text → Action os.World (Unit {0})
  fetch_asset url dst w = let (e, w') = source url dst w in (check e, w')

  -- Acquirer.Acquire
  unfoldable pub acquire : Versions → Text → Action os.World Text
  unfolding find_in fetch_asset
  acquire v dest_dir =
      let url = asset_url v in
      let zip_path = join_path (dest_dir ∷ windows_asset_name v ∷ []) in
      let extract_dir = join_path (dest_dir ∷ lit "llama.cpp" ∷ []) in
      if url == []
      then lift (
          err (
            user (lit "llama_asset_unresolved") (lit "Could not resolve the llama.cpp download URL")
              (lit
                "Set llama_cpp.download_base, release_tag, and windows_asset in versions.yaml.")))
      else do
        or_fail (fetch_asset url zip_path) (λ e.
            user_wrap e (lit "llama_download_failed")
              (lit "Failed to download the llama.cpp release")
              (lit
                "Check your network connection and the release_tag/windows_asset in versions.yaml."))
        or_fail (unzip os open_zip zip_path extract_dir) (λ e.
            user_wrap e (lit "llama_extract_failed")
              (lit "Failed to extract the llama.cpp release archive")
              (lit "Delete the downloaded archive and re-run install to fetch it again."))
        find_in extract_dir
