-- ===== src/Model/Source/Disk.antt =====
-- What Fetch (internal/model/source.go) relies on: a file system, and a server that serves one text.
use loca_agent.Base.{
  Text, ℕ, zero, suc, ◌≤◌, List, [], ◌∷◌, ◌++◌, Option, none, some, ◌≡◌, ◌⊎◌, length,
}
use loca_agent.Errs.{Error}
use loca_agent.Effect.{ok}
use loca_agent.Sys.{Os, FileInfo}
use loca_agent.Model.Source.{Response, Client}

abbrev pub concat : List Text → Text
concat [] = []
concat (t ∷ ts) = t ++ concat ts

abbrev pub take : ℕ → Text → Text
take zero s = []
take (suc n) [] = []
take (suc n) (c ∷ s) = c ∷ take n s

pub record IsPrefix (t full : Text) : Type 0 where
  pub rest : Text
  pub whole : t ++ rest ≡ full

-- The file is not there, or holds the beginning of a text.
abbrev pub Partial : Text → Option Text → Type 0
Partial full none = Unit
Partial full (some t) = IsPrefix t full

-- What the calls do to the file at one path, whose content `content` reads.
pub record IsDisk (os : Os) (path : Text) (content : os.World → Option Text) : Type 0 where
  pub absent : (w : os.World) → content w ≡ none → os.stat path w ≡ none
  pub sized :
      (w : os.World) (t : Text)
      → content w ≡ some t
      → (info : FileInfo) × ((os.stat path w ≡ some info) × (info.size ≡ length t))
  pub made : (p : Text) (perm : ℕ) (w : os.World) → content (os.mkdir_all p perm w).1 ≡ content w
  pub emptied :
      (perm : ℕ) (w : os.World)
      → (os.create path perm w).0 ≡ none
      → content (os.create path perm w).1 ≡ some []
  pub refused :
      (perm : ℕ) (w : os.World) (e : Error)
      → (os.create path perm w).0 ≡ some e
      → content (os.create path perm w).1 ≡ content w
  pub opened : (w : os.World) → content (os.open_append path w).1 ≡ content w
  pub written :
      (w : os.World) (t chunk : Text)
      → content w ≡ some t
      → content (os.write path chunk w).1 ≡ some (t ++ take (os.write path chunk w).0.0 chunk)

-- The chunks of a response are the beginning of a text, and all of it unless the body breaks off.
pub record Serves (resp : Response) (text : Text) : Type 0 where
  pub begins : IsPrefix (concat resp.chunks) text
  pub finishes : resp.broken ≡ none → concat resp.chunks ≡ text

-- How a server that has the text `full` answers a request for the bytes from an offset.
pub record IsAnswer (full : Text) (range : Option ℕ) (resp : Response) : Type 0 where
  pub whole : resp.status_code ≡ 200 → Serves resp full
  pub part :
      resp.status_code ≡ 206
      → (before rest : Text) × ((range ≡ some (length before))
          × ((before ++ rest ≡ full) × Serves resp rest))
  pub beyond : resp.status_code ≡ 416 → (o : ℕ) × ((range ≡ some o) × (length full ≤ o))

-- A client whose requests leave the file alone, and whose server has the text `full`.
pub record IsHonest (os : Os) (client : Client os.World) (content : os.World → Option Text)
    (url full : Text) : Type 0 where
  pub keeps : (range : Option ℕ) (w : os.World) → content (client.answer url range w).1 ≡ content w
  pub answers :
      (range : Option ℕ) (w : os.World) (resp : Response)
      → (client.answer url range w).0 ≡ ok resp
      → IsAnswer full range resp

-- A URL that is not refused, and calls and a server that do not fail: every call succeeds and writes the whole chunk, and each
-- request gets one of the three statuses that Fetch knows, with a body that does not break off.
pub record IsWilling (os : Os) (client : Client os.World) (url path : Text) : Type 0 where
  pub makes : (p : Text) (perm : ℕ) (w : os.World) → (os.mkdir_all p perm w).0 ≡ none
  pub creates : (perm : ℕ) (w : os.World) → (os.create path perm w).0 ≡ none
  pub opens : (w : os.World) → (os.open_append path w).0 ≡ none
  pub writes : (chunk : Text) (w : os.World) → (os.write path chunk w).0 ≡ (length chunk, none)
  pub takes : client.refused url ≡ none
  pub responds :
      (range : Option ℕ) (w : os.World)
      → (resp : Response) × (((client.answer url range w).0 ≡ ok resp)
          × (((resp.status_code ≡ 200) ⊎ ((resp.status_code ≡ 206) ⊎ (resp.status_code ≡ 416)))
              × (resp.broken ≡ none)))
