-- ===== src/Probe.antt =====
-- internal/probe: finding dependencies on the PATH and reading their versions.
pub mod Version
use loca_agent.Base.{Text, lit, List, [], ◌∷◌, Option, none, some, Bool, true, false, leb, ◌&&◌}
use loca_agent.Base.{if◌then◌else◌}
use loca_agent.Sys.{Runner, Output}

pub record Status : Type 0 where
  pub name : Text
  pub installed : Bool
  pub version : Text
  pub path : Text
  pub detail : Text

-- commandProbe; a nil `parse` is `none`.
pub record CommandProbe : Type 0 where
  pub name : Text
  pub candidates : List Text
  pub version_args : List Text
  pub parse : Option (Text → Text)

-- The leading digits, and what follows them.
unfoldable pub take_digits : Text → Text × Text
take_digits [] = ([], [])
take_digits (c ∷ s) =
    let (ds, rest) = take_digits s in
    if leb b'0' c && leb c b'9' then (c ∷ ds, rest) else ([], c ∷ s)

module _ {W : Type 0} (locate : Text → W → Option Text) (run : Runner W) where
  version_of : Option (Text → Text) → Output → Text
  version_of none o = []
  version_of (some parse) o = elim o.error [ none ↦ parse o.stdout | some _ ↦ [] ]

  probe_candidates : CommandProbe → List Text → W → Status × W
  unfolding version_of
  probe_candidates p [] w = (
    record {
      name = p.name;
      installed = false;
      version = [];
      path = [];
      detail = lit "not found on PATH";
    },
    w,
  )
  probe_candidates p (cand ∷ cands) w = elim (locate cand w) [
    | none ↦ probe_candidates p cands w
    | some path ↦
        let (o, w') = run path p.version_args w in
        (
          record {
            name = p.name;
            installed = true;
            version = version_of p.parse o;
            path = path;
            detail = [];
          },
          w',
        )
  ]

  -- commandProbe.Probe
  unfoldable pub probe : CommandProbe → W → Status × W
  unfolding probe_candidates
  probe p w = probe_candidates p p.candidates w

  -- ProbeAll
  unfoldable pub probe_all : List CommandProbe → W → List Status × W
  probe_all [] w = ([], w)
  probe_all (p ∷ ps) w =
      let (st, w') = probe p w in let (rest, w'') = probe_all ps w' in (st ∷ rest, w'')
