-- ===== src/Probe/Version.antt =====
-- firstVersion of internal/probe/probe.go: the leftmost match of two regular expressions.
pub mod Digits
pub mod Dotted
pub mod Leftmost
use loca_agent.Base.{Text, ℕ, List, [], ◌∷◌, ◌++◌, Option, none, some, ◌==◌, nat_eq, text_eq}
use loca_agent.Base.{if◌then◌else◌, lit}
use loca_agent.Sys.{Runner}
use loca_agent.Probe.{take_digits, CommandProbe}

-- What follows a dot at the head.
abbrev pub behind_dot : Text → Option Text
behind_dot [] = none
behind_dot (c ∷ s) = if c == b'.' then some s else none

-- `(?:\.\d+)?` at the head. It is greedy, and so is `\d+`, whose next byte cannot be a digit.
unfoldable pub dot_digits : Text → Text
unfolding take_digits
dot_digits s = elim (behind_dot s) [
  | none ↦ []
  | some rest ↦ if (take_digits rest).0 == [] then [] else b'.' ∷ (take_digits rest).0
]

-- `\d+\.\d+(?:\.\d+)?` at the head: what it matches, or nothing
unfoldable pub dotted_at : Text → Text
unfolding take_digits dot_digits
dotted_at s =
    let (major, rest) = take_digits s in
    if major == [] then [] else elim (behind_dot rest) [
      | none ↦ []
      | some rest' ↦
          let (minor, rest'') = take_digits rest' in
          if minor == [] then [] else major ++ (b'.' ∷ (minor ++ dot_digits rest''))
    ]

-- `\d+` at the head
unfoldable pub build_at : Text → Text
build_at s = (take_digits s).0

-- FindString: the first place where something is matched. Neither expression matches nothing.
unfoldable pub find_string : (Text → Text) → Text → Text
find_string at [] = at []
find_string at (c ∷ s) =
    let later = find_string at s in if at (c ∷ s) == [] then later else at (c ∷ s)

-- firstVersion
unfoldable pub first_version : Text → Text
unfolding find_string
first_version s =
    let dotted = find_string dotted_at s in if dotted == [] then find_string build_at s else dotted

abbrev version_probe : Text → List Text → CommandProbe
version_probe name candidates = record {
  name = name;
  candidates = candidates;
  version_args = lit "--version" ∷ [];
  parse = some first_version;
}

-- Default
unfoldable pub default_probes : List CommandProbe
default_probes =
    version_probe (lit "WireGuard") (lit "wg" ∷ [])
    ∷ version_probe (lit "Git") (lit "git" ∷ [])
    ∷ version_probe (lit "OpenCode") (lit "opencode" ∷ [])
    ∷ version_probe (lit "llama.cpp server") (lit "llama-server" ∷ lit "server" ∷ [])
    ∷ []
