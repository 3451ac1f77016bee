-- ===== src/Installer/Session.antt =====
-- What the steps of both plans act on: the shared State, the operating system, and what the user
-- interface has printed (internal/ui).
pub mod Undo
pub mod Controlled
use loca_agent.Base.{Text, List, ◌++◌, Bool, true, false, none, some}
use loca_agent.Effect.{ok, Action}
use loca_agent.Sys.{Os}
use loca_agent.Wireguard.{JoinToken, EnrollmentReply}
use loca_agent.Wireguard.Token.{Codec, TokenField}
use loca_agent.Netip.{Ip6}
use loca_agent.Llama.Acquire.{Visit}
use loca_agent.Installer.{State, Value, set}
use loca_agent.Ui.{Line}

pub record Session (W : Type 0) : Type 0 where
  pub state : State
  pub world : W
  pub printed : List Line

-- The tunnel interface of both plans.
pub record Tunnel (W : Type 0) : Type 0 where
  pub up : Text → Text → Action W (Unit {0})
  pub down : Text → Text → Action W (Unit {0})
  pub active : Text → W → Bool × W

-- What the steps call that is no field of Deps: encoders, the curve, the walk of a directory, the
-- variable ProgramFiles, the temporary directory, and the order in which a token is validated.
pub record Globals (os : Os) : Type 0 where
  pub v6 : Ip6
  pub public : Text → Text
  pub token_json : Codec JoinToken
  pub reply_json : Codec EnrollmentReply
  pub order : List TokenField
  pub walk_dir : Text → os.World → List Visit
  pub program_files : Text
  pub temp_dir : Text

module _ {W : Type 0} where
  abbrev pub on_world : {A : Type 0} → Action W A → Action (Session W) A
  on_world m s = let (r, w) = m s.world in (r, record s { world = w })

  abbrev pub store : Text → Value → Action (Session W) (Unit {0})
  store key v s = (ok tt, record s { state = set key v s.state })

  abbrev pub print : List Line → Action (Session W) (Unit {0})
  print lines s = (ok tt, record s { printed = s.printed ++ lines })

  abbrev pub read_world : {A : Type 0} → (W → A) → Action (Session W) A
  read_world f s = (ok (f s.world), s)

  abbrev pub read_state : {A : Type 0} → (State → A) → Action (Session W) A
  read_state f s = (ok (f s.state), s)

-- fileExists of windows/helpers.go
unfoldable pub file_exists : (os : Os) → Text → os.World → Bool
file_exists os path w = elim (os.stat path w) [
  | none ↦ false
  | some i ↦ elim i.is_dir [ true ↦ false | false ↦ true ]
]
