-- ===== src/Installer.antt =====
-- internal/installer/installer.go and statekeys.go: machine roles, the state that steps share, steps.
pub mod Engine
pub mod Session
pub mod Windows
pub mod Mac
use loca_agent.Base.{Text, List, [], ◌∷◌, Option, none, some, lit, Bool, true, false, any, ◌==◌}
use loca_agent.Base.{text_eq, if◌then◌else◌, to_lower, trim_space, quote, ◌++◌}
use loca_agent.Errs.{Error, plain}
use loca_agent.Effect.{Result, ok, err, Action, pure}
use loca_agent.Platform.{SystemInfo}

pub data MachineKind : Type 0 where
  mac_client windows_server : MachineKind

-- MachineKind.String
unfoldable pub kind_text : MachineKind → Text
kind_text mac_client = lit "macos-client"
kind_text windows_server = lit "windows-server"

abbrev one_of : Text → List Text → Bool
one_of s words = any (λ w. s == w) words

abbrev client_words : List Text
client_words = lit "mac" ∷ lit "macos" ∷ lit "client" ∷ lit "mac-client" ∷ lit "macos-client" ∷ []

abbrev server_words : List Text
server_words = lit "windows" ∷ lit "win" ∷ lit "server" ∷ lit "windows-server" ∷ []

-- ParseMachineKind. The error quotes the text as given.
unfoldable pub parse_machine_kind : Text → Result MachineKind
parse_machine_kind s =
    let word = to_lower (trim_space s) in
    if one_of word client_words
    then ok mac_client
    else if one_of word server_words
    then ok windows_server
    else err
        (plain (lit "unknown machine type " ++ (quote s ++ lit " (use \"client\" or \"server\")")))

-- The values that the steps put into a State's `map[string]any`.
pub data Value : Type 0 where
  str : Text → Value
  info : SystemInfo → Value

pub record State : Type 0 where
  pub kind : MachineKind
  pub values : List (Text × Value)

unfoldable pub new_state : MachineKind → State
new_state kind = record { kind = kind; values = [] }

lookup : Text → List (Text × Value) → Option Value
lookup key [] = none
lookup key ((k, v) ∷ m) = if key == k then some v else lookup key m

-- State.Set: the newest entry of a key is the one that counts.
unfoldable pub set : Text → Value → State → State
set key v st = record st { values = (key, v) ∷ st.values }

-- State.Get
unfoldable pub get : Text → State → Option Value
unfolding lookup
get key st = lookup key st.values

abbrev string_of : Option Value → Text
string_of none = []
string_of (some (str t)) = t
string_of (some (info i)) = []

-- State.String: "" for a missing key and for a value that is no string.
unfoldable pub get_string : Text → State → Text
unfolding get
get_string key st = string_of (get key st)

abbrev pub key_system_info : Text
key_system_info = lit "system_info"

abbrev pub key_server_binary : Text
key_server_binary = lit "llama_binary"

abbrev pub key_model_path : Text
key_model_path = lit "model_path"

abbrev pub key_server_config_path : Text
key_server_config_path = lit "wg_server_config"

abbrev pub key_client_config_path : Text
key_client_config_path = lit "wg_client_config"

abbrev pub key_join_token : Text
key_join_token = lit "join_token"

abbrev pub key_enroll_reply : Text
key_enroll_reply = lit "enroll_reply"

-- The interface Step, over the state `S` that steps act on.
pub record Step (S : Type 0) : Type 0 where
  pub name : Text
  pub verify : Action S Bool
  pub run : Action S (Unit {0})
  pub rollback : Action S (Unit {0})

-- FuncStep: a nil function is `none`.
pub record FuncStep (S : Type 0) : Type 0 where
  pub label : Text
  pub verify_func : Option (Action S Bool)
  pub run_func : Option (Action S (Unit {0}))
  pub rollback_func : Option (Action S (Unit {0}))

module _ {S : Type 0} where
  abbrev or_else : {A : Type 0} → Option (Action S A) → A → Action S A
  or_else none a = pure a
  or_else (some f) a = f

  unfoldable pub func_step : FuncStep S → Step S
  func_step f = record {
    name = f.label;
    verify = or_else f.verify_func false;
    run = or_else f.run_func tt;
    rollback = or_else f.rollback_func tt;
  }

pub data StepStatus : Type 0 where
  skipped running done failed rolled_back : StepStatus

-- StepStatus.String
unfoldable pub status_text : StepStatus → Text
status_text skipped = lit "skipped"
status_text running = lit "running"
status_text done = lit "done"
status_text failed = lit "failed"
status_text rolled_back = lit "rolled-back"
