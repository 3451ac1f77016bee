-- ===== src/Tests/Commands.antt =====
-- The theorems on versions, log records, sizes, progress and the install command at concrete inputs.
use loca_agent.Base.{
  trim_space, is_space, text_beq, Text, lit, ℕ, List, [], ◌∷◌, ◌++◌, none, some, true, false, pos,
  negsuc, arith, ◌<◌, format_nat,
}
use loca_agent.Base.{◌≡◌, refl, ◌⊎◌}
use loca_agent.Errs.{plain}
use loca_agent.Effect.{ok, err}
use loca_agent.Wireguard.Token.{Codec}
use loca_agent.Installer.Session.{Globals}
use loca_agent.Platform.Detect.{windows}
use loca_agent.Platform.Human.{human_bytes}
use loca_agent.Platform.Human.Bounds.{Shown, human_bytes-Shown}
use loca_agent.Probe.Version.{first_version}
use loca_agent.Probe.Version.Digits.{StartsDigit}
use loca_agent.Probe.Version.Dotted.{StartsVersion}
use loca_agent.Probe.Version.Leftmost.{FirstDotted, FirstNumber, Nowhere, first_version-Leftmost}
use loca_agent.Logging.Family.{
  IsCarrying, console_family, multi_family, console-IsCarrying, multi-IsCarrying,
}
use loca_agent.Model.Source.{Progress}
use loca_agent.Command.Progress.{shown}
use loca_agent.Command.Progress.Rising.{Printed, IsSound, shown_few}
use loca_agent.Command.Install.{Flags, Host, install}
use loca_agent.Command.Install.Unattended.{install_unattended}
use loca_agent.Ui
use loca_agent.Ui.{failure, note}
use loca_agent.Ui.Answers.{IsLine, Exchange, ask_all, ask_all-answers}
use loca_agent.Cli.{finish}
use loca_agent.Cli.Messages.{layered, finish-layered}
use loca_agent.Model.Source.{total_from_content_range}
use loca_agent.Model.Source.Range.{total_from_content_range-format_nat}
use loca_agent.Errs.{user, user_wrap}
use loca_agent.Tests.Downloads.{one_file, server}
use loca_agent.Tests.Tunnel.{no_ip6}
use loca_agent.Tests.Files.{config}

human_bytes-Shown_example :
    ((1536 < 1024) × (human_bytes 1536 ≡ some (format_nat 1536 ++ lit " B"))) ⊎ Shown 1536
human_bytes-Shown_example = human_bytes-Shown 1536 (omega arith)

abbrev version_text : Text
version_text = lit "git version 2.41.0"

first_version-Leftmost_example :
    FirstDotted version_text (first_version version_text)
    ⊎ (Nowhere StartsVersion version_text
        × (FirstNumber version_text (first_version version_text)
            ⊎ ((first_version version_text ≡ []) × Nowhere StartsDigit version_text)))
first_version-Leftmost_example = first_version-Leftmost version_text

abbrev report : ℕ → Progress
report n = record { file = []; downloaded = n; total = pos 200 }

abbrev reports : List Progress
reports = report 50 ∷ report 52 ∷ report 200 ∷ report 100 ∷ report 200 ∷ []

report-IsSound : (n : ℕ) → n < 201 → IsSound (report n)
report-IsSound n h = record {
  total = 200;
  known = refl;
  some_bytes = omega arith;
  arrived = omega arith;
  fits = omega arith;
}

shown_few_example : Printed 0 (shown (negsuc 0) reports).0
shown_few_example = shown_few reports (
  report-IsSound 50 (omega arith),
  (
    report-IsSound 52 (omega arith),
    (
      report-IsSound 200 (omega arith),
      (report-IsSound 100 (omega arith), (report-IsSound 200 (omega arith), tt)),
    ),
  ),
)

abbrev no_json : {A : Type 0} → Codec A
no_json = record { marshal = λ v. err (plain []); unmarshal = λ b. err (plain []) }

abbrev globals : Globals one_file
globals = record {
  v6 = no_ip6;
  public = λ k. k;
  token_json = no_json;
  reply_json = no_json;
  order = [];
  walk_dir = λ path w. [];
  program_files = [];
  temp_dir = [];
}

abbrev host : Host one_file
host = record {
  client = server;
  sha256 = λ b. b;
  open_zip = λ path w. err (plain []);
  peers_json = no_json;
  geteuid = λ w. pos 0;
  try_open = λ path w. none;
  look_path = λ bin w. none;
  on_windows = true;
  build = windows;
  goos = [];
  goarch = [];
  cpus = 1;
  home = none;
}

abbrev flags : Flags
flags = record {
  role = [];
  token = [];
  endpoint = [];
  model = [];
  no_psk = false;
  assume_yes = true;
}

abbrev console : Ui.Console
console = record { out = []; input = 110 ∷ 10 ∷ [] }

install_unattended_example :
    (install one_file globals host config true (λ s. none) false flags console none).console
    ≡ console
install_unattended_example =
    install_unattended one_file globals host config true (λ s. none) false flags console none refl

finish-layered_example :
    (finish (
        some (
          layered
            ((lit "request ", []) ∷ ([], lit ".") ∷ [])
            (user (lit "code") (lit "message") (lit "fix"))))
      ≡ (failure (lit "message") ∷ note (lit "Suggested fix: " ++ lit "fix") ∷ [], 1))
    × (finish (
          some (
            layered
              ((lit "request ", []) ∷ ([], lit ".") ∷ [])
              (user_wrap (plain []) (lit "code") (lit "message") (lit "fix"))))
        ≡ (failure (lit "message") ∷ note (lit "Suggested fix: " ++ lit "fix") ∷ [], 1))
unfolding text_beq lit
finish-layered_example =
    finish-layered ((lit "request ", []) ∷ ([], lit ".") ∷ []) (lit "code") (lit "message")
      (lit "fix") (plain [])

abbrev exchange : (typed : Text) → IsLine typed → Exchange
exchange typed h = record { question = 63 ∷ []; default = 100 ∷ []; typed = typed; is_line = h }

-- A space, which is trimmed to nothing, and a word.
abbrev exchanges : List Exchange
exchanges =
    exchange (32 ∷ []) (omega arith, tt)
    ∷ exchange (121 ∷ 32 ∷ []) (omega arith, (omega arith, tt))
    ∷ []

abbrev typed_console : Ui.Console
typed_console = record { out = []; input = 32 ∷ 10 ∷ 121 ∷ 32 ∷ 10 ∷ 110 ∷ [] }

ask_all-answers_example :
    ((ask_all exchanges typed_console).0 ≡ (100 ∷ []) ∷ (121 ∷ []) ∷ [])
    × ((ask_all exchanges typed_console).1.input ≡ 110 ∷ [])
unfolding trim_space is_space text_beq
ask_all-answers_example = ask_all-answers exchanges (110 ∷ []) typed_console refl

total_from_content_range-format_nat_example :
    total_from_content_range (lit "bytes 5-9" ++ (b'/' ∷ format_nat 10)) ≡ pos 10
total_from_content_range-format_nat_example =
    total_from_content_range-format_nat (lit "bytes 5-9") 10 (omega arith)

multi-IsCarrying_example :
    IsCarrying (multi_family (console_family (λ line (w : Text). (ok tt, w ++ line))))
multi-IsCarrying_example =
    multi-IsCarrying (console_family (λ line (w : Text). (ok tt, w ++ line)))
      (console-IsCarrying (λ line (w : Text). (ok tt, w ++ line)))
