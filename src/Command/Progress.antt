-- ===== src/Command/Progress.antt =====
-- progressReporter and downloadProgress of internal/command/install/install.go.
pub mod Rising
use loca_agent.Base.{
  Text, lit, ℕ, suc, ◌+◌, ◌-◌, ◌*◌, ◌/◌, ◌%◌, ◌^◌, List, [], ◌∷◌, ◌++◌, Bool, true, false, ◌||◌,
  ◌==◌,
}
use loca_agent.Base.{ltb, if◌then◌else◌, ℤ, pos, negsuc, int_eq, int_leb, is_positive, itoa, not}
use loca_agent.Installer.{StepStatus, running, done, skipped, failed, rolled_back}
use loca_agent.Installer.Engine.{Event, progress, debug, warn_rollback}
use loca_agent.Model.Source.{Progress}
use loca_agent.Ui.{Line, note, success, dimmed, failure, warning}

-- The line of progressReporter for one report.
unfoldable pub progress_line : Text → StepStatus → Line
progress_line name running = note (name ++ lit " ...")
progress_line name done = success name
progress_line name skipped = dimmed (name ++ lit " (already satisfied)")
progress_line name failed = failure name
progress_line name rolled_back = warning (name ++ lit " (rolled back)")

-- What progressReporter prints over a run, where there is a UI.
unfoldable pub progress_lines : Bool → List Event → List Line
unfolding progress_line
progress_lines has_ui [] = []
progress_lines has_ui (progress name status ∷ es) =
    let rest = progress_lines has_ui es in if has_ui then progress_line name status ∷ rest else rest
progress_lines has_ui (debug _ _ ∷ es) = progress_lines has_ui es
progress_lines has_ui (warn_rollback _ _ ∷ es) = progress_lines has_ui es

-- An int64 from its bits.
abbrev pub signed64 : ℕ → ℤ
signed64 w = if ltb w (2 ^ 63) then pos w else negsuc (2 ^ 64 - w - 1)

-- Go's `/` of an int64 by a positive number rounds towards zero.
abbrev pub quotient : ℤ → ℕ → ℤ
quotient (pos n) d = pos (n / d)
quotient (negsuc n) d = if ltb (suc n) d then pos 0 else negsuc (suc n / d - 1)

abbrev magnitude : ℤ → ℕ
magnitude (pos n) = n
magnitude (negsuc n) = suc n

-- `int(p.Downloaded * 100 / p.Total)`, where the total is positive
unfoldable pub percent : Progress → ℤ
percent p = quotient (signed64 (p.downloaded * 100 % 2 ^ 64)) (magnitude p.total)

-- The condition under which a percentage is printed, given the last one that was.
unfoldable pub is_due : ℤ → ℤ → Bool
is_due last pct = not (int_leb (quotient pct 10) (quotient last 10)) || pct == pos 100

-- The percentages that the callback prints over a series of reports, from its variable `last`, and what
-- it holds in the end. The callback of one Downloader serves all its files.
unfoldable pub shown : ℤ → List Progress → List (Text × ℤ) × ℤ
unfolding percent is_due
shown last [] = ([], last)
shown last (p ∷ ps) =
    let pct = percent p in
    let kept = shown last ps in
    let (later, end) = shown pct ps in
    if is_positive p.total
    then if is_due last pct then ((p.file, pct) ∷ later, end) else kept
    else kept

abbrev download_line : Text × ℤ → Line
download_line (file, pct) =
    dimmed (lit "  downloading " ++ (file ++ (lit ": " ++ (itoa pct ++ lit "%"))))

unfoldable pub download_lines_of : List (Text × ℤ) → List Line
download_lines_of [] = []
download_lines_of (x ∷ xs) = download_line x ∷ download_lines_of xs

-- downloadProgress, whose `last` starts at -1
unfoldable pub download_lines : List Progress → List Line
unfolding shown download_lines_of
download_lines ps = download_lines_of (shown (negsuc 0) ps).0
