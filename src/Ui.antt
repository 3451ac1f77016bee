-- ===== src/Ui.antt =====
-- internal/ui: what is printed and what is read, over the bytes of the two streams.
pub mod Answers
use loca_agent.Base.{
  Text, lit, List, [], ◌∷◌, ◌++◌, Option, none, some, Bool, true, false, ◌==◌, ◌||◌, text_eq,
  nat_eq,
}
use loca_agent.Base.{if◌then◌else◌, trim_space, to_lower}

-- The formatted text of a call of Headingf, Notef, Printf, Successf, Failf, Warnf or Dimf.
pub data Line : Type 0 where
  heading note plain_line success failure warning dimmed : Text → Line

-- UI's writer and reader: the bytes written so far, and those not yet read.
pub record Console : Type 0 where
  pub out : Text
  pub input : Text

abbrev escape : Text → Text
escape code = 27 ∷ code

abbrev reset : Text
reset = escape (lit "[0m")

-- UI.paint
unfoldable pub paint : Bool → Text → Text → Text
paint color code s = if color then escape code ++ (s ++ reset) else s

-- The line that each call writes, before its line break.
unfoldable pub line_text : Bool → Line → Text
unfolding paint
line_text color (plain_line s) = s
line_text color (success s) = paint color (lit "[32m") (lit "✓ ") ++ s
line_text color (failure s) = paint color (lit "[31m") (lit "✗ ") ++ s
line_text color (warning s) = paint color (lit "[33m") (lit "! ") ++ s
line_text color (note s) = paint color (lit "[36m") (lit "› ") ++ s
line_text color (heading s) = paint color (lit "[1m") s
line_text color (dimmed s) = paint color (lit "[90m") s

unfoldable pub print_line : Bool → Line → Console → Console
print_line color l c = record c { out = c.out ++ (line_text color l ++ (10 ∷ [])) }

unfoldable pub print_lines : Bool → List Line → Console → Console
print_lines color [] c = c
print_lines color (l ∷ ls) c = print_lines color ls (print_line color l c)

-- ReadString('\n') where there is a line break: the text before it, and what is left.
unfoldable pub break_line : Text → Option (Text × Text)
break_line [] = none
break_line (c ∷ s) =
    let later = break_line s in
    if c == 10
    then some ([], s)
    else elim later [ none ↦ none | some (line, rest) ↦ some (c ∷ line, rest) ]

-- ReadString('\n'). At the end of the stream its error comes with what was left, which is read too.
unfoldable pub read_line : Console → Option Text × Console
unfolding break_line
read_line c = elim (break_line c.input) [
  | none ↦ (none, record c { input = [] })
  | some (line, rest) ↦ (some line, record c { input = rest })
]

abbrev answer_or : Text → Option Text → Text
answer_or def none = def
answer_or def (some line) = if trim_space line == [] then def else trim_space line

-- UI.Prompt
unfoldable pub prompt : Text → Text → Console → Text × Console
prompt question def c =
    let asked = question ++ (if def == [] then lit ": " else lit " [" ++ (def ++ lit "]: ")) in
    let (line, c') = read_line (record c { out = c.out ++ asked }) in (answer_or def line, c')

-- The switch of Confirm.
unfoldable pub yes_or_no : Bool → Text → Bool
yes_or_no def line =
    let word = to_lower (trim_space line) in
    if word == lit "y" || word == lit "yes"
    then true
    else if word == lit "n" || word == lit "no"
    then false
    else def

abbrev confirmed_by : Bool → Option Text → Bool
confirmed_by def none = def
confirmed_by def (some line) = yes_or_no def line

-- UI.Confirm
unfoldable pub confirm : Text → Bool → Console → Bool × Console
confirm question def c =
    let asked = question ++ (if def then lit " [Y/n] " else lit " [y/N] ") in
    let (line, c') = read_line (record c { out = c.out ++ asked }) in (confirmed_by def line, c')

-- ColorEnabled: whether NO_COLOR is set, and, where Stat succeeds, whether stdout is a terminal
unfoldable pub color_enabled : Bool → Option Bool → Bool
color_enabled no_color terminal = elim no_color [
  | true ↦ false
  | false ↦ elim terminal [ none ↦ false | some t ↦ t ]
]
