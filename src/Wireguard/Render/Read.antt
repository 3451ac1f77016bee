-- ===== src/Wireguard/Render/Read.antt =====
-- A reader of the files of wg-quick: sections with a header, settings `key = value`, comments behind a
-- `#` and blank lines. It is written from the format and not from the template.
use loca_agent.Base.{
  Text, List, [], ◌∷◌, ◌==◌, nat_eq, text_eq, if◌then◌else◌, Option, none, some, trim_space, split,
}

pub record Section : Type 0 where
  pub header : Text
  pub entries : List (Text × Text)

pub data ConfLine : Type 0 where
  blank broken : ConfLine
  title : Text → ConfLine
  setting : Text → Text → ConfLine

unfoldable pub cut_comment : Text → Text
cut_comment [] = []
cut_comment (c ∷ s) = let rest = cut_comment s in if c == b'#' then [] else c ∷ rest

-- What stands before the first `=`, and what behind it.
unfoldable pub cut_equals : Text → Option (Text × Text)
cut_equals [] = none
cut_equals (c ∷ s) =
    let rest = cut_equals s in
    if c == b'='
    then some ([], s)
    else elim rest [ none ↦ none | some (key, value) ↦ some (c ∷ key, value) ]

abbrev pub trimmed : Option (Text × Text) → ConfLine
trimmed none = broken
trimmed (some (key, value)) = setting (trim_space key) (trim_space value)

-- The kind of a line, from the line without space around it and the line itself.
abbrev pub kind : Text → Text → ConfLine
kind [] line = blank
kind (c ∷ s) line = if c == b'[' then title (c ∷ s) else trimmed (cut_equals line)

unfoldable pub line_kind : Text → ConfLine
unfolding cut_comment cut_equals
line_kind line = kind (trim_space (cut_comment line)) (cut_comment line)

-- The settings before the first header, and the sections.
abbrev pub Found : Type 0
Found = Option (List (Text × Text) × List Section)

abbrev pub with_line : ConfLine → Found → Found
with_line l none = none
with_line blank (some found) = some found
with_line broken (some found) = none
with_line (title h) (some (before, sections)) =
    some ([], record { header = h; entries = before } ∷ sections)
with_line (setting key value) (some (before, sections)) = some ((key, value) ∷ before, sections)

unfoldable pub read_lines : List Text → Found
unfolding line_kind
read_lines [] = some ([], [])
read_lines (line ∷ lines) = with_line (line_kind line) (read_lines lines)

abbrev pub headed : Found → Option (List Section)
headed (some ([], sections)) = some sections
headed _ = none

-- No setting may stand before the first header.
unfoldable pub read_file : Text → Option (List Section)
unfolding read_lines
read_file text = headed (read_lines (split 10 text))
