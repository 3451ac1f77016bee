-- ===== src/Json.antt =====
-- What internal/opencode uses of Go's encoding/json: Marshal of a string. It escapes for HTML.
pub mod Read
pub mod Escapes
pub mod Runes
pub mod Strings
use loca_agent.Base.{
  Text, lit, ℕ, zero, suc, ◌+◌, ◌-◌, ◌/◌, ◌%◌, [], ◌∷◌, ◌++◌, ◌==◌, ◌||◌, nat_eq, text_eq, ltb,
  Bool, true, false,
}
use loca_agent.Base.{if◌then◌else◌, rune_size, has_prefix, hex_digit}

-- An escape with two hexadecimal digits.
abbrev pub short_unicode : ℕ → Text
short_unicode c = b'\\' ∷ b'u' ∷ b'0' ∷ b'0' ∷ hex_digit (c / 16) ∷ hex_digit (c % 16) ∷ []

-- An ASCII byte between the quotes.
unfoldable pub escape_byte : ℕ → Text
escape_byte c =
    if c == b'"' || c == b'\\'
    then b'\\' ∷ c ∷ []
    else if c == 8
    then b'\\' ∷ b'b' ∷ []
    else if c == 12
    then b'\\' ∷ b'f' ∷ []
    else if c == 10
    then b'\\' ∷ b'n' ∷ []
    else if c == 13
    then b'\\' ∷ b'r' ∷ []
    else if c == 9
    then b'\\' ∷ b't' ∷ []
    else if ltb c 32 || c == b'<' || c == b'>' || c == b'&'
    then short_unicode c
    else c ∷ []

-- U+2028 and U+2029, which JavaScript takes for line breaks
unfoldable pub line_separator : Text → Text
line_separator s =
    if has_prefix s (0xe2 ∷ 0x80 ∷ 0xa8 ∷ [])
    then lit "\\u2028"
    else if has_prefix s (0xe2 ∷ 0x80 ∷ 0xa9 ∷ [])
    then lit "\\u2029"
    else []

-- The bytes that are left of a rune are copied, or dropped where the rune was escaped.
unfoldable pub escape_from : Bool → ℕ → Text → Text
unfolding escape_byte line_separator rune_size
escape_from copied skip [] = []
escape_from copied (suc n) (c ∷ s) =
    let rest = escape_from copied n s in if copied then c ∷ rest else rest
escape_from copied zero (c ∷ s) =
    let next = escape_from true 0 s in
    let copy = escape_from true (rune_size (c ∷ s) - 1) s in
    let drop = escape_from false (rune_size (c ∷ s) - 1) s in
    if ltb c 128
    then escape_byte c ++ next
    else if rune_size (c ∷ s) == 0
    then lit "\\ufffd" ++ next
    else if line_separator (c ∷ s) == []
    then c ∷ copy
    else line_separator (c ∷ s) ++ drop

-- json.Marshal of a string
unfoldable pub json_string : Text → Text
unfolding escape_from
json_string s = b'"' ∷ (escape_from true 0 s ++ (b'"' ∷ []))
