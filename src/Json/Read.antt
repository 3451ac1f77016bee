-- ===== src/Json/Read.antt =====
-- A reader of JSON (RFC 8259) without numbers, arrays and literals, to read what internal/opencode
-- writes. It is written from the grammar and not from the encoder.
use loca_agent.Base.{
  Text, ℕ, zero, suc, ◌+◌, ◌-◌, ◌*◌, ◌/◌, ◌%◌, List, [], ◌∷◌, ◌++◌, ◌==◌, ◌||◌, ◌&&◌, nat_eq, ltb,
  leb, Bool, if◌then◌else◌, Option, none, some, length,
}

pub data Token : Type 0 where
  text : Text → Token
  left_brace right_brace colon comma : Token

-- Where in a text the reader is: outside of a string, in it, behind a backslash, or behind `\u` with
-- so many digits to come after the next one and the value of those before.
pub data Place : Type 0 where
  outside inside escaping : Place
  unicode : ℕ → ℕ → Place

abbrev pub put : Token → Option (List Token) → Option (List Token)
put t none = none
put t (some ts) = some (t ∷ ts)

abbrev space : ℕ → Bool
space c = c == 32 || c == 9 || c == 10 || c == 13

abbrev pub punctuation : ℕ → Option Token
punctuation c =
    if c == b'{'
    then some left_brace
    else if c == b'}'
    then some right_brace
    else if c == b':'
    then some colon
    else if c == b','
    then some comma
    else none

abbrev pub unescape : ℕ → Option ℕ
unescape c =
    if c == b'"' || c == b'\\' || c == b'/'
    then some c
    else if c == b'b'
    then some 8
    else if c == b'f'
    then some 12
    else if c == b'n'
    then some 10
    else if c == b'r'
    then some 13
    else if c == b't'
    then some 9
    else none

abbrev pub hex_value : ℕ → Option ℕ
hex_value c =
    if leb b'0' c && leb c b'9'
    then some (c - b'0')
    else if leb b'a' c && leb c b'f'
    then some (c - 87)
    else if leb b'A' c && leb c b'F'
    then some (c - 55)
    else none

-- The bytes of a code point below 0x10000; halves of surrogate pairs are refused.
abbrev pub utf8 : ℕ → Option Text
utf8 v =
    if ltb v 0x80
    then some (v ∷ [])
    else if ltb v 0x800
    then some ((0xc0 + v / 64) ∷ (0x80 + v % 64) ∷ [])
    else if leb 0xd800 v && leb v 0xdfff
    then none
    else some ((0xe0 + v / 4096) ∷ (0x80 + v / 64 % 64) ∷ (0x80 + v % 64) ∷ [])

-- `read` is what the string holds so far.
unfoldable pub tokens_from : Place → Text → Text → Option (List Token)
tokens_from outside read [] = some []
tokens_from inside read [] = none
tokens_from escaping read [] = none
tokens_from (unicode left value) read [] = none
tokens_from outside read (c ∷ s) =
    let on = tokens_from outside [] s in
    let start = tokens_from inside [] s in
    if space c
    then on
    else if c == b'"'
    then start
    else elim (punctuation c) [ none ↦ none | some t ↦ put t on ]
tokens_from inside read (c ∷ s) =
    let end = tokens_from outside [] s in
    let escape = tokens_from escaping read s in
    let on = tokens_from inside (read ++ (c ∷ [])) s in
    if c == b'"'
    then put (text read) end
    else if c == b'\\'
    then escape
    else if ltb c 32
    then none
    else on
tokens_from escaping read (c ∷ s) =
    let digits = tokens_from (unicode 3 0) read s in
    if c == b'u'
    then digits
    else elim (unescape c) [ none ↦ none | some v ↦ tokens_from inside (read ++ (v ∷ [])) s ]
tokens_from (unicode zero value) read (c ∷ s) = elim (hex_value c) [
  | none ↦ none
  | some d ↦ elim (utf8 (value * 16 + d)) [
    | none ↦ none
    | some bytes ↦ tokens_from inside (read ++ bytes) s
  ]
]
tokens_from (unicode (suc left) value) read (c ∷ s) = elim (hex_value c) [
  | none ↦ none
  | some d ↦ tokens_from (unicode left (value * 16 + d)) read s
]

mutual
  pub data Json : Type 0 where
    string : Text → Json
    object : Members → Json

  pub data Members : Type 0 where
    no_members : Members
    member : Text → Json → Members → Members

abbrev Next : Type 0
Next = List Token → Option (Members × List Token)

-- What stands behind the value of a member.
abbrev after : Next → Text → Json → Next
after next key v (right_brace ∷ rest) = some (member key v no_members, rest)
after next key v (comma ∷ rest) = elim (next rest) [
  | none ↦ none
  | some (ms, rest') ↦ some (member key v ms, rest')
]
after next key v _ = none

-- The value behind a colon.
abbrev value_of : Next → Text → Next
value_of next key (text v ∷ rest) = after next key (string v) rest
value_of next key (left_brace ∷ right_brace ∷ rest) = after next key (object no_members) rest
value_of next key (left_brace ∷ rest) = elim (next rest) [
  | none ↦ none
  | some (ms, rest') ↦ after next key (object ms) rest'
]
value_of next key _ = none

-- The members of an object, up to its closing brace. Each call reads a token at least.
unfoldable pub members : ℕ → Next
members (suc fuel) (text key ∷ colon ∷ rest) = value_of (members fuel) key rest
members _ _ = none

abbrev pub value : List Token → Option Json
value (text s ∷ []) = some (string s)
value (left_brace ∷ right_brace ∷ []) = some (object no_members)
value (left_brace ∷ rest) = elim (members (length rest) rest) [
  | some (ms, []) ↦ some (object ms)
  | _ ↦ none
]
value _ = none

-- A text that is one JSON value.
unfoldable pub read_json : Text → Option Json
unfolding tokens_from members
read_json s = elim (tokens_from outside [] s) [ none ↦ none | some ts ↦ value ts ]
