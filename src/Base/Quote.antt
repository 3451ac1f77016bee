-- ===== src/Base/Quote.antt =====
-- fmt's %q. Bytes that are not ASCII stand as they are, as those of printable text do.
use Prim.Native.Nat.{ℕ, ◌+◌, ◌-◌, ◌/◌, ◌%◌}
use mathlib.Core.Bool.{◌&&◌, ◌||◌}
use mathlib.Core.List.{[], ◌∷◌, ◌++◌}
use loca_agent.Base.Tests.{ltb, if◌then◌else◌}
use loca_agent.Base.Equality.{◌==◌, nat_eq}
use loca_agent.Base.Literals.{Text}

abbrev pub hex_digit : ℕ → ℕ
hex_digit n = if ltb n 10 then b'0' + n else b'a' + (n - 10)

-- The letters of \a, \b, \t, \n, \v, \f and \r, which are neighbours.
abbrev control_name : ℕ → ℕ
control_name c =
    if c == 7
    then b'a'
    else if c == 8
    then b'b'
    else if c == 9
    then b't'
    else if c == 10
    then b'n'
    else if c == 11
    then b'v'
    else if c == 12
    then b'f'
    else b'r'

unfoldable pub quote_byte : ℕ → Text
quote_byte c =
    if c == b'"' || c == b'\\'
    then b'\\' ∷ c ∷ []
    else if ltb 6 c && ltb c 14
    then b'\\' ∷ control_name c ∷ []
    else if ltb c 32 || c == 127
    then b'\\' ∷ b'x' ∷ hex_digit (c / 16) ∷ hex_digit (c % 16) ∷ []
    else c ∷ []

unfoldable pub quote_bytes : Text → Text
quote_bytes [] = []
quote_bytes (c ∷ s) = quote_byte c ++ quote_bytes s

unfoldable pub quote : Text → Text
unfolding quote_bytes
quote s = b'"' ∷ (quote_bytes s ++ (b'"' ∷ []))
