-- ===== src/Base/Literals.antt =====
-- Go strings: sequences of bytes. A literal is `lit "..."`, in UTF-8.
use Prim.Native.Nat.{ℕ, ◌+◌, ◌/◌, ◌%◌}
use Prim.Native.Char.{code}
use Prim.Native.String.{String}
use mathlib.Core.List.{List, [], ◌∷◌, ◌++◌}
use loca_agent.Base.Tests.{ltb, if◌then◌else◌}

abbrev pub Text : Type 0
Text = List ℕ

-- The UTF-8 bytes of a code point.
unfoldable pub utf8 : ℕ → Text
utf8 n =
    if ltb n 128
    then n ∷ []
    else if ltb n 2048
    then (192 + n / 64) ∷ (128 + n % 64) ∷ []
    else if ltb n 65536
    then (224 + n / 4096) ∷ (128 + n / 64 % 64) ∷ (128 + n % 64) ∷ []
    else (240 + n / 262144) ∷ (128 + n / 4096 % 64) ∷ (128 + n / 64 % 64) ∷ (128 + n % 64) ∷ []

-- A string literal of the source. It stays shut in proofs: a literal is an unknown text there.
unfoldable pub lit : String → Text
unfolding utf8
lit String.[] = []
lit (String.◌∷◌ c s) = utf8 (code c) ++ lit s
