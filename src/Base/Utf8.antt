-- ===== src/Base/Utf8.antt =====
-- What the program uses of Go's unicode/utf8.
use Prim.Native.Nat.{ℕ, zero, suc}
use mathlib.Core.Bool.{Bool, ◌&&◌}
use mathlib.Core.List.{[], ◌∷◌}
use loca_agent.Base.Tests.{leb, if◌then◌else◌}
use loca_agent.Base.Equality.{◌==◌, nat_eq}
use loca_agent.Base.Literals.{Text}

abbrev between : ℕ → ℕ → ℕ → Bool
between lo hi c = leb lo c && leb c hi

abbrev continues : ℕ → Bool
continues c = between 0x80 0xbf c

-- The second byte that may follow a first byte.
abbrev second_of : ℕ → ℕ → Bool
second_of c d =
    if c == 0xe0
    then between 0xa0 0xbf d
    else if c == 0xed
    then between 0x80 0x9f d
    else if c == 0xf0
    then between 0x90 0xbf d
    else if c == 0xf4
    then between 0x80 0x8f d
    else continues d

-- How many bytes the rune at the head of a text has that is no ASCII; 0 where the encoding is invalid,
-- where DecodeRune takes one byte for the replacement rune.
unfoldable pub rune_size : Text → ℕ
rune_size (c ∷ d ∷ e ∷ f ∷ s) =
    if between 0xc2 0xdf c && continues d
    then 2
    else if between 0xe0 0xef c && second_of c d && continues e
    then 3
    else if between 0xf0 0xf4 c && second_of c d && continues e && continues f
    then 4
    else 0
rune_size (c ∷ d ∷ e ∷ []) =
    if between 0xc2 0xdf c && continues d
    then 2
    else if between 0xe0 0xef c && second_of c d && continues e
    then 3
    else 0
rune_size (c ∷ d ∷ []) = if between 0xc2 0xdf c && continues d then 2 else 0
rune_size _ = 0

abbrev pred : ℕ → ℕ
pred zero = zero
pred (suc n) = n

count_from : ℕ → Text → ℕ
unfolding rune_size
count_from skip [] = 0
count_from (suc k) (c ∷ s) = count_from k s
count_from zero (c ∷ s) = suc (count_from (pred (rune_size (c ∷ s))) s)

-- utf8.RuneCountInString
unfoldable pub rune_count : Text → ℕ
unfolding count_from
rune_count s = count_from 0 s
