-- ===== src/Platform/Human.antt =====
-- humanBytes of internal/platform/platform.go, with the rounding of float64 and of %.1f.
pub mod Bounds
use loca_agent.Base.{
  Text, lit, ℕ, zero, suc, ◌+◌, ◌-◌, ◌*◌, ◌/◌, ◌%◌, ◌^◌, List, [], ◌∷◌, ◌++◌, Option, none, some,
  ltb, if◌then◌else◌, format_nat, get_elem?, ◌==◌, nat_eq,
}
use loca_agent.Platform.{SystemInfo}

-- The quotient rounded to the nearest number, and to the even one of two that are equally near.
unfoldable pub round_even : ℕ → ℕ → ℕ
round_even n d =
    let q = n / d in
    let twice = n % d * 2 in
    if ltb twice d then q else if ltb d twice then suc q else if q % 2 == 0 then q else suc q

-- The least power of two, `2 ^ k`, by which a number has at most 53 binary digits.
spare : ℕ → ℕ → ℕ
spare zero n = 0
spare (suc fuel) n = let more = spare fuel (n / 2) in if ltb n (2 ^ 53) then 0 else suc more

-- float64(b) of a uint64: 53 significant digits.
unfoldable pub to_float : ℕ → ℕ
unfolding spare round_even
to_float b = round_even b (2 ^ spare 64 b) * 2 ^ spare 64 b

-- The loop: `div` in uint64 and `exp`, from `n`. The fuel bounds the rounds.
unfoldable pub scale : ℕ → ℕ → ℕ → ℕ → ℕ × ℕ
scale zero n div exp = (div, exp)
scale (suc fuel) n div exp =
    let more = scale fuel (n / 1024) (div * 1024 % 2 ^ 64) (suc exp) in
    if ltb n 1024 then (div, exp) else more

abbrev pub units : List ℕ
units = b'K' ∷ b'M' ∷ b'G' ∷ b'T' ∷ b'P' ∷ b'E' ∷ []

-- %.1f of float64(b) / float64(div), where div is a power of two, so that the division is exact
unfoldable pub tenths : ℕ → ℕ → ℕ
unfolding to_float round_even
tenths b div = round_even (to_float b * 10) div

-- A number of tenths, and its unit: what "%.1f %ciB" prints
abbrev pub with_unit : ℕ → ℕ → Text
with_unit t unit = format_nat (t / 10) ++ (b'.' ∷ (b'0' + t % 10) ∷ b' ' ∷ unit ∷ b'i' ∷ b'B' ∷ [])

-- humanBytes. Go panics where the unit is out of range, and the model returns `none`.
unfoldable pub human_bytes : ℕ → Option Text
unfolding scale tenths
human_bytes b =
    if ltb b 1024
    then some (format_nat b ++ lit " B")
    else let (div, exp) = scale 64 (b / 1024) 1024 0 in
      elim (get_elem? units exp) [ none ↦ none | some unit ↦ some (with_unit (tenths b div) unit) ]

-- SystemInfo.RAMHuman
unfoldable pub ram_human : SystemInfo → Option Text
ram_human si = human_bytes si.ram_bytes
