-- ===== src/Base/Strings.antt =====
-- What the program uses of Go's package `strings`. Case mapping and white space are those of ASCII.
use Prim.Native.Nat.{ℕ, zero, suc, ◌+◌, ◌-◌}
use mathlib.Core.Bool.{Bool, true, false, ◌&&◌, ◌||◌}
use mathlib.Core.List.{List, [], ◌∷◌, ◌++◌, map}
use mathlib.Core.Option.{Option, none, some}
use mathlib.Core.Logic.{inl, inr}
use loca_agent.Base.Tests.{Bool-cases, leb, if◌then◌else◌, is_some}
use loca_agent.Base.Equality.{◌==◌, nat_eq, text_eq}
use mathlib.Core.Path.{◌≡◌, refl, ap, ◌∙◌}
use native.Mathlib.Omega.{arith}
use loca_agent.Base.Lists.{length, All}
use loca_agent.Base.Literals.{Text}

-- The text behind a prefix, if it has that prefix.
unfoldable pub strip_prefix : Text → Text → Option Text
strip_prefix [] s = some s
strip_prefix (p ∷ ps) [] = none
strip_prefix (p ∷ ps) (c ∷ s) = if p == c then strip_prefix ps s else none

-- strings.HasPrefix
unfoldable pub has_prefix : Text → Text → Bool
unfolding strip_prefix
has_prefix s prefix = is_some (strip_prefix prefix s)

-- A text with a prefix is the prefix and what stands behind it.
pub has_prefix-split : (p s : Text) → has_prefix s p ≡ true → (t : Text) × (s ≡ p ++ t)
unfolding has_prefix strip_prefix
has_prefix-split [] s h = (s, refl)
has_prefix-split (p ∷ ps) [] h = absurd cc
has_prefix-split (p ∷ ps) (c ∷ s) h = elim (Bool-cases (p == c)) [
  | inl q ↦
      let (t, e) = has_prefix-split ps s (ground (arith, h, q)) in (t, headed (ground (arith, q)) e)
  | inr q ↦ absurd (ground (arith, h, q))
]
  where
    headed : {c p : ℕ} {s t : Text} → c ≡ p → s ≡ t → c ∷ s ≡ p ∷ t
    headed e f = rw (e, f) refl

-- strings.Contains
unfoldable pub contains : Text → Text → Bool
unfolding has_prefix
contains [] sub = sub == []
contains (c ∷ s) sub = has_prefix (c ∷ s) sub || contains s sub

unfoldable pub lower_byte : ℕ → ℕ
lower_byte c = if leb b'A' c && leb c b'Z' then c + 32 else c

unfoldable pub upper_byte : ℕ → ℕ
upper_byte c = if leb b'a' c && leb c b'z' then c - 32 else c

-- strings.ToLower
unfoldable pub to_lower : Text → Text
unfolding lower_byte
to_lower s = map lower_byte s

-- strings.ToUpper
unfoldable pub to_upper : Text → Text
unfolding upper_byte
to_upper s = map upper_byte s

-- strings.EqualFold
unfoldable pub equal_fold : Text → Text → Bool
unfolding to_lower
equal_fold s t = to_lower s == to_lower t

unfoldable pub is_space : ℕ → Bool
is_space c = c == b' ' || (leb 9 c && leb c 13)

unfoldable pub trim_left : (ℕ → Bool) → Text → Text
trim_left p [] = []
trim_left p (c ∷ s) = if p c then trim_left p s else c ∷ s

-- A trailing run that `p` accepts is dropped.
unfoldable pub trim_right : (ℕ → Bool) → Text → Text
trim_right p [] = []
trim_right p (c ∷ s) = let t = trim_right p s in if p c && t == [] then [] else c ∷ t

-- strings.TrimSpace
unfoldable pub trim_space : Text → Text
unfolding is_space trim_left trim_right
trim_space s = trim_right is_space (trim_left is_space s)

trim_left_none : (s : Text) → All (λ c. is_space c ≡ false) s → trim_left is_space s ≡ s
unfolding trim_left
trim_left_none [] h = refl
trim_left_none (c ∷ s) (hc, h) = ground arith

trim_right_none : (s : Text) → All (λ c. is_space c ≡ false) s → trim_right is_space s ≡ s
unfolding trim_right
trim_right_none [] h = refl
trim_right_none (c ∷ s) (hc, h) = ground (arith, trim_right_none s h)

-- Nothing is trimmed off a text without space.
pub trim_space_none : (s : Text) → All (λ c. is_space c ≡ false) s → trim_space s ≡ s
unfolding trim_space
trim_space_none s h = ap (trim_right is_space) (trim_left_none s h) ∙ trim_right_none s h

-- The text that replaces a pattern found here, and how many more bytes the pattern takes.
-- The patterns are tried in the order of the arguments, and none is empty.
unfoldable pub match_here : List (Text × Text) → Text → Option (ℕ × Text)
unfolding has_prefix
match_here [] s = none
match_here ((old, new) ∷ pairs) s =
    if has_prefix s old then some (length old - 1, new) else match_here pairs s

replace_from : List (Text × Text) → ℕ → Text → Text
replace_from pairs skip [] = []
replace_from pairs (suc k) (c ∷ s) = replace_from pairs k s
replace_from pairs zero (c ∷ s) = elim (match_here pairs (c ∷ s)) [
  | none ↦ c ∷ replace_from pairs zero s
  | some (k, new) ↦ new ++ replace_from pairs k s
]

-- strings.NewReplacer(...).Replace
unfoldable pub replace : List (Text × Text) → Text → Text
unfolding replace_from match_here
replace pairs s = replace_from pairs 0 s

-- strings.ReplaceAll
unfoldable pub replace_all : Text → Text → Text → Text
unfolding replace
replace_all s old new = replace ((old, new) ∷ []) s

-- strings.Join
unfoldable pub join : List Text → Text → Text
join [] sep = []
join (x ∷ []) sep = x
join (x ∷ y ∷ xs) sep = x ++ (sep ++ join (y ∷ xs) sep)

-- strings.Split by one byte: never empty.
unfoldable pub split : ℕ → Text → List Text
split sep [] = [] ∷ []
split sep (c ∷ s) = elim (split sep s) [
  | [] ↦ (c ∷ []) ∷ []
  | part ∷ parts ↦ if c == sep then [] ∷ part ∷ parts else (c ∷ part) ∷ parts
]

-- strings.Cut: the text before and behind the first occurrence of a separator that is not empty
unfoldable pub cut : Text → Text → Option (Text × Text)
unfolding strip_prefix
cut [] sep = none
cut (c ∷ s) sep =
    let later = cut s sep in
    elim (strip_prefix sep (c ∷ s)) [
      | some rest ↦ some ([], rest)
      | none ↦ elim later [ none ↦ none | some (before, after) ↦ some (c ∷ before, after) ]
    ]

-- The first of the fields is still open, and it is dropped where it is empty.
abbrev close_field : List Text → List Text
close_field [] = []
close_field (f ∷ fs) = if f == [] then fs else f ∷ fs

open_fields : Text → List Text
unfolding is_space
open_fields [] = [] ∷ []
open_fields (c ∷ s) = elim (open_fields s) [
  | [] ↦ (c ∷ []) ∷ []
  | f ∷ fs ↦ if is_space c then [] ∷ close_field (f ∷ fs) else (c ∷ f) ∷ fs
]

-- strings.Fields
unfoldable pub fields : Text → List Text
unfolding open_fields
fields s = close_field (open_fields s)

-- A "\r" at the end of a line is dropped.
drop_return : Text → Text
drop_return [] = []
drop_return (c ∷ []) = if c == 13 then [] else c ∷ []
drop_return (c ∷ d ∷ s) = c ∷ drop_return (d ∷ s)

drop_last_empty : List Text → List Text
drop_last_empty [] = []
drop_last_empty (l ∷ []) = if l == [] then [] else l ∷ []
drop_last_empty (l ∷ m ∷ ls) = l ∷ drop_last_empty (m ∷ ls)

-- bufio.ScanLines, of lines that its buffer holds
unfoldable pub scan_lines : Text → List Text
unfolding drop_return drop_last_empty
scan_lines s = map drop_return (drop_last_empty (split 10 s))
