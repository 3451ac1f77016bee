-- ===== src/Base/Decimal.antt =====
-- strconv.Itoa and strconv.ParseInt in base 10.
use Prim.Native.Nat.{ℕ, zero, suc, ◌+◌, ◌-◌, ◌*◌, ◌/◌, ◌%◌, ◌^◌, ◌<◌, ◌≤◌}
use mathlib.Core.Path.{◌≡◌, refl}
use mathlib.Core.Logic.{◌≢◌, inl, inr}
use mathlib.Core.Bool.{◌&&◌, true}
use mathlib.Core.List.{[], ◌∷◌}
use mathlib.Core.Option.{Option, none, some}
use native.Mathlib.Omega.{arith}
use loca_agent.Base.Tests.{ltb, leb, if◌then◌else◌, Bool-cases}
use loca_agent.Base.Equality.{◌==◌, nat_eq}
use loca_agent.Base.Lists.{All}
use loca_agent.Base.Literals.{Text}
use loca_agent.Base.Int.{ℤ, pos, negsuc}

-- The digits of `n` before `out`. A number below 10 ^ fuel needs no more rounds than `fuel`.
digits : ℕ → ℕ → Text → Text
digits zero n out = out
digits (suc fuel) n out =
    let rest = digits fuel (n / 10) ((b'0' + n % 10) ∷ out) in
    if ltb n 10 then (b'0' + n) ∷ out else rest

-- The fuel is more than the number of digits.
unfoldable pub format_nat : ℕ → Text
unfolding digits
format_nat n = digits (suc n) n []

unfoldable pub itoa : ℤ → Text
unfolding format_nat
itoa (pos n) = format_nat n
itoa (negsuc n) = b'-' ∷ format_nat (suc n)

scan : ℕ → Text → Option ℕ
scan n [] = some n
scan n (c ∷ s) = if leb b'0' c && leb c b'9' then scan (n * 10 + (c - b'0')) s else none

unfoldable pub parse_digits : Text → Option ℕ
unfolding scan
parse_digits [] = none
parse_digits (c ∷ s) = scan 0 (c ∷ s)

-- strconv.ParseUint(s, 10, 64)
unfoldable pub parse_uint : Text → Option ℕ
unfolding parse_digits
parse_uint s = elim (parse_digits s) [
  | none ↦ none
  | some n ↦ if ltb n (2 ^ 64) then some n else none
]

abbrev positive_int : Option ℕ → Option ℤ
positive_int none = none
positive_int (some n) = if ltb n (2 ^ 63) then some (pos n) else none

abbrev negative_int : Option ℕ → Option ℤ
negative_int none = none
negative_int (some zero) = some (pos 0)
negative_int (some (suc n)) = if ltb n (2 ^ 63) then some (negsuc n) else none

-- strconv.ParseInt(s, 10, 64): an optional sign, digits, and a value that fits.
unfoldable pub parse_int : Text → Option ℤ
unfolding parse_digits
parse_int [] = none
parse_int (c ∷ s) =
    if c == b'+'
    then positive_int (parse_digits s)
    else if c == b'-'
    then negative_int (parse_digits s)
    else positive_int (parse_digits (c ∷ s))

-- Reading back what was printed.
scan-digits : (fuel n : ℕ) (out : Text) → n < fuel → scan 0 (digits fuel n out) ≡ scan n out
unfolding digits scan
scan-digits zero n out h = absurd (omega arith)
scan-digits (suc fuel) n out h = ground (arith, scan-digits fuel (n / 10) ((b'0' + n % 10) ∷ out))

digits-ne-nil : (fuel n : ℕ) (out : Text) → out ≢ [] → digits fuel n out ≢ []
unfolding digits
digits-ne-nil zero n out h = h
digits-ne-nil (suc fuel) n out h =
    ground (arith, digits-ne-nil fuel (n / 10) ((b'0' + n % 10) ∷ out))

format_nat-ne-nil : (n : ℕ) → format_nat n ≢ []
unfolding format_nat
format_nat-ne-nil n = ground (arith, digits-ne-nil n (n / 10) ((b'0' + n % 10) ∷ []))

parse_digits-scan : (s : Text) → s ≢ [] → parse_digits s ≡ scan 0 s
unfolding parse_digits
parse_digits-scan [] h = absurd (h refl)
parse_digits-scan (c ∷ s) h = refl

pub parse_digits-format_nat : (n : ℕ) → parse_digits (format_nat n) ≡ some n
parse_digits-format_nat n =
    rw (parse_digits-scan (format_nat n) (format_nat-ne-nil n))
      (unfold format_nat scan in scan-digits (suc n) n [] (omega arith))

digits-All :
    (fuel n : ℕ) (out : Text)
    → All (λ c. (b'0' ≤ c) × (c ≤ b'9')) out
    → All (λ c. (b'0' ≤ c) × (c ≤ b'9')) (digits fuel n out)
unfolding digits
digits-All zero n out h = h
digits-All (suc fuel) n out h = elim (Bool-cases (ltb n 10)) [
  | inl last ↦ rw (last, digits) ((omega arith, one_digit n last), h)
  | inr more ↦
      rw (more, digits)
        (digits-All fuel (n / 10) ((b'0' + n % 10) ∷ out) ((omega arith, omega arith), h))
]
  where
    one_digit : (n : ℕ) → ltb n 10 ≡ true → b'0' + n ≤ b'9'
    one_digit n last = ground arith

pub format_nat-digits : (n : ℕ) → All (λ c. (b'0' ≤ c) × (c ≤ b'9')) (format_nat n)
unfolding format_nat
format_nat-digits n = digits-All (suc n) n [] tt
