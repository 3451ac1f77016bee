-- ===== src/Model/Source/Range.antt =====
-- The total of a Content-Range header (internal/model/source.go).
use loca_agent.Base.{
  Text, ℕ, ◌^◌, ◌<◌, ◌≤◌, [], ◌∷◌, ◌++◌, none, some, false, true, ◌==◌, nat_eq, ltb, All, All-map,
}
use loca_agent.Base.{
  ◌≡◌, refl, arith, pos, parse_int, parse_digits, parse_digits-format_nat, format_nat-digits,
  format_nat, is_space, trim_space_none,
}
use loca_agent.Model.Source.{after_slash, total_from_content_range}

abbrev IsDigit : ℕ → Type 0
IsDigit c = (b'0' ≤ c) × (c ≤ b'9')

shows : (c : ℕ) → IsDigit c → is_space c ≡ false
unfolding is_space
shows c (low, high) = ground arith

after_slash-digits : (s : Text) → All IsDigit s → after_slash s ≡ none
unfolding after_slash
after_slash-digits [] h = refl
after_slash-digits (c ∷ s) ((low, high), h) = ground (arith, after_slash-digits s h)

after_slash-append : (before s : Text) → All IsDigit s → after_slash (before ++ (b'/' ∷ s)) ≡ some s
unfolding after_slash
after_slash-append [] s h = rw (after_slash-digits s h, after_slash) refl
after_slash-append (c ∷ before) s h = rw (after_slash-append before s h, after_slash) refl

no_plus : (c : ℕ) → b'0' ≤ c → (c == b'+') ≡ false
no_plus c low = ground arith

no_minus : (c : ℕ) → b'0' ≤ c → (c == b'-') ≡ false
no_minus c low = ground arith

below : (n : ℕ) → n < 2 ^ 63 → ltb n (2 ^ 63) ≡ true
below n small = ground arith

parse_int-digits :
    (s : Text) (n : ℕ)
    → All IsDigit s
    → n < 2 ^ 63
    → parse_digits s ≡ some n
    → parse_int s ≡ some (pos n)
unfolding parse_int
parse_int-digits [] n h small q = absurd (unfold parse_digits in cc)
parse_int-digits (c ∷ s) n ((low, high), h) small q =
    rw (no_plus c low, no_minus c low, q, parse_int) (rw (below n small) refl)

-- The total of a range "…/n" is n, whatever stands before its last slash, where n is an int64.
pub total_from_content_range-format_nat :
    (before : Text) (n : ℕ)
    → n < 2 ^ 63
    → total_from_content_range (before ++ (b'/' ∷ format_nat n)) ≡ pos n
unfolding total_from_content_range
total_from_content_range-format_nat before n small =
    let digits = format_nat-digits n in
    rw
      (
        after_slash-append before (format_nat n) digits,
        trim_space_none (format_nat n) (All-map IsDigit _ shows (format_nat n) digits),
        parse_int-digits (format_nat n) n digits small (parse_digits-format_nat n),
        total_from_content_range,
      )
      refl
