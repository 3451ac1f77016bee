-- ===== src/Wireguard/Render/Reads.antt =====
-- Reading the lines that internal/wireguard/config.go renders, each with the text behind it.
use loca_agent.Base.{
  suc, Text, lit, ℕ, ℤ, pos, negsuc, List, [], ◌∷◌, ◌++◌, ◌==◌, nat_eq, text_eq, int_eq, Bool, true,
  false, if◌then◌else◌, some, split, All, All-map, All-append, ◌≡◌, ◌≢◌, refl, inl, inr, Bool-cases,
  arith, itoa, is_space, trim_space, trim_left, trim_right, trim_space_none, format_nat,
  format_nat-digits, ◌≤◌,
}
use mathlib.Core.Path.{subst}
use loca_agent.Wireguard.Render.{
  text_setting, int_setting, render_interface, render_peer, render_peers, render,
}
use loca_agent.Wireguard.Render as Render
use loca_agent.Wireguard.Render.Read.{Section, line_kind, read_lines, Found, with_line, cut_comment}
use loca_agent.Wireguard.Render.Lines.{IsOneLine, IsValue, key_byte, all_key, line_kind-setting}

-- What a line may be left out for holds nothing.
abbrev pub shown : Text → Text → List (Text × Text)
shown key v = if v == [] then [] else (key, v) ∷ []

abbrev pub shown_int : Text → ℤ → List (Text × Text)
shown_int key n = if n == pos 0 then [] else (key, itoa n) ∷ []

split-cases :
    (sep : ℕ) (s : Text) → (part : Text) × (parts : List Text) × (split sep s ≡ part ∷ parts)
unfolding split
split-cases sep [] = ([], [], refl)
split-cases sep (c ∷ s) =
    let (part, parts, q) = split-cases sep s in
    elim (Bool-cases (c == sep)) [
      | inl h ↦ ([], part ∷ parts, rw (q, h, split) refl)
      | inr h ↦ (c ∷ part, parts, rw (q, h, split) refl)
    ]

pub split-line : (l t : Text) → IsOneLine l → split 10 (l ++ (10 ∷ t)) ≡ l ∷ split 10 t
unfolding split
split-line [] t h = let (part, parts, q) = split-cases 10 t in rw q refl
split-line (c ∷ l) t (other, h) = rw (split-line l t h, no_break, split) refl
  where
    no_break : (c == 10) ≡ false
    no_break = ground arith

-- A line break at the start ends an empty line.
pub behind_break :
    (t : Text) (found : List (Text × Text) × List Section)
    → read_lines (split 10 t) ≡ some found
    → read_lines (split 10 (10 ∷ t)) ≡ some found
unfolding read_lines line_kind cut_comment trim_space trim_left trim_right
behind_break t found q = rw (split-line [] t tt, q, read_lines) refl

-- A text that starts with a line break, and what is found behind that.
abbrev pub Reads : Text → Found → Type 0
Reads tail r = (t : Text) × (tail ≡ 10 ∷ t) × (read_lines (split 10 t) ≡ r)

pub Reads-line :
    (l tail : Text) (r : Found)
    → IsOneLine l
    → Reads tail r
    → Reads (10 ∷ (l ++ tail)) (with_line (line_kind l) r)
unfolding read_lines
Reads-line l tail r h (t, e, q) = (l ++ tail, refl, rw (e, split-line l t h, q, read_lines) refl)

key-IsOneLine : (key : Text) → all_key key ≡ true → IsOneLine key
unfolding all_key key_byte is_space
key-IsOneLine [] h = tt
key-IsOneLine (c ∷ key) h = (λ e. ground arith, key-IsOneLine key (ground arith))

-- A digit or a minus sign.
abbrev IsNumeral : ℕ → Type 0
IsNumeral c = (b'-' ≤ c) × (c ≤ b'9')

numerals-IsValue : (v : Text) → All IsNumeral v → IsValue v
unfolding is_space
numerals-IsValue v h = record {
  one_line = All-map IsNumeral (λ c. c ≢ 10) (λ c n e. omega arith) v h;
  uncommented = All-map IsNumeral (λ c. c ≢ b'#') (λ c n e. omega arith) v h;
  tight = trim_space_none v (All-map IsNumeral (λ c. is_space c ≡ false) (λ c n. ground arith) v h);
}

format_nat-IsNumeral : (n : ℕ) → All IsNumeral (format_nat n)
format_nat-IsNumeral n =
    All-map (λ c. (b'0' ≤ c) × (c ≤ b'9')) IsNumeral (λ c d. (omega arith, omega arith))
      (format_nat n) (format_nat-digits n)

itoa-IsValue : (n : ℤ) → IsValue (itoa n)
unfolding itoa
itoa-IsValue (pos n) = numerals-IsValue (format_nat n) (format_nat-IsNumeral n)
itoa-IsValue (negsuc n) =
    numerals-IsValue (b'-' ∷ format_nat (suc n))
      ((omega arith, omega arith), format_nat-IsNumeral (suc n))

module _ (es : List (Text × Text)) (ss : List Section) (tail : Text)
    (reads : Reads tail (some (es, ss))) where
  Reads-unless :
      (b : Bool) (line : Text) (given : List (Text × Text))
      → Reads (line ++ tail) (some (given ++ es, ss))
      → Reads ((if b then [] else line) ++ tail) (some ((if b then [] else given) ++ es, ss))
  Reads-unless true line given h = reads
  Reads-unless false line given h = h

  module _ (c : ℕ) (name : Text) (is_key : all_key (c ∷ name) ≡ true) where
    pub Reads-setting :
        (v : Text)
        → IsValue v
        → Reads (Render.setting (c ∷ name) v ++ tail) (some ((c ∷ name, v) ∷ es, ss))
    unfolding lit
    Reads-setting v value =
        subst (λ l. Reads (Render.setting (c ∷ name) v ++ tail) (with_line l (some (es, ss))))
          (line_kind-setting c name v is_key value)
          (Reads-line ((c ∷ name) ++ (lit " = " ++ v)) tail (some (es, ss))
            (All-append (λ b. b ≢ 10) (c ∷ name) (lit " = " ++ v) (key-IsOneLine (c ∷ name) is_key)
              (λ e. omega arith, (λ e. omega arith, (λ e. omega arith, value.one_line))))
            reads)

    pub Reads-text_setting :
        (v : Text)
        → IsValue v
        → Reads (text_setting (c ∷ name) v ++ tail) (some (shown (c ∷ name) v ++ es, ss))
    unfolding text_setting
    Reads-text_setting v value =
        Reads-unless (v == []) (Render.setting (c ∷ name) v) ((c ∷ name, v) ∷ [])
          (Reads-setting v value)

    pub Reads-int_setting :
        (n : ℤ) → Reads (int_setting (c ∷ name) n ++ tail) (some (shown_int (c ∷ name) n ++ es, ss))
    unfolding int_setting
    Reads-int_setting n =
        Reads-unless (n == pos 0) (Render.setting (c ∷ name) (itoa n)) ((c ∷ name, itoa n) ∷ [])
          (Reads-setting (itoa n) (itoa-IsValue n))
