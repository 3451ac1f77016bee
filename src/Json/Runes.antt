-- ===== src/Json/Runes.antt =====
-- The runes of a text (unicode/utf8), and what encoding/json writes for each.
use loca_agent.Base.{
  has_prefix-split, Text, lit, ℕ, zero, suc, ◌-◌, [], ◌∷◌, ◌++◌, ◌==◌, nat_eq, text_eq, text_beq,
  ltb, leb, Bool, true, false, if◌then◌else◌, ◌≡◌, refl, sym, ◌⊎◌, inl, inr, Bool-cases, rune_size,
  has_prefix, strip_prefix, arith, ◌&&◌,
}
use mathlib.Core.Path.{subst}
use loca_agent.Json.{escape_byte, escape_from, line_separator}

-- A text with the replacement character in place of each byte that is not part of valid UTF-8.
unfoldable pub valid_from : ℕ → Text → Text
valid_from skip [] = []
valid_from (suc n) (c ∷ s) = c ∷ valid_from n s
valid_from zero (c ∷ s) =
    let next = valid_from 0 s in
    if ltb c 128
    then c ∷ next
    else if rune_size (c ∷ s) == 0
    then 0xef ∷ 0xbf ∷ 0xbd ∷ next
    else c ∷ valid_from (rune_size (c ∷ s) - 1) s

unfoldable pub to_valid : Text → Text
to_valid s = valid_from 0 s

-- So many bytes at the head of a text, each of them no ASCII.
unfoldable pub follows : ℕ → Text → Bool
follows zero s = true
follows (suc n) [] = false
follows (suc n) (c ∷ s) = leb 128 c && follows n s

pub follows-rune_size : (c : ℕ) (s : Text) → follows (rune_size (c ∷ s) - 1) s ≡ true
unfolding rune_size follows
follows-rune_size c [] = refl
follows-rune_size c (d ∷ []) = ground arith
follows-rune_size c (d ∷ e ∷ []) = ground arith
follows-rune_size c (d ∷ e ∷ f ∷ s) = ground arith

unfoldable pub beyond : ℕ → Text → Text
beyond zero s = s
beyond (suc n) [] = []
beyond (suc n) (c ∷ s) = beyond n s

-- What is left of a valid text behind a byte of a rune, or behind the whole rune.
unfoldable pub valid_rest : Bool → ℕ → Text → Text
unfolding valid_from beyond
valid_rest true n s = valid_from n s
valid_rest false n s = valid_from 0 (beyond n s)

pub escape-ascii :
    (c : ℕ) (s : Text)
    → ltb c 128 ≡ true
    → escape_from true 0 (c ∷ s) ≡ escape_byte c ++ escape_from true 0 s
unfolding escape_from
escape-ascii c s h = rw (h, escape_from) refl

pub valid-ascii : (c : ℕ) (s : Text) → ltb c 128 ≡ true → valid_from 0 (c ∷ s) ≡ c ∷ valid_from 0 s
unfolding valid_from
valid-ascii c s h = rw (h, valid_from) refl

pub escape-invalid :
    (c : ℕ) (s : Text)
    → ltb c 128 ≡ false
    → (rune_size (c ∷ s) == 0) ≡ true
    → escape_from true 0 (c ∷ s) ≡ lit "\\ufffd" ++ escape_from true 0 s
unfolding escape_from
escape-invalid c s h k = rw (h, k, escape_from) refl

pub valid-invalid :
    (c : ℕ) (s : Text)
    → ltb c 128 ≡ false
    → (rune_size (c ∷ s) == 0) ≡ true
    → valid_from 0 (c ∷ s) ≡ (0xef ∷ 0xbf ∷ 0xbd ∷ []) ++ valid_from 0 s
unfolding valid_from
valid-invalid c s h k = rw (h, k, valid_from) refl

pub escape-rune :
    (c : ℕ) (s : Text)
    → ltb c 128 ≡ false
    → (rune_size (c ∷ s) == 0) ≡ false
    → line_separator (c ∷ s) ≡ []
    → escape_from true 0 (c ∷ s) ≡ c ∷ escape_from true (rune_size (c ∷ s) - 1) s
unfolding escape_from text_beq
escape-rune c s h k q = rw (h, k, q, escape_from) refl

pub valid-rune :
    (c : ℕ) (s : Text)
    → ltb c 128 ≡ false
    → (rune_size (c ∷ s) == 0) ≡ false
    → valid_from 0 (c ∷ s) ≡ c ∷ valid_from (rune_size (c ∷ s) - 1) s
unfolding valid_from
valid-rune c s h k = rw (h, k, valid_from) refl

-- U+2028 or U+2029 at the head of a text.
abbrev pub Separated : Text → Type 0
Separated s = (x : ℕ) × (t : Text) × (s ≡ 0xe2 ∷ 0x80 ∷ x ∷ t) × ((x ≡ 0xa8) ⊎ (x ≡ 0xa9))

pub line_separator-cases : (s : Text) → (line_separator s ≡ []) ⊎ Separated s
unfolding line_separator
line_separator-cases s = elim (Bool-cases (has_prefix s (0xe2 ∷ 0x80 ∷ 0xa8 ∷ []))) [
  | inl q ↦ let (t, e) = has_prefix-split _ s q in inr (0xa8, t, e, inl refl)
  | inr q ↦ elim (Bool-cases (has_prefix s (0xe2 ∷ 0x80 ∷ 0xa9 ∷ []))) [
    | inl p ↦ let (t, e) = has_prefix-split _ s p in inr (0xa9, t, e, inr refl)
    | inr p ↦ inl (rw (q, p, line_separator) refl)
  ]
]

size_three : (x : ℕ) (t : Text) → (x ≡ 0xa8) ⊎ (x ≡ 0xa9) → rune_size (0xe2 ∷ 0x80 ∷ x ∷ t) ≡ 3
unfolding rune_size
size_three x [] h = ground (arith, h)
size_three x (y ∷ t) h = ground (arith, h)

abbrev Separates : Text → ℕ → Type 0
Separates t x =
    escape_from true 0 (0xe2 ∷ 0x80 ∷ x ∷ t)
    ≡ line_separator (0xe2 ∷ 0x80 ∷ x ∷ t) ++ escape_from false 2 (0x80 ∷ x ∷ t)

escape-line : (t : Text) → Separates t 0xa8
unfolding escape_from line_separator has_prefix strip_prefix text_beq lit
escape-line t = rw (size_three 0xa8 t (inl refl)) refl

escape-paragraph : (t : Text) → Separates t 0xa9
unfolding escape_from line_separator has_prefix strip_prefix text_beq lit
escape-paragraph t = rw (size_three 0xa9 t (inr refl)) refl

pub escape-separator : (x : ℕ) (t : Text) → (x ≡ 0xa8) ⊎ (x ≡ 0xa9) → Separates t x
escape-separator x t (inl e) = subst (Separates t) (sym e) (escape-line t)
escape-separator x t (inr e) = subst (Separates t) (sym e) (escape-paragraph t)

pub valid-separator :
    (x : ℕ) (t : Text)
    → (x ≡ 0xa8) ⊎ (x ≡ 0xa9)
    → valid_from 0 (0xe2 ∷ 0x80 ∷ x ∷ t)
      ≡ (0xe2 ∷ 0x80 ∷ x ∷ []) ++ valid_rest false 2 (0x80 ∷ x ∷ t)
unfolding valid_from valid_rest beyond
valid-separator x t h = rw (size_three x t h) refl
