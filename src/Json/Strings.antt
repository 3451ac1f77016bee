-- ===== src/Json/Strings.antt =====
-- The strings that encoding/json writes, as the reader of JSON finds them.
use loca_agent.Base.{
  Text, lit, ℕ, zero, suc, ◌-◌, [], ◌∷◌, ◌++◌, ◌==◌, nat_eq, text_eq, ltb, Bool, true, false, ◌≡◌,
  refl, sym, append_assoc, append-nil, ◌∙◌, ◌⊎◌, inl, inr, Bool-cases, rune_size, has_prefix,
  strip_prefix, arith,
}
use mathlib.Core.Path.{subst}
use loca_agent.Json.{escape_byte, escape_from, line_separator, json_string}
use loca_agent.Json.Escapes.{read-plain, read-escape_byte}
use loca_agent.Json.Runes.{
  valid_from, to_valid, follows, follows-rune_size, beyond, valid_rest, escape-ascii, valid-ascii,
  escape-invalid, valid-invalid, escape-rune, valid-rune, line_separator-cases, escape-separator,
  valid-separator,
}
use loca_agent.Json.Read.{text, inside, outside, put, tokens_from}

module _ (r : Text) where
  abbrev Reads : Bool → ℕ → Text → Type 0
  Reads copied n s =
      (read : Text)
      → tokens_from inside read (escape_from copied n s ++ (b'"' ∷ r))
        ≡ put (text (read ++ valid_rest copied n s)) (tokens_from outside [] r)

  joined :
      (read bytes rest : Text)
      → put (text ((read ++ bytes) ++ rest)) (tokens_from outside [] r)
        ≡ put (text (read ++ (bytes ++ rest))) (tokens_from outside [] r)
  joined read bytes rest = rw (append_assoc read bytes rest) refl

  read-ascii : (c : ℕ) (s : Text) → ltb c 128 ≡ true → Reads true 0 s → Reads true 0 (c ∷ s)
  unfolding valid_rest
  read-ascii c s h ih read =
      rw
        (
          escape-ascii c s h,
          valid-ascii c s h,
          append_assoc (escape_byte c) (escape_from true 0 s) (b'"' ∷ r),
        )
        (read-escape_byte c (ground (arith, h)) read (escape_from true 0 s ++ (b'"' ∷ r))
          ∙ ih (read ++ (c ∷ []))
          ∙ joined read (c ∷ []) (valid_from 0 s))

  replaced :
      (read s : Text)
      → tokens_from inside read (lit "\\ufffd" ++ s)
        ≡ tokens_from inside (read ++ (0xef ∷ 0xbf ∷ 0xbd ∷ [])) s
  unfolding lit tokens_from
  replaced read s = refl

  read-invalid :
      (c : ℕ) (s : Text)
      → ltb c 128 ≡ false
      → (rune_size (c ∷ s) == 0) ≡ true
      → Reads true 0 s
      → Reads true 0 (c ∷ s)
  unfolding valid_rest
  read-invalid c s h k ih read =
      rw
        (
          escape-invalid c s h k,
          valid-invalid c s h k,
          append_assoc (lit "\\ufffd") (escape_from true 0 s) (b'"' ∷ r),
        )
        (replaced read (escape_from true 0 s ++ (b'"' ∷ r))
          ∙ ih (read ++ (0xef ∷ 0xbf ∷ 0xbd ∷ []))
          ∙ joined read (0xef ∷ 0xbf ∷ 0xbd ∷ []) (valid_from 0 s))

  read-rune :
      (c : ℕ) (s : Text)
      → ltb c 128 ≡ false
      → (rune_size (c ∷ s) == 0) ≡ false
      → line_separator (c ∷ s) ≡ []
      → Reads true (rune_size (c ∷ s) - 1) s
      → Reads true 0 (c ∷ s)
  unfolding valid_rest
  read-rune c s h k q ih read =
      rw (escape-rune c s h k q, valid-rune c s h k)
        (read-plain c (ground arith) (ground arith) read
            (escape_from true (rune_size (c ∷ s) - 1) s ++ (b'"' ∷ r))
          ∙ ih (read ++ (c ∷ []))
          ∙ joined read (c ∷ []) (valid_from (rune_size (c ∷ s) - 1) s))

  read-separator_text :
      (x : ℕ) (t : Text)
      → (x ≡ 0xa8) ⊎ (x ≡ 0xa9)
      → (read s : Text)
      → tokens_from inside read (line_separator (0xe2 ∷ 0x80 ∷ x ∷ t) ++ s)
        ≡ tokens_from inside (read ++ (0xe2 ∷ 0x80 ∷ x ∷ [])) s
  unfolding line_separator has_prefix strip_prefix lit tokens_from
  read-separator_text x t (inl e) read s = rw e refl
  read-separator_text x t (inr e) read s = rw e refl

  read-separator :
      (x : ℕ) (t : Text)
      → (x ≡ 0xa8) ⊎ (x ≡ 0xa9)
      → Reads false 2 (0x80 ∷ x ∷ t)
      → Reads true 0 (0xe2 ∷ 0x80 ∷ x ∷ t)
  unfolding valid_rest
  read-separator x t h ih read =
      rw
        (
          escape-separator x t h,
          valid-separator x t h,
          append_assoc (line_separator (0xe2 ∷ 0x80 ∷ x ∷ t)) (escape_from false 2 (0x80 ∷ x ∷ t))
              (b'"' ∷ r),
        )
        (read-separator_text x t h read (escape_from false 2 (0x80 ∷ x ∷ t) ++ (b'"' ∷ r))
          ∙ ih (read ++ (0xe2 ∷ 0x80 ∷ x ∷ []))
          ∙ joined read (0xe2 ∷ 0x80 ∷ x ∷ []) (valid_rest false 2 (0x80 ∷ x ∷ t)))

  read-head :
      (c : ℕ) (s : Text)
      → ((copied : Bool) (n : ℕ) → (copied ≡ true → follows n s ≡ true) → Reads copied n s)
      → Reads true 0 (c ∷ s)
  unfolding follows
  read-head c s ih = elim (Bool-cases (ltb c 128)) [
    | inl h ↦ read-ascii c s h (ih true 0 (λ _. refl))
    | inr h ↦ elim (Bool-cases (rune_size (c ∷ s) == 0)) [
      | inl k ↦ read-invalid c s h k (ih true 0 (λ _. refl))
      | inr k ↦ elim (line_separator-cases (c ∷ s)) [
        | inl q ↦ read-rune c s h k q (ih true (rune_size (c ∷ s) - 1) (λ _. follows-rune_size c s))
        | inr (x, t, e, y) ↦
            subst (Reads true 0) (sym e) (
              read-separator x t y
                (subst (Reads false 2) (tail_of e) (ih false 2 (λ q. absurd cc))))
      ]
    ]
  ]
    where
      tail_of : {b d : ℕ} {u v : Text} → b ∷ u ≡ d ∷ v → u ≡ v
      tail_of e = cc

  -- The rest of a string is read as the rest of the valid text.
  read-escape_from :
      (s : Text) (copied : Bool) (n : ℕ) → (copied ≡ true → follows n s ≡ true) → Reads copied n s
  unfolding follows escape_from valid_rest valid_from beyond tokens_from
  read-escape_from [] true n h read = rw (append-nil read) refl
  read-escape_from [] false zero h read = rw (append-nil read) refl
  read-escape_from [] false (suc n) h read = rw (append-nil read) refl
  read-escape_from (c ∷ s) true zero h read = read-head c s (read-escape_from s) read
  read-escape_from (c ∷ s) false zero h read = read-head c s (read-escape_from s) read
  read-escape_from (c ∷ s) true (suc n) h read =
      read-plain c (ground (arith, h refl)) (ground (arith, h refl)) read
        (escape_from true n s ++ (b'"' ∷ r))
      ∙ read-escape_from s true n (λ _. ground (arith, h refl)) (read ++ (c ∷ []))
      ∙ joined read (c ∷ []) (valid_from n s)
  read-escape_from (c ∷ s) false (suc n) h read = read-escape_from s false n (λ q. absurd cc) read

  -- A string of encoding/json is one token, of the valid text.
  pub read-json_string :
      (read s : Text)
      → tokens_from outside read (json_string s ++ r)
        ≡ put (text (to_valid s)) (tokens_from outside [] r)
  unfolding json_string to_valid valid_rest tokens_from follows
  read-json_string read s =
      rw (append_assoc (escape_from true 0 s) (b'"' ∷ []) r)
        (read-escape_from s true 0 (λ _. refl) [])
