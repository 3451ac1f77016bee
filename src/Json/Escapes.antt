-- ===== src/Json/Escapes.antt =====
-- What the reader of JSON makes of an ASCII byte that encoding/json has escaped.
use loca_agent.Base.{
  Text, ℕ, suc, ◌+◌, ◌*◌, ◌/◌, ◌%◌, ◌<◌, [], ◌∷◌, ◌++◌, ◌==◌, ◌||◌, nat_eq, text_eq, ltb, Bool,
  true, false, hex_digit, if◌then◌else◌, some, ◌≡◌, refl, ap, ◌∙◌, arith,
}
use loca_agent.Json.{escape_byte, short_unicode}
use loca_agent.Json.Read.{inside, unicode, tokens_from, hex_value, utf8, unescape}

hex_value-hex_digit : (n : ℕ) → n < 16 → hex_value (hex_digit n) ≡ some n
hex_value-hex_digit n h = ground arith

read-digit :
    (left v n : ℕ)
    → n < 16
    → (read s : Text)
    → tokens_from (unicode (suc left) v) read (hex_digit n ∷ s)
      ≡ tokens_from (unicode left (v * 16 + n)) read s
unfolding tokens_from
read-digit left v n h read s = rw (hex_value-hex_digit n h, tokens_from) refl

utf8-ascii : (v : ℕ) → v < 128 → utf8 v ≡ some (v ∷ [])
utf8-ascii v h = ground arith

read-last_digit :
    (v n : ℕ)
    → n < 16
    → v * 16 + n < 128
    → (read s : Text)
    → tokens_from (unicode 0 v) read (hex_digit n ∷ s)
      ≡ tokens_from inside (read ++ ((v * 16 + n) ∷ [])) s
unfolding tokens_from
read-last_digit v n h k read s = rw (hex_value-hex_digit n h, tokens_from, utf8-ascii _ k) refl

read-short_unicode :
    (c : ℕ)
    → c < 128
    → (read s : Text)
    → tokens_from inside read (short_unicode c ++ s) ≡ tokens_from inside (read ++ (c ∷ [])) s
unfolding tokens_from
read-short_unicode c h read s =
    read-digit 0 0 (c / 16) (omega arith) read (hex_digit (c % 16) ∷ s)
    ∙ read-last_digit (0 * 16 + c / 16) (c % 16) (omega arith) (omega arith) read s
    ∙ ap (λ v. tokens_from inside (read ++ (v ∷ [])) s) (omega arith)

-- A short escape, of a letter other than u.
read-letter :
    (e v c : ℕ)
    → (e == b'u') ≡ false
    → unescape e ≡ some v
    → c ≡ v
    → (read s : Text)
    → tokens_from inside read (b'\\' ∷ e ∷ s) ≡ tokens_from inside (read ++ (c ∷ [])) s
unfolding tokens_from
read-letter e v c q h k read s = rw (q, h, k, tokens_from) refl

pub read-plain :
    (c : ℕ)
    → (c == b'"' || c == b'\\') ≡ false
    → (ltb c 32) ≡ false
    → (read s : Text) → tokens_from inside read (c ∷ s) ≡ tokens_from inside (read ++ (c ∷ [])) s
unfolding tokens_from
read-plain c q h read s = rw (quote, backslash, h, tokens_from) refl
  where
    quote : (c == b'"') ≡ false
    quote = ground arith

    backslash : (c == b'\\') ≡ false
    backslash = ground arith

either :
    (P : Text → Type 0) (b : Bool) {x y : Text}
    → (b ≡ true → P x)
    → (b ≡ false → P y)
    → P (if b then x else y)
either P true f g = f refl
either P false f g = g refl

-- An ASCII byte is read back from its escape.
pub read-escape_byte :
    (c : ℕ)
    → c < 128
    → (read s : Text)
    → tokens_from inside read (escape_byte c ++ s) ≡ tokens_from inside (read ++ (c ∷ [])) s
unfolding escape_byte
read-escape_byte c h read s =
    either Back (c == b'"' || c == b'\\')
      (λ q. read-letter c c c (ground arith) (ground arith) refl read s)
      (λ special. either Back (c == 8) (named b'b' 8 refl refl) (λ _.
        either Back (c == 12) (named b'f' 12 refl refl) (λ _.
          either Back (c == 10) (named b'n' 10 refl refl) (λ _.
            either Back (c == 13) (named b'r' 13 refl refl) (λ _.
              either Back (c == 9) (named b't' 9 refl refl) (λ _.
                either Back (ltb c 32 || c == b'<' || c == b'>' || c == b'&')
                  (λ _. read-short_unicode c h read s)
                  (λ q. read-plain c special (ground arith) read s)))))))
  where
    Back : Text → Type 0
    Back t = tokens_from inside read (t ++ s) ≡ tokens_from inside (read ++ (c ∷ [])) s

    named :
        (e v : ℕ)
        → (e == b'u') ≡ false
        → unescape e ≡ some v
        → (c == v) ≡ true
        → Back (b'\\' ∷ e ∷ [])
    named e v q h k = read-letter e v c q h (ground arith) read s
