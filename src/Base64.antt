-- ===== src/Base64.antt =====
-- What the program uses of Go's encoding/base64: StdEncoding (padded) and RawURLEncoding (unpadded).
pub mod RoundTrip
use loca_agent.Base.{
  Text, lit, ℕ, ◌+◌, ◌-◌, ◌*◌, ◌/◌, ◌%◌, [], ◌∷◌, Option, none, some, Bool, true, false,
}
use loca_agent.Base.{ltb, leb, ◌&&◌, ◌||◌, ◌==◌, nat_eq, if◌then◌else◌}

-- The two letters of an alphabet that differ, and whether a final group is padded with '='.
pub record Alphabet : Type 0 where
  pub letter62 : ℕ
  pub letter63 : ℕ
  pub padded : Bool

abbrev pub std_encoding : Alphabet
std_encoding = record { letter62 = b'+'; letter63 = b'/'; padded = true }

abbrev pub raw_url_encoding : Alphabet
raw_url_encoding = record { letter62 = b'-'; letter63 = b'_'; padded = false }

drop_breaks : Text → Text
drop_breaks [] = []
drop_breaks (c ∷ s) = let rest = drop_breaks s in if c == 10 || c == 13 then rest else c ∷ rest

module _ (a : Alphabet) where
  -- The letter of six bits.
  unfoldable pub letter : ℕ → ℕ
  letter n =
      if ltb n 26
      then b'A' + n
      else if ltb n 52
      then b'a' + (n - 26)
      else if ltb n 62
      then b'0' + (n - 52)
      else if n == 62
      then a.letter62
      else a.letter63

  -- The six bits of a letter.
  unfoldable pub letter_value : ℕ → Option ℕ
  letter_value c =
      if leb b'A' c && leb c b'Z'
      then some (c - b'A')
      else if leb b'a' c && leb c b'z'
      then some (c - b'a' + 26)
      else if leb b'0' c && leb c b'9'
      then some (c - b'0' + 52)
      else if c == a.letter62
      then some 62
      else if c == a.letter63
      then some 63
      else none

  -- EncodeToString: three bytes at a time.
  unfoldable pub encode : Text → Text
  encode [] = []
  encode (x ∷ []) =
      letter (x / 4) ∷ letter (x % 4 * 16) ∷ (if a.padded then b'=' ∷ b'=' ∷ [] else [])
  encode (x ∷ y ∷ []) =
      letter (x / 4)
      ∷ letter (x % 4 * 16 + y / 16)
      ∷ letter (y % 16 * 4)
      ∷ (if a.padded then b'=' ∷ [] else [])
  encode (x ∷ y ∷ z ∷ s) =
      letter (x / 4)
      ∷ letter (x % 4 * 16 + y / 16)
      ∷ letter (y % 16 * 4 + z / 64)
      ∷ letter (z % 64)
      ∷ encode s

  -- One byte from two letters.
  last1 : Option ℕ → Option ℕ → Option Text
  last1 (some p) (some q) = some ((p * 4 + q / 16) ∷ [])
  last1 _ _ = none

  -- Two bytes from three letters.
  last2 : Option ℕ → Option ℕ → Option ℕ → Option Text
  last2 (some p) (some q) (some r) = some ((p * 4 + q / 16) ∷ (q % 16 * 16 + r / 4) ∷ [])
  last2 _ _ _ = none

  -- Three bytes from four letters, before the bytes of the rest.
  full : Option ℕ → Option ℕ → Option ℕ → Option ℕ → Option Text → Option Text
  full (some p) (some q) (some r) (some t) (some rest) =
      some ((p * 4 + q / 16) ∷ (q % 16 * 16 + r / 4) ∷ (r % 4 * 64 + t) ∷ rest)
  full _ _ _ _ _ = none

  unpadded : Bool → Option Text → Option Text
  unpadded b t = if b then none else t

  -- The last four letters of a padded text.
  padded_group : ℕ → ℕ → ℕ → ℕ → Option Text
  unfolding last1 last2 full
  padded_group c d f g =
      if g == b'='
      then if f == b'='
        then last1 (letter_value c) (letter_value d)
        else last2 (letter_value c) (letter_value d) (letter_value f)
      else full (letter_value c) (letter_value d) (letter_value f) (letter_value g) (some [])

  -- Letters in groups of four, and a last group that is cut or padded.
  groups : Text → Option Text
  unfolding last1 last2 full unpadded padded_group
  groups [] = some []
  groups (c ∷ []) = none
  groups (c ∷ d ∷ []) = unpadded a.padded (last1 (letter_value c) (letter_value d))
  groups (c ∷ d ∷ f ∷ []) =
      unpadded a.padded (last2 (letter_value c) (letter_value d) (letter_value f))
  groups (c ∷ d ∷ f ∷ g ∷ []) =
      if a.padded
      then padded_group c d f g
      else full (letter_value c) (letter_value d) (letter_value f) (letter_value g) (some [])
  groups (c ∷ d ∷ f ∷ g ∷ h ∷ s) =
      full (letter_value c) (letter_value d) (letter_value f) (letter_value g) (groups (h ∷ s))

  -- DecodeString: line breaks are skipped.
  unfoldable pub decode : Text → Option Text
  unfolding groups drop_breaks
  decode s = groups (drop_breaks s)
