-- ===== src/Base64/RoundTrip.antt =====
-- Base64 text read back.
use loca_agent.Base.{
  Text, ℕ, ◌+◌, ◌*◌, ◌/◌, ◌%◌, ◌<◌, [], ◌∷◌, some, Bool, true, false, ◌≡◌, ◌≢◌, refl,
}
use loca_agent.Base.{All, arith, nat_eq, if◌then◌else◌}
use loca_agent.Base64.{
  Alphabet, std_encoding, raw_url_encoding, letter, letter_value, encode, groups, last1, last2,
  full, drop_breaks, decode,
}

-- A letter of one of the two alphabets stands for its own six bits, and is no '=' and no line break.
pub record IsLetter (a : Alphabet) (n : ℕ) : Type 0 where
  pub value : letter_value a (letter a n) ≡ some n
  pub no_pad : letter a n ≢ b'='
  pub no_lf : letter a n ≢ 10
  pub no_cr : letter a n ≢ 13

IsLetter-std : (n : ℕ) → n < 64 → IsLetter std_encoding n
unfolding letter letter_value
IsLetter-std n h = record {
  value = ground arith;
  no_pad = ground arith;
  no_lf = ground arith;
  no_cr = ground arith;
}

IsLetter-raw_url : (n : ℕ) → n < 64 → IsLetter raw_url_encoding n
unfolding letter letter_value
IsLetter-raw_url n h = record {
  value = ground arith;
  no_pad = ground arith;
  no_lf = ground arith;
  no_cr = ground arith;
}

module _ (a : Alphabet) (letters : (n : ℕ) → n < 64 → IsLetter a n) where
  last1-letter :
      (x : ℕ)
      → x < 256
      → last1 a (letter_value a (letter a (x / 4))) (letter_value a (letter a (x % 4 * 16)))
        ≡ some (x ∷ [])
  unfolding last1
  last1-letter x h =
      ground
        (arith, (letters (x / 4) (omega arith)).value, (letters (x % 4 * 16) (omega arith)).value)

  last2-letter :
      (x y : ℕ)
      → x < 256
      → y < 256
      → last2 a
          (letter_value a (letter a (x / 4)))
          (letter_value a (letter a (x % 4 * 16 + y / 16)))
          (letter_value a (letter a (y % 16 * 4)))
        ≡ some (x ∷ y ∷ [])
  unfolding last2
  last2-letter x y h k = ground (
    arith,
    (letters (x / 4) (omega arith)).value,
    (letters (x % 4 * 16 + y / 16) (omega arith)).value,
    (letters (y % 16 * 4) (omega arith)).value,
  )

  full-letter :
      (x y z : ℕ) (rest : Text)
      → x < 256
      → y < 256
      → z < 256
      → full a
          (letter_value a (letter a (x / 4)))
          (letter_value a (letter a (x % 4 * 16 + y / 16)))
          (letter_value a (letter a (y % 16 * 4 + z / 64)))
          (letter_value a (letter a (z % 64)))
          (some rest)
        ≡ some (x ∷ y ∷ z ∷ rest)
  unfolding full
  full-letter x y z rest h k l = ground (
    arith,
    (letters (x / 4) (omega arith)).value,
    (letters (x % 4 * 16 + y / 16) (omega arith)).value,
    (letters (y % 16 * 4 + z / 64) (omega arith)).value,
    (letters (z % 64) (omega arith)).value,
  )

  encode-cons : (w : ℕ) (s : Text) → (c : ℕ) × (t : Text) × (encode a (w ∷ s) ≡ c ∷ t)
  unfolding encode
  encode-cons w [] = (_, _, refl)
  encode-cons w (x ∷ []) = (_, _, refl)
  encode-cons w (x ∷ y ∷ s) = (_, _, refl)

  drop_breaks-letter :
      (n : ℕ) (s : Text) → n < 64 → drop_breaks (letter a n ∷ s) ≡ letter a n ∷ drop_breaks s
  unfolding drop_breaks
  drop_breaks-letter n s h = ground (arith, (letters n h).no_lf, (letters n h).no_cr)

  drop_breaks-pad :
      (b : Bool) → drop_breaks (if b then b'=' ∷ [] else []) ≡ (if b then b'=' ∷ [] else [])
  unfolding drop_breaks
  drop_breaks-pad true = refl
  drop_breaks-pad false = refl

  drop_breaks-pads :
      (b : Bool)
      → drop_breaks (if b then b'=' ∷ b'=' ∷ [] else []) ≡ (if b then b'=' ∷ b'=' ∷ [] else [])
  unfolding drop_breaks
  drop_breaks-pads true = refl
  drop_breaks-pads false = refl

  drop_breaks-encode : (s : Text) → All (λ c. c < 256) s → drop_breaks (encode a s) ≡ encode a s
  unfolding encode
  drop_breaks-encode [] _ = unfold drop_breaks in refl
  drop_breaks-encode (x ∷ []) (hx, _) = rw (
    drop_breaks-letter (x / 4) _ (omega arith),
    drop_breaks-letter (x % 4 * 16) _ (omega arith),
    drop_breaks-pads a.padded,
  )
  drop_breaks-encode (x ∷ y ∷ []) (hx, (hy, _)) = rw (
    drop_breaks-letter (x / 4) _ (omega arith),
    drop_breaks-letter (x % 4 * 16 + y / 16) _ (omega arith),
    drop_breaks-letter (y % 16 * 4) _ (omega arith),
    drop_breaks-pad a.padded,
  )
  drop_breaks-encode (x ∷ y ∷ z ∷ s) (hx, (hy, (hz, hs))) = rw (
    drop_breaks-letter (x / 4) _ (omega arith),
    drop_breaks-letter (x % 4 * 16 + y / 16) _ (omega arith),
    drop_breaks-letter (y % 16 * 4 + z / 64) _ (omega arith),
    drop_breaks-letter (z % 64) _ (omega arith),
    drop_breaks-encode s hs,
  )

  groups-encode : (s : Text) → All (λ c. c < 256) s → groups a (encode a s) ≡ some s
  unfolding encode groups
  groups-encode [] _ = refl
  groups-encode (x ∷ []) (hx, _) = ground (arith, last1-letter x hx)
  groups-encode (x ∷ y ∷ []) (hx, (hy, _)) =
      ground (arith, last2-letter x y hx hy, (letters (y % 16 * 4) (omega arith)).no_pad)
  groups-encode (x ∷ y ∷ z ∷ []) (hx, (hy, (hz, _))) =
      ground (arith, full-letter x y z [] hx hy hz, (letters (z % 64) (omega arith)).no_pad)
  groups-encode (x ∷ y ∷ z ∷ w ∷ s) (hx, (hy, (hz, hs))) =
      let (c, t, eq) = encode-cons w s in
      let ih : groups a (c ∷ t) ≡ some (w ∷ s) = rw eq at (groups-encode (w ∷ s) hs) in
      rw (eq, ih) (full-letter x y z (w ∷ s) hx hy hz)

  decode-encode_of_letters : (s : Text) → All (λ c. c < 256) s → decode a (encode a s) ≡ some s
  unfolding decode
  decode-encode_of_letters s h = rw (drop_breaks-encode s h) (groups-encode s h)

-- Both encodings read back every byte string that they print.
pub decode-encode :
    (s : Text)
    → All (λ c. c < 256) s
    → (decode std_encoding (encode std_encoding s) ≡ some s)
      × (decode raw_url_encoding (encode raw_url_encoding s) ≡ some s)
decode-encode s h = (
  decode-encode_of_letters std_encoding IsLetter-std s h,
  decode-encode_of_letters raw_url_encoding IsLetter-raw_url s h,
)
