-- ===== src/Probe/Version/Digits.antt =====
-- Numbers in the output of a version command, and how take_digits reads them (`\d+` of
-- internal/probe/probe.go).
use loca_agent.Base.{
  Text, ℕ, ◌≤◌, [], ◌∷◌, ◌++◌, true, false, leb, ◌&&◌, All, arith, Bool-cases, ◌≡◌, ◌≢◌, refl, ap,
  inl, inr,
}
use loca_agent.Probe.{take_digits}

abbrev pub IsDigit : ℕ → Type 0
IsDigit c = (b'0' ≤ c) × (c ≤ b'9')

abbrev pub StartsDigit : Text → Type 0
StartsDigit [] = ⊥
StartsDigit (c ∷ s) = IsDigit c

-- A text of digits, at least one.
abbrev pub IsNumber : Text → Type 0
IsNumber s = (s ≢ []) × All IsDigit s

pub leb-IsDigit : (c : ℕ) → (leb b'0' c && leb c b'9') ≡ true → IsDigit c
leb-IsDigit c e = (ground arith, ground arith)

pub IsDigit-leb : (c : ℕ) → IsDigit c → (leb b'0' c && leb c b'9') ≡ true
IsDigit-leb c (low, high) = ground arith

pub not-IsDigit : (c : ℕ) → (leb b'0' c && leb c b'9') ≡ false → ¬ IsDigit c
not-IsDigit c e (low, high) = ground arith

pub take_digits-parts : (s : Text) → s ≡ (take_digits s).0 ++ (take_digits s).1
unfolding take_digits
take_digits-parts [] = refl
take_digits-parts (c ∷ s) = elim (Bool-cases (leb b'0' c && leb c b'9')) [
  | inl digit ↦ rw (digit, take_digits) (ap (λ l. c ∷ l) (take_digits-parts s))
  | inr other ↦ rw (other, take_digits) refl
]

pub take_digits-All : (s : Text) → All IsDigit (take_digits s).0
unfolding take_digits
take_digits-All [] = tt
take_digits-All (c ∷ s) = elim (Bool-cases (leb b'0' c && leb c b'9')) [
  | inl digit ↦ rw (digit, take_digits) (leb-IsDigit c digit, take_digits-All s)
  | inr other ↦ rw (other, take_digits) tt
]

-- It takes all the digits there are.
pub take_digits-greedy : (s : Text) → ¬ StartsDigit (take_digits s).1
unfolding take_digits
take_digits-greedy [] = λ h. h
take_digits-greedy (c ∷ s) = elim (Bool-cases (leb b'0' c && leb c b'9')) [
  | inl digit ↦ rw (digit, take_digits) (take_digits-greedy s)
  | inr other ↦ rw (other, take_digits) (not-IsDigit c other)
]

pub take_digits-some : (s : Text) → StartsDigit s → (take_digits s).0 ≢ []
unfolding take_digits
take_digits-some [] h = absurd h
take_digits-some (c ∷ s) h = rw (IsDigit-leb c h, take_digits) (λ e. cc)

pub take_digits-append :
    (ds s : Text) → All IsDigit ds → ¬ StartsDigit s → take_digits (ds ++ s) ≡ (ds, s)
unfolding take_digits
take_digits-append [] [] h stop = refl
take_digits-append [] (c ∷ s) h stop = elim (Bool-cases (leb b'0' c && leb c b'9')) [
  | inl digit ↦ absurd (stop (leb-IsDigit c digit))
  | inr other ↦ rw (other, take_digits) refl
]
take_digits-append (c ∷ ds) s (d, h) stop =
    rw (IsDigit-leb c d, take_digits-append ds s h stop, take_digits) refl
