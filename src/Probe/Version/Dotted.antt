-- ===== src/Probe/Version/Dotted.antt =====
-- Dotted versions in a text, and what `\d+\.\d+(?:\.\d+)?` of internal/probe/probe.go matches at its
-- head.
use loca_agent.Base.{
  Text, [], ◌∷◌, ◌++◌, append_assoc, some, none, Option-cases, Bool-cases, true, false, ◌==◌,
  nat_eq, text_eq, text_beq, arith, eq_iff,
}
use loca_agent.Base.{◌≡◌, ◌≢◌, refl, sym, ap, ◌∙◌, ◌⊎◌, inl, inr}
use loca_agent.Probe.{take_digits}
use loca_agent.Probe.Version.{behind_dot, dot_digits, dotted_at, build_at}
use loca_agent.Probe.Version.Digits.{
  IsDigit, StartsDigit, IsNumber, take_digits-parts, take_digits-All, take_digits-greedy,
  take_digits-some, take_digits-append,
}

-- A dot and a digit.
abbrev pub StartsPatch : Text → Type 0
StartsPatch [] = ⊥
StartsPatch (c ∷ s) = (c ≡ b'.') × StartsDigit s

-- What stands behind two numbers, where `after` follows: a dot and a third number, as long as it can be,
-- or nothing where there is none.
abbrev pub Ending : Text → Text → Type 0
Ending tail after =
    ((tail ≡ []) × (¬ StartsPatch after))
    ⊎ ((patch : Text) × (tail ≡ b'.' ∷ patch) × IsNumber patch)

-- A version of two or three numbers with dots between them, as long as it can be where `after` follows.
pub record Dotted (found after : Text) : Type 0 where
  pub major : Text
  pub minor : Text
  pub tail : Text
  pub form : found ≡ major ++ (b'.' ∷ (minor ++ tail))
  pub major_number : IsNumber major
  pub minor_number : IsNumber minor
  pub ending : Ending tail after
  pub greedy : ¬ StartsDigit after

-- One number, as long as it can be.
abbrev pub Build : Text → Text → Type 0
Build found after = IsNumber found × (¬ StartsDigit after)

-- A number, a dot and a digit.
pub record StartsVersion (s : Text) : Type 0 where
  pub major : Text
  pub rest : Text
  pub parts : s ≡ major ++ (b'.' ∷ rest)
  pub number : IsNumber major
  pub minor : StartsDigit rest

-- A text of the form, and it is not empty, begins s.
pub record Here (Form : Text → Text → Type 0) (s found : Text) : Type 0 where
  pub after : Text
  pub parts : s ≡ found ++ after
  pub form : Form found after
  pub not_empty : found ≢ []

dot-IsDigit : ¬ IsDigit b'.'
dot-IsDigit (low, high) = omega arith

pub differs : (s : Text) → s ≢ [] → (s == []) ≡ false
unfolding text_beq
differs [] h = absurd (h refl)
differs (c ∷ s) h = refl

not_nil : (s : Text) → (s == []) ≡ false → s ≢ []
not_nil s b e = absurd (let t = (eq_iff s []).1 e in cc)

number : (s : Text) → ((take_digits s).0 == []) ≡ false → IsNumber (take_digits s).0
number s b = (not_nil (take_digits s).0 b, take_digits-All s)

no_digit : (s : Text) → ((take_digits s).0 == []) ≡ true → ¬ StartsDigit s
no_digit s b h = take_digits-some s h ((eq_iff (take_digits s).0 []).0 b)

behind_dot-parts : (s rest : Text) → behind_dot s ≡ some rest → s ≡ b'.' ∷ rest
behind_dot-parts [] rest e = absurd cc
behind_dot-parts (c ∷ s) rest e = ground arith

behind_dot-none : (s : Text) → behind_dot s ≡ none → ¬ StartsPatch s
behind_dot-none [] e h = h
behind_dot-none (c ∷ s) e (dot, h) = ground arith

no_patch : (s rest : Text) → behind_dot s ≡ some rest → ¬ StartsDigit rest → ¬ StartsPatch s
no_patch s rest q stop h = stop (rw (behind_dot-parts s rest q) at h).1

-- `(?:\.\d+)?`
dot_digits-Ending :
    (s : Text)
    → ¬ StartsDigit s
    → (after : Text) × (s ≡ dot_digits s ++ after)
      × Ending (dot_digits s) after
      × (¬ StartsDigit after)
unfolding dot_digits
dot_digits-Ending s stop = elim (Option-cases (behind_dot s)) [
  | inl q ↦ rw (q, dot_digits) (s, refl, inl (refl, behind_dot-none s q), stop)
  | inr (rest, q) ↦ elim (Bool-cases ((take_digits rest).0 == [])) [
    | inl silent ↦
        rw (q, silent, dot_digits)
          (s, refl, inl (refl, no_patch s rest q (no_digit rest silent)), stop)
    | inr digits ↦
        rw (q, digits, dot_digits)
          (
            (take_digits rest).1,
            behind_dot-parts s rest q ∙ ap (λ l. b'.' ∷ l) (take_digits-parts rest),
            inr ((take_digits rest).0, refl, number rest digits),
            take_digits-greedy rest,
          )
  ]
]

filled_front : (s t : Text) → s ≢ [] → (s ++ t) ≢ []
filled_front [] t h = absurd (h refl)
filled_front (c ∷ s) t h = λ e. cc

pub Dotted-filled : {found after : Text} → Dotted found after → found ≢ []
Dotted-filled d e =
    filled_front d.major (b'.' ∷ (d.minor ++ d.tail)) d.major_number.0 (sym d.form ∙ e)

not_both :
    (rest rest' : Text)
    → some rest ≡ some rest'
    → (take_digits rest).0 ≡ []
    → (take_digits rest').0 ≢ []
    → ⊥
not_both rest rest' e silent digits = digits cc

version_head :
    (s : Text)
    → StartsVersion s
    → ((take_digits s).0 ≢ [])
      × (rest : Text) × (behind_dot (take_digits s).1 ≡ some rest)
      × ((take_digits rest).0 ≢ [])
version_head s h =
    let (filled, all) = h.number in
    rw (h.parts, take_digits-append h.major (b'.' ∷ h.rest) all dot-IsDigit)
      (filled, h.rest, refl, take_digits-some h.rest h.minor)

Dotted-Here :
    (s rest : Text)
    → behind_dot (take_digits s).1 ≡ some rest
    → ((take_digits s).0 == []) ≡ false
    → ((take_digits rest).0 == []) ≡ false
    → Here Dotted s
        ((take_digits s).0 ++ (b'.' ∷ ((take_digits rest).0 ++ dot_digits (take_digits rest).1)))
Dotted-Here s rest q first second =
    let (minor, r) = take_digits rest in
    let (after, parts, ending, greedy) = dot_digits-Ending r (take_digits-greedy rest) in
    record {
      after = after;
      parts =
          take_digits-parts s
          ∙ ap (λ l. (take_digits s).0 ++ l)
              (behind_dot-parts (take_digits s).1 rest q
                ∙ ap (λ l. b'.' ∷ l)
                    (take_digits-parts rest
                      ∙ ap (λ l. minor ++ l) parts
                      ∙ sym (append_assoc minor (dot_digits r) after)))
          ∙ sym (append_assoc (take_digits s).0 (b'.' ∷ (minor ++ dot_digits r)) after);
      form = record {
        major = (take_digits s).0;
        minor = minor;
        tail = dot_digits r;
        form = refl;
        major_number = number s first;
        minor_number = number rest second;
        ending = ending;
        greedy = greedy;
      };
      not_empty = filled_front (take_digits s).0 _ (not_nil (take_digits s).0 first);
    }

-- `\d+\.\d+(?:\.\d+)?` matches a dotted version at the head, and nothing exactly where none begins.
pub dotted_at-cases :
    (s : Text) → ((dotted_at s ≡ []) × (¬ StartsVersion s)) ⊎ Here Dotted s (dotted_at s)
unfolding dotted_at
dotted_at-cases s = elim (Bool-cases ((take_digits s).0 == [])) [
  | inl silent ↦
      rw (silent, dotted_at)
        (inl (refl, λ h. (version_head s h).0 ((eq_iff (take_digits s).0 []).0 silent)))
  | inr major ↦ elim (Option-cases (behind_dot (take_digits s).1)) [
    | inl q ↦
        rw (major, q, dotted_at) (inl (refl, λ h. let (_, rest, r, _) = version_head s h in cc))
    | inr (rest, q) ↦ elim (Bool-cases ((take_digits rest).0 == [])) [
      | inl silent ↦
          rw (major, q, silent, dotted_at)
            (inl (
              refl,
              λ h.
                  let (_, rest', r, digits) = version_head s h in
                  not_both rest rest' (sym q ∙ r) ((eq_iff (take_digits rest).0 []).0 silent)
                    digits,
            ))
      | inr minor ↦ rw (major, q, minor, dotted_at) (inr (Dotted-Here s rest q major minor))
    ]
  ]
]

-- `\d+`
pub build_at-cases :
    (s : Text) → ((build_at s ≡ []) × (¬ StartsDigit s)) ⊎ Here Build s (build_at s)
unfolding build_at
build_at-cases s = elim (Bool-cases ((take_digits s).0 == [])) [
  | inl silent ↦ inl ((eq_iff (take_digits s).0 []).0 silent, no_digit s silent)
  | inr digits ↦ inr (record {
    after = (take_digits s).1;
    parts = take_digits-parts s;
    form = (number s digits, take_digits-greedy s);
    not_empty = not_nil (take_digits s).0 digits;
  })
]
