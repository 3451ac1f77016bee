-- ===== src/Probe/Version/Leftmost.antt =====
-- What firstVersion (internal/probe/probe.go) finds in the output of a version command.
use loca_agent.Base.{Text, ℕ, [], ◌∷◌, ◌++◌, append-nil, nat_eq, text_eq, eq_iff}
use loca_agent.Base.{◌≡◌, ap, ◌⊎◌, inl, inr}
use loca_agent.Probe.Version.{dotted_at, build_at, find_string, first_version}
use loca_agent.Probe.Version.Digits.{StartsDigit}
use loca_agent.Probe.Version.Dotted.{
  Dotted, Build, StartsVersion, Here, differs, Dotted-filled, dotted_at-cases, build_at-cases,
}

-- Nothing starts at any place in `before`, where `rest` follows.
abbrev pub Silent : (Text → Type 0) → Text → Text → Type 0
Silent Starts [] rest = Unit
Silent Starts (c ∷ before) rest = (¬ Starts (c ∷ (before ++ rest))) × Silent Starts before rest

-- A part of s of the form, that is not empty, and nothing starts at any place before it.
pub record Leftmost (Starts : Text → Type 0) (Form : Text → Text → Type 0) (s found : Text)
    : Type 0 where
  pub before : Text
  pub after : Text
  pub parts : s ≡ before ++ (found ++ after)
  pub form : Form found after
  pub earliest : Silent Starts before (found ++ after)

-- Nothing starts at any place.
abbrev pub Nowhere : (Text → Type 0) → Text → Type 0
Nowhere Starts s = Silent Starts s []

swap : {A B : Type 0} → A ⊎ B → B ⊎ A
swap (inl a) = inr a
swap (inr b) = inl b

module _ (at : Text → Text) (Starts : Text → Type 0) (Form : Text → Text → Type 0)
    (head : (s : Text) → ((at s ≡ []) × (¬ Starts s)) ⊎ Here Form s (at s)) where
  abbrev Answer : Text → Text → Type 0
  Answer s found = ((found ≡ []) × Nowhere Starts s) ⊎ Leftmost Starts Form s found

  behind :
      (c : ℕ) (s : Text) {found : Text} → ¬ Starts (c ∷ s) → Answer s found → Answer (c ∷ s) found
  behind c s silent (inl (e, nowhere)) = inl (e, (rw (append-nil s) silent, nowhere))
  behind c s silent (inr found) = inr (record {
    before = c ∷ found.before;
    after = found.after;
    parts = ap (λ l. c ∷ l) found.parts;
    form = found.form;
    earliest = (rw found.parts at silent, found.earliest);
  })

  find_string-cases : (s : Text) → Answer s (find_string at s)
  unfolding find_string
  find_string-cases [] = elim (head []) [
    | inl (e, _) ↦ inl (e, tt)
    | inr here ↦ inr (record {
      before = [];
      after = here.after;
      parts = here.parts;
      form = here.form;
      earliest = tt;
    })
  ]
  find_string-cases (c ∷ s) = elim (head (c ∷ s)) [
    | inl (e, silent) ↦
        rw ((eq_iff (at (c ∷ s)) []).1 e, find_string) (behind c s silent (find_string-cases s))
    | inr here ↦
        rw (differs (at (c ∷ s)) here.not_empty, find_string)
          (inr (record {
            before = [];
            after = here.after;
            parts = here.parts;
            form = here.form;
            earliest = tt;
          }))
  ]

-- A dotted version with no number, dot and digit before it.
abbrev pub FirstDotted : Text → Text → Type 0
FirstDotted = Leftmost StartsVersion Dotted

-- A number with no digit before it.
abbrev pub FirstNumber : Text → Text → Type 0
FirstNumber = Leftmost StartsDigit Build

-- What firstVersion returns: the first dotted version of the text, two or three numbers with dots between
-- them, each as long as it can be; where no dotted version begins anywhere, the first number; and nothing
-- where there is no digit.
pub first_version-Leftmost :
    (s : Text)
    → FirstDotted s (first_version s)
      ⊎ (Nowhere StartsVersion s
          × (FirstNumber s (first_version s) ⊎ ((first_version s ≡ []) × Nowhere StartsDigit s)))
unfolding first_version
first_version-Leftmost s =
    elim (find_string-cases dotted_at StartsVersion Dotted dotted_at-cases s) [
      | inr found ↦
          rw (differs (find_string dotted_at s) (Dotted-filled found.form), first_version)
            (inl found)
      | inl (e, nowhere) ↦
          rw ((eq_iff (find_string dotted_at s) []).1 e, first_version)
            (inr (nowhere, swap (find_string-cases build_at StartsDigit Build build_at-cases s)))
    ]
