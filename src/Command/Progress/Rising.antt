-- ===== src/Command/Progress/Rising.antt =====
-- Which percentages downloadProgress (internal/command/install/install.go) prints.
use mathlib.Core.Path.{subst}
use native.Mathlib.Nat.{div-le_of_le-mul}
use loca_agent.Base.{
  ◌++◌, length, int_beq, Text, ℕ, ◌+◌, ◌*◌, ◌/◌, ◌%◌, ◌^◌, ◌≤◌, ◌<◌, List, [], ◌∷◌, true, false,
  ltb, All,
}
use loca_agent.Base.{
  ◌≡◌, refl, sym, ap, ◌∙◌, ◌⊎◌, inl, inr, arith, Bool-cases, ℤ, pos, negsuc, is_positive, int_eq,
  int_leb,
}
use loca_agent.Model.Source.{Progress}
use loca_agent.Command.Progress.{percent, is_due, shown, signed64}

-- A report of a download of at most 2 ^ 56 bytes, of which no more than all have arrived.
pub record IsSound (p : Progress) : Type 0 where
  pub total : ℕ
  pub known : p.total ≡ pos total
  pub some_bytes : 0 < total
  pub arrived : p.downloaded ≤ total
  pub fits : total ≤ 2 ^ 56

signed64-small : (w : ℕ) → w < 2 ^ 63 → signed64 w ≡ pos w
signed64-small w h = ground arith

percent-IsPercent : (p : Progress) → IsSound p → (n : ℕ) × ((percent p ≡ pos n) × (n ≤ 100))
unfolding percent
percent-IsPercent p sound =
    let small : p.downloaded * 100 % 2 ^ 64 ≡ p.downloaded * 100 =
      omega (arith, sound.arrived, sound.fits) in
    let wide = signed64-small (p.downloaded * 100) (omega (arith, sound.arrived, sound.fits)) in
    (
      p.downloaded * 100 / sound.total,
      (
        rw (sound.known, small, wide, percent) refl,
        div-le_of_le-mul sound.total (omega (arith, sound.arrived)),
      ),
    )

is_positive_sound : (p : Progress) → IsSound p → is_positive p.total ≡ true
is_positive_sound p sound = rw (sound.known) (some_left sound.total sound.some_bytes)
  where
    some_left : (n : ℕ) → 0 < n → ltb 0 n ≡ true
    some_left n h = ground arith

shown-due :
    (last pct : ℤ) (p : Progress) (ps : List Progress)
    → IsSound p
    → percent p ≡ pct
    → is_due last pct ≡ true
    → (shown last (p ∷ ps)).0 ≡ (p.file, pct) ∷ (shown pct ps).0
unfolding shown
shown-due last pct p ps sound exact due = rw (is_positive_sound p sound, exact, due, shown) refl

shown-kept :
    (last pct : ℤ) (p : Progress) (ps : List Progress)
    → IsSound p
    → percent p ≡ pct
    → is_due last pct ≡ false
    → (shown last (p ∷ ps)).0 ≡ (shown last ps).0
unfolding shown
shown-kept last pct p ps sound exact due = rw (is_positive_sound p sound, exact, due, shown) refl

abbrev pub IsFull : Text × ℤ → Type 0
IsFull x = x.1 ≡ pos 100

-- Percentages below 100, each in a higher tenth than the one before.
abbrev pub Rising : ℕ → List (Text × ℤ) → Type 0
Rising tenth [] = Unit
Rising tenth (x ∷ xs) =
    (n : ℕ) × ((x.1 ≡ pos n) × ((tenth < n / 10) × ((n < 100) × Rising (n / 10) xs)))

-- What is printed from a tenth on.
pub record Printed (tenth : ℕ) (xs : List (Text × ℤ)) : Type 0 where
  pub below : List (Text × ℤ)
  pub full : List (Text × ℤ)
  pub parts : xs ≡ below ++ full
  pub rising : Rising tenth below
  pub few : length below + tenth ≤ 9
  pub ends : All IsFull full

due-cases :
    (v n : ℕ)
    → v < 100
    → n ≤ 100
    → ((is_due (pos v) (pos n) ≡ true) × (n ≡ 100))
      ⊎ (((is_due (pos v) (pos n) ≡ true) × ((v / 10 < n / 10) × (n < 100)))
          ⊎ (is_due (pos v) (pos n) ≡ false))
unfolding is_due int_leb int_beq
due-cases v n h m = ground arith

-- The three cases of a report, from what is printed afterwards.
due-Printed :
    (v : ℕ) (p : Progress) (ps : List Progress)
    → IsSound p
    → (n : ℕ) → percent p ≡ pos n
    → ((is_due (pos v) (pos n) ≡ true) × (n ≡ 100))
      ⊎ (((is_due (pos v) (pos n) ≡ true) × ((v / 10 < n / 10) × (n < 100)))
          ⊎ (is_due (pos v) (pos n) ≡ false))
    → All IsFull (shown (pos 100) ps).0
    → (n < 100 → Printed (n / 10) (shown (pos n) ps).0)
    → v < 100
    → Printed (v / 10) (shown (pos v) ps).0
    → Printed (v / 10) (shown (pos v) (p ∷ ps)).0
due-Printed v p ps sound n exact (inl (due, all)) full later h kept = record {
  below = [];
  full = (p.file, pos n) ∷ (shown (pos n) ps).0;
  parts = shown-due (pos v) (pos n) p ps sound exact due;
  rising = tt;
  few = omega arith;
  ends = (ap pos all, subst (λ m. All IsFull (shown (pos m) ps).0) (sym all) full);
}
due-Printed v p ps sound n exact (inr (inl (due, up))) full later h kept =
    let next = later up.1 in
    record {
      below = (p.file, pos n) ∷ next.below;
      full = next.full;
      parts =
          shown-due (pos v) (pos n) p ps sound exact due
          ∙ ap (λ xs. (p.file, pos n) ∷ xs) next.parts;
      rising = (n, (refl, (up.0, (up.1, next.rising))));
      few = omega (arith, next.few, up.0);
      ends = next.ends;
    }
due-Printed v p ps sound n exact (inr (inr skip)) full later h kept =
    subst (Printed (v / 10)) (sym (shown-kept (pos v) (pos n) p ps sound exact skip)) kept

due_full : (n : ℕ) → n ≤ 100 → is_due (pos 100) (pos n) ≡ true → n ≡ 100
unfolding is_due int_leb int_beq
due_full n m h = ground arith

same_due : (pct : ℤ) → is_due (negsuc 0) pct ≡ is_due (pos 0) pct
unfolding is_due
same_due pct = refl

shown-IsFull : (ps : List Progress) → All IsSound ps → All IsFull (shown (pos 100) ps).0
unfolding shown
shown-IsFull [] sound = tt
shown-IsFull (p ∷ ps) (here, more) =
    let (n, (exact, most)) = percent-IsPercent p here in
    elim (Bool-cases (is_due (pos 100) (pos n))) [
      | inl due ↦
          let full = ap pos (due_full n most due) in
          rw (shown-due (pos 100) (pos n) p ps here exact due, full) (refl, shown-IsFull ps more)
      | inr kept ↦ rw (shown-kept (pos 100) (pos n) p ps here exact kept) (shown-IsFull ps more)
    ]

shown-Printed :
    (v : ℕ) (ps : List Progress) → v < 100 → All IsSound ps → Printed (v / 10) (shown (pos v) ps).0
unfolding shown
shown-Printed v [] h sound = record {
  below = [];
  full = [];
  parts = refl;
  rising = tt;
  few = omega arith;
  ends = tt;
}
shown-Printed v (p ∷ ps) h (here, more) =
    let (n, (exact, most)) = percent-IsPercent p here in
    due-Printed v p ps here n exact (due-cases v n h most) (shown-IsFull ps more)
      (λ m. shown-Printed n ps m more) h (shown-Printed v ps h more)

-- Before the first report `last` is -1, which is in the same tenth as 0.
shown_start : (ps : List Progress) → All IsSound ps → (shown (negsuc 0) ps).0 ≡ (shown (pos 0) ps).0
unfolding shown
shown_start [] sound = refl
shown_start (p ∷ ps) (here, more) = elim (Bool-cases (is_due (pos 0) (percent p))) [
  | inl due ↦
      shown-due (negsuc 0) _ p ps here refl (same_due (percent p) ∙ due)
      ∙ sym (shown-due (pos 0) _ p ps here refl due)
  | inr kept ↦
      shown-kept (negsuc 0) _ p ps here refl (same_due (percent p) ∙ kept)
      ∙ shown_start ps more
      ∙ sym (shown-kept (pos 0) _ p ps here refl kept)
]

-- What downloadProgress prints over all the reports of a download, of however many files: at most
-- nine lines, each in a higher tenth than the one before, and then lines that say 100%.
pub shown_few : (ps : List Progress) → All IsSound ps → Printed 0 (shown (negsuc 0) ps).0
shown_few ps sound = rw (shown_start ps sound) (shown-Printed 0 ps (omega arith) sound)
