-- ===== src/Model/Source/Prefixes.antt =====
-- Beginnings of a text: what a partial file (internal/model/source.go) has of the whole one.
use mathlib.Core.Path.{subst}
use loca_agent.Base.{Text, ℕ, zero, suc, ◌≤◌, [], ◌∷◌, ◌++◌, length, nat_eq}
use loca_agent.Base.{◌≡◌, refl, sym, ap, ◌∙◌, arith}
use loca_agent.Model.Source.Disk.{take}

pub take_rest : (n : ℕ) (s : Text) → (r : Text) × (take n s ++ r ≡ s)
take_rest zero s = (s, refl)
take_rest (suc n) [] = ([], refl)
take_rest (suc n) (c ∷ s) = let (r, e) = take_rest n s in (r, ap (λ l. c ∷ l) e)

pub take-length : (s : Text) → take (length s) s ≡ s
take-length [] = refl
take-length (c ∷ s) = ap (λ l. c ∷ l) (take-length s)

-- A whole text whose prefix is as long as the text.
prefix_full : (t r : Text) → length (t ++ r) ≤ length t → t ≡ t ++ r
prefix_full [] [] h = refl
prefix_full [] (c ∷ r) h = absurd (omega arith)
prefix_full (d ∷ t) r h = ap (λ l. d ∷ l) (prefix_full t r (omega arith))

-- What may follow a text that is already whole.
pub rest_empty : (t r : Text) → t ++ r ≡ t → r ≡ []
rest_empty [] r e = e
rest_empty (c ∷ t) r e = rest_empty t r cc

suc_eq : {m n : ℕ} → suc m ≡ suc n → m ≡ n
suc_eq h = omega arith

-- Two beginnings of one text, as long as each other.
pub same_rest : (t r t' r' : Text) → t ++ r ≡ t' ++ r' → length t ≡ length t' → (t ≡ t') × (r ≡ r')
same_rest [] r [] r' e n = (refl, e)
same_rest [] r (c ∷ t') r' e n = absurd (omega arith)
same_rest (c ∷ t) r [] r' e n = absurd (omega arith)
same_rest (c ∷ t) r (d ∷ t') r' e n = let (p, q) = same_rest t r t' r' (cc) (suc_eq n) in (cc, q)

pub whole_length :
    (t r full : Text) (o : ℕ) → t ++ r ≡ full → o ≡ length t → length full ≤ o → t ≡ full
whole_length t r full o e z far =
    prefix_full t r (subst (λ n. length (t ++ r) ≤ n) z (subst (λ l. length l ≤ o) (sym e) far)) ∙ e
