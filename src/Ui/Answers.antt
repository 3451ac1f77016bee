-- ===== src/Ui/Answers.antt =====
-- What prompts read (internal/ui/ui.go).
use loca_agent.Base.{Text, List, [], ◌∷◌, ◌++◌, some, All, ◌==◌, nat_eq, text_eq, if◌then◌else◌}
use loca_agent.Base.{◌≡◌, ◌≢◌, refl, ap, ◌∙◌, arith, trim_space}
use loca_agent.Ui.{Console, break_line, read_line, prompt}

abbrev pub IsLine : Text → Type 0
IsLine line = All (λ c. c ≢ 10) line

break_line-append :
    (line rest : Text) → IsLine line → break_line (line ++ (10 ∷ rest)) ≡ some (line, rest)
unfolding break_line
break_line-append [] rest h = refl
break_line-append (c ∷ line) rest (other, h) = ground (arith, break_line-append line rest h)

-- A question with its default, and the line typed at it.
pub record Exchange : Type 0 where
  pub question : Text
  pub default : Text
  pub typed : Text
  pub is_line : IsLine typed

-- The questions asked one after the other.
abbrev pub ask_all : List Exchange → Console → List Text × Console
ask_all [] c = ([], c)
ask_all (x ∷ xs) c =
    let (answer, c') = prompt x.question x.default c in
    let (answers, c'') = ask_all xs c' in (answer ∷ answers, c'')

-- The lines as they are typed, and what comes after them.
abbrev pub typed_before : List Exchange → Text → Text
typed_before [] rest = rest
typed_before (x ∷ xs) rest = x.typed ++ (10 ∷ typed_before xs rest)

abbrev pub answers_to : List Exchange → List Text
answers_to [] = []
answers_to (x ∷ xs) =
    (if trim_space x.typed == [] then x.default else trim_space x.typed) ∷ answers_to xs

prompt-typed :
    (x : Exchange) (rest : Text) (c : Console)
    → c.input ≡ x.typed ++ (10 ∷ rest)
    → ((prompt x.question x.default c).0
        ≡ (if trim_space x.typed == [] then x.default else trim_space x.typed))
      × ((prompt x.question x.default c).1.input ≡ rest)
unfolding prompt read_line
prompt-typed x rest c q =
    let e = ap break_line q ∙ break_line-append x.typed rest x.is_line in
    (rw (e, prompt, read_line) refl, rw (e, prompt, read_line) refl)

-- Where the input has a line for each question, each answer is the trimmed line typed at its own
-- question, or its default where that is empty, and the input behind these lines is left for others.
pub ask_all-answers :
    (xs : List Exchange) (rest : Text) (c : Console)
    → c.input ≡ typed_before xs rest
    → ((ask_all xs c).0 ≡ answers_to xs) × ((ask_all xs c).1.input ≡ rest)
ask_all-answers [] rest c q = (refl, q)
ask_all-answers (x ∷ xs) rest c q =
    let (answer, left) = prompt-typed x (typed_before xs rest) c q in
    let (answers, end) = ask_all-answers xs rest (prompt x.question x.default c).1 left in
    (ap-cons answer answers, end)
  where
    ap-cons : {a b : Text} {xs ys : List Text} → a ≡ b → xs ≡ ys → a ∷ xs ≡ b ∷ ys
    ap-cons p r = cc
