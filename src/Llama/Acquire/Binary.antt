-- ===== src/Llama/Acquire/Binary.antt =====
-- Which file FindServerBinary picks (internal/llama/acquire.go).
use loca_agent.Base.{
  Text, ℕ, List, [], ◌∷◌, none, some, true, false, if◌then◌else◌, ltb, to_lower, ◌==◌, text_eq,
  text_beq,
}
use loca_agent.Base.{
  ◌≡◌, refl, sym, ap, ◌∙◌, ◌≤◌, ◌⊎◌, inl, inr, arith, Has, Bool-cases, Option-cases,
}
use mathlib.Core.Path.{subst}
use loca_agent.Effect.{ok, Result-cases}
use loca_agent.Llama.Acquire.{Visit, Best, rank, visit_file, walk, find_server_binary}

-- A file, not a directory, whose lower-cased name has a rank.
pub record Candidate (v : Visit) (r : ℕ) : Type 0 where
  pub is_file : v.is_dir ≡ false
  pub ranked : rank (to_lower v.name) ≡ some r

-- One step of the walk.
abbrev step : Best → Visit → Best
step best v = if v.is_dir then best else visit_file best v

step-lower : (best : Best) (v : Visit) → (step best v).rank ≤ best.rank
unfolding visit_file
step-lower best v = ground arith

step-least : (best : Best) (v : Visit) (r : ℕ) → Candidate v r → (step best v).rank ≤ r
unfolding visit_file
step-least best v r c = ground (arith, c.is_file, c.ranked)

step-kept :
    (best : Best) (v : Visit)
    → (v.is_dir ≡ true)
      ⊎ ((rank (to_lower v.name) ≡ none)
          ⊎ ((r : ℕ) × ((rank (to_lower v.name) ≡ some r) × (ltb r best.rank ≡ false))))
    → step best v ≡ best
unfolding visit_file
step-kept best v (inl dir) = ground arith
step-kept best v (inr (inl unranked)) = ground arith
step-kept best v (inr (inr (r, (q, higher)))) = ground arith

step-taken :
    (best : Best) (v : Visit) (r : ℕ)
    → Candidate v r
    → ltb r best.rank ≡ true
    → step best v ≡ record { path = v.path; rank = r }
unfolding visit_file
step-taken best v r c lower = ground (arith, c.is_file, c.ranked)

step-origin :
    (best : Best) (v : Visit)
    → (step best v ≡ best) ⊎ ((v.path ≡ (step best v).path) × Candidate v (step best v).rank)
step-origin best v = elim (Bool-cases v.is_dir) [
  | inl dir ↦ inl (step-kept best v (inl dir))
  | inr file ↦ elim (Option-cases (rank (to_lower v.name))) [
    | inl unranked ↦ inl (step-kept best v (inr (inl unranked)))
    | inr (r, q) ↦ elim (Bool-cases (ltb r best.rank)) [
      | inl lower ↦
          let c : Candidate v r = record { is_file = file; ranked = q } in
          inr (
            subst (λ (b : Best). (v.path ≡ b.path) × Candidate v b.rank)
              (sym (step-taken best v r c lower)) (refl, c))
      | inr higher ↦ inl (step-kept best v (inr (inr (r, (q, higher)))))
    ]
  ]
]

walk-ok :
    (best b : Best) (v : Visit) (vs : List Visit)
    → walk best (v ∷ vs) ≡ ok b
    → walk (step best v) vs ≡ ok b
unfolding walk
walk-ok best b v vs h = ground arith

walk-nil : (best b : Best) → walk best [] ≡ ok b → best ≡ b
unfolding walk
walk-nil best b h = cc

walk-lower : (best b : Best) (vs : List Visit) → walk best vs ≡ ok b → b.rank ≤ best.rank
unfolding walk
walk-lower best b [] h = omega (arith, ap (λ (x : Best). x.rank) (walk-nil best b h))
walk-lower best b (v ∷ vs) h =
    omega (arith, walk-lower (step best v) b vs (walk-ok best b v vs h), step-lower best v)

walk-least :
    (best b : Best) (vs : List Visit)
    → walk best vs ≡ ok b
    → (v : Visit) (r : ℕ) → Has v vs
    → Candidate v r
    → b.rank ≤ r
walk-least best b [] h v r none_there c = elim none_there [ ]
walk-least best b (u ∷ vs) h v r (inl same) c = omega (
  arith,
  walk-lower (step best u) b vs (walk-ok best b u vs h),
  step-least best u r (subst (λ v. Candidate v r) same c),
)
walk-least best b (u ∷ vs) h v r (inr later) c =
    walk-least (step best u) b vs (walk-ok best b u vs h) v r later c

Found : List Visit → Best → Type 0
Found vs b = (v : Visit) × (Has v vs × ((v.path ≡ b.path) × Candidate v b.rank))

walk-origin : (best b : Best) (vs : List Visit) → walk best vs ≡ ok b → (b ≡ best) ⊎ Found vs b
unfolding walk Found
walk-origin best b [] h = inl (sym (walk-nil best b h))
walk-origin best b (u ∷ vs) h = elim (walk-origin (step best u) b vs (walk-ok best b u vs h)) [
  | inr (v, (there, found)) ↦ inr (v, (inr there, found))
  | inl same ↦ elim (step-origin best u) [
    | inl kept ↦ inl (same ∙ kept)
    | inr (p, c) ↦ inr (
      u,
      (
        inl refl,
        (
          p ∙ ap (λ (x : Best). x.path) (sym same),
          subst (λ (x : Best). Candidate u x.rank) (sym same) c,
        ),
      ),
    )
  ]
]

true≢false : true ≡ false → ⊥
true≢false h = cc

find-walk :
    (vs : List Visit) (path : Text)
    → find_server_binary vs ≡ ok path
    → (b : Best) × ((walk (record { path = []; rank = 5 }) vs ≡ ok b)
        × ((b.path == [] ≡ false) × (b.path ≡ path)))
unfolding find_server_binary
find-walk vs path h = elim (Result-cases (walk (record { path = []; rank = 5 }) vs)) [
  | inl (b, q) ↦ (b, (q, (ground (arith, q), ground (arith, q))))
  | inr (e, q) ↦ absurd (ground arith)
]

-- The path is that of a file of the walk with a server name, and no file of the walk has a better one.
pub record IsBest (vs : List Visit) (path : Text) : Type 0 where
  pub visit : Visit
  pub position : ℕ
  pub visited : Has visit vs
  pub its_path : visit.path ≡ path
  pub candidate : Candidate visit position
  pub least : (u : Visit) (s : ℕ) → Has u vs → Candidate u s → position ≤ s

-- The path that FindServerBinary returns is that of a file of the walk whose lower-cased name is one of
-- the four server names, and no file of the walk has a name with a lower rank.
pub find_server_binary-IsBest :
    (vs : List Visit) (path : Text) → find_server_binary vs ≡ ok path → IsBest vs path
unfolding text_beq Found
find_server_binary-IsBest vs path h =
    let (b, (q, (set, p))) = find-walk vs path h in
    let start : Best = record { path = []; rank = 5 } in
    elim (walk-origin start b vs q) [
      | inl same ↦ absurd (true≢false (ap (λ (x : Best). x.path == []) (sym same) ∙ set))
      | inr (v, (there, (at, c))) ↦ record {
        visit = v;
        position = b.rank;
        visited = there;
        its_path = at ∙ p;
        candidate = c;
        least = walk-least start b vs q;
      }
    ]
