-- ===== src/Filepath/Rooted.antt =====
-- What Clean and Join of path/filepath make of a rooted path: no element of it is "..".
use mathlib.Core.List.{reverse, reverse-append}
use loca_agent.Base.{
  Text, List, [], ◌∷◌, ◌++◌, true, false, ◌==◌, ◌||◌, text_eq, nat_eq, text_beq, split, join, All,
  All-append, ◌≡◌, ◌≢◌, refl, sym, inl, inr, Bool-cases, arith, eq_iff,
}
use mathlib.Core.Path.{subst}
use loca_agent.Filepath.{
  slash, dot, dot_dot, is_rooted, back_up, push_element, push_elements, clean_elements, clean,
  join_path,
}

-- An element as a rooted path has it: no "..", and no separator in it.
pub record IsPlain (e : Text) : Type 0 where
  pub forward : e ≢ dot_dot
  pub unbroken : All (λ c. c ≢ b'/') e

split-cases : (s : Text) → (part : Text) × (parts : List Text) × (split b'/' s ≡ part ∷ parts)
unfolding split
split-cases [] = ([], [], refl)
split-cases (c ∷ s) =
    let (part, parts, q) = split-cases s in
    elim (Bool-cases (c == b'/')) [
      | inl h ↦ ([], part ∷ parts, rw (q, h, split) refl)
      | inr h ↦ (c ∷ part, parts, rw (q, h, split) refl)
    ]

abbrev Unbroken : Text → Type 0
Unbroken e = All (λ c. c ≢ b'/') e

-- The parts of a split hold no separator.
split-Unbroken : (s : Text) → All Unbroken (split b'/' s)
unfolding split
split-Unbroken [] = (tt, tt)
split-Unbroken (c ∷ s) =
    let (part, parts, q) = split-cases s in
    let rest = subst (All Unbroken) q (split-Unbroken s) in
    elim (Bool-cases (c == b'/')) [
      | inl h ↦ rw (q, h, split) (tt, rest)
      | inr h ↦ rw (q, h, split) ((λ e. ground (arith, h), rest.0), rest.1)
    ]

back_up-IsPlain : (stack : List Text) → All IsPlain stack → All IsPlain (back_up true stack)
unfolding back_up
back_up-IsPlain [] h = tt
back_up-IsPlain (top ∷ stack) (t, h) = elim (Bool-cases (top == dot_dot)) [
  | inl q ↦ absurd (t.forward ((eq_iff top dot_dot).0 q))
  | inr q ↦ rw (q, back_up) h
]

push_element-IsPlain :
    (stack : List Text) (e : Text)
    → All IsPlain stack
    → Unbroken e
    → All IsPlain (push_element true stack e)
unfolding push_element
push_element-IsPlain stack e h u = elim (Bool-cases (e == [] || e == dot)) [
  | inl q ↦ rw (q, push_element) h
  | inr q ↦ elim (Bool-cases (e == dot_dot)) [
    | inl up ↦ rw (q, up, push_element) (back_up-IsPlain stack h)
    | inr down ↦
        rw (q, down, push_element)
          (record { forward = λ p. ground (arith, down, (eq_iff e dot_dot).1 p); unbroken = u }, h)
  ]
]

push_elements-IsPlain :
    (stack es : List Text)
    → All IsPlain stack
    → All Unbroken es
    → All IsPlain (push_elements true stack es)
unfolding push_elements
push_elements-IsPlain stack [] h u = h
push_elements-IsPlain stack (e ∷ es) h (ue, us) =
    push_elements-IsPlain (push_element true stack e) es (push_element-IsPlain stack e h ue) us

reverse-All : (P : Text → Type 0) (xs : List Text) → All P xs → All P (reverse xs)
reverse-All P [] h = tt
reverse-All P (x ∷ xs) (p, h) =
    subst (All P) (sym (reverse-append (x ∷ []) xs))
      (All-append P (reverse xs) (x ∷ []) (reverse-All P xs h) (p, tt))

clean_elements-IsPlain : (path : Text) → is_rooted path ≡ true → All IsPlain (clean_elements path)
unfolding clean_elements
clean_elements-IsPlain path h = rw (h) (
    reverse-All IsPlain (push_elements true [] (split b'/' path))
      (push_elements-IsPlain [] (split b'/' path) tt (split-Unbroken path)))

-- Cut at a separator, a text has the parts before it and those behind it.
pub split-append : (s t : Text) → split b'/' (s ++ (b'/' ∷ t)) ≡ split b'/' s ++ split b'/' t
unfolding split
split-append [] t = let (part, parts, q) = split-cases t in rw q refl
split-append (c ∷ s) t =
    let (part, parts, q) = split-cases s in
    elim (Bool-cases (c == b'/')) [
      | inl h ↦ rw (split-append s t, q, h, split) refl
      | inr h ↦ rw (split-append s t, q, h, split) refl
    ]

split-one : (e : Text) → Unbroken e → split b'/' e ≡ e ∷ []
unfolding split
split-one [] h = refl
split-one (c ∷ e) (other, h) = rw (split-one e h, no_separator, split) refl
  where
    no_separator : (c == b'/') ≡ false
    no_separator = ground arith

abbrev pub Forward : Text → Type 0
Forward e = e ≢ dot_dot

split-join : (es : List Text) → All IsPlain es → All Forward (split b'/' (join es slash))
unfolding join split
split-join [] h = ((λ p. absurd cc), tt)
split-join (e ∷ []) (p, h) = rw (split-one e p.unbroken) (p.forward, tt)
split-join (e ∷ f ∷ es) (p, h) =
    rw (split-append e (join (f ∷ es) slash), split-one e p.unbroken)
      (p.forward, split-join (f ∷ es) h)

split-rooted : (t : Text) → split b'/' (b'/' ∷ t) ≡ [] ∷ split b'/' t
unfolding split
split-rooted t = let (part, parts, q) = split-cases t in rw q refl

clean-rooted :
    (path : Text) → is_rooted path ≡ true → clean path ≡ b'/' ∷ join (clean_elements path) slash
unfolding clean
clean-rooted path h = rw (h, clean) refl

-- No element of a rooted path that has been cleaned is "..".
clean-Forward : (path : Text) → is_rooted path ≡ true → All Forward (split b'/' (clean path))
clean-Forward path h =
    subst (λ p. All Forward (split b'/' p)) (sym (clean-rooted path h))
      (subst (All Forward) (sym (split-rooted (join (clean_elements path) slash)))
        ((λ p. absurd cc), split-join (clean_elements path) (clean_elements-IsPlain path h)))

pub is_rooted-clean : (path : Text) → is_rooted path ≡ true → is_rooted (clean path) ≡ true
is_rooted-clean path h = subst (λ p. is_rooted p ≡ true) (sym (clean-rooted path h)) refl

-- Nor is one of a path that is joined to a rooted one.
pub join_path-Forward :
    (dir name : Text)
    → is_rooted dir ≡ true
    → All Forward (split b'/' (join_path (dir ∷ name ∷ [])))
unfolding join_path join text_beq
join_path-Forward [] name h = absurd cc
join_path-Forward (c ∷ dir) name h = clean-Forward (c ∷ (dir ++ (b'/' ∷ name))) h
