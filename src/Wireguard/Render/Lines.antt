-- ===== src/Wireguard/Render/Lines.antt =====
-- How the lines that internal/wireguard/config.go renders are read.
use loca_agent.Base.{
  Text, lit, ℕ, [], ◌∷◌, ◌++◌, ◌==◌, nat_eq, text_eq, text_beq, ◌&&◌, Bool, true, false, not, some,
  trim_space, trim_left, trim_right, is_space, All, ◌≡◌, ◌≢◌, refl, ap, ◌∙◌, arith,
}
use loca_agent.Wireguard.Render.Read.{setting, cut_comment, cut_equals, kind, line_kind}

abbrev pub IsOneLine : Text → Type 0
IsOneLine s = All (λ c. c ≢ 10) s

-- A value that a line holds as it is: it has neither a line break nor a `#` nor space around it.
pub record IsValue (v : Text) : Type 0 where
  pub one_line : IsOneLine v
  pub uncommented : All (λ c. c ≢ b'#') v
  pub tight : trim_space v ≡ v

unfoldable pub key_byte : ℕ → Bool
key_byte c = not (is_space c) && (not (c == b'=') && (not (c == b'#') && not (c == b'[')))

unfoldable pub all_key : Text → Bool
unfolding key_byte
all_key [] = true
all_key (c ∷ s) = key_byte c && all_key s

record IsKeyHead (c : ℕ) (key : Text) : Type 0 where
  space : is_space c ≡ false
  equals : (c == b'=') ≡ false
  hash : (c == b'#') ≡ false
  bracket : (c == b'[') ≡ false
  tail : all_key key ≡ true

key-IsKeyHead : (c : ℕ) (key : Text) → all_key (c ∷ key) ≡ true → IsKeyHead c key
unfolding all_key key_byte
key-IsKeyHead c key h = record {
  space = ground arith;
  equals = ground arith;
  hash = ground arith;
  bracket = ground arith;
  tail = ground arith;
}

cut_comment-none : (v : Text) → All (λ c. c ≢ b'#') v → cut_comment v ≡ v
unfolding cut_comment
cut_comment-none [] h = refl
cut_comment-none (c ∷ v) (other, h) = ground (arith, cut_comment-none v h)

cut_comment-key :
    (key v : Text) → all_key key ≡ true → cut_comment (key ++ v) ≡ key ++ cut_comment v
unfolding cut_comment
cut_comment-key [] v h = refl
cut_comment-key (c ∷ key) v h =
    let k = key-IsKeyHead c key h in rw (k.hash, cut_comment, cut_comment-key key v k.tail) refl

cut_equals-key :
    (key v : Text)
    → all_key key ≡ true
    → cut_equals (key ++ (b' ' ∷ b'=' ∷ v)) ≡ some (key ++ (b' ' ∷ []), v)
unfolding cut_equals
cut_equals-key [] v h = refl
cut_equals-key (c ∷ key) v h =
    let k = key-IsKeyHead c key h in rw (k.equals, cut_equals, cut_equals-key key v k.tail) refl

trim_right-key : (key : Text) → all_key key ≡ true → trim_right is_space (key ++ (b' ' ∷ [])) ≡ key
unfolding trim_right is_space text_beq
trim_right-key [] h = refl
trim_right-key (c ∷ key) h =
    let k = key-IsKeyHead c key h in rw (k.space, trim_right, trim_right-key key k.tail) refl

trim_left-head : (c : ℕ) (s : Text) → is_space c ≡ false → trim_left is_space (c ∷ s) ≡ c ∷ s
unfolding trim_left
trim_left-head c s h = rw (h, trim_left) refl

trim_right-head :
    (c : ℕ) (s : Text)
    → is_space c ≡ false
    → trim_right is_space (c ∷ s) ≡ c ∷ trim_right is_space s
unfolding trim_right
trim_right-head c s h = rw (h, trim_right) refl

-- Space around a text that starts with no space is behind it.
trim_space-head :
    (c : ℕ) (s : Text) → is_space c ≡ false → trim_space (c ∷ s) ≡ c ∷ trim_right is_space s
unfolding trim_space
trim_space-head c s h = ap (trim_right is_space) (trim_left-head c s h) ∙ trim_right-head c s h

trim_space-one : (v : Text) → trim_space (32 ∷ v) ≡ trim_space v
unfolding trim_space trim_left is_space
trim_space-one v = refl

uncut :
    (key v : Text)
    → all_key key ≡ true
    → All (λ c. c ≢ b'#') v
    → cut_comment (key ++ (32 ∷ 61 ∷ 32 ∷ v)) ≡ key ++ (32 ∷ 61 ∷ 32 ∷ v)
unfolding cut_comment
uncut key v h plain =
    cut_comment-key key (32 ∷ 61 ∷ 32 ∷ v) h
    ∙ ap (λ t. key ++ (32 ∷ 61 ∷ 32 ∷ t)) (cut_comment-none v plain)

kind-setting :
    (c : ℕ) (key v : Text)
    → all_key (c ∷ key) ≡ true
    → trim_space v ≡ v
    → kind (c ∷ trim_right is_space (key ++ (32 ∷ 61 ∷ 32 ∷ v))) ((c ∷ key) ++ (32 ∷ 61 ∷ 32 ∷ v))
      ≡ setting (c ∷ key) v
kind-setting c key v h tight =
    let k = key-IsKeyHead c key h in
    rw
      (
        k.bracket,
        cut_equals-key (c ∷ key) (32 ∷ v) h,
        trim_space-head c (key ++ (32 ∷ [])) k.space,
        trim_right-key key k.tail,
        trim_space-one v,
        tight,
      )
      refl

-- A line of the file as it stands is the setting that it shows.
pub line_kind-setting :
    (c : ℕ) (key v : Text)
    → all_key (c ∷ key) ≡ true
    → IsValue v
    → line_kind ((c ∷ key) ++ (lit " = " ++ v)) ≡ setting (c ∷ key) v
unfolding line_kind lit
line_kind-setting c key v h value =
    let k = key-IsKeyHead c key h in
    rw
      (uncut (c ∷ key) v h value.uncommented, trim_space-head c (key ++ (32 ∷ 61 ∷ 32 ∷ v)) k.space)
      (kind-setting c key v h value.tight)
