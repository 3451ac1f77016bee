-- ===== src/Llama/Unzip/ZipSlip.antt =====
-- Where Unzip writes (internal/llama/unzip.go).
use loca_agent.Base.{Text, ℕ, List, [], ◌∷◌, ◌++◌, Bool, true, ◌==◌, ◌||◌}
use loca_agent.Base.{◌≡◌, arith, text_eq, has_prefix, if◌then◌else◌, Bool-cases, inl, inr}
use mathlib.Core.Path.{subst}
use loca_agent.Base.{nat_eq, sym}
use loca_agent.Errs.{Error}
use loca_agent.Effect.{check, lift}
use loca_agent.Effect.Keeps.{Keeps, bind-Keeps, if-Keeps, lift-Keeps, lift-bind-Keeps}
use loca_agent.WgTunnel.{mkdir_all}
use loca_agent.Effect.{Result, ok, err, Result-cases}
use loca_agent.Sys.{Os}
use loca_agent.Filepath.Rooted.{split-append, join_path-Forward, is_rooted-clean}
use loca_agent.Base.{All, ◌⊎◌, ◌≢◌, ap, ◌∙◌, split, eq_iff, has_prefix-split, append_assoc}
use loca_agent.Filepath.{is_rooted, dot_dot, slash, clean, join_path, dir_name}
use loca_agent.Llama.Unzip.{
  Entry, target_of, extract_one, extract_entry, extract_all, unzip, copy_entry, create_file,
}

-- The path is the destination, or has the elements of the destination and then others, none of which
-- is "..".
abbrev pub Within : Text → Text → Type 0
Within dest path =
    (path ≡ dest)
    ⊎ ((below : List Text) × (split b'/' path ≡ split b'/' dest ++ below)
        × All (λ e. e ≢ dot_dot) below)

-- The test of the guard
abbrev accepts : Text → Text → Bool
accepts dest path = path == dest || has_prefix path (dest ++ slash)

All-behind : (P : Text → Type 0) (xs ys : List Text) → All P (xs ++ ys) → All P ys
All-behind P [] ys h = h
All-behind P (x ∷ xs) ys (p, h) = All-behind P xs ys h

below-Within :
    (dest name : Text)
    → is_rooted dest ≡ true
    → accepts dest (join_path (dest ∷ name ∷ [])) ≡ true
    → Within dest (join_path (dest ∷ name ∷ []))
below-Within dest name rooted h =
    let path = join_path (dest ∷ name ∷ []) in
    elim (Bool-cases (path == dest)) [
      | inl same ↦ inl ((eq_iff path dest).0 same)
      | inr other ↦
          let (t, e) = has_prefix-split (dest ++ slash) path (ground (arith, h, other)) in
          let parts = ap (split b'/') (e ∙ append_assoc dest slash t) ∙ split-append dest t in
          inr (
            split b'/' t,
            parts,
            All-behind (λ e. e ≢ dot_dot) (split b'/' dest) (split b'/' t)
                (subst (All (λ e. e ≢ dot_dot)) parts (join_path-Forward dest name rooted)),
          )
    ]

target_of-Within :
    (dest name target : Text)
    → is_rooted dest ≡ true
    → target_of dest name ≡ ok target
    → Within dest target
unfolding target_of
target_of-Within dest name target rooted h =
    elim (Bool-cases (accepts dest (join_path (dest ∷ name ∷ [])))) [
      | inl inside ↦
          subst (Within dest) (ground (arith, h, inside)) (below-Within dest name rooted inside)
      | inr outside ↦ absurd (ground (arith, h, outside))
    ]

module _ (os : Os) (I : os.World → Type 0) where
  -- Opening one path empty, and writing to it, keep I.
  pub record Writable (path : Text) : Type 0 where
    pub creating : (perm : ℕ) (w : os.World) → I w → I (os.create path perm w).1
    pub writing : (text : Text) (w : os.World) → I w → I (os.write path text w).1

  extract_one-Keeps :
      (f : Entry) (target : Text) → Writable target → Keeps I (extract_one os f target)
  unfolding extract_one copy_entry create_file
  extract_one-Keeps f target t =
      bind-Keeps I (lift (check f.opened)) (λ _. _) (lift-Keeps I (check f.opened))
        (λ _.
          bind-Keeps I (create_file os target (if f.perm == 0 then 0o644 else f.perm)) (λ _. _)
            (λ w i. t.creating _ w i) (λ _ w i. t.writing f.body w i))

  module _ (dest : Text) (rooted : is_rooted dest ≡ true)
      (dirs : (path : Text) (perm : ℕ) (w : os.World) → I w → I (os.mkdir_all path perm w).1)
      (files : (path : Text) → Within dest path → Writable path) where
    extract_entry-Keeps : (f : Entry) → Keeps I (extract_entry os dest f)
    unfolding extract_entry mkdir_all
    extract_entry-Keeps f =
        lift-bind-Keeps I (target_of dest f.name) (λ _. _)
          (λ target h.
            if-Keeps I f.is_dir (λ _. _) (λ _. _)
              (bind-Keeps I (mkdir_all os target 0o755) (λ _. _) (λ w i. dirs _ _ w i) (λ _ w i. i))
              (bind-Keeps I (mkdir_all os (dir_name target) 0o755) (λ _. _) (λ w i. dirs _ _ w i)
                (λ _.
                  bind-Keeps I (extract_one os f target) (λ _. _)
                    (extract_one-Keeps f target
                      (files target (target_of-Within dest f.name target rooted h)))
                    (λ _ w i. i))))

    extract_all-Keeps : (fs : List Entry) → Keeps I (extract_all os dest fs)
    unfolding extract_all
    extract_all-Keeps [] = λ w i. i
    extract_all-Keeps (f ∷ fs) =
        bind-Keeps I (extract_entry os dest f) (λ _. _) (extract_entry-Keeps f)
          (λ here.
            bind-Keeps I (extract_all os dest fs) (λ _. _) (extract_all-Keeps fs) (λ _ w i. i))

unzip-opened :
    (os : Os) (open_zip : Text → os.World → Result (List Entry)) (src dest : Text) (w : os.World)
    → (entries : List Entry) → open_zip src w ≡ ok entries
    → unzip os open_zip src dest w ≡ extract_all os (clean dest) entries w
unfolding unzip
unzip-opened os open_zip src dest w entries q = ground arith

unzip-unopened :
    (os : Os) (open_zip : Text → os.World → Result (List Entry)) (src dest : Text) (w : os.World)
    → (e : Error) → open_zip src w ≡ err e
    → (unzip os open_zip src dest w).1 ≡ w
unfolding unzip
unzip-unopened os open_zip src dest w e q = ground arith

-- Into a destination that is an absolute path, extraction writes only at the cleaned destination or
-- below it, that is, at paths with its elements and then others that do not lead upwards: a property of
-- the state that making directories keeps, and that creating and writing a file there keeps, holds after
-- Unzip if it held before, whatever the entries are called and whether Unzip fails or not.
pub unzip-Keeps :
    (os : Os) (I : os.World → Type 0) (dest : Text)
    → is_rooted dest ≡ true
    → ((path : Text) (perm : ℕ) (w : os.World) → I w → I (os.mkdir_all path perm w).1)
    → ((path : Text) → Within (clean dest) path → Writable os I path)
    → (open_zip : Text → os.World → Result (List Entry)) (src : Text)
    → Keeps I (unzip os open_zip src dest)
unzip-Keeps os I dest rooted dirs files open_zip src w i = elim (Result-cases (open_zip src w)) [
  | inl (entries, q) ↦
      subst (λ r. I r.1) (sym (unzip-opened os open_zip src dest w entries q))
        (extract_all-Keeps os I (clean dest) (is_rooted-clean dest rooted) dirs files entries w i)
  | inr (e, q) ↦ subst I (sym (unzip-unopened os open_zip src dest w e q)) i
]
