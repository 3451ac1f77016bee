-- ===== src/Tests/Models.antt =====
-- The download of two files at a concrete system: files in memory, and a server of three bytes.
use mathlib.Core.Path.{subst}
use loca_agent.Base.{
  Text, ℕ, [], ◌∷◌, ◌++◌, Option, none, some, true, false, length, ◌==◌, text_eq, text_beq, eq_iff,
  eq_refl, if◌then◌else◌, join, split, has_prefix,
}
use loca_agent.Base.{All, ◌⊎◌, ◌≡◌, ◌≢◌, refl, sym, inl, inr, Bool-cases}
use loca_agent.Errs.{Error, plain}
use loca_agent.Effect.{ok}
use loca_agent.Sys.{Os, missing}
use loca_agent.Filepath.{join_path, clean}
use loca_agent.Config.{ModelFile, ModelSource}
use loca_agent.Model.Source.{Response, Client, http_source}
use loca_agent.Model.Source.Disk.{Partial, IsDisk, IsHonest, IsAnswer}
use loca_agent.Model.Source.Prefixes.{take-length}
use loca_agent.Model.Download.{download}
use loca_agent.Model.Download.Whole.{IsApart, download-Ends}
use loca_agent.Tests.Downloads.{three_bytes, three_bytes-IsAnswer}
use loca_agent.Tests.Files.{model}

abbrev grown : Text → Option Text → Option Text
grown text none = none
grown text (some t) = some (t ++ text)

abbrev many_files : Os
many_files = record {
  World = Text → Option Text;
  stat = λ path w. elim (w path) [
    | none ↦ none
    | some t ↦ some (record { is_dir = false; size = length t })
  ];
  create = λ path perm w. (none, λ other. if other == path then some [] else w other);
  open_append = λ path w. (none, w);
  write = λ path text w.
      ((length text, none), λ other. if other == path then grown text (w other) else w other);
  read_file = λ path w. missing (plain []);
  write_file = λ path text perm w. (none, w);
  mkdir_all = λ path perm w. (none, w);
  process = λ name args w. (record { stdout = []; stderr = []; failure = none }, w);
  random = λ n w. (ok [], w);
}

abbrev content : Text → many_files.World → Option Text
content path w = w path

many_files-IsDisk : (path : Text) → IsDisk many_files path (content path)
many_files-IsDisk path = record {
  absent = λ w q. rw (q) refl;
  sized = λ w t q. (record { is_dir = false; size = length t }, (rw (q) refl, refl));
  made = λ p perm w. refl;
  emptied = λ perm w q. rw (eq_refl path) refl;
  refused = λ perm w e q. absurd cc;
  opened = λ w. refl;
  written = λ w t chunk q. rw (eq_refl path, q, take-length chunk) refl;
}

other_path : (p q : Text) → p ≢ q → (q == p) ≡ false
other_path p q ne = elim (Bool-cases (q == p)) [
  | inl same ↦ absurd (ne (sym ((eq_iff q p).0 same)))
  | inr other ↦ other
]

many_files-IsApart : IsApart many_files content
many_files-IsApart = record {
  creates = λ p q perm w ne. rw (other_path p q ne) refl;
  opens = λ p q w ne. refl;
  writes = λ p q text w ne. rw (other_path p q ne) refl;
}

abbrev mirror : Client (Text → Option Text)
mirror = record { refused = λ url. none; answer = λ url range w. (ok (three_bytes range), w) }

same_reply :
    (range : Option ℕ) (w : Text → Option Text) (resp : Response)
    → (mirror.answer [] range w).0 ≡ ok resp
    → three_bytes range ≡ resp
same_reply range w resp q = cc

mirror-IsHonest : (path url : Text) → IsHonest many_files mirror (content path) url (1 ∷ 2 ∷ 3 ∷ [])
mirror-IsHonest path url = record {
  keeps = λ range w. refl;
  answers = λ range w resp q.
      subst (IsAnswer (1 ∷ 2 ∷ 3 ∷ []) range) (same_reply range w resp q)
        (three_bytes-IsAnswer range);
}

abbrev empty : Text → Option Text
empty path = none

abbrev quiet :
    (url : Text) (range : Option ℕ) (q : Text) (w : Text → Option Text)
    → content q (mirror.answer url range w).1 ≡ content q w
quiet url range q w = refl

abbrev hub : ModelSource
hub = record { base_url = []; file_url_template = [] }

abbrev place : ModelFile → Text
place f = join_path ((100 ∷ []) ∷ f.name ∷ [])

abbrev Whole : (Text → Option Text) → ModelFile → Type 0
Whole w f = w (place f) ≡ some (1 ∷ 2 ∷ 3 ∷ [])

abbrev Begun : (Text → Option Text) → ModelFile → Type 0
Begun w f = Partial (1 ∷ 2 ∷ 3 ∷ []) (w (place f))

never : false ≡ true → ⊥
never e = cc

two_paths : join_path ((100 ∷ []) ∷ (98 ∷ []) ∷ []) ≢ join_path ((100 ∷ []) ∷ (97 ∷ []) ∷ [])
unfolding join_path clean text_beq join split has_prefix
two_paths e = never (
    (eq_iff (join_path ((100 ∷ []) ∷ (98 ∷ []) ∷ [])) (join_path ((100 ∷ []) ∷ (97 ∷ []) ∷ []))).1
      e)

download-Ends_example :
    let out =
      download (λ t. t) many_files (http_source many_files mirror) hub model (100 ∷ []) empty in
    ((out.0.1 ≡ none) × All (Whole out.1) model.files)
    ⊎ ((cause : Error) × ((out.0.1 ≡ some cause) × All (Begun out.1) model.files))
download-Ends_example =
    download-Ends many_files mirror content many_files-IsDisk many_files-IsApart quiet (λ t. t) hub
      model (100 ∷ []) (λ f. 1 ∷ 2 ∷ 3 ∷ []) empty ((two_paths, tt), (tt, tt))
      (mirror-IsHonest _ _, (mirror-IsHonest _ _, tt)) (tt, (tt, tt))
