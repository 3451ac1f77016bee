-- ===== src/Tests/Downloads.antt =====
-- A resumed download at a concrete system: one file in memory, and a server of three bytes.
use loca_agent.Base.{
  Text, ℕ, zero, suc, List, [], ◌∷◌, ◌++◌, append-nil, ◌∙◌, Option, none, some, false, pos, length,
  ◌≡◌, ◌⊎◌, refl, arith, inl, inr,
}
use mathlib.Core.Path.{subst}
use loca_agent.Effect.{ok}
use loca_agent.Sys.{Os, missing}
use loca_agent.Errs.{plain}
use loca_agent.Model.Source.{Response, Client, Progress, fetch}
use loca_agent.Model.Source.Disk.{concat, IsDisk, Serves, IsAnswer, IsHonest, IsWilling, Partial}
use loca_agent.Model.Source.Prefixes.{take-length}
use loca_agent.Model.Source.Resume.{fetch-Ensures}
use loca_agent.Model.Source.Delivers.{fetch_completes}
use loca_agent.Effect.Ensures.{Outcome}

abbrev pub one_file : Os
one_file = record {
  World = Option Text;
  stat =
      λ path w. elim w [ none ↦ none | some t ↦ some (record { is_dir = false; size = length t }) ];
  create = λ path perm w. (none, some []);
  open_append = λ path w. (none, w);
  write = λ path text w. ((length text, none), elim w [ none ↦ none | some t ↦ some (t ++ text) ]);
  read_file = λ path w. missing (plain []);
  write_file = λ path text perm w. (none, w);
  mkdir_all = λ path perm w. (none, w);
  process = λ name args w. (record { stdout = []; stderr = []; failure = none }, w);
  random = λ n w. (ok [], w);
}

one_file-IsDisk : (path : Text) → IsDisk one_file path (λ w. w)
one_file-IsDisk path = record {
  absent = λ w q. rw (q) refl;
  sized = λ w t q. (record { is_dir = false; size = length t }, (rw (q) refl, refl));
  made = λ p perm w. refl;
  emptied = λ perm w q. refl;
  refused = λ perm w e q. absurd cc;
  opened = λ w. refl;
  written = λ w t chunk q. rw (q, take-length chunk) refl;
}

abbrev pub reply : ℕ → List Text → Response
reply code chunks = record {
  status_code = code;
  status = [];
  content_length = pos 3;
  content_range = [];
  chunks = chunks;
  broken = none;
}

abbrev pub three_bytes : Option ℕ → Response
three_bytes none = reply 200 ((1 ∷ 2 ∷ []) ∷ (3 ∷ []) ∷ [])
three_bytes (some zero) = reply 206 ((1 ∷ 2 ∷ []) ∷ (3 ∷ []) ∷ [])
three_bytes (some (suc zero)) = reply 206 ((2 ∷ []) ∷ (3 ∷ []) ∷ [])
three_bytes (some (suc (suc zero))) = reply 206 ((3 ∷ []) ∷ [])
three_bytes (some (suc (suc (suc n)))) = reply 416 []

all_of :
    (code : ℕ) (chunks : List Text) (text : Text)
    → concat chunks ≡ text
    → Serves (reply code chunks) text
all_of code chunks text e = record {
  begins = record { rest = []; whole = append-nil (concat chunks) ∙ e };
  finishes = λ b. e;
}

pub three_bytes-IsAnswer : (range : Option ℕ) → IsAnswer (1 ∷ 2 ∷ 3 ∷ []) range (three_bytes range)
three_bytes-IsAnswer none = record {
  whole = λ s. all_of _ _ _ refl;
  part = λ s. absurd (omega arith);
  beyond = λ s. absurd (omega arith);
}
three_bytes-IsAnswer (some zero) = record {
  whole = λ s. absurd (omega arith);
  part = λ s. ([], 1 ∷ 2 ∷ 3 ∷ [], (refl, (refl, all_of _ _ _ refl)));
  beyond = λ s. absurd (omega arith);
}
three_bytes-IsAnswer (some (suc zero)) = record {
  whole = λ s. absurd (omega arith);
  part = λ s. (1 ∷ [], 2 ∷ 3 ∷ [], (refl, (refl, all_of _ _ _ refl)));
  beyond = λ s. absurd (omega arith);
}
three_bytes-IsAnswer (some (suc (suc zero))) = record {
  whole = λ s. absurd (omega arith);
  part = λ s. (1 ∷ 2 ∷ [], 3 ∷ [], (refl, (refl, all_of _ _ _ refl)));
  beyond = λ s. absurd (omega arith);
}
three_bytes-IsAnswer (some (suc (suc (suc n)))) = record {
  whole = λ s. absurd (omega arith);
  part = λ s. absurd (omega arith);
  beyond = λ s. (suc (suc (suc n)), (refl, omega arith));
}

abbrev pub server : Client (Option Text)
server = record { refused = λ url. none; answer = λ url range w. (ok (three_bytes range), w) }

same_reply :
    (range : Option ℕ) (w : Option Text) (resp : Response)
    → (server.answer [] range w).0 ≡ ok resp
    → three_bytes range ≡ resp
same_reply range w resp q = cc

server-IsHonest : IsHonest one_file server (λ w. w) [] (1 ∷ 2 ∷ 3 ∷ [])
server-IsHonest = record {
  keeps = λ range w. refl;
  answers = λ range w resp q.
      subst (IsAnswer (1 ∷ 2 ∷ 3 ∷ []) range) (same_reply range w resp q)
        (three_bytes-IsAnswer range);
}

known_status :
    (range : Option ℕ)
    → ((three_bytes range).status_code ≡ 200)
      ⊎ (((three_bytes range).status_code ≡ 206) ⊎ ((three_bytes range).status_code ≡ 416))
known_status none = inl refl
known_status (some zero) = inr (inl refl)
known_status (some (suc zero)) = inr (inl refl)
known_status (some (suc (suc zero))) = inr (inl refl)
known_status (some (suc (suc (suc n)))) = inr (inr refl)

unbroken : (range : Option ℕ) → (three_bytes range).broken ≡ none
unbroken none = refl
unbroken (some zero) = refl
unbroken (some (suc zero)) = refl
unbroken (some (suc (suc zero))) = refl
unbroken (some (suc (suc (suc n)))) = refl

server-IsWilling : IsWilling one_file server [] []
server-IsWilling = record {
  makes = λ p perm w. refl;
  creates = λ perm w. refl;
  opens = λ w. refl;
  writes = λ chunk w. refl;
  takes = refl;
  responds = λ range w. (three_bytes range, (refl, (known_status range, unbroken range)));
}

abbrev one_byte : Option Text
one_byte = some (1 ∷ [])

fetch-Ensures_example :
    let after = fetch one_file server [] [] one_byte in
    Outcome (λ _ w'. w' ≡ some (1 ∷ 2 ∷ 3 ∷ [])) (λ w'. Partial (1 ∷ 2 ∷ 3 ∷ []) w') after.0 after.1
fetch-Ensures_example =
    fetch-Ensures one_file [] (λ w. w) (one_file-IsDisk []) (1 ∷ 2 ∷ 3 ∷ []) server []
      server-IsHonest one_byte (record { rest = 2 ∷ 3 ∷ []; whole = refl })

fetch_completes_example :
    let after = fetch one_file server [] [] one_byte in
    (reports : List Progress) × ((after.0 ≡ ok reports) × (after.1 ≡ some (1 ∷ 2 ∷ 3 ∷ [])))
fetch_completes_example =
    fetch_completes one_file server [] [] server-IsWilling (λ w. w) (1 ∷ 2 ∷ 3 ∷ [])
      (one_file-IsDisk []) server-IsHonest one_byte (record { rest = 2 ∷ 3 ∷ []; whole = refl })
