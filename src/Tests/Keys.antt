-- ===== src/Tests/Keys.antt =====
-- The stored key at a concrete system: files in memory, and random bytes that are all zero.
use loca_agent.Base.{
  Text, ℕ, zero, suc, ◌<◌, [], ◌∷◌, ◌≡◌, refl, ap, arith, All, length, none, ◌==◌, text_eq, eq_refl,
  if◌then◌else◌,
}
use mathlib.Core.Path.{subst}
use loca_agent.Effect.{ok}
use loca_agent.Errs.{plain}
use loca_agent.Sys.{Os, Read, contents, missing}
use loca_agent.Wireguard.Keys.{keypair_of, generate_keypair}
use loca_agent.WgTunnel.{mkdir_all, write_file}
use loca_agent.WgTunnel.KeyStore.{load_or_create_key}
use loca_agent.WgTunnel.KeyStore.Reload.{IsFaithful, load_or_create_key_again}

abbrev zeros : ℕ → Text
zeros zero = []
zeros (suc n) = 0 ∷ zeros n

abbrev pub memory : Os
memory = record {
  World = Text → Read;
  stat = λ path w. none;
  create = λ path perm w. (none, w);
  open_append = λ path w. (none, w);
  write = λ path text w. ((length text, none), w);
  read_file = λ path w. w path;
  write_file =
      λ path text perm w. (none, λ other. if other == path then contents text else w other);
  mkdir_all = λ path perm w. (none, w);
  process = λ name args w. (record { stdout = []; stderr = []; failure = none }, w);
  random = λ n w. (ok (zeros n), w);
}

length-zeros : (n : ℕ) → length (zeros n) ≡ n
length-zeros zero = refl
length-zeros (suc n) = ap suc (length-zeros n)

All-zeros : (n : ℕ) → All (λ c. c < 256) (zeros n)
All-zeros zero = tt
All-zeros (suc n) = (omega arith, All-zeros n)

zeros-drawn :
    (n : ℕ) (k : Text) → (memory.random n (λ path. missing (plain []))).0 ≡ ok k → zeros n ≡ k
zeros-drawn n k h = cc

abbrev one_key : Text → Text
one_key k = 1 ∷ []

memory-IsFaithful : IsFaithful one_key memory
memory-IsFaithful = record {
  clamps = λ k. refl;
  draws = λ n w k h. (
    ground (arith, length-zeros n),
    subst (All (λ c. c < 256)) (zeros-drawn n k h) (All-zeros n),
  );
  reads_back = λ path text perm w h. rw (eq_refl path) refl;
}

abbrev pub no_files : Text → Read
no_files path = missing (plain [])

load_or_create_key_again_example :
    (load_or_create_key one_key memory [] (load_or_create_key one_key memory [] no_files).1).0
    ≡ ok (keypair_of one_key (zeros 32))
unfolding load_or_create_key mkdir_all write_file generate_keypair
load_or_create_key_again_example =
    load_or_create_key_again one_key memory [] no_files (keypair_of one_key (zeros 32))
      memory-IsFaithful refl
