-- ===== src/WgTunnel/KeyStore/Reload.antt =====
-- That a stored key is loaded again (internal/wgtunnel/keystore.go).
use loca_agent.Base.{
  Text, ℕ, ◌<◌, ◌/◌, ◌%◌, ◌*◌, ◌+◌, [], ◌∷◌, none, false, length, All, is_space, trim_space,
  trim_space_none,
}
use loca_agent.Base.{◌≡◌, refl, sym, ap, ◌∙◌, ◌⊎◌, inl, inr, arith, Option-cases}
use loca_agent.Errs.{Error}
use loca_agent.Effect.{Result, ok, Result-cases}
use loca_agent.Sys.{Os, Read, contents, missing, unreadable}
use loca_agent.Filepath.{dir_name}
use loca_agent.Base64.{encode, letter, std_encoding}
use loca_agent.Base64.RoundTrip.{decode-encode}
use loca_agent.Wireguard.{Keypair}
use loca_agent.Wireguard.Keys.{clamp, keypair_of, public_from_private, generate_keypair}
use loca_agent.Wireguard.Keys.Clamp.{length-clamp, All-clamp}
use loca_agent.WgTunnel.{mkdir_all, write_file}
use loca_agent.WgTunnel.KeyStore.{stored_key, create_key, load_or_create_key}

letter_shows : (n : ℕ) → n < 64 → is_space (letter std_encoding n) ≡ false
unfolding is_space letter
letter_shows n h = ground arith

encode_shows :
    (s : Text) → All (λ c. c < 256) s → All (λ c. is_space c ≡ false) (encode std_encoding s)
unfolding encode
encode_shows [] _ = tt
encode_shows (x ∷ []) (hx, _) = (
  letter_shows (x / 4) (omega arith),
  (
    letter_shows (x % 4 * 16) (omega arith),
    (unfold is_space in refl, (unfold is_space in refl, tt)),
  ),
)
encode_shows (x ∷ y ∷ []) (hx, (hy, _)) = (
  letter_shows (x / 4) (omega arith),
  (
    letter_shows (x % 4 * 16 + y / 16) (omega arith),
    (letter_shows (y % 16 * 4) (omega arith), (unfold is_space in refl, tt)),
  ),
)
encode_shows (x ∷ y ∷ z ∷ s) (hx, (hy, (hz, hs))) =
    let rest = encode_shows s hs in
    (
      letter_shows (x / 4) (omega arith),
      (
        letter_shows (x % 4 * 16 + y / 16) (omega arith),
        (
          letter_shows (y % 16 * 4 + z / 64) (omega arith),
          (letter_shows (z % 64) (omega arith), rest),
        ),
      ),
    )

Read-cases :
    (r : Read)
    → ((text : Text) × (r ≡ contents text)) ⊎ ((e : Error) × ((r ≡ missing e) ⊎ (r ≡ unreadable e)))
Read-cases (contents text) = inl (text, refl)
Read-cases (missing e) = inr (e, inl refl)
Read-cases (unreadable e) = inr (e, inr refl)

-- X25519 clamps its scalar itself; a random key has the length asked for, in bytes; and a file that was
-- written without error is read back.
pub record IsFaithful (public : Text → Text) (os : Os) : Type 0 where
  pub clamps : (k : Text) → public (clamp k) ≡ public k
  pub draws :
      (n : ℕ) (w : os.World) (k : Text)
      → (os.random n w).0 ≡ ok k
      → (length k ≡ n) × All (λ c. c < 256) k
  pub reads_back :
      (path text : Text) (perm : ℕ) (w : os.World)
      → (os.write_file path text perm w).0 ≡ none
      → os.read_file path (os.write_file path text perm w).1 ≡ contents text

module _ (public : Text → Text) where
  public_from_private-clamp :
      (k : Text)
      → public (clamp k) ≡ public k
      → length k ≡ 32
      → All (λ c. c < 256) k
      → public_from_private public (encode std_encoding (clamp k))
        ≡ ok (encode std_encoding (public k))
  unfolding public_from_private
  public_from_private-clamp k clamps len bytes =
      ground (arith, (decode-encode (clamp k) (All-clamp k bytes)).0, length-clamp k, len, clamps)

  module _ (os : Os) (path : Text) where
    stored_key-trim :
        (text : Text) (pub_key : Text)
        → trim_space text ≡ text
        → public_from_private public text ≡ ok pub_key
        → stored_key public os path text ≡ ok (record { private_key = text; public_key = pub_key })
    unfolding stored_key
    stored_key-trim text pub_key t p = ground (arith, ap (public_from_private public) t)

    stored_key-keypair_of :
        (k : Text)
        → public (clamp k) ≡ public k
        → length k ≡ 32
        → All (λ c. c < 256) k
        → stored_key public os path (keypair_of public k).private_key ≡ ok (keypair_of public k)
    unfolding keypair_of
    stored_key-keypair_of k clamps len bytes =
        stored_key-trim (encode std_encoding (clamp k)) (encode std_encoding (public k))
          (trim_space_none _ (encode_shows (clamp k) (All-clamp k bytes)))
          (public_from_private-clamp k clamps len bytes)

    -- What a successful creation leaves: the key pair of some random key, whose file was written.
    record Created (keys : Keypair) (w : os.World) : Type 0 where
      raw : Text
      drawn : os.World
      drawn_key : (os.random 32 drawn).0 ≡ ok raw
      from_raw : keys ≡ keypair_of public raw
      before : os.World
      written : (os.write_file path keys.private_key 0o600 before).0 ≡ none
      after : w ≡ (os.write_file path keys.private_key 0o600 before).1

    create_key-drawn :
        (w : os.World) (keys : Keypair)
        → (create_key public os path w).0 ≡ ok keys
        → (raw : Text) × ((os.random 32 w).0 ≡ ok raw)
    unfolding create_key generate_keypair
    create_key-drawn w keys h = elim (Result-cases (os.random 32 w).0) [
      | inl (raw, q) ↦ (raw, q)
      | inr (e, q) ↦ absurd (ground (arith, q))
    ]

    create_key-made :
        (w : os.World) (keys : Keypair) (raw : Text)
        → (os.random 32 w).0 ≡ ok raw
        → (os.mkdir_all (dir_name path) 0o700 (os.random 32 w).1).0 ≡ none
        → (create_key public os path w).0 ≡ ok keys
        → let m = (os.mkdir_all (dir_name path) 0o700 (os.random 32 w).1).1 in
          let f = os.write_file path (keypair_of public raw).private_key 0o600 m in
          (f.0 ≡ none) × ((keys ≡ keypair_of public raw) × ((create_key public os path w).1 ≡ f.1))
    unfolding create_key mkdir_all write_file generate_keypair keypair_of
    create_key-made w keys raw q d h =
        let m = (os.mkdir_all (dir_name path) 0o700 (os.random 32 w).1).1 in
        elim (Option-cases (os.write_file path (keypair_of public raw).private_key 0o600 m).0) [
          | inl good ↦ (good, (ground arith, ground arith))
          | inr (e, bad) ↦ absurd (ground arith)
        ]

    create_key-dir :
        (w : os.World) (keys : Keypair) (raw : Text)
        → (os.random 32 w).0 ≡ ok raw
        → (create_key public os path w).0 ≡ ok keys
        → (os.mkdir_all (dir_name path) 0o700 (os.random 32 w).1).0 ≡ none
    unfolding create_key mkdir_all write_file generate_keypair keypair_of
    create_key-dir w keys raw q h =
        elim (Option-cases (os.mkdir_all (dir_name path) 0o700 (os.random 32 w).1).0) [
          | inl good ↦ good
          | inr (e, bad) ↦ absurd (ground arith)
        ]

    load-stored :
        (w : os.World) (text : Text) (keys : Keypair)
        → os.read_file path w ≡ contents text
        → stored_key public os path text ≡ ok keys
        → (load_or_create_key public os path w).0 ≡ ok keys
    unfolding load_or_create_key
    load-stored w text keys q h = ground arith

    load-read :
        (w : os.World) (text : Text)
        → os.read_file path w ≡ contents text
        → load_or_create_key public os path w ≡ (stored_key public os path text, w)
    unfolding load_or_create_key
    load-read w text q = ground arith

    load-fresh :
        (w : os.World)
        → (e : Error) × ((os.read_file path w ≡ missing e) ⊎ (os.read_file path w ≡ unreadable e))
        → load_or_create_key public os path w ≡ create_key public os path w
    unfolding load_or_create_key
    load-fresh w (e, inl q) = ground arith
    load-fresh w (e, inr q) = ground arith

    load-created :
        (w : os.World) (keys : Keypair)
        → IsFaithful public os
        → (create_key public os path w).0 ≡ ok keys
        → (load_or_create_key public os path (create_key public os path w).1).0 ≡ ok keys
    load-created w keys f h =
        let (raw, q) = create_key-drawn w keys h in
        let d = create_key-dir w keys raw q h in
        let (written, (same, after)) = create_key-made w keys raw q d h in
        let (len, bytes) = f.draws 32 w raw q in
        load-stored _ (keypair_of public raw).private_key keys
          (ap (os.read_file path) after ∙ f.reads_back path _ 0o600 _ written)
          (stored_key-keypair_of raw (f.clamps raw) len bytes ∙ ap ok (sym same))

-- LoadOrCreateKey that returned a key pair returns the same pair when it is called again, where random
-- keys are 32 bytes, a written file is read back, and X25519 clamps its scalar itself.
pub load_or_create_key_again :
    (public : Text → Text) (os : Os) (path : Text) (w : os.World) (keys : Keypair)
    → IsFaithful public os
    → (load_or_create_key public os path w).0 ≡ ok keys
    → (load_or_create_key public os path (load_or_create_key public os path w).1).0 ≡ ok keys
load_or_create_key_again public os path w keys f h = elim (Read-cases (os.read_file path w)) [
  | inl (text, q) ↦
      ap (λ (r : Result Keypair × os.World). (load_or_create_key public os path r.1).0)
        (load-read public os path w text q)
      ∙ h
  | inr fresh ↦
      let eq = load-fresh public os path w fresh in
      ap (λ (r : Result Keypair × os.World). (load_or_create_key public os path r.1).0) eq
      ∙ load-created public os path w keys f
          (ap (λ (r : Result Keypair × os.World). r.0) (sym eq) ∙ h)
]
