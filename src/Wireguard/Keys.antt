-- ===== src/Wireguard/Keys.antt =====
-- internal/wireguard/keys.go: generating keys, and deriving a public key.
pub mod Clamp
use Prim.Native.Nat.{bit_and, bit_or}
use loca_agent.Base.{Text, lit, ℕ, zero, suc, [], ◌∷◌, ◌++◌, none, some, length, ◌==◌, nat_eq}
use loca_agent.Base.{if◌then◌else◌, format_nat}
use loca_agent.Errs.{plain, wrapped}
use loca_agent.Effect.{Result, ok, err, Action, pure, or_fail, ◌>>=◌}
use loca_agent.Sys.{Os}
use loca_agent.Base64.{encode, decode, std_encoding}
use loca_agent.Wireguard.{Keypair}

-- The byte at an index is replaced; Go panics where there is none, and the key is 32 bytes long.
modify : ℕ → (ℕ → ℕ) → Text → Text
modify i f [] = []
modify zero f (x ∷ s) = f x ∷ s
modify (suc i) f (x ∷ s) = x ∷ modify i f s

-- clamp
unfoldable pub clamp : Text → Text
unfolding modify
clamp k = modify 31 (λ x. bit_or (bit_and x 127) 64) (modify 0 (λ x. bit_and x 248) k)

-- crypto/ecdh's X25519: the public key of 32 private bytes. `public` is a parameter of the model.
module _ (public : Text → Text) where
  unfoldable pub keypair_of : Text → Keypair
  keypair_of raw = record {
    private_key = encode std_encoding (clamp raw);
    public_key = encode std_encoding (public raw);
  }

  -- PublicFromPrivate
  unfoldable pub public_from_private : Text → Result Text
  public_from_private priv = elim (decode std_encoding priv) [
    | none ↦ err (wrapped (lit "decode private key: ") (plain (lit "illegal base64 data")) [])
    | some raw ↦
        if length raw == 32
        then ok (encode std_encoding (public raw))
        else err (plain (lit "private key must be 32 bytes, got " ++ format_nat (length raw)))
  ]

  module _ (os : Os) where
    -- GenerateKeypair
    unfoldable pub generate_keypair : Action os.World Keypair
    unfolding keypair_of
    generate_keypair = do
      raw ← or_fail (os.random 32) (λ e. wrapped (lit "generate x25519 key: ") e [])
      pure (keypair_of raw)

-- GeneratePresharedKey
unfoldable pub generate_preshared_key : (os : Os) → Action os.World Text
generate_preshared_key os = do
  raw ← or_fail (os.random 32) (λ e. wrapped (lit "generate preshared key: ") e [])
  pure (encode std_encoding raw)
