-- ===== src/WgTunnel/KeyStore.antt =====
-- internal/wgtunnel/keystore.go: the stored key pair.
pub mod Reload
use loca_agent.Base.{Text, lit, [], ◌++◌, trim_space}
use loca_agent.Errs.{user_wrap}
use loca_agent.Effect.{Result, ok, err, Action, pure, or_fail, ◌>>=◌, ◌>>◌}
use loca_agent.Sys.{Os, contents, missing, unreadable}
use loca_agent.Filepath.{dir_name}
use loca_agent.Wireguard.{Keypair}
use loca_agent.Wireguard.Keys.{public_from_private, generate_keypair}
use loca_agent.WgTunnel.{mkdir_all, write_file}

module _ (public : Text → Text) (os : Os) (path : Text) where
  unfoldable pub stored_key : Text → Result Keypair
  stored_key text =
      let priv = trim_space text in
      elim (public_from_private public priv) [
        | ok pub_key ↦ ok (record { private_key = priv; public_key = pub_key })
        | err e ↦ err (
            user_wrap e (lit "wg_key_invalid") (lit "The stored WireGuard key is invalid")
              (lit "Delete " ++ (path ++ lit " and re-run to regenerate it.")))
      ]

  unfoldable pub create_key : Action os.World Keypair
  create_key = do
    keys ← generate_keypair public os
    or_fail (mkdir_all os (dir_name path) 0o700)
        (λ e. user_wrap e (lit "wg_key_dir") (lit "Could not create the key directory") [])
    or_fail (write_file os path keys.private_key 0o600)
        (λ e. user_wrap e (lit "wg_key_write") (lit "Could not save the WireGuard key") [])
    pure keys

  -- LoadOrCreateKey: any failure to read the file leads to a new key.
  unfoldable pub load_or_create_key : Action os.World Keypair
  unfolding stored_key create_key
  load_or_create_key w = elim (os.read_file path w) [
    | contents text ↦ (stored_key text, w)
    | missing _ ↦ create_key w
    | unreadable _ ↦ create_key w
  ]
