-- ===== src/WgTunnel.antt =====
-- internal/wgtunnel: writing configs, the peer store, the stored key, and the tunnel controller.
pub mod PeerStore
pub mod KeyStore
pub mod Controller
pub mod Unseen
use loca_agent.Base.{Text, lit, ℕ, [], Option, none, some}
use loca_agent.Errs.{Error, user_wrap}
use loca_agent.Effect.{Result, ok, err, Action, check, or_fail, ◌>>=◌, ◌>>◌}
use loca_agent.Sys.{Os}
use loca_agent.Filepath.{dir_name}

module _ (os : Os) where
  -- os.MkdirAll and os.WriteFile, which return only an error
  unfoldable pub mkdir_all : Text → ℕ → Action os.World (Unit {0})
  mkdir_all path perm w = let (e, w') = os.mkdir_all path perm w in (check e, w')

  unfoldable pub write_file : Text → Text → ℕ → Action os.World (Unit {0})
  write_file path text perm w = let (e, w') = os.write_file path text perm w in (check e, w')

  -- WriteConfig
  unfoldable pub write_config : Text → Text → Action os.World (Unit {0})
  unfolding mkdir_all write_file
  write_config path text = do
    or_fail (mkdir_all (dir_name path) 0o700) (λ e.
        user_wrap e (lit "wg_config_dir") (lit "Could not create the WireGuard config directory")
          [])
    or_fail (write_file path text 0o600)
        (λ e. user_wrap e (lit "wg_config_write") (lit "Could not write the WireGuard config") [])
