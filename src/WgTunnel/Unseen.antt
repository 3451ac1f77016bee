-- ===== src/WgTunnel/Unseen.antt =====
-- Files and keys (internal/wgtunnel, internal/wireguard/keys.go) beside a view that shows neither.
use loca_agent.Base.{Text, ℕ, Bool, List, [], ◌≡◌, refl, if◌then◌else◌}
use loca_agent.Effect.{Result, Action, pure, lift, or_fail, ◌>>=◌, ◌>>◌}
use loca_agent.Effect.Unseen.{Unseen, bind-Unseen, if-Unseen, lift-bind-Unseen}
use loca_agent.Errs.{Error}
use loca_agent.Filepath.{dir_name}
use loca_agent.Wireguard.{Keypair}
use loca_agent.Sys.{Os, Read, contents, missing, unreadable}
use loca_agent.Netip.{Ip6}
use loca_agent.Wireguard.{JoinToken}
use loca_agent.Wireguard.Token.{TokenField, validate}
use loca_agent.Wireguard.Keys.{generate_keypair, generate_preshared_key}
use loca_agent.Wireguard.Address.{with_prefix}
use loca_agent.Wireguard.Client.{enrollment, enroll}
use loca_agent.WgTunnel.{write_config, mkdir_all, write_file}
use loca_agent.WgTunnel.KeyStore.{stored_key, create_key, load_or_create_key}

-- A view that making directories, writing files and drawing random bytes leave alone.
pub record IsCalm (os : Os) {V : Type 0} (view : os.World → V) : Type 0 where
  pub made : (p : Text) (perm : ℕ) (w : os.World) → view (os.mkdir_all p perm w).1 ≡ view w
  pub wrote : (p b : Text) (perm : ℕ) (w : os.World) → view (os.write_file p b perm w).1 ≡ view w
  pub drew : (n : ℕ) (w : os.World) → view (os.random n w).1 ≡ view w

module _ (os : Os) {V : Type 0} (view : os.World → V) (calm : IsCalm os view) where
  pub write_config-Unseen : (path text : Text) → Unseen view (write_config os path text)
  unfolding write_config mkdir_all write_file
  write_config-Unseen path text =
      bind-Unseen view _ _ (λ w. calm.made _ _ w) (λ _ w. calm.wrote _ _ _ w)

  generate_keypair-Unseen : (public : Text → Text) → Unseen view (generate_keypair public os)
  unfolding generate_keypair
  generate_keypair-Unseen public = bind-Unseen view _ _ (λ w. calm.drew 32 w) (λ raw w. refl)

  generate_preshared_key-Unseen : Unseen view (generate_preshared_key os)
  unfolding generate_preshared_key
  generate_preshared_key-Unseen = bind-Unseen view _ _ (λ w. calm.drew 32 w) (λ raw w. refl)

  save_key-Unseen :
      (path : Text) (keys : Keypair) (f g : Error → Error)
      → Unseen view (
          or_fail (mkdir_all os (dir_name path) 0o700) f
          >> (or_fail (write_file os path keys.private_key 0o600) g >> pure keys))
  unfolding mkdir_all write_file
  save_key-Unseen path keys f g =
      bind-Unseen view (or_fail (mkdir_all os (dir_name path) 0o700) f) _ (λ w. calm.made _ _ w)
        (λ _.
          bind-Unseen view (or_fail (write_file os path keys.private_key 0o600) g) (λ _. pure keys)
            (λ w. calm.wrote _ _ _ w) (λ _ w. refl))

  create_key-Unseen : (public : Text → Text) (path : Text) → Unseen view (create_key public os path)
  unfolding create_key
  create_key-Unseen public path =
      bind-Unseen view (generate_keypair public os) _ (generate_keypair-Unseen public)
        (λ keys. save_key-Unseen path keys _ _)

  read-Unseen :
      (r : Read) (w : os.World) (f : Text → Result Keypair) (create : Action os.World Keypair)
      → Unseen view create
      → view
          (elim r as (λ _. Result Keypair × os.World) [
            | contents text ↦ (f text, w)
            | missing _ ↦ create w
            | unreadable _ ↦ create w
          ]).1
        ≡ view w
  read-Unseen (contents text) w f create u = refl
  read-Unseen (missing e) w f create u = u w
  read-Unseen (unreadable e) w f create u = u w

  pub load_or_create_key-Unseen :
      (public : Text → Text) (path : Text) → Unseen view (load_or_create_key public os path)
  unfolding load_or_create_key
  load_or_create_key-Unseen public path w =
      read-Unseen (os.read_file path w) w (stored_key public os path) (create_key public os path)
        (create_key-Unseen public path)

  addressed-Unseen :
      (v6 : Ip6) (token : JoinToken) (name : Text) (keys : Keypair) (psk : Text)
      → Unseen {W = os.World} view (do
        addr ← lift (with_prefix v6 token.client_address token.subnet)
        pure (enrollment token name keys psk addr))
  addressed-Unseen v6 token name keys psk =
      lift-bind-Unseen view (with_prefix v6 token.client_address token.subnet) _ (λ addr w. refl)

  pub enroll-Unseen :
      (v6 : Ip6) (order : List TokenField) (public : Text → Text) (token : JoinToken) (name : Text)
      (with_psk : Bool)
      → Unseen view (enroll v6 order public os token name with_psk)
  unfolding enroll
  enroll-Unseen v6 order public token name with_psk =
      lift-bind-Unseen view (validate order token) _ (λ _.
        bind-Unseen view (generate_keypair public os) _ (generate_keypair-Unseen public) (λ keys.
          bind-Unseen view (if with_psk then generate_preshared_key os else pure []) _
            (if-Unseen view with_psk (generate_preshared_key os) (pure [])
              generate_preshared_key-Unseen (λ w. refl))
            (λ psk. addressed-Unseen v6 token name keys psk)))
