-- ===== src/Wireguard/Client.antt =====
-- internal/wireguard/client.go and ServerIdentity.Config of server.go: both sides of a tunnel's config.
pub mod Agreement
use loca_agent.Base.{Text, lit, List, [], ◌∷◌, ◌++◌, Bool, map, pos, if◌then◌else◌}
use loca_agent.Effect.{Result, ok, and_then, Action, pure, lift, ◌>>=◌, ◌>>◌}
use loca_agent.Sys.{Os}
use loca_agent.Netip.{Ip6}
use loca_agent.Wireguard.{
  Keypair, Peer, Config, JoinToken, EnrollmentReply, ServerIdentity, ServerPeer,
}
use loca_agent.Wireguard.Keys.{generate_keypair, generate_preshared_key}
use loca_agent.Wireguard.Address.{with_prefix}
use loca_agent.Wireguard.Token.{TokenField, token_version, validate}

pub record Enrollment : Type 0 where
  pub keys : Keypair
  pub config : Config
  pub reply : EnrollmentReply

-- The config and the reply that a client builds from a token, its keys and its address.
unfoldable pub enrollment : JoinToken → Text → Keypair → Text → Text → Enrollment
enrollment token client_name keys psk addr = record {
  keys = keys;
  config = record {
    interface = record {
      private_key = keys.private_key;
      address = addr;
      listen_port = pos 0;
      dns = [];
    };
    peers =
        record {
          name = lit "inference-server";
          public_key = token.server_public_key;
          preshared_key = psk;
          allowed_ips = (token.server_address ++ lit "/32") ∷ [];
          endpoint = token.endpoint;
          keepalive = token.keepalive;
        }
        ∷ [];
  };
  reply = record {
    version = token_version;
    name = client_name;
    client_public_key = keys.public_key;
    client_address = token.client_address;
    preshared_key = psk;
  };
}

module _ (v6 : Ip6) where
  module _ (order : List TokenField) (public : Text → Text) (os : Os) where
    -- Enroll
    unfoldable pub enroll : JoinToken → Text → Bool → Action os.World Enrollment
    unfolding enrollment
    enroll token client_name with_psk = do
      lift (validate order token)
      keys ← generate_keypair public os
      psk ← if with_psk then generate_preshared_key os else pure []
      addr ← lift (with_prefix v6 token.client_address token.subnet)
      pure (enrollment token client_name keys psk addr)

  unfoldable pub peer_block : ServerPeer → Peer
  peer_block p = record {
    name = p.name;
    public_key = p.public_key;
    preshared_key = p.preshared_key;
    allowed_ips = (p.address ++ lit "/32") ∷ [];
    endpoint = [];
    keepalive = pos 0;
  }

  -- ServerIdentity.Config
  unfoldable pub server_config : ServerIdentity → List ServerPeer → Result Config
  unfolding peer_block
  server_config s peers = and_then (with_prefix v6 s.address s.subnet) (λ addr. ok (record {
    interface = record {
      private_key = s.keys.private_key;
      address = addr;
      listen_port = s.listen_port;
      dns = [];
    };
    peers = map peer_block peers;
  }))
