-- ===== src/Command/AddPeer.antt =====
-- `add-peer` of internal/command/wireguard/wireguard.go: registering a client on the server.
use loca_agent.Base.{Text, lit, List, [], ◌∷◌, ◌++◌, length, ℕ}
use loca_agent.Errs.{user_wrap}
use loca_agent.Effect.{ok, Action, pure, lift, or_fail, ◌>>=◌, ◌>>◌}
use loca_agent.Sys.{Os, Runner}
use loca_agent.Filepath.{join_path}
use loca_agent.Netip.{Ip6}
use loca_agent.Config.{Config}
use loca_agent.Wireguard.{Keypair, ServerIdentity, ServerPeer, EnrollmentReply}
use loca_agent.Wireguard.Token.{Codec, decode_reply, peer_from_reply}
use loca_agent.Wireguard.Client.{server_config}
use loca_agent.Wireguard.Render.{render}
use loca_agent.WgTunnel.{write_config}
use loca_agent.WgTunnel.KeyStore.{load_or_create_key}
use loca_agent.WgTunnel.Controller.{TunnelPlatform, up, down}
use loca_agent.WgTunnel.PeerStore

abbrev iface_name : Text
iface_name = lit "wg0"

-- The server identity that add-peer renders: it mints no token, so it has no endpoint.
unfoldable pub peer_identity : Config → Keypair → ServerIdentity
peer_identity c keys =
    let net = c.network.wireguard in
    record {
      name = lit "windows-server";
      keys = keys;
      address = net.server_address;
      subnet = net.subnet;
      listen_port = net.listen_port;
      endpoint = [];
      keepalive = net.keepalive_seconds;
    }

module _ (os : Os) (v6 : Ip6) (public : Text → Text) (reply_json : Codec EnrollmentReply)
    (peers_json : Codec (List ServerPeer)) (run : Runner os.World) (p : TunnelPlatform)
    (c : Config) where
  -- Controller.Down, whose error is dropped
  stop_tunnel : Text → Action os.World (Unit {0})
  stop_tunnel conf w = let (_, w') = down run p iface_name conf w in (ok tt, w')

  -- The command: how many peers there are in the end.
  unfoldable pub add_peer : Text → Action os.World ℕ
  unfolding stop_tunnel
  add_peer arg =
      let dir = c.installer.paths.config_dir in
      let conf = join_path (dir ∷ (iface_name ++ lit ".conf") ∷ []) in
      do
        reply ← or_fail (lift (decode_reply reply_json arg)) (λ e.
            user_wrap e (lit "invalid_reply") (lit "The enrollment reply is invalid")
              (lit "Paste the exact reply printed by the macOS client install."))
        peers ←
            PeerStore.add os peers_json (join_path (dir ∷ lit "peers.json" ∷ []))
              (peer_from_reply reply)
        keys ← load_or_create_key public os (join_path (dir ∷ lit "server.key" ∷ []))
        cfg ← lift (server_config v6 (peer_identity c keys) peers)
        write_config os conf (render cfg)
        stop_tunnel conf
        up run p iface_name conf
        pure (length peers)
