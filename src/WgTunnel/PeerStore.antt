-- ===== src/WgTunnel/PeerStore.antt =====
-- internal/wgtunnel/peerstore.go: the registered clients, kept as JSON in a file.
pub mod Laws
pub mod Persists
use loca_agent.Base.{
  Text, lit, List, [], ◌∷◌, ◌++◌, Option, none, some, Bool, true, false, ◌==◌, text_eq,
}
use loca_agent.Base.{if◌then◌else◌}
use loca_agent.Errs.{Error, user_wrap}
use loca_agent.Effect.{Result, ok, err, map_error, Action, pure, lift, or_fail, ◌>>=◌, ◌>>◌}
use loca_agent.Sys.{Os, Read, contents, missing, unreadable}
use loca_agent.Filepath.{dir_name}
use loca_agent.Wireguard.{ServerPeer}
use loca_agent.Wireguard.Token.{Codec}
use loca_agent.WgTunnel.{mkdir_all, write_file}

-- The loop of Add: the first entry with the key is replaced.
unfoldable pub replace_peer : ServerPeer → List ServerPeer → List ServerPeer × Bool
replace_peer peer [] = ([], false)
replace_peer peer (p ∷ peers) =
    let (rest, replaced) = replace_peer peer peers in
    if p.public_key == peer.public_key then (peer ∷ peers, true) else (p ∷ rest, replaced)

-- The list that Add saves.
unfoldable pub with_peer : ServerPeer → List ServerPeer → List ServerPeer
unfolding replace_peer
with_peer peer peers =
    let (replaced_in, replaced) = replace_peer peer peers in
    if replaced then replaced_in else peers ++ (peer ∷ [])

module _ (os : Os) (json : Codec (List ServerPeer)) (path : Text) where
  unfoldable pub decode_peers : Read → Result (List ServerPeer)
  decode_peers (missing e) = ok []
  decode_peers (unreadable e) =
      err (user_wrap e (lit "peerstore_read") (lit "Could not read the WireGuard peer store") [])
  decode_peers (contents b) =
      map_error
        (λ e.
          user_wrap e (lit "peerstore_parse") (lit "The WireGuard peer store is corrupt")
            (lit "Delete the peers file and re-register clients."))
        (json.unmarshal b)

  -- PeerStore.Load
  unfoldable pub load : Action os.World (List ServerPeer)
  unfolding decode_peers
  load w = (decode_peers (os.read_file path w), w)

  -- PeerStore.Save
  unfoldable pub save : List ServerPeer → Action os.World (Unit {0})
  unfolding mkdir_all write_file
  save peers = do
    or_fail (mkdir_all os (dir_name path) 0o700) (λ e.
        user_wrap e (lit "peerstore_dir") (lit "Could not create the peer store directory") [])
    b ← lift (json.marshal peers)
    or_fail (write_file os path b 0o600) (λ e.
        user_wrap e (lit "peerstore_write") (lit "Could not write the WireGuard peer store") [])

  -- PeerStore.Add
  unfoldable pub add : ServerPeer → Action os.World (List ServerPeer)
  unfolding load save
  add peer = do peers ← load; save (with_peer peer peers); pure (with_peer peer peers)
