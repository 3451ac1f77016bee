-- ===== src/Tests/Peers.antt =====
-- A series of Adds at a concrete system: files in memory, and JSON for two lists of peers.
use loca_agent.Base.{
  Text, List, [], ◌∷◌, none, Bool, true, false, ◌==◌, text_eq, text_beq, ◌&&◌, arith, eq_iff,
  if◌then◌else◌,
}
use loca_agent.Base.{◌≡◌, refl, ap, eq_refl}
use mathlib.Core.Path.{subst}
use loca_agent.Errs.{plain}
use loca_agent.Effect.{Result, ok, err}
use loca_agent.Wireguard.{ServerPeer}
use loca_agent.Wireguard.Token.{Codec}
use loca_agent.WgTunnel.{mkdir_all, write_file}
use loca_agent.WgTunnel.PeerStore.{decode_peers, load, save, add, replace_peer, with_peer}
use loca_agent.WgTunnel.PeerStore.Persists.{
  IsDurable, Represents, start, next, updates, Adds-Represents,
}
use loca_agent.Tests.Keys.{memory, no_files}

abbrev client : ServerPeer
client = record { name = []; public_key = 7 ∷ []; address = []; preshared_key = [] }

is_client : ServerPeer → Bool
is_client p =
    p.name == [] && (p.public_key == (7 ∷ []) && (p.address == [] && p.preshared_key == []))

same_fields :
    (p : ServerPeer)
    → p.name ≡ []
    → p.public_key ≡ 7 ∷ []
    → p.address ≡ []
    → p.preshared_key ≡ []
    → client ≡ p
same_fields p a b c d = cc

is_client-same : (p : ServerPeer) → is_client p ≡ true → client ≡ p
unfolding is_client
is_client-same p h =
    same_fields p ((eq_iff p.name []).0 (ground arith))
      ((eq_iff p.public_key (7 ∷ [])).0 (ground arith)) ((eq_iff p.address []).0 (ground arith))
      ((eq_iff p.preshared_key []).0 (ground arith))

-- Two lists can be written: the empty one and that of the client.
abbrev marshal : List ServerPeer → Result Text
marshal [] = ok []
marshal (p ∷ []) = if is_client p then ok (1 ∷ []) else err (plain [])
marshal (p ∷ q ∷ ps) = err (plain [])

abbrev unmarshal : Text → Result (List ServerPeer)
unmarshal [] = ok []
unmarshal (c ∷ s) = ok (client ∷ [])

abbrev two_lists : Codec (List ServerPeer)
two_lists = record { marshal = marshal; unmarshal = unmarshal }

marshal_one :
    (written : Bool) (b : Text)
    → (if written then ok (1 ∷ []) else err (plain [])) ≡ ok b
    → (written ≡ true) × (1 ∷ [] ≡ b)
marshal_one true b h = (refl, cc)
marshal_one false b h = absurd cc

marshal-reads : (peers : List ServerPeer) (b : Text) → marshal peers ≡ ok b → unmarshal b ≡ ok peers
marshal-reads [] [] h = refl
marshal-reads [] (c ∷ b) h = absurd cc
marshal-reads (p ∷ q ∷ ps) b h = absurd cc
marshal-reads (p ∷ []) b h =
    let (same, text) = marshal_one (is_client p) b h in
    subst (λ t. unmarshal t ≡ ok (p ∷ [])) text (ap (λ q. ok (q ∷ [])) (is_client-same p same))

memory-IsDurable : IsDurable memory two_lists (1 ∷ [])
memory-IsDurable = record {
  reads = marshal-reads;
  holds = λ b perm w h. rw (eq_refl (1 ∷ [])) refl;
}

Adds-Represents_example :
    Represents memory two_lists
      (1 ∷ [])
      (add memory two_lists (1 ∷ []) client (add memory two_lists (1 ∷ []) client no_files).1).1
      (updates (λ k. none) (client ∷ client ∷ []))
unfolding add load save decode_peers mkdir_all write_file with_peer replace_peer is_client text_beq
Adds-Represents_example =
    Adds-Represents memory two_lists (1 ∷ []) memory-IsDurable {w = no_files} (λ k. none)
      (record { peers = []; loads = refl; finds = λ k. refl })
      (next client (client ∷ []) (next client (client ∷ []) start refl) refl)
