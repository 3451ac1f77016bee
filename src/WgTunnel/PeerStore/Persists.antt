-- ===== src/WgTunnel/PeerStore/Persists.antt =====
-- That the peer store (internal/wgtunnel/peerstore.go) keeps a map from public keys to peers.
use loca_agent.Base.{Text, ℕ, List, [], ◌∷◌, Option, none, some, ◌==◌, text_eq, if◌then◌else◌}
use loca_agent.Base.{◌≡◌, refl, ap, ◌∙◌, inl, inr, Option-cases}
use loca_agent.Effect.{Result, ok, err, Result-cases, lift}
use loca_agent.Effect.Ensures.{Outcome, Ensures, bind-Ensures, or_fail-Ensures, Outcome-ok}
use loca_agent.Sys.{Os, contents}
use loca_agent.Wireguard.{ServerPeer}
use loca_agent.Wireguard.Token.{Codec}
use loca_agent.WgTunnel.{write_file}
use loca_agent.WgTunnel.PeerStore.{with_peer, decode_peers, load, save, add}
use loca_agent.WgTunnel.PeerStore.Laws.{lookup, lookup-with_peer}

-- JSON that reads what it wrote, and a file that holds what was written.
pub record IsDurable (os : Os) (json : Codec (List ServerPeer)) (path : Text) : Type 0 where
  pub reads :
      (peers : List ServerPeer) (b : Text) → json.marshal peers ≡ ok b → json.unmarshal b ≡ ok peers
  pub holds :
      (b : Text) (perm : ℕ) (w : os.World)
      → (os.write_file path b perm w).0 ≡ none
      → os.read_file path (os.write_file path b perm w).1 ≡ contents b

-- The abstract view of a store: the peer of each public key.
abbrev pub PeerMap : Type 0
PeerMap = Text → Option ServerPeer

abbrev pub update : PeerMap → ServerPeer → PeerMap
update m peer k = if peer.public_key == k then some peer else m k

abbrev pub updates : PeerMap → List ServerPeer → PeerMap
updates m [] = m
updates m (p ∷ ps) = update (updates m ps) p

module _ (os : Os) (json : Codec (List ServerPeer)) (path : Text) where
  -- The store is readable, and holds the peers of the map.
  pub record Represents (w : os.World) (m : PeerMap) : Type 0 where
    pub peers : List ServerPeer
    pub loads : (load os json path w).0 ≡ ok peers
    pub finds : (k : Text) → lookup k peers ≡ m k

  -- States that Adds which succeed lead to, the last peer first.
  pub data Adds : os.World → List ServerPeer → os.World → Type 0 where
    start : {w : os.World} → Adds w [] w
    next :
        {w w' : os.World} {ps : List ServerPeer} (p : ServerPeer) (peers : List ServerPeer)
        → Adds w ps w'
        → (add os json path p w').0 ≡ ok peers
        → Adds w (p ∷ ps) (add os json path p w').1

  module _ (durable : IsDurable os json path) where
    Stored : List ServerPeer → os.World → Type 0
    Stored peers w = (load os json path w).0 ≡ ok peers

    Anyway : os.World → Type 0
    Anyway w = Unit

    Marshalled : List ServerPeer → Text → os.World → Type 0
    Marshalled peers b w = json.unmarshal b ≡ ok peers

    always : {A : Type 0} (r : Result A) (w : os.World) → Outcome (λ _. Anyway) Anyway r w
    unfolding Anyway
    always (ok a) w = tt
    always (err e) w = tt

    load-Ensures :
        (peers : List ServerPeer)
        → Ensures (Stored peers) (load os json path) (λ r w. r ≡ peers) Anyway
    unfolding Stored
    load-Ensures peers w q = rw (q) refl

    marshal-Ensures :
        (peers : List ServerPeer)
        → Ensures Anyway (lift (json.marshal peers)) (Marshalled peers) Anyway
    unfolding Marshalled Anyway
    marshal-Ensures peers w h = elim (Result-cases (json.marshal peers)) [
      | inl (b, q) ↦ rw (q) (durable.reads peers b q)
      | inr (e, q) ↦ rw (q) tt
    ]

    write-Ensures :
        (peers : List ServerPeer) (b : Text)
        → Ensures (Marshalled peers b) (write_file os path b 0o600) (λ _. Stored peers) Anyway
    unfolding Marshalled Stored Anyway write_file load decode_peers
    write-Ensures peers b w q = elim (Option-cases (os.write_file path b 0o600 w).0) [
      | inl done ↦ rw (done, write_file) (rw (durable.holds b 0o600 w done, q, load) refl)
      | inr (e, broken) ↦ rw (broken, write_file) tt
    ]

    save-Ensures :
        (peers : List ServerPeer)
        → Ensures Anyway (save os json path peers) (λ _. Stored peers) Anyway
    unfolding save
    save-Ensures peers =
        bind-Ensures {A = Unit {0}} {B = Unit {0}} {P = Anyway} _ _ (λ _. Anyway)
          (λ _. Stored peers) Anyway (λ w h. always {A = Unit {0}} _ _)
          (λ _.
            bind-Ensures {B = Unit {0}} {P = Anyway} (lift (json.marshal peers)) _
              (Marshalled peers) (λ _. Stored peers) Anyway (marshal-Ensures peers)
              (λ b.
                or_fail-Ensures (write_file os path b 0o600) _ (λ _. Stored peers) Anyway
                  (write-Ensures peers b)))

    -- An Add to a store that holds `peers` stores the list that it returns.
    add-Ensures :
        (peer : ServerPeer) (peers : List ServerPeer)
        → Ensures
            (Stored peers)
            (add os json path peer)
            (λ r w. (r ≡ with_peer peer peers) × Stored r w)
            Anyway
    unfolding add Anyway
    add-Ensures peer peers =
        bind-Ensures {P = Stored peers} _ _ (λ r w. r ≡ peers) _ Anyway (load-Ensures peers)
          (λ r w e.
            bind-Ensures {P = Anyway} (save os json path (with_peer peer r)) _
              (λ _. Stored (with_peer peer r)) _ Anyway (save-Ensures (with_peer peer r))
              (λ _ w' stored. (ap (with_peer peer) e, stored)) w tt)

    add-Represents :
        (peer : ServerPeer) (w : os.World) (m : PeerMap) (peers : List ServerPeer)
        → Represents w m
        → (add os json path peer w).0 ≡ ok peers
        → Represents (add os json path peer w).1 (update m peer)
    unfolding Stored
    add-Represents peer w m peers rep q =
        let (same, stored) =
          Outcome-ok _ Anyway (add os json path peer w).0 peers (add os json path peer w).1 q
            (add-Ensures peer rep.peers w rep.loads) in
        record {
          peers = peers;
          loads = stored;
          finds = λ k.
              ap (lookup k) same
              ∙ lookup-with_peer peer rep.peers k
              ∙ ap (λ found. if peer.public_key == k then some peer else found) (rep.finds k);
        }

    -- The store refines a map from public keys to peers: if it represents a map, then after a series of
    -- Adds that succeed, each of which reads the file again, it represents the map with these peers put
    -- in, the later ones over the earlier ones.
    pub Adds-Represents :
        {w w' : os.World} {ps : List ServerPeer} (m : PeerMap)
        → Represents w m
        → Adds w ps w'
        → Represents w' (updates m ps)
    Adds-Represents m rep start = rep
    Adds-Represents {w} {w'} m rep (next p peers before q) =
        add-Represents p _ _ peers (Adds-Represents m rep before) q
