-- ===== src/Wireguard/Client/Agreement.antt =====
-- That both sides of an enrollment agree (internal/wireguard/client.go and server.go).
use loca_agent.Base.{Text, List, [], ◌∷◌, ◌++◌, lit, Bool, if◌then◌else◌, ◌≡◌, refl, pos}
use mathlib.Core.Path.{subst}
use loca_agent.Effect.{Result, ok, err, Action, pure, resume}
use loca_agent.Sys.{Os}
use loca_agent.Netip.{Ip6}
use loca_agent.Wireguard.{Keypair, ServerIdentity}
use loca_agent.Wireguard.Keys.{generate_keypair, generate_preshared_key}
use loca_agent.Wireguard.Address.{with_prefix}
use loca_agent.Wireguard.Token.{TokenField, validate, mint_token, peer_from_reply}
use loca_agent.Wireguard.Client.{Enrollment, enrollment, enroll, peer_block}

ok-inj : {A : Type 0} {a b : A} → ok a ≡ ok b → a ≡ b
ok-inj h = cc

-- What a result of an action is made of.
resume-ok :
    {W A B : Type 0} (r : Result A) (w : W) (f : A → Action W B) (b : B)
    → (resume r w f).0 ≡ ok b
    → (a : A) × ((r ≡ ok a) × ((f a w).0 ≡ ok b))
resume-ok (ok a) w f b h = (a, (refl, h))
resume-ok (err e) w f b h = absurd cc

-- The two sides of a tunnel: what the client sends the server is what the server accepts from it.
pub record Agrees (v6 : Ip6) (s : ServerIdentity) (address subnet_address : Text) (e : Enrollment)
    : Type 0 where
  pub client_side :
      e.config.peers
      ≡ record {
        name = lit "inference-server";
        public_key = s.keys.public_key;
        preshared_key = e.reply.preshared_key;
        allowed_ips = (s.address ++ lit "/32") ∷ [];
        endpoint = s.endpoint;
        keepalive = s.keepalive;
      }
        ∷ []
  pub server_side : peer_block v6 (peer_from_reply e.reply) ≡ record {
    name = e.reply.name;
    public_key = e.keys.public_key;
    preshared_key = e.reply.preshared_key;
    allowed_ips = (address ++ lit "/32") ∷ [];
    endpoint = [];
    keepalive = pos 0;
  }
  pub own_key : e.config.interface.private_key ≡ e.keys.private_key
  pub own_address : e.config.interface.address ≡ subnet_address

enrollment-Agrees :
    (v6 : Ip6) (s : ServerIdentity) (address name : Text) (keys : Keypair) (psk addr : Text)
    → Agrees v6 s address addr (enrollment (mint_token s address) name keys psk addr)
unfolding enrollment mint_token peer_block peer_from_reply
enrollment-Agrees v6 s address name keys psk addr = record {
  client_side = refl;
  server_side = refl;
  own_key = refl;
  own_address = refl;
}

-- A client that enrolls with a token minted by a server agrees with that server: the client's only
-- peer is the server, at its endpoint, with its public key, for its address alone; the server's entry
-- for the reply has the client's public key and the same preshared key, for the client's address
-- alone; and the client's interface has its own private key and that address with the subnet's length.
pub enroll-Agrees :
    (v6 : Ip6) (order : List TokenField) (public : Text → Text) (os : Os) (s : ServerIdentity)
    (address name : Text) (with_psk : Bool) (w : os.World) (e : Enrollment)
    → (enroll v6 order public os (mint_token s address) name with_psk w).0 ≡ ok e
    → (addr : Text) × ((with_prefix v6 address s.subnet ≡ ok addr) × Agrees v6 s address addr e)
unfolding enroll mint_token
enroll-Agrees v6 order public os s address name with_psk w e h =
    let t = mint_token s address in
    let (_, (_, h1)) = resume-ok (validate order t) w _ e h in
    let made = generate_keypair public os w in
    let (keys, (_, h2)) = resume-ok made.0 made.1 _ e h1 in
    let shared = (if with_psk then generate_preshared_key os else pure []) made.1 in
    let (psk, (_, h3)) = resume-ok shared.0 shared.1 _ e h2 in
    let (addr, (q, h4)) = resume-ok (with_prefix v6 address s.subnet) shared.1 _ e h3 in
    (
      addr,
      (
        q,
        subst (Agrees v6 s address addr) (ok-inj h4)
            (enrollment-Agrees v6 s address name keys psk addr),
      ),
    )
