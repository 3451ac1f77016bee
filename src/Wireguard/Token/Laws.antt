-- ===== src/Wireguard/Token/Laws.antt =====
-- Which tokens are accepted, and tokens and replies read back (internal/wireguard/token.go).
use loca_agent.Base.{Text, ◌<◌, List, [], ◌∷◌, ◌≡◌, ◌≢◌, ◌↔◌, refl, ap, All, Has}
use loca_agent.Base.{arith, inl, inr, eq_iff, int_beq_iff, pos}
use loca_agent.Effect.{Result-cases, ok}
use loca_agent.Base64.{encode, raw_url_encoding}
use loca_agent.Base64.RoundTrip.{decode-encode}
use loca_agent.Wireguard.{JoinToken, EnrollmentReply, ServerIdentity}
use loca_agent.Wireguard.Token.{
  token_version, Codec, encode_json, decode_json, TokenField, field_key, field_server, field_subnet,
  field_client, field_value, check_fields, validate, decode_token, decode_reply, mint_token,
}

-- The order in which Go visits the four keys of the map: each comes up.
pub record IsOrder (order : List TokenField) : Type 0 where
  pub every : (f : TokenField) → Has f order

-- What a token needs.
pub record IsComplete (t : JoinToken) : Type 0 where
  pub version : t.version ≡ token_version
  pub key : t.server_public_key ≢ []
  pub server : t.server_address ≢ []
  pub subnet : t.subnet ≢ []
  pub client : t.client_address ≢ []

check_fields_sound :
    (order : List TokenField) (t : JoinToken)
    → check_fields order t ≡ ok tt
    → (f : TokenField) → Has f order
    → field_value f t ≢ []
unfolding check_fields
check_fields_sound [] t h f m = elim m [ ]
check_fields_sound (g ∷ gs) t h f (inl e) =
    ground (arith, eq_iff (field_value g t) [], ap (λ k. field_value k t) e)
check_fields_sound (g ∷ gs) t h f (inr m) = check_fields_sound gs t (ground arith) f m

check_fields_complete :
    (order : List TokenField) (t : JoinToken)
    → ((f : TokenField) → field_value f t ≢ [])
    → check_fields order t ≡ ok tt
unfolding check_fields
check_fields_complete [] t h = refl
check_fields_complete (g ∷ gs) t h =
    ground (arith, eq_iff (field_value g t) [], h g, check_fields_complete gs t h)

field_present : (t : JoinToken) → IsComplete t → (f : TokenField) → field_value f t ≢ []
unfolding field_value
field_present t c field_key = c.key
field_present t c field_server = c.server
field_present t c field_subnet = c.subnet
field_present t c field_client = c.client

validate_complete :
    (order : List TokenField) (t : JoinToken) → IsComplete t → validate order t ≡ ok tt
unfolding validate
validate_complete order t c = ground (
  arith,
  int_beq_iff t.version (pos 1),
  c.version,
  check_fields_complete order t (field_present t c),
)

validate_sound :
    (order : List TokenField) (t : JoinToken)
    → IsOrder order
    → validate order t ≡ ok tt
    → IsComplete t
unfolding validate field_value
validate_sound order t o h =
    let fields : check_fields order t ≡ ok tt = ground arith in
    record {
      version = ground (arith, int_beq_iff t.version (pos 1));
      key = check_fields_sound order t fields field_key (o.every field_key);
      server = check_fields_sound order t fields field_server (o.every field_server);
      subnet = check_fields_sound order t fields field_subnet (o.every field_subnet);
      client = check_fields_sound order t fields field_client (o.every field_client);
    }

-- Whatever the order in which the map is visited, a token is accepted exactly when its version is 1
-- and its server key, server address, subnet and client address are not empty.
pub validate_iff :
    (order : List TokenField) (t : JoinToken)
    → IsOrder order
    → (validate order t ≡ ok tt) ↔ IsComplete t
validate_iff order t o = (validate_sound order t o, validate_complete order t)

decode_json-encode_json :
    {A : Type 0} (json : Codec A) (v : A) (b : Text)
    → All (λ c. c < 256) b
    → json.unmarshal b ≡ ok v
    → decode_json json (encode raw_url_encoding b) ≡ ok v
unfolding decode_json
decode_json-encode_json json v b bytes h = rw ((decode-encode b bytes).1, decode_json) h

-- A token that a server with a public key, an address and a subnet mints for a client address is
-- encoded without error, and DecodeToken reads it back, where encoding/json reads back the bytes
-- that it wrote for that token.
pub decode_token-mint_token :
    (order : List TokenField) (json : Codec JoinToken) (s : ServerIdentity) (client : Text)
    (b : Text)
    → s.keys.public_key ≢ []
    → s.address ≢ []
    → s.subnet ≢ []
    → client ≢ []
    → json.marshal (mint_token s client) ≡ ok b
    → All (λ c. c < 256) b
    → json.unmarshal b ≡ ok (mint_token s client)
    → (encode_json json (mint_token s client) ≡ ok (encode raw_url_encoding b))
      × (decode_token order json (encode raw_url_encoding b) ≡ ok (mint_token s client))
unfolding encode_json decode_token
decode_token-mint_token order json s client b hk ha hs hc written bytes read = (
  rw written,
  rw (decode_json-encode_json json (mint_token s client) b bytes read, decode_token)
      (rw (
        validate_complete order (mint_token s client) (
          unfold mint_token in
          record { version = refl; key = hk; server = ha; subnet = hs; client = hc }))),
)

-- A reply is accepted only with version 1, a client key and a client address.
pub decode_reply_sound :
    (json : Codec EnrollmentReply) (s : Text) (r : EnrollmentReply)
    → decode_reply json s ≡ ok r
    → (r.version ≡ token_version) × (r.client_public_key ≢ []) × (r.client_address ≢ [])
unfolding decode_reply
decode_reply_sound json s r h = elim (Result-cases (decode_json json s)) [
  | inr (e, q) ↦ absurd (ground arith)
  | inl (r', q) ↦ ground (
    arith,
    int_beq_iff r'.version (pos 1),
    eq_iff r'.client_public_key [],
    eq_iff r'.client_address [],
  )
]
