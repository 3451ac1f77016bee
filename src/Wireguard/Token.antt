-- ===== src/Wireguard/Token.antt =====
-- internal/wireguard/token.go: join tokens and enrollment replies as base64 of JSON.
pub mod Laws
use loca_agent.Base.{Text, lit, List, [], ◌∷◌, ◌++◌, none, some, ◌==◌, ◌||◌}
use loca_agent.Base.{text_eq, int_eq, if◌then◌else◌, ℤ, pos, itoa}
use loca_agent.Errs.{plain, wrapped}
use loca_agent.Effect.{Result, ok, err, and_then}
use loca_agent.Base64.{encode, decode, raw_url_encoding}
use loca_agent.Wireguard.{JoinToken, EnrollmentReply, ServerIdentity, ServerPeer}

abbrev pub token_version : ℤ
token_version = pos 1

-- encoding/json for one type: a parameter of the model.
pub record Codec (A : Type 0) : Type 0 where
  pub marshal : A → Result Text
  pub unmarshal : Text → Result A

module _ {A : Type 0} (json : Codec A) where
  -- encodeJSON
  unfoldable pub encode_json : A → Result Text
  encode_json v = and_then (json.marshal v) (λ b. ok (encode raw_url_encoding b))

  -- decodeJSON
  unfoldable pub decode_json : Text → Result A
  decode_json s = elim (decode raw_url_encoding s) [
    | none ↦ err (plain (lit "illegal base64 data"))
    | some b ↦ json.unmarshal b
  ]

-- The keys of the map that `validate` ranges over.
pub data TokenField : Type 0 where
  field_key field_server field_subnet field_client : TokenField

abbrev field_text : TokenField → Text
field_text field_key = lit "server public key"
field_text field_server = lit "server address"
field_text field_subnet = lit "subnet"
field_text field_client = lit "client address"

unfoldable pub field_value : TokenField → JoinToken → Text
field_value field_key t = t.server_public_key
field_value field_server t = t.server_address
field_value field_subnet t = t.subnet
field_value field_client t = t.client_address

check_fields : List TokenField → JoinToken → Result (Unit {0})
unfolding field_value
check_fields [] t = ok tt
check_fields (f ∷ fs) t =
    if field_value f t == []
    then err (plain (lit "join token is missing the " ++ field_text f))
    else check_fields fs t

-- validate. Go ranges over a map in any order, so the order of the fields is an argument.
unfoldable pub validate : List TokenField → JoinToken → Result (Unit {0})
unfolding check_fields
validate order t =
    if t.version == token_version
    then check_fields order t
    else err (plain (lit "unsupported token version " ++ (itoa t.version ++ lit " (expected 1)")))

-- DecodeToken
unfoldable pub decode_token : List TokenField → Codec JoinToken → Text → Result JoinToken
decode_token order json s = elim (decode_json json s) [
  | err e ↦ err (wrapped (lit "decode join token: ") e [])
  | ok t ↦ and_then (validate order t) (λ _. ok t)
]

-- DecodeReply
unfoldable pub decode_reply : Codec EnrollmentReply → Text → Result EnrollmentReply
decode_reply json s = elim (decode_json json s) [
  | err e ↦ err (wrapped (lit "decode enrollment reply: ") e [])
  | ok r ↦
      if r.version == token_version
      then if r.client_public_key == [] || r.client_address == []
        then err (plain (lit "enrollment reply is missing the client public key or address"))
        else ok r
      else err (plain (lit "unsupported reply version " ++ (itoa r.version ++ lit " (expected 1)")))
]

-- ServerIdentity.MintToken
unfoldable pub mint_token : ServerIdentity → Text → JoinToken
mint_token s client_address = record {
  version = token_version;
  server_public_key = s.keys.public_key;
  server_address = s.address;
  endpoint = s.endpoint;
  subnet = s.subnet;
  client_address = client_address;
  listen_port = s.listen_port;
  keepalive = s.keepalive;
}

-- PeerFromReply
unfoldable pub peer_from_reply : EnrollmentReply → ServerPeer
peer_from_reply r = record {
  name = r.name;
  public_key = r.client_public_key;
  address = r.client_address;
  preshared_key = r.preshared_key;
}
