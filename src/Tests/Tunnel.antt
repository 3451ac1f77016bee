-- ===== src/Tests/Tunnel.antt =====
-- The theorems on keys, tokens, addresses, peers and enrollment at concrete inputs.
use loca_agent.Base.{
  trim_space, trim_left, trim_right, is_space, join, map, Text, ℕ, ◌<◌, ◌+◌, List, [], ◌∷◌, ◌++◌,
  none, some, true, false,
}
use loca_agent.Base.{
  ◌≡◌, ◌≢◌, ◌↔◌, refl, arith, inl, inr, pos, All, Has, ◌==◌, text_eq, text_beq, int_beq, split,
  parse_digits, format_nat, if◌then◌else◌,
}
use loca_agent.Effect.{ok}
use loca_agent.Sys.{Os, contents}
use loca_agent.Base64.{encode, decode, letter_value, std_encoding, raw_url_encoding}
use loca_agent.Base64.RoundTrip.{decode-encode}
use loca_agent.Netip.{Ip, Ip6, Prefix, ip4, contains_ip, next, parse_prefix}
use loca_agent.Wireguard.{Config, JoinToken, EnrollmentReply, ServerIdentity, ServerPeer, Keypair}
use loca_agent.Wireguard.Token.{
  Codec, TokenField, field_key, field_server, field_subnet, field_client, field_value,
  token_version, validate, decode_token, encode_json, decode_reply, decode_json, mint_token,
}
use loca_agent.Wireguard.Token.Laws.{
  IsOrder, IsComplete, validate_iff, decode_token-mint_token, decode_reply_sound,
}
use loca_agent.Wireguard.Keys.{generate_keypair, clamp}
use loca_agent.Wireguard.Address.{is_used, first_free, with_prefix}
use loca_agent.Wireguard.Address.Search.{IsLowest, first_free-IsLowest, first_free_complete}
use loca_agent.Wireguard.Render.{render}
use loca_agent.Wireguard.Render.Read.{read_file}
use loca_agent.Wireguard.Render.Lines.{IsValue}
use loca_agent.Wireguard.Render.Accepted.{interface_section, peer_section, read_file-render}
use loca_agent.Wireguard.Client.{enroll, enrollment, Enrollment}
use loca_agent.Wireguard.Client.Agreement.{Agrees, enroll-Agrees}
use loca_agent.WgTunnel.PeerStore.{with_peer}
use loca_agent.WgTunnel.PeerStore.Laws.{lookup, lookup-with_peer, Distinct, with_peer-Distinct}

abbrev bytes : Text
bytes = 104 ∷ 105 ∷ []

bytes_small : All (λ c. c < 256) bytes
bytes_small = (omega arith, (omega arith, tt))

decode-encode_example :
    (decode std_encoding (encode std_encoding bytes) ≡ some bytes)
    × (decode raw_url_encoding (encode raw_url_encoding bytes) ≡ some bytes)
decode-encode_example = decode-encode bytes bytes_small

-- 10.50.0.1 in 10.50.0.0/24, as bytes
abbrev pub server_text : Text
server_text = 49 ∷ 48 ∷ 46 ∷ 53 ∷ 48 ∷ 46 ∷ 48 ∷ 46 ∷ 49 ∷ []

abbrev pub client_text : Text
client_text = 49 ∷ 48 ∷ 46 ∷ 53 ∷ 48 ∷ 46 ∷ 48 ∷ 46 ∷ 50 ∷ []

abbrev pub subnet_text : Text
subnet_text = 49 ∷ 48 ∷ 46 ∷ 53 ∷ 48 ∷ 46 ∷ 48 ∷ 46 ∷ 48 ∷ 47 ∷ 50 ∷ 52 ∷ []

abbrev pub server : ServerIdentity
server = record {
  name = 115 ∷ [];
  keys = record { private_key = 112 ∷ []; public_key = 113 ∷ [] };
  address = server_text;
  subnet = subnet_text;
  listen_port = pos 51820;
  endpoint = [];
  keepalive = pos 25;
}

abbrev order : List TokenField
order = field_key ∷ field_server ∷ field_subnet ∷ field_client ∷ []

order-IsOrder : IsOrder order
order-IsOrder = record {
  every = λ f. elim f as (λ k. Has k order) [
    | field_key ↦ inl refl
    | field_server ↦ inr (inl refl)
    | field_subnet ↦ inr (inr (inl refl))
    | field_client ↦ inr (inr (inr (inl refl)))
  ];
}

abbrev token : JoinToken
token = record {
  version = pos 1;
  server_public_key = 113 ∷ [];
  server_address = server_text;
  endpoint = [];
  subnet = subnet_text;
  client_address = client_text;
  listen_port = pos 51820;
  keepalive = pos 25;
}

validate_iff_example : (validate order token ≡ ok tt) ↔ IsComplete token
validate_iff_example = validate_iff order token order-IsOrder

-- A codec that knows one value.
abbrev one_codec : {A : Type 0} → A → Codec A
one_codec v = record { marshal = λ _. ok (123 ∷ 125 ∷ []); unmarshal = λ _. ok v }

decode_token-mint_token_example :
    (encode_json (one_codec (mint_token server client_text)) (mint_token server client_text)
      ≡ ok (encode raw_url_encoding (123 ∷ 125 ∷ [])))
    × (decode_token order
          (one_codec (mint_token server client_text))
          (encode raw_url_encoding (123 ∷ 125 ∷ []))
        ≡ ok (mint_token server client_text))
decode_token-mint_token_example =
    decode_token-mint_token order (one_codec (mint_token server client_text)) server client_text
      (123 ∷ 125 ∷ []) (λ h. absurd cc) (λ h. absurd cc) (λ h. absurd cc) (λ h. absurd cc) refl
      (omega arith, (omega arith, tt)) refl

abbrev reply : EnrollmentReply
reply = record {
  version = pos 1;
  name = 109 ∷ [];
  client_public_key = 107 ∷ [];
  client_address = client_text;
  preshared_key = [];
}

-- `e30`
abbrev reply_text : Text
reply_text = 101 ∷ 51 ∷ 48 ∷ []

decode_reply_sound_example :
    (reply.version ≡ token_version) × (reply.client_public_key ≢ []) × (reply.client_address ≢ [])
unfolding decode_reply decode_json decode letter_value int_beq text_beq
decode_reply_sound_example = decode_reply_sound (one_codec reply) reply_text reply refl

-- 10.50.0.0/30, whose first host is taken
abbrev subnet : Prefix
subnet = record { ip = record { family = ip4; value = 171048960; zone = [] }; bits = 30 }

abbrev host : ℕ → Ip
host n = record { family = ip4; value = 171048960 + n; zone = [] }

first_free-IsLowest_example : IsLowest (host 1 ∷ []) subnet (host 1) (host 2)
unfolding first_free is_used next contains_ip text_beq
first_free-IsLowest_example = first_free-IsLowest (host 1 ∷ []) subnet (host 2) refl

abbrev all_hosts : List Ip
all_hosts = host 1 ∷ host 2 ∷ host 3 ∷ []

first_free_complete_example : is_used all_hosts (host 3) ≡ true
unfolding first_free is_used next contains_ip text_beq
first_free_complete_example =
    first_free_complete all_hosts subnet refl 171048963 (omega arith) (omega arith) refl

abbrev peer : ℕ → ServerPeer
peer n = record { name = []; public_key = n ∷ []; address = client_text; preshared_key = [] }

lookup-with_peer_example :
    lookup (7 ∷ []) (with_peer (peer 8) (peer 7 ∷ []))
    ≡ (if (peer 8).public_key == (7 ∷ []) then some (peer 8) else lookup (7 ∷ []) (peer 7 ∷ []))
lookup-with_peer_example = lookup-with_peer (peer 8) (peer 7 ∷ []) (7 ∷ [])

peers-Distinct : Distinct (peer 7 ∷ [])
unfolding Distinct
peers-Distinct = (refl, tt)

with_peer-Distinct_example : Distinct (with_peer (peer 8) (peer 7 ∷ []))
with_peer-Distinct_example = with_peer-Distinct (peer 8) (peer 7 ∷ []) peers-Distinct

abbrev pub no_ip6 : Ip6
no_ip6 = record { parse = λ _. none; format = λ n z. [] }

-- A system whose files read as empty, and whose random bytes are two.
abbrev quiet : Os
quiet = record {
  World = Unit;
  stat = λ path w. none;
  create = λ path perm w. (none, w);
  open_append = λ path w. (none, w);
  write = λ path text w. ((0, none), w);
  read_file = λ path w. contents [];
  write_file = λ path text perm w. (none, w);
  mkdir_all = λ path perm w. (none, w);
  process = λ name args w. (record { stdout = []; stderr = []; failure = none }, w);
  random = λ n w. (ok bytes, w);
}

abbrev identity : Text → Text
identity raw = raw

abbrev client_keys : Keypair
client_keys = record {
  private_key = encode std_encoding (clamp bytes);
  public_key = encode std_encoding bytes;
}

-- 10.50.0.2/24
abbrev interface_text : Text
interface_text = client_text ++ (47 ∷ 50 ∷ 52 ∷ [])

abbrev enrolled : Enrollment
enrolled = enrollment (mint_token server client_text) (109 ∷ []) client_keys [] interface_text

enroll-Agrees_example :
    (addr : Text) × ((with_prefix no_ip6 client_text subnet_text ≡ ok addr)
      × Agrees no_ip6 server client_text addr enrolled)
unfolding enroll validate mint_token generate_keypair with_prefix int_beq text_beq field_value
    parse_prefix split parse_digits format_nat
enroll-Agrees_example =
    enroll-Agrees no_ip6 order identity quiet server client_text (109 ∷ []) false tt enrolled refl

digit-IsValue : IsValue (49 ∷ [])
unfolding trim_space trim_left trim_right is_space text_beq
digit-IsValue = record {
  one_line = (λ e. omega arith, tt);
  uncommented = (λ e. omega arith, tt);
  tight = refl;
}

empty-IsValue : IsValue []
unfolding trim_space trim_left trim_right
empty-IsValue = record { one_line = tt; uncommented = tt; tight = refl }

abbrev rendered : Config
rendered = record {
  interface = record {
    private_key = 49 ∷ [];
    address = 49 ∷ [];
    listen_port = pos 51820;
    dns = [];
  };
  peers =
      record {
        name = 97 ∷ 35 ∷ [];
        public_key = 49 ∷ [];
        preshared_key = [];
        allowed_ips = (49 ∷ []) ∷ [];
        endpoint = [];
        keepalive = pos 25;
      }
      ∷ [];
}

read_file-render_example :
    read_file (render rendered)
    ≡ some (interface_section rendered.interface ∷ map peer_section rendered.peers)
unfolding join
read_file-render_example =
    read_file-render rendered
      (record { private_key = digit-IsValue; address = digit-IsValue; dns = empty-IsValue })
      (
        record {
          name = (λ e. omega arith, (λ e. omega arith, tt));
          public_key = digit-IsValue;
          preshared_key = empty-IsValue;
          allowed_ips = digit-IsValue;
          endpoint = empty-IsValue;
        },
        tt,
      )
