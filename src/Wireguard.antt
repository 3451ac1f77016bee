-- ===== src/Wireguard.antt =====
-- internal/wireguard: the data of tunnels, tokens and peers, and the server's side (server.go,
-- config.go, token.go). Keys, addresses, tokens, enrollment and rendering are in the modules below.
pub mod Keys
pub mod Address
pub mod Token
pub mod Client
pub mod Render
use loca_agent.Base.{Text, ℕ, List}
use loca_agent.Base.{ℤ}

-- Keypair of keys.go
pub record Keypair : Type 0 where
  pub private_key : Text
  pub public_key : Text

pub record Interface : Type 0 where
  pub private_key : Text
  pub address : Text
  pub listen_port : ℤ
  pub dns : Text

pub record Peer : Type 0 where
  pub name : Text
  pub public_key : Text
  pub preshared_key : Text
  pub allowed_ips : List Text
  pub endpoint : Text
  pub keepalive : ℤ

pub record Config : Type 0 where
  pub interface : Interface
  pub peers : List Peer

pub record JoinToken : Type 0 where
  pub version : ℤ
  pub server_public_key : Text
  pub server_address : Text
  pub endpoint : Text
  pub subnet : Text
  pub client_address : Text
  pub listen_port : ℤ
  pub keepalive : ℤ

pub record EnrollmentReply : Type 0 where
  pub version : ℤ
  pub name : Text
  pub client_public_key : Text
  pub client_address : Text
  pub preshared_key : Text

pub record ServerIdentity : Type 0 where
  pub name : Text
  pub keys : Keypair
  pub address : Text
  pub subnet : Text
  pub listen_port : ℤ
  pub endpoint : Text
  pub keepalive : ℤ

pub record ServerPeer : Type 0 where
  pub name : Text
  pub public_key : Text
  pub address : Text
  pub preshared_key : Text
