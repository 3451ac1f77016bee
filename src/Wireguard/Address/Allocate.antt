-- ===== src/Wireguard/Address/Allocate.antt =====
-- The text that ServerIdentity.NextClientAddress returns (internal/wireguard/address.go and server.go).
use loca_agent.Base.{Text, suc, List, some, ◌≡◌}
use loca_agent.Netip.{Ip, Ip6, Prefix, masked, parse_prefix, format_addr}
use loca_agent.Wireguard.Address.{parsed}
use loca_agent.Wireguard.Address.Search.{at_value, IsLowest}

-- The text is that of the lowest free address of the subnet, where the taken ones are those that parse.
pub record Allocated (v6 : Ip6) (subnet : Text) (taken : List Text) (text : Text) : Type 0 where
  pub prefix : Prefix
  pub address : Ip
  pub subnet_parsed : parse_prefix v6 subnet ≡ some prefix
  pub printed : format_addr v6 address ≡ text
  pub lowest :
      IsLowest
        (parsed v6 taken)
        (masked prefix)
        (at_value (masked prefix).ip (suc (masked prefix).ip.value))
        address
