-- ===== src/Wireguard/Address.antt =====
-- internal/wireguard/address.go: prefix lengths and the next free client address.
pub mod Search
pub mod Allocate
use loca_agent.Base.{
  Text, lit, ℕ, zero, suc, List, [], ◌∷◌, ◌++◌, Option, none, some, Bool, true, false,
}
use loca_agent.Base.{any, format_nat, map, quote}
use loca_agent.Errs.{Error, plain, wrapped}
use loca_agent.Effect.{Result, ok, err, and_then}
use loca_agent.Netip.{
  Ip, Ip6, Prefix, block, same_ip, masked, contains_ip, next, parse_addr, parse_prefix, format_addr,
}
use loca_agent.Wireguard.{ServerIdentity, ServerPeer}

-- The error of net/netip, whose own text is not modelled, behind what the program puts before it.
abbrev parse_error : Text → Text → Error
parse_error before s = wrapped (before ++ (quote s ++ lit ": ")) (plain (lit "netip")) []

-- The addresses among the texts that parse; the rest is ignored.
pub parsed : Ip6 → List Text → List Ip
parsed v6 [] = []
parsed v6 (t ∷ ts) = elim (parse_addr v6 t) [ none ↦ parsed v6 ts | some a ↦ a ∷ parsed v6 ts ]

unfoldable pub is_used : List Ip → Ip → Bool
is_used used a = any (same_ip a) used

-- The loop of NextClientAddress. The fuel bounds the rounds.
search_free : List Ip → Prefix → ℕ → Option Ip → Option Ip
search_free used p zero a = none
search_free used p (suc fuel) none = none
search_free used p (suc fuel) (some a) = elim (contains_ip p a) [
  | false ↦ none
  | true ↦ elim (is_used used a) [ false ↦ some a | true ↦ search_free used p fuel (next a) ]
]

-- The loop with fuel for every address of the prefix, and one more.
unfoldable pub first_free : List Ip → Prefix → Option Ip
unfolding search_free
first_free used p = search_free used p (suc (block p)) (next p.ip)

module _ (v6 : Ip6) where
  -- PrefixLen
  unfoldable pub prefix_len : Text → Result ℕ
  prefix_len subnet = elim (parse_prefix v6 subnet) [
    | none ↦ err (parse_error (lit "parse subnet ") subnet)
    | some p ↦ ok p.bits
  ]

  -- WithPrefix
  unfoldable pub with_prefix : Text → Text → Result Text
  unfolding prefix_len
  with_prefix addr subnet = and_then (prefix_len subnet) (λ bits. elim (parse_addr v6 addr) [
    | none ↦ err (parse_error (lit "parse address ") addr)
    | some _ ↦ ok (addr ++ (b'/' ∷ format_nat bits))
  ])

  -- NextClientAddress
  unfoldable pub next_client_address : Text → List Text → Result Text
  unfolding parsed
  next_client_address subnet taken = elim (parse_prefix v6 subnet) [
    | none ↦ err (parse_error (lit "parse subnet ") subnet)
    | some p ↦ elim (first_free (parsed v6 taken) (masked p)) [
      | none ↦ err (plain (lit "no free address available in " ++ subnet))
      | some a ↦ ok (format_addr v6 a)
    ]
  ]

  -- ServerIdentity.NextClientAddress
  unfoldable pub server_next_address : ServerIdentity → List ServerPeer → Result Text
  server_next_address s existing =
      next_client_address s.subnet (s.address ∷ map (λ (p : ServerPeer). p.address) existing)
