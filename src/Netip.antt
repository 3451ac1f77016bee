-- ===== src/Netip.antt =====
-- What internal/wireguard/address.go uses of Go's net/netip. IPv4 text is read and printed here; the
-- text form of IPv6 addresses is a parameter.
use loca_agent.Base.{Text, ℕ, suc, ◌+◌, ◌-◌, ◌*◌, ◌/◌, ◌^◌, List, [], ◌∷◌, ◌++◌}
use loca_agent.Base.{Option, none, some, Bool, true, false, ◌&&◌, ◌==◌, nat_eq, text_eq}
use loca_agent.Base.{ltb, leb, if◌then◌else◌, split, parse_digits, format_nat}

pub data Family : Type 0 where
  ip4 ip6 : Family

-- A valid netip.Addr: 32 or 128 bits, and the zone of an IPv6 address.
pub record Ip : Type 0 where
  pub family : Family
  pub value : ℕ
  pub zone : Text

abbrev pub width : Family → ℕ
width ip4 = 32
width ip6 = 128

abbrev pub same_family : Family → Family → Bool
same_family ip4 ip4 = true
same_family ip6 ip6 = true
same_family ip4 ip6 = false
same_family ip6 ip4 = false

-- netip.Addr's ==
abbrev pub same_ip : Ip → Ip → Bool
same_ip a b = same_family a.family b.family && (a.value == b.value && a.zone == b.zone)

-- The text form of IPv6 addresses, with an optional zone.
pub record Ip6 : Type 0 where
  pub parse : Text → Option (ℕ × Text)
  pub format : ℕ → Text → Text

-- A field of a dotted quad: one to three digits, no leading zero, at most 255.
parse_octet : Text → Option ℕ
parse_octet s = elim (parse_digits s) [
  | none ↦ none
  | some n ↦ if ltb 255 n then none else if format_nat n == s then some n else none
]

quad : Option ℕ → Option ℕ → Option ℕ → Option ℕ → Option ℕ
quad (some a) (some b) (some c) (some d) = some (((a * 256 + b) * 256 + c) * 256 + d)
quad _ _ _ _ = none

parse_quad : List Text → Option ℕ
unfolding quad parse_octet
parse_quad (a ∷ b ∷ c ∷ d ∷ []) =
    quad (parse_octet a) (parse_octet b) (parse_octet c) (parse_octet d)
parse_quad _ = none

format_quad : ℕ → Text
format_quad n =
    format_nat (n / 2 ^ 24)
    ++ (b'.'
        ∷ (format_nat (n / 2 ^ 16 - n / 2 ^ 24 * 256)
            ++ (b'.'
                ∷ (format_nat (n / 2 ^ 8 - n / 2 ^ 16 * 256)
                    ++ (b'.' ∷ format_nat (n - n / 2 ^ 8 * 256))))))

-- The first of '.', ':' and '%' tells the family.
family_of : Text → Option Family
family_of [] = none
family_of (c ∷ s) =
    if c == b'.'
    then some ip4
    else if c == b':'
    then some ip6
    else if c == b'%'
    then none
    else family_of s

-- The text before and behind the last slash.
last_slash : Text → Option (Text × Text)
last_slash [] = none
last_slash (c ∷ s) = elim (last_slash s) [
  | some (a, b) ↦ some (c ∷ a, b)
  | none ↦ if c == b'/' then some ([], s) else none
]

-- The length of a prefix, in digits with no leading zero.
parse_bits : Family → Text → Option ℕ
parse_bits f s = elim (parse_digits s) [
  | none ↦ none
  | some n ↦ if leb n (width f) then (if format_nat n == s then some n else none) else none
]

pub record Prefix : Type 0 where
  pub ip : Ip
  pub bits : ℕ

-- How many addresses share a prefix.
abbrev pub block : Prefix → ℕ
block p = 2 ^ (width p.ip.family - p.bits)

-- Prefix.Masked
unfoldable pub masked : Prefix → Prefix
masked p = record p { ip = record p.ip { value = p.ip.value / block p * block p; zone = [] } }

-- Prefix.Contains, of a valid address
unfoldable pub contains_ip : Prefix → Ip → Bool
contains_ip p a =
    same_family p.ip.family a.family
    && (a.zone == [] && (a.value / block p == p.ip.value / block p))

-- Addr.Next: the invalid address behind the last one is `none`.
unfoldable pub next : Ip → Option Ip
next a =
    if ltb (suc a.value) (2 ^ width a.family) then some (record a { value = suc a.value }) else none

module _ (v6 : Ip6) where
  -- netip.ParseAddr
  unfoldable pub parse_addr : Text → Option Ip
  unfolding family_of parse_quad
  parse_addr s = elim (family_of s) [
    | none ↦ none
    | some ip4 ↦ elim (parse_quad (split b'.' s)) [
      | none ↦ none
      | some n ↦ some (record { family = ip4; value = n; zone = [] })
    ]
    | some ip6 ↦ elim (v6.parse s) [
      | none ↦ none
      | some (n, z) ↦ some (record { family = ip6; value = n; zone = z })
    ]
  ]

  -- netip.ParsePrefix: zones are refused.
  unfoldable pub parse_prefix : Text → Option Prefix
  unfolding last_slash parse_addr parse_bits
  parse_prefix s = elim (last_slash s) [
    | none ↦ none
    | some (a, b) ↦ elim (parse_addr a) [
      | none ↦ none
      | some ip ↦
          if ip.zone == []
          then elim (parse_bits ip.family b) [
            | none ↦ none
            | some n ↦ some (record { ip = ip; bits = n })
          ]
          else none
    ]
  ]

  -- Addr.String
  unfoldable pub format_addr : Ip → Text
  unfolding format_quad
  format_addr a = elim a.family [ ip4 ↦ format_quad a.value | ip6 ↦ v6.format a.value a.zone ]
