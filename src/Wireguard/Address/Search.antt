-- ===== src/Wireguard/Address/Search.antt =====
-- The address that NextClientAddress hands out (internal/wireguard/address.go).
use loca_agent.Base.{ℕ, zero, suc, ◌+◌, ◌-◌, ◌*◌, ◌/◌, ◌≤◌, ◌<◌, ◌^◌, List, [], none, some}
use loca_agent.Base.{
  ◌≡◌, refl, ap, sym, ◌∙◌, arith, true, false, Bool-cases, Option-cases, inl, inr, ltb, ltb→lt,
}
use mathlib.Core.Path.{subst}
use native.Mathlib.Nat.{div-eq_of_lt-le, lt-div-mul-add, div-mul-le_self, one-le-pow}
use loca_agent.Base.{text_eq, nat_beq_iff, ◌==◌}
use loca_agent.Netip.{Ip, Prefix, width, block, contains_ip, next, same_family}
use loca_agent.Wireguard.Address.{is_used, search_free, first_free}

-- The address of the same family and zone with another value.
abbrev pub at_value : Ip → ℕ → Ip
at_value a v = record a { value = v }

next-some : (a b : Ip) → next a ≡ some b → b ≡ at_value a (suc a.value)
unfolding next
next-some a b h = ground arith

next-none : (a : Ip) → next a ≡ none → 2 ^ width a.family ≤ suc a.value
unfolding next
next-none a h = ground arith

-- What the loop returns from `a`: a free address of the prefix, at or above `a`, below which all are used.
pub record IsLowest (used : List Ip) (p : Prefix) (a r : Ip) : Type 0 where
  pub inside : contains_ip p r ≡ true
  pub free : is_used used r ≡ false
  pub above : a.value ≤ r.value
  pub shape : r ≡ at_value a r.value
  pub taken : (v : ℕ) → a.value ≤ v → v < r.value → is_used used (at_value a v) ≡ true

used-at :
    (used : List Ip) (a : Ip) (v : ℕ)
    → a.value ≡ v
    → is_used used a ≡ true
    → is_used used (at_value a v) ≡ true
used-at used a v e u = subst (λ w. is_used used (at_value a w) ≡ true) e u

IsLowest-next :
    (used : List Ip) (p : Prefix) (a r : Ip)
    → is_used used a ≡ true
    → IsLowest used p (at_value a (suc a.value)) r
    → IsLowest used p a r
IsLowest-next used p a r u l = record {
  inside = l.inside;
  free = l.free;
  above = omega (arith, l.above);
  shape = l.shape;
  taken = λ v lo hi. elim (Bool-cases (ltb a.value v)) [
    | inl more ↦ l.taken v (ground arith) hi
    | inr same ↦ used-at used a v (ground arith) u
  ];
}

IsLowest-here :
    (used : List Ip) (p : Prefix) (a r : Ip)
    → contains_ip p a ≡ true
    → is_used used a ≡ false
    → a ≡ r
    → IsLowest used p a r
IsLowest-here used p a r here free e =
    subst (λ (r : Ip). IsLowest used p a r) e
      record {
        inside = here;
        free = free;
        above = omega arith;
        shape = refl;
        taken = λ v lo hi. absurd (omega arith);
      }

search_free-none : (used : List Ip) (p : Prefix) (fuel : ℕ) → search_free used p fuel none ≡ none
unfolding search_free
search_free-none used p zero = refl
search_free-none used p (suc fuel) = refl

search_free-IsLowest :
    (used : List Ip) (p : Prefix) (fuel : ℕ) (a r : Ip)
    → search_free used p fuel (some a) ≡ some r
    → IsLowest used p a r
unfolding search_free
search_free-IsLowest used p zero a r h = absurd cc
search_free-IsLowest used p (suc fuel) a r h = elim (Bool-cases (contains_ip p a)) [
  | inr out ↦ absurd (ground arith)
  | inl here ↦ elim (Bool-cases (is_used used a)) [
    | inr free ↦ IsLowest-here used p a r here free (ground arith)
    | inl busy ↦ elim (Option-cases (next a)) [
      | inl end ↦ absurd (ground (arith, search_free-none used p fuel))
      | inr (b, q) ↦ IsLowest-next used p a r busy (
          subst (λ (b : Ip). IsLowest used p b r) (next-some a b q)
            (search_free-IsLowest used p fuel b r (ground arith)))
    ]
  ]
]

-- What NextClientAddress picks is a free address of the subnet, behind the subnet's own, and every
-- address before it is taken.
pub first_free-IsLowest :
    (used : List Ip) (p : Prefix) (r : Ip)
    → first_free used p ≡ some r
    → IsLowest used p (at_value p.ip (suc p.ip.value)) r
unfolding first_free
first_free-IsLowest used p r h = elim (Option-cases (next p.ip)) [
  | inl end ↦ absurd (ground (arith, search_free-none used p (suc (block p))))
  | inr (b, q) ↦
      subst (λ (b : Ip). IsLowest used p b r) (next-some p.ip b q)
        (search_free-IsLowest used p (suc (block p)) b r (ground arith))
]

-- Numbers of one block have nothing else between them.
div-between : (b lo mid hi : ℕ) → 0 < b → lo ≤ mid → mid ≤ hi → hi / b ≡ lo / b → mid / b ≡ lo / b
div-between b lo mid hi pos le ge e =
    div-eq_of_lt-le b (omega (arith, div-mul-le_self lo b))
      (omega (arith, lt-div-mul-add pos, ap (λ q. q * b) e, ge))

block-positive : (p : Prefix) → 0 < block p
block-positive p = one-le-pow (width p.ip.family - p.bits) 2 (omega arith)

contains_block :
    (p : Prefix) (a : Ip)
    → contains_ip p a ≡ true
    → (same_family p.ip.family a.family ≡ true)
      × ((a.zone == [] ≡ true) × (a.value / block p ≡ p.ip.value / block p))
unfolding contains_ip
contains_block p a h = ground (arith, nat_beq_iff (a.value / block p) (p.ip.value / block p))

in_block :
    (p : Prefix) (a : Ip)
    → same_family p.ip.family a.family ≡ true
    → a.zone == [] ≡ true
    → a.value / block p ≡ p.ip.value / block p
    → contains_ip p a ≡ true
unfolding contains_ip
in_block p a f z e = ground (arith, nat_beq_iff (a.value / block p) (p.ip.value / block p))

contains-between :
    (p : Prefix) (a : Ip) (v : ℕ)
    → p.ip.value ≤ a.value
    → a.value ≤ v
    → contains_ip p (at_value a v) ≡ true
    → contains_ip p a ≡ true
contains-between p a v lo hi h =
    let (f, (z, e)) = contains_block p (at_value a v) h in
    in_block p a f z (div-between (block p) p.ip.value a.value v (block-positive p) lo hi e)

search_complete :
    (used : List Ip) (p : Prefix) (fuel : ℕ) (a : Ip)
    → p.ip.value ≤ a.value
    → search_free used p fuel (some a) ≡ none
    → (v : ℕ) → a.value ≤ v
    → v < a.value + fuel
    → v < 2 ^ width a.family
    → contains_ip p (at_value a v) ≡ true
    → is_used used (at_value a v) ≡ true
unfolding search_free
search_complete used p zero a base h v lo hi valid inside = absurd (omega arith)
search_complete used p (suc fuel) a base h v lo hi valid inside =
    let here = contains-between p a v base lo inside in
    elim (Bool-cases (is_used used a)) [
      | inr free ↦ absurd (ground arith)
      | inl busy ↦ elim (Bool-cases (ltb a.value v)) [
        | inr same ↦ used-at used a v (ground arith) busy
        | inl more ↦ elim (Option-cases (next a)) [
          | inl end ↦ absurd (omega (arith, next-none a end, ltb→lt a.value v more))
          | inr (b, q) ↦
              search_complete used p fuel (at_value a (suc a.value)) (omega arith)
                (ap (λ o. search_free used p fuel o) (sym (q ∙ ap some (next-some a b q)))
                  ∙ ground arith)
                v (omega (arith, ltb→lt a.value v more)) (omega arith) valid inside
        ]
      ]
    ]

-- The fuel is enough: when no address is found, every later address of the subnet is taken.
pub first_free_complete :
    (used : List Ip) (p : Prefix)
    → first_free used p ≡ none
    → (v : ℕ) → p.ip.value < v
    → v < 2 ^ width p.ip.family
    → contains_ip p (at_value p.ip v) ≡ true
    → is_used used (at_value p.ip v) ≡ true
unfolding first_free
first_free_complete used p h v lo valid inside = elim (Option-cases (next p.ip)) [
  | inl end ↦ absurd (omega (arith, next-none p.ip end))
  | inr (b, q) ↦
      let (_, (_, e)) = contains_block p (at_value p.ip v) inside in
      search_complete used p (suc (block p)) (at_value p.ip (suc p.ip.value)) (omega arith)
        (ap (λ o. search_free used p (suc (block p)) o) (sym (q ∙ ap some (next-some p.ip b q)))
          ∙ h)
        v (omega arith)
        (omega (
          arith,
          lt-div-mul-add {a = v} (block-positive p),
          div-mul-le_self p.ip.value (block p),
          ap (λ q. q * block p) e,
        ))
        valid inside
]
