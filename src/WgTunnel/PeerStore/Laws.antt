-- ===== src/WgTunnel/PeerStore/Laws.antt =====
-- The list that PeerStore.Add saves (internal/wgtunnel/peerstore.go).
use loca_agent.Base.{Text, List, [], ◌∷◌, ◌++◌, Option, none, some, true, false, ◌==◌, text_eq}
use loca_agent.Base.{
  ◌≡◌, refl, sym, ◌∙◌, arith, if◌then◌else◌, Bool-cases, eq_iff, eq_refl, inl, inr,
}
use mathlib.Core.Path.{subst}
use loca_agent.Wireguard.{ServerPeer}
use loca_agent.WgTunnel.PeerStore.{replace_peer, with_peer}

-- The first peer with a key.
abbrev pub lookup : Text → List ServerPeer → Option ServerPeer
lookup k [] = none
lookup k (p ∷ ps) = if p.public_key == k then some p else lookup k ps

lookup-append :
    (k : Text) (ps : List ServerPeer) (q : ServerPeer)
    → lookup k ps ≡ none
    → lookup k (ps ++ (q ∷ [])) ≡ lookup k (q ∷ [])
lookup-append k [] q h = refl
lookup-append k (p ∷ ps) q h = ground (arith, lookup-append k ps q)

lookup-append_other :
    (k : Text) (ps : List ServerPeer) (q : ServerPeer)
    → q.public_key == k ≡ false
    → lookup k (ps ++ (q ∷ [])) ≡ lookup k ps
lookup-append_other k [] q h = ground arith
lookup-append_other k (p ∷ ps) q h = ground (arith, lookup-append_other k ps q h)

replace-lookup :
    (q : ServerPeer) (ps : List ServerPeer)
    → (replace_peer q ps).1 ≡ true
    → lookup q.public_key (replace_peer q ps).0 ≡ some q
unfolding replace_peer
replace-lookup q [] h = absurd cc
replace-lookup q (p ∷ ps) h = ground (arith, replace-lookup q ps, eq_refl q.public_key)

replace-absent :
    (q : ServerPeer) (ps : List ServerPeer)
    → (replace_peer q ps).1 ≡ false
    → lookup q.public_key ps ≡ none
unfolding replace_peer
replace-absent q [] h = refl
replace-absent q (p ∷ ps) h = ground (arith, replace-absent q ps)

replace-other :
    (q : ServerPeer) (k : Text) (ps : List ServerPeer)
    → q.public_key == k ≡ false
    → lookup k (replace_peer q ps).0 ≡ lookup k ps
unfolding replace_peer
replace-other q k [] ne = refl
replace-other q k (p ∷ ps) ne = ground (
  arith,
  replace-other q k ps ne,
  eq_iff p.public_key q.public_key,
  eq_iff p.public_key k,
  eq_iff q.public_key k,
)

with_peer-hit :
    (q : ServerPeer) (ps : List ServerPeer)
    → (replace_peer q ps).1 ≡ true
    → with_peer q ps ≡ (replace_peer q ps).0
unfolding with_peer
with_peer-hit q ps h = ground arith

with_peer-miss :
    (q : ServerPeer) (ps : List ServerPeer)
    → (replace_peer q ps).1 ≡ false
    → with_peer q ps ≡ ps ++ (q ∷ [])
unfolding with_peer
with_peer-miss q ps h = ground arith

replace-absent_at :
    (q : ServerPeer) (ps : List ServerPeer) (k : Text)
    → q.public_key == k ≡ true
    → (replace_peer q ps).1 ≡ false
    → lookup k ps ≡ none
replace-absent_at q ps k same miss =
    subst (λ k. lookup k ps ≡ none) ((eq_iff q.public_key k).0 same) (replace-absent q ps miss)

replace-lookup_at :
    (q : ServerPeer) (ps : List ServerPeer) (k : Text)
    → q.public_key == k ≡ true
    → (replace_peer q ps).1 ≡ true
    → lookup k (replace_peer q ps).0 ≡ some q
replace-lookup_at q ps k same hit =
    subst (λ k. lookup k (replace_peer q ps).0 ≡ some q) ((eq_iff q.public_key k).0 same)
      (replace-lookup q ps hit)

-- After an Add, the key of the added peer finds that peer, and every other key finds what it found.
pub lookup-with_peer :
    (q : ServerPeer) (ps : List ServerPeer) (k : Text)
    → lookup k (with_peer q ps) ≡ (if q.public_key == k then some q else lookup k ps)
unfolding with_peer
lookup-with_peer q ps k = elim (Bool-cases (q.public_key == k)) [
  | inl same ↦ elim (Bool-cases (replace_peer q ps).1) [
    | inl hit ↦ ground (arith, with_peer-hit q ps hit, replace-lookup_at q ps k same hit)
    | inr miss ↦
        ground (
          arith,
          with_peer-miss q ps miss,
          lookup-append k ps q (replace-absent_at q ps k same miss),
        )
  ]
  | inr other ↦ elim (Bool-cases (replace_peer q ps).1) [
    | inl hit ↦ ground (arith, with_peer-hit q ps hit, replace-other q k ps other)
    | inr miss ↦ ground (arith, with_peer-miss q ps miss, lookup-append_other k ps q other)
  ]
]

-- No two peers of the list have the same key.
unfoldable pub Distinct : List ServerPeer → Type 0
Distinct [] = Unit
Distinct (p ∷ ps) = (lookup p.public_key ps ≡ none) × Distinct ps

replace-here :
    (q p : ServerPeer) (ps : List ServerPeer)
    → p.public_key == q.public_key ≡ true
    → (replace_peer q (p ∷ ps)).0 ≡ q ∷ ps
unfolding replace_peer
replace-here q p ps h = ground arith

replace-there :
    (q p : ServerPeer) (ps : List ServerPeer)
    → p.public_key == q.public_key ≡ false
    → (replace_peer q (p ∷ ps)).0 ≡ p ∷ (replace_peer q ps).0
unfolding replace_peer
replace-there q p ps h = ground arith

replace-Distinct :
    (q : ServerPeer) (ps : List ServerPeer) → Distinct ps → Distinct (replace_peer q ps).0
unfolding Distinct replace_peer
replace-Distinct q [] d = tt
replace-Distinct q (p ∷ ps) (l, d) = elim (Bool-cases (p.public_key == q.public_key)) [
  | inl same ↦
      subst Distinct (sym (replace-here q p ps same))
        (subst (λ k. lookup k ps ≡ none) ((eq_iff p.public_key q.public_key).0 same) l, d)
  | inr other ↦ subst Distinct (sym (replace-there q p ps other)) (
    replace-other q p.public_key ps
          (ground (arith, eq_iff p.public_key q.public_key, eq_iff q.public_key p.public_key))
        ∙ l,
    replace-Distinct q ps d,
  )
]

append-Distinct :
    (q : ServerPeer) (ps : List ServerPeer)
    → lookup q.public_key ps ≡ none
    → Distinct ps
    → Distinct (ps ++ (q ∷ []))
unfolding Distinct
append-Distinct q [] h d = (refl, tt)
append-Distinct q (p ∷ ps) h (l, d) = (
  lookup-append_other p.public_key ps q
        (ground (arith, eq_iff p.public_key q.public_key, eq_iff q.public_key p.public_key))
      ∙ l,
  append-Distinct q ps (ground arith) d,
)

-- An Add keeps the keys of a list distinct.
pub with_peer-Distinct :
    (q : ServerPeer) (ps : List ServerPeer) → Distinct ps → Distinct (with_peer q ps)
unfolding with_peer
with_peer-Distinct q ps d = elim (Bool-cases (replace_peer q ps).1) [
  | inl hit ↦ subst Distinct (sym (with_peer-hit q ps hit)) (replace-Distinct q ps d)
  | inr miss ↦
      subst Distinct (sym (with_peer-miss q ps miss))
        (append-Distinct q ps (replace-absent q ps miss) d)
]
