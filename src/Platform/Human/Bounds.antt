-- ===== src/Platform/Human/Bounds.antt =====
-- That humanBytes (internal/platform/platform.go) finds the unit of a number of bytes.
use mathlib.Core.Path.{subst}
use loca_agent.Base.{
  lit, ℕ, zero, suc, ◌*◌, ◌/◌, ◌%◌, ◌^◌, ◌≤◌, ◌<◌, ◌++◌, some, true, false, ltb, format_nat,
  get_elem?,
}
use loca_agent.Base.{◌≡◌, refl, ap, ◌∙◌, ◌⊎◌, inl, inr, arith, Bool-cases}
use loca_agent.Platform.Human.{scale, units, tenths, human_bytes, with_unit}

-- The divisor is the power of 1024 that the number reaches and whose next power it does not.
record IsScaled (b div exp : ℕ) : Type 0 where
  power : div ≡ 1024 ^ suc exp
  reached : div ≤ b
  unreached : b < div * 1024

less : (n : ℕ) → ltb n 1024 ≡ true → suc n ≤ 1024
less n t = ground arith

positive : (n : ℕ) → ltb n 1024 ≡ false → 1 ≤ n / 1024
positive n t = ground arith

mul_mono : (d m n : ℕ) → m ≤ n → d * m ≤ d * n
mul_mono zero m n h = omega arith
mul_mono (suc d) m n h = omega (arith, mul_mono d m n h)

mul_assoc1024 : (d n : ℕ) → d * 1024 * n ≡ d * (n * 1024)
mul_assoc1024 zero n = omega arith
mul_assoc1024 (suc d) n = omega (arith, mul_assoc1024 d n)

scale-IsScaled :
    (fuel n div exp b : ℕ)
    → n < 2 ^ fuel
    → 1 ≤ n
    → b < 2 ^ 64
    → div ≡ 1024 ^ suc exp
    → div * n ≤ b
    → b < div * suc n
    → let (d, e) = scale fuel n div exp in IsScaled b d e
unfolding scale
scale-IsScaled zero n div exp b f one w p low high = absurd (omega arith)
scale-IsScaled (suc fuel) n div exp b f one w p low high = elim (Bool-cases (ltb n 1024)) [
  | inl t ↦
      rw (t, scale)
        (record {
          power = p;
          reached = omega (arith, mul_mono div 1 n one);
          unreached = omega (arith, mul_mono div (suc n) 1024 (less n t));
        })
  | inr t ↦
      let m = n / 1024 in
      let step = mul_mono div (m * 1024) n (omega arith) in
      let next = mul_mono div (suc n) (suc m * 1024) (omega arith) in
      let some_left : 1 ≤ m = positive n t in
      let bound = mul_mono (div * 1024) 1 m some_left in
      let low' : div * 1024 * m ≤ b = omega (arith, step, mul_assoc1024 div m) in
      let same : div * 1024 % 2 ^ 64 ≡ div * 1024 = omega (arith, bound, low') in
      rw (t, scale, same)
        (scale-IsScaled fuel m (div * 1024) (suc exp) b (omega arith) some_left w
          (ap (λ d. d * 1024) p ∙ omega arith) low'
          (omega (arith, next, mul_assoc1024 div (suc m))))
]

pow_positive : (k : ℕ) → 1 ≤ 1024 ^ k
pow_positive zero = omega arith
pow_positive (suc k) = omega (arith, pow_positive k)

unit_of : (exp : ℕ) → 1024 ^ suc exp < 2 ^ 64 → (unit : ℕ) × (get_elem? units exp ≡ some unit)
unit_of zero h = (_, refl)
unit_of (suc zero) h = (_, refl)
unit_of (suc (suc zero)) h = (_, refl)
unit_of (suc (suc (suc zero))) h = (_, refl)
unit_of (suc (suc (suc (suc zero)))) h = (_, refl)
unit_of (suc (suc (suc (suc (suc zero))))) h = (_, refl)
unit_of (suc (suc (suc (suc (suc (suc e)))))) h = absurd (omega (arith, pow_positive e))

-- How humanBytes shows a number of bytes of 1024 and more: the unit is that of the largest power of
-- 1024 in it, and it stands behind the number of tenths of that power.
pub record Shown (b : ℕ) : Type 0 where
  pub exp : ℕ
  pub unit : ℕ
  pub named : get_elem? units exp ≡ some unit
  pub at_least : 1024 ^ suc exp ≤ b
  pub below : b < 1024 ^ suc (suc exp)
  pub text : human_bytes b ≡ some (with_unit (tenths b (1024 ^ suc exp)) unit)

start-IsScaled :
    (b : ℕ) → b < 2 ^ 64 → 1024 ≤ b → let (d, e) = scale 64 (b / 1024) 1024 0 in IsScaled b d e
start-IsScaled b w low =
    scale-IsScaled 64 (b / 1024) 1024 0 b (omega arith) (omega arith) w refl (omega arith)
      (omega arith)

below_unit : (b : ℕ) → ltb b 1024 ≡ true → b < 1024
below_unit b t = ground arith

shown : (b : ℕ) → b < 2 ^ 64 → ltb b 1024 ≡ false → Shown b
unfolding human_bytes
shown b w t =
    let scaled = start-IsScaled b w (ground arith) in
    let exp = (scale 64 (b / 1024) 1024 0).1 in
    let (unit, named) = unit_of exp (omega (arith, scaled.power, scaled.reached)) in
    record {
      exp = exp;
      unit = unit;
      named = named;
      at_least = subst (λ d. d ≤ b) scaled.power scaled.reached;
      below = subst (λ d. b < d) (ap (λ d. d * 1024) scaled.power ∙ omega arith) scaled.unreached;
      text = rw (t, named, scaled.power, human_bytes) refl;
    }

-- humanBytes of a uint64 never indexes past its six units: below 1024 it prints the bytes, and from
-- there on the unit is that of the largest power of 1024 that the number reaches.
pub human_bytes-Shown :
    (b : ℕ)
    → b < 2 ^ 64
    → ((b < 1024) × (human_bytes b ≡ some (format_nat b ++ lit " B"))) ⊎ Shown b
unfolding human_bytes
human_bytes-Shown b w = elim (Bool-cases (ltb b 1024)) [
  | inl t ↦ inl (below_unit b t, rw (t, human_bytes) refl)
  | inr t ↦ inr (shown b w t)
]
