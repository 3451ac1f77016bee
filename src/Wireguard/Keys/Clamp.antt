-- ===== src/Wireguard/Keys/Clamp.antt =====
-- A clamped key (internal/wireguard/keys.go) is as long as the key, and made of bytes.
use Prim.Native.Nat.{bit_and, bit_or}
use loca_agent.Base.{
  Text, ℕ, zero, suc, ◌<◌, [], ◌∷◌, Bool, true, ◌&&◌, ltb, ltb→lt, length, All, ◌≡◌, refl, ap,
  arith,
}
use loca_agent.Base.{◌∙◌, inl, inr, Bool-cases}
use mathlib.Core.Path.{subst}
use loca_agent.Wireguard.Keys.{modify, clamp}

below : ℕ → (ℕ → Bool) → Bool
below zero p = true
below (suc n) p = p n && below n p

below_here : (n : ℕ) (p : ℕ → Bool) → below (suc n) p ≡ true → p n ≡ true
unfolding below
below_here n p h = ground arith

below_all : (n : ℕ) (p : ℕ → Bool) → below n p ≡ true → (x : ℕ) → x < n → p x ≡ true
unfolding below
below_all zero p h x lt = absurd (omega arith)
below_all (suc n) p h x lt = elim (Bool-cases (ltb x n)) [
  | inl lower ↦ below_all n p (ground arith) x (ltb→lt x n lower)
  | inr top ↦ subst (λ x. p x ≡ true) (ground arith) (below_here n p h)
]

head_byte : (x : ℕ) → x < 256 → bit_and x 248 < 256
unfolding below
head_byte x h = ltb→lt (bit_and x 248) 256 (below_all 256 (λ x. ltb (bit_and x 248) 256) refl x h)

last_byte : (x : ℕ) → x < 256 → bit_or (bit_and x 127) 64 < 256
unfolding below
last_byte x h =
    ltb→lt (bit_or (bit_and x 127) 64) 256
      (below_all 256 (λ x. ltb (bit_or (bit_and x 127) 64) 256) refl x h)

length-modify : (i : ℕ) (f : ℕ → ℕ) (s : Text) → length (modify i f s) ≡ length s
unfolding modify
length-modify i f [] = refl
length-modify zero f (x ∷ s) = refl
length-modify (suc i) f (x ∷ s) = ap suc (length-modify i f s)

All-modify :
    (i : ℕ) (f : ℕ → ℕ) (s : Text)
    → ((x : ℕ) → x < 256 → f x < 256)
    → All (λ c. c < 256) s
    → All (λ c. c < 256) (modify i f s)
unfolding modify
All-modify i f [] k h = tt
All-modify zero f (x ∷ s) k (hx, h) = (k x hx, h)
All-modify (suc i) f (x ∷ s) k (hx, h) = (hx, All-modify i f s k h)

pub length-clamp : (k : Text) → length (clamp k) ≡ length k
unfolding clamp
length-clamp k = length-modify 31 _ _ ∙ length-modify 0 _ k

pub All-clamp : (k : Text) → All (λ c. c < 256) k → All (λ c. c < 256) (clamp k)
unfolding clamp
All-clamp k h = All-modify 31 _ _ last_byte (All-modify 0 _ k head_byte h)
