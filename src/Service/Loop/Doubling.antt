-- ===== src/Service/Loop/Doubling.antt =====
-- The backoff, doubled at each failure up to its limit.
use ironsoft.Prelude.{
  ℕ, zero, suc, ◌*◌, ◌^◌, ◌≤◌, ◌<◌, ◌≡◌, refl, ◌∙◌, sym, ap, ◌⊎◌, inl, inr, arith, min,
}
use native.Mathlib.Nat.{pow-suc, mul_assoc, mul_comm}
use ironsoft.Service.Sensor.{next_backoff}

-- The backoff after `n` failed attempts in a row.
abbrev pub backoff_after : ℕ → ℕ → ℕ → ℕ
backoff_after backoff limit zero = backoff
backoff_after backoff limit (suc n) = min (backoff * 2 ^ suc n) limit

le_times : (x n : ℕ) → x ≤ x * 2 ^ n
le_times x zero = omega arith
le_times x (suc n) =
    let doubled : x * 2 ^ suc n ≡ x * 2 ^ n * 2 =
      ap (λ q. x * q) (pow-suc 2 n) ∙ sym (mul_assoc x (2 ^ n) 2) in
    omega (arith, le_times x n, doubled)

min-cases : (x y : ℕ) → ((x ≤ y) × (min x y ≡ x)) ⊎ ((y ≤ x) × (min x y ≡ y))
min-cases x y = ground arith

min-times :
    (x limit q : ℕ)
    → x ≤ x * q
    → limit ≤ limit * q
    → min (min x limit * q) limit ≡ min (x * q) limit
min-times x limit q grows limit_grows = elim (min-cases x limit) [
  | inl (smaller, e) ↦ rw e refl
  | inr (larger, e) ↦ rw e (omega (arith, grows, limit_grows, larger))
]

doubled : (x n : ℕ) → x * 2 * 2 ^ n ≡ x * 2 ^ suc n
doubled x n = mul_assoc x 2 (2 ^ n) ∙ ap (λ q. x * q) (mul_comm 2 (2 ^ n) ∙ sym (pow-suc 2 n))

pub next_backoff-le : (backoff limit : ℕ) → next_backoff backoff limit ≤ limit
unfolding next_backoff
next_backoff-le backoff limit = ground arith

-- Below 2 ^ 30 the product is an int.
next_backoff-min :
    (backoff limit : ℕ) → backoff < 2 ^ 30 → next_backoff backoff limit ≡ min (backoff * 2) limit
unfolding next_backoff
next_backoff-min backoff limit small = ground arith

doubled_after :
    (backoff limit n : ℕ)
    → backoff_after (min (backoff * 2) limit) limit n ≡ backoff_after backoff limit (suc n)
doubled_after backoff limit zero = refl
doubled_after backoff limit (suc n) =
    min-times (backoff * 2) limit (2 ^ suc n) (le_times (backoff * 2) (suc n))
      (le_times limit (suc n))
    ∙ ap (λ q. min q limit) (doubled backoff (suc n))

pub backoff_after-next :
    (backoff limit n : ℕ)
    → backoff < 2 ^ 30
    → backoff_after (next_backoff backoff limit) limit n ≡ backoff_after backoff limit (suc n)
backoff_after-next backoff limit n small =
    ap (λ b. backoff_after b limit n) (next_backoff-min backoff limit small)
    ∙ doubled_after backoff limit n
