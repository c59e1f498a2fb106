-- ===== src/Common/Masks.antt =====
-- `& mask` on machine words, where the mask is one less than a power of two.
use Prim.Native.Nat.{
  ℕ, zero, suc, ◌+◌, ◌-◌, ◌*◌, ◌/◌, ◌%◌, ◌^◌, ◌≤◌, ◌<◌, min, bit_and, digits, bit_and-bitwise,
}
use mathlib.Core.Path.{◌≡◌, sym, ap, ◌∙◌}
use native.Mathlib.Omega.{arith}
use native.Mathlib.Nat.{
  mul-add-mod_self_left, mod-eq_of_lt, div-add-mod, mod-lt, mod-one, zero-mod, two-pow-succ,
}

pub two_pow_pos : (k : ℕ) → 0 < 2 ^ k
two_pow_pos zero = omega arith
two_pow_pos (suc k) = omega (arith, two-pow-succ k, two_pow_pos k)

-- The remainder by an even number, from the remainder of the half.
half_mod : (a p : ℕ) → 0 < p → a % (2 * p) ≡ (a / 2 % p) * 2 + a % 2
half_mod a p h =
    let r = a / 2 % p in
    let q = a / 2 / p in
    let split : a ≡ (2 * p) * q + (r * 2 + a % 2) = grind (arith, div-add-mod (a / 2) p) in
    let small : r * 2 + a % 2 < 2 * p = omega (arith, mod-lt (a / 2) h) in
    ap (λ (x : ℕ). x % (2 * p)) split
    ∙ mul-add-mod_self_left (2 * p) q (r * 2 + a % 2)
    ∙ mod-eq_of_lt small

digits_ones : (n k a : ℕ) → a ≤ n → digits (λ (b : ℕ). zero) min n a (2 ^ k - 1) ≡ a % 2 ^ k
digits_ones zero k zero h = sym (zero-mod (2 ^ k))
digits_ones zero k (suc a) h = absurd (omega arith)
digits_ones (suc n) k zero h = sym (zero-mod (2 ^ k))
digits_ones (suc n) zero (suc a) h =
    omega
      (arith, digits_ones n zero (suc a / 2) (omega arith), mod-one (suc a / 2), mod-one (suc a))
digits_ones (suc n) (suc k) (suc a) h =
    let p = two_pow_pos k in
    let twice = two-pow-succ k in
    let halved : (2 ^ suc k - 1) / 2 ≡ 2 ^ k - 1 = omega (arith, p, twice) in
    let odd : (2 ^ suc k - 1) % 2 ≡ 1 = omega (arith, p, twice) in
    let rest = digits_ones n k (suc a / 2) (omega arith) in
    let even : 2 ^ suc k ≡ 2 * 2 ^ k = omega (arith, twice) in
    rw (halved, odd, rest, even) (omega (arith, half_mod (suc a) (2 ^ k) p))

-- `a & (2 ^ k - 1)` is the remainder of `a` by `2 ^ k`.
pub bit_and-ones : (a k : ℕ) → bit_and a (2 ^ k - 1) ≡ a % 2 ^ k
bit_and-ones a k = bit_and-bitwise a (2 ^ k - 1) ∙ digits_ones a k a (omega arith)
