-- ===== src/Base/Bits.antt =====
-- A mask of low bits takes a remainder.
use Prim.Native.Nat.{
  ℕ, zero, suc, ◌+◌, ◌-◌, ◌*◌, ◌/◌, ◌%◌, ◌^◌, ◌≤◌, ◌<◌, min, bit_and, digits, bit_and-bitwise,
}
use mathlib.Core.Path.{◌≡◌, ◌∙◌, ap}
use native.Mathlib.Nat.{add-mul-mod_self_left, mod-eq_of_lt, mod-lt, mod-add-div, pow-zero, pow-suc}
use native.Mathlib.Omega.{arith}

-- The lowest bit, and the remainder of the rest.
mod_double : (x p : ℕ) → 0 < p → x % (p * 2) ≡ (x / 2 % p) * 2 + x % 2
mod_double x p pos =
    let h = x / 2 in
    let low = (h % p) * 2 + x % 2 in
    let split : x ≡ low + p * 2 * (h / p) = omega (arith, mod-add-div h p) in
    let small : low < p * 2 = omega (arith, mod-lt h pos) in
    ap (λ (t : ℕ). t % (p * 2)) split
    ∙ add-mul-mod_self_left low (p * 2) (h / p)
    ∙ mod-eq_of_lt small

pow_pos : (k : ℕ) → 0 < 2 ^ k
pow_pos zero = omega (arith, pow-zero 2)
pow_pos (suc k) = omega (arith, pow-suc 2 k, pow_pos k)

mask_digits : (n k a : ℕ) → a ≤ n → digits (λ b. zero) min n a (2 ^ k - 1) ≡ a % 2 ^ k
mask_digits zero k zero h = omega arith
mask_digits zero k (suc a) h = absurd (omega arith)
mask_digits (suc n) k zero h = omega arith
mask_digits (suc n) zero (suc a) h =
    omega (arith, mask_digits n zero (suc a / 2) (omega arith), pow-zero 2)
mask_digits (suc n) (suc k) (suc a) h =
    let half : (2 ^ suc k - 1) / 2 ≡ 2 ^ k - 1 = omega (arith, pow-suc 2 k, pow_pos k) in
    let ones : (2 ^ suc k - 1) % 2 ≡ 1 = omega (arith, pow-suc 2 k, pow_pos k) in
    rw half (
      omega (
        arith,
        ones,
        mask_digits n k (suc a / 2) (omega arith),
        mod_double (suc a) (2 ^ k) (pow_pos k),
        ap (λ (t : ℕ). suc a % t) (pow-suc 2 k),
      ))

-- x & (2^k - 1)
pub bit_and_mask : (k x : ℕ) → bit_and x (2 ^ k - 1) ≡ x % 2 ^ k
bit_and_mask k x = bit_and-bitwise x (2 ^ k - 1) ∙ mask_digits x k x (omega arith)
