-- ===== src/Skeleton/Pack/Signed.antt =====
-- The signed arithmetic of model/c-skeleton/src/pack.c gives the hashes of model/kernel_hash/chunk.c.
use kernel_test.Base.{
  ℕ, ◌+◌, ◌-◌, ◌*◌, ◌%◌, ◌^◌, ◌<◌, ◌≡◌, ap, Bool-cases, inl, inr, ltb, arith, u64, sext64,
}
use kernel_test.KernelHash.Rolling.{roll}
use kernel_test.KernelHash.Rolling.Poly.{q60, mul-mod-mod}
use kernel_test.Skeleton.Pack.{srem64, pack_roll}

-- A signed remainder is the residue, or less by 2 ^ 60.
srem64-mod : (x : ℕ) → x < u64 → srem64 x q60 % q60 ≡ x % q60
unfolding srem64
srem64-mod x h = elim (Bool-cases (ltb x (2 ^ 63))) [
  | inl y ↦ rw y (omega arith)
  | inr y ↦ rw y (ground arith)
]

srem64-lt : (x : ℕ) → srem64 x q60 < u64
unfolding srem64
srem64-lt x = ground arith

product_mod : (rm rm' o : ℕ) → rm % q60 ≡ rm' % q60 → rm * o % u64 % q60 ≡ rm' * o % u64 % q60
product_mod rm rm' o e =
    omega (arith, mul-mod-mod rm o q60, mul-mod-mod rm' o q60, ap (λ (t : ℕ). t * o % q60) e)

-- The window moves in signed arithmetic as it moves in unsigned arithmetic: for the modulus 2 ^ 60,
-- powers of the base that agree modulo 2 ^ 60, and any hash and bytes.
pub pack_roll-roll :
    (r rm rm' txthash old new : ℕ)
    → rm % q60 ≡ rm' % q60
    → pack_roll r q60 rm txthash old new ≡ roll r q60 rm' txthash old new
unfolding pack_roll roll
pack_roll-roll r rm rm' txthash old new e =
    let x = rm * sext64 old % u64 in
    let s = srem64-mod x (omega arith) in
    let lt = srem64-lt x in
    let p = product_mod rm rm' (sext64 old) e in
    let dropped : (txthash + q60 + (u64 - srem64 x q60)) % u64 % q60
        ≡ (txthash + q60 + u64 - rm' * sext64 old % u64 % q60) % u64 % q60 =
      omega (arith, s, lt, p) in
    ap (λ (t : ℕ). (t * r + sext64 new) % u64 % q60) dropped
