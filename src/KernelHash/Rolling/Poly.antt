-- ===== src/KernelHash/Rolling/Poly.antt =====
-- `pack_hash` as a polynomial in the base, modulo Q.
use native.Mathlib.Nat.{add-mul-mod_self_left, mod-add-div, pow-succ', pow-zero}
use kernel_test.Base.{
  ℕ, ◌+◌, ◌*◌, ◌%◌, ◌/◌, ◌^◌, ◌≡◌, refl, ap, ◌∙◌, List, [], ◌∷◌, ◌++◌, length, arith, u64, sext64,
}
use kernel_test.KernelHash.Rolling.{hash_from}

-- `Q`
abbrev pub q60 : ℕ
q60 = 2 ^ 60

-- The polynomial with the bytes as coefficients, the last byte lowest, never reduced.
unfoldable pub poly : ℕ → ℕ → List ℕ → ℕ
poly r h [] = h
poly r h (c ∷ cs) = poly r (r * h + sext64 c) cs

pub mul-mod-mod : (a b q : ℕ) → (a % q) * b % q ≡ a * b % q
mul-mod-mod a b q =
    let split : a * b ≡ (a % q) * b + q * (a / q * b) =
      omega (arith, ap (λ (t : ℕ). t * b) (mod-add-div a q)) in
    rw split (sym' (add-mul-mod_self_left ((a % q) * b) q (a / q * b)))
  where
    sym' : {x y : ℕ} → x ≡ y → y ≡ x
    sym' e = cc

distribute : (r h s p : ℕ) → (r * h + s) * p ≡ h * (r * p) + (r * 0 + s) * p
distribute r h s p = omega arith

-- A start value is multiplied by the base once for each byte.
pub poly_start : (r h : ℕ) (cs : List ℕ) → poly r h cs ≡ h * r ^ length cs + poly r 0 cs
unfolding poly
poly_start r h [] = omega (arith, ap (λ (t : ℕ). h * t) (pow-zero r))
poly_start r h (c ∷ cs) =
    rw (poly_start r (r * h + sext64 c) cs, poly_start r (r * 0 + sext64 c) cs, pow-succ')
      (omega (arith, distribute r h (sext64 c) (r ^ length cs)))

poly_congr : (r h k : ℕ) (cs : List ℕ) → h % q60 ≡ k % q60 → poly r h cs % q60 ≡ poly r k cs % q60
poly_congr r h k cs e = omega (
  arith,
  poly_start r h cs,
  poly_start r k cs,
  mul-mod-mod h (r ^ length cs) q60,
  mul-mod-mod k (r ^ length cs) q60,
  ap (λ (t : ℕ). t * r ^ length cs % q60) e,
)

-- `pack_hash` is the polynomial modulo Q: the wraps of `unsigned long` do not show.
pub hash_from-poly : (r h : ℕ) (cs : List ℕ) → hash_from r q60 h cs % q60 ≡ poly r h cs % q60
unfolding hash_from poly
hash_from-poly r h [] = refl
hash_from-poly r h (c ∷ cs) =
    hash_from-poly r ((r * h + sext64 c) % u64 % q60) cs ∙ poly_congr r _ _ cs (omega arith)

pub poly_snoc :
    (r h : ℕ) (cs : List ℕ) (c : ℕ) → poly r h (cs ++ c ∷ []) ≡ r * poly r h cs + sext64 c
unfolding poly
poly_snoc r h [] c = refl
poly_snoc r h (d ∷ cs) c = poly_snoc r (r * h + sext64 d) cs c
