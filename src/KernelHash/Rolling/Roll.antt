-- ===== src/KernelHash/Rolling/Roll.antt =====
-- Moving the window by a byte gives the hash of the new window.
use native.Mathlib.Nat.{mul_comm, mod-eq_of_lt}
use kernel_test.Base.{
  ℕ, ◌+◌, ◌-◌, ◌*◌, ◌%◌, ◌^◌, ◌<◌, ◌≡◌, sym, ap, ◌∙◌, List, [], ◌∷◌, ◌++◌, length, arith, u64,
  sext64,
}
use kernel_test.KernelHash.Rolling.{hash_from, roll}
use kernel_test.KernelHash.Rolling.Poly.{
  q60, poly, mul-mod-mod, poly_start, poly_snoc, hash_from-poly,
}

hash_from-lt : (r h : ℕ) (cs : List ℕ) → h < q60 → hash_from r q60 h cs < q60
unfolding hash_from
hash_from-lt r h [] p = p
hash_from-lt r h (c ∷ cs) p = hash_from-lt r ((r * h + sext64 c) % u64 % q60) cs (omega arith)

pub hash_from-eq-poly : (r : ℕ) (cs : List ℕ) → hash_from r q60 0 cs ≡ poly r 0 cs % q60
hash_from-eq-poly r cs =
    sym (mod-eq_of_lt (hash_from-lt r 0 cs (omega arith))) ∙ hash_from-poly r 0 cs

-- What leaves the window is its first byte times a power of the base.
poly_first : (r a : ℕ) (w : List ℕ) → poly r 0 (a ∷ w) ≡ r ^ length w * sext64 a + poly r 0 w
unfolding poly
poly_first r a w = omega (arith, poly_start r (r * 0 + sext64 a) w)

dropped_lem :
    (r rm a : ℕ) (w : List ℕ)
    → rm ≡ r ^ length w % q60
    → (poly r 0 (a ∷ w) % q60 + q60 + u64 - rm * sext64 a % u64 % q60) % u64 % q60
      ≡ poly r 0 w % q60
dropped_lem r rm a w e = omega (
  arith,
  poly_first r a w,
  ap (λ (t : ℕ). t * sext64 a % q60) e,
  mul-mod-mod (r ^ length w) (sext64 a) q60,
)

-- Rolling takes the hash of a window to the hash of the next one: with `rm` the power of the base for
-- the length of the window, the step of `calculate_partition` on the hash of `a ∷ w` and the byte `c`
-- gives the hash of `w ++ [c]`, the bytes sign-extended to 64 bits.
pub roll_lem :
    (r rm a c : ℕ) (w : List ℕ)
    → rm ≡ r ^ length w % q60
    → roll r q60 rm (hash_from r q60 0 (a ∷ w)) a c ≡ hash_from r q60 0 (w ++ c ∷ [])
unfolding roll
roll_lem r rm a c w e =
    rw (hash_from-eq-poly, hash_from-eq-poly, dropped_lem r rm a w e, poly_snoc)
      (omega (arith, mul-mod-mod (poly r 0 w) r q60, mul_comm r (poly r 0 w)))
