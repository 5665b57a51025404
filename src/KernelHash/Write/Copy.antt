-- ===== src/KernelHash/Write/Copy.antt =====
-- Copying into a part of a buffer, and setting the bits of an area (model/kernel_hash/hash_table.c).
use kernel_test.Base.{
  none, ◌<◌, false, true, ◌==◌, ℕ, zero, suc, ◌+◌, ◌≤◌, ◌≡◌, refl, ap, ◌∙◌, sym, Bool, List, [],
  ◌∷◌, some, length, take, drop, leb, length-take, arith,
}
use kernel_test.KernelHash.Bitmap.{Bits, write_bits}
use kernel_test.KernelHash.Write.{write_at, memcpy_at}

-- What a copy leaves in memory.
pub record Copied (o n : ℕ) (src dst r : List ℕ) : Type 0 where
  pub size : length r ≡ length dst
  pub read : take n (drop o r) ≡ take n src
  pub before : (q k : ℕ) → q + k ≤ o → take k (drop q r) ≡ take k (drop q dst)

write_at_lem :
    (o : ℕ) (src dst : List ℕ)
    → o + length src ≤ length dst
    → (r : List ℕ) × (write_at o src dst ≡ some r)
      × (length r ≡ length dst)
      × (take (length src) (drop o r) ≡ src)
      × ((q k : ℕ) → q + k ≤ o → take k (drop q r) ≡ take k (drop q dst))
unfolding write_at
write_at_lem zero [] dst h = (dst, refl, refl, refl, λ q k le. refl)
write_at_lem zero (x ∷ src) [] h = absurd (omega arith)
write_at_lem zero (x ∷ src) (y ∷ dst) h =
    let (r, e, l, t, b) = write_at_lem zero src dst (omega arith) in
    (x ∷ r, rw e, ap suc l, ap (◌∷◌ x) t, go r)
  where
    go : (r : List ℕ) (q k : ℕ) → q + k ≤ 0 → take k (drop q (x ∷ r)) ≡ take k (drop q (y ∷ dst))
    go r zero zero le = refl
    go r (suc q) k le = absurd (omega arith)
    go r zero (suc k) le = absurd (omega arith)
write_at_lem (suc o) src [] h = absurd (omega arith)
write_at_lem (suc o) src (y ∷ dst) h =
    let (r, e, l, t, b) = write_at_lem o src dst (omega arith) in (y ∷ r, rw e, ap suc l, t, go r b)
  where
    go :
        (r : List ℕ)
        → ((q k : ℕ) → q + k ≤ o → take k (drop q r) ≡ take k (drop q dst))
        → (q k : ℕ) → q + k ≤ suc o
        → take k (drop q (y ∷ r)) ≡ take k (drop q (y ∷ dst))
    go r b zero zero le = refl
    go r b zero (suc k) le = ap (◌∷◌ y) (b zero k (omega arith))
    go r b (suc q) k le = b q k (omega arith)

-- A copy that fits.
pub memcpy_at_lem :
    (dst : List ℕ) (o : ℕ) (src : List ℕ) (n : ℕ)
    → n ≤ length src
    → o + n ≤ length dst
    → (r : List ℕ) × (memcpy_at dst o src n ≡ some r) × Copied o n src dst r
unfolding memcpy_at
memcpy_at_lem dst o src n h k =
    let l : length (take n src) ≡ n = omega (arith, length-take n src) in
    let (r, e, s, t, b) = write_at_lem o (take n src) dst (omega (arith, l)) in
    let ok : leb n (length src) ≡ true = ground arith in
    (
      r,
      rw ok e,
      record { size = s; read = ap (λ (j : ℕ). take j (drop o r)) (sym l) ∙ t; before = b },
    )

-- The bits behind an area that is set are as they were.
pub write_bits_behind :
    (v : Bool) (n s : ℕ) (m : Bits) (j : ℕ) → s + n ≤ j → write_bits v n s m j ≡ m j
unfolding write_bits
write_bits_behind v zero s m j h = refl
write_bits_behind v (suc n) s m j h =
    let ne : j == s ≡ false = ground arith in
    write_bits_behind v n (s + 1) _ j (omega arith) ∙ rw ne

write_at-none :
    (o : ℕ) (src dst : List ℕ)
    → 0 < length src
    → length dst < o + length src
    → write_at o src dst ≡ none
unfolding write_at
write_at-none zero [] dst p h = absurd (omega arith)
write_at-none zero (x ∷ src) [] p h = refl
write_at-none zero (x ∷ []) (y ∷ dst) p h = absurd (omega arith)
write_at-none zero (x ∷ x' ∷ src) (y ∷ dst) p h =
    rw (write_at-none zero (x' ∷ src) dst (omega arith) (omega arith)) refl
write_at-none (suc o) src [] p h = refl
write_at-none (suc o) src (y ∷ dst) p h = rw (write_at-none o src dst p (omega arith)) refl

-- A copy that does not fit.
pub memcpy_at-none :
    (dst : List ℕ) (o : ℕ) (src : List ℕ) (n : ℕ)
    → 0 < n
    → n ≤ length src
    → length dst < o + n
    → memcpy_at dst o src n ≡ none
unfolding memcpy_at
memcpy_at-none dst o src n p k h =
    let l : length (take n src) ≡ n = omega (arith, length-take n src) in
    let ok : leb n (length src) ≡ true = ground arith in
    rw ok (write_at-none o (take n src) dst (omega (arith, l)) (omega (arith, l)))
