-- ===== src/Skeleton/DArray/Cells.antt =====
-- The cells of an array of model/c-skeleton/src/lcthw/darray.c.
use kernel_test.Base.{
  ◌==◌, ℕ, zero, suc, ◌-◌, ◌*◌, ◌≤◌, ◌≡◌, refl, ap, true, List, [], ◌∷◌, ◌++◌, map, some, length,
  get_elem?, set, take, leb, arith, Bool-cases, inl, inr,
}
use kernel_test.Skeleton.DArray.{smear, Cell, null, ptr, realloc, clear_bytes}

module _ {ℓ} {A : Type ℓ} where
  pub length-ptrs : (xs : List A) → length (map ptr xs) ≡ length xs
  length-ptrs [] = refl
  length-ptrs (x ∷ xs) = ap suc (length-ptrs xs)

  pub length-realloc : (n : ℕ) (cs : List (Cell A)) → length (realloc n cs) ≡ n
  unfolding realloc
  length-realloc zero cs = refl
  length-realloc (suc n) [] = ap suc (length-realloc n [])
  length-realloc (suc n) (c ∷ cs) = ap suc (length-realloc n cs)

  -- Growing keeps the cells, and shrinking keeps the first ones.
  pub take-realloc :
      (m n : ℕ) (cs : List (Cell A)) → length cs ≡ m → m ≤ n → take m (realloc n cs) ≡ cs
  unfolding realloc
  take-realloc zero n [] e h = refl
  take-realloc zero n (c ∷ cs) e h = absurd (omega arith)
  take-realloc (suc m) n [] e h = absurd (omega arith)
  take-realloc (suc m) zero (c ∷ cs) e h = absurd (omega arith)
  take-realloc (suc m) (suc n) (c ∷ cs) e h =
      ap (◌∷◌ c) (take-realloc m n cs (omega arith) (omega arith))

  pub realloc-ptrs :
      (xs : List A) (c : Cell A) (rest : List (Cell A))
      → realloc (suc (length xs)) (map ptr xs ++ c ∷ rest) ≡ map ptr xs ++ c ∷ []
  unfolding realloc
  realloc-ptrs [] c rest = refl
  realloc-ptrs (x ∷ xs) c rest = ap (◌∷◌ (ptr x)) (realloc-ptrs xs c rest)

  pub set-ptrs :
      (xs : List A) (c d : Cell A) (rest : List (Cell A))
      → set (map ptr xs ++ c ∷ rest) (length xs) d ≡ map ptr xs ++ d ∷ rest
  set-ptrs [] c d rest = refl
  set-ptrs (x ∷ xs) c d rest = ap (◌∷◌ (ptr x)) (set-ptrs xs c d rest)

  pub get_elem?-ptrs :
      (xs : List A) (c : Cell A) (rest : List (Cell A))
      → get_elem? (map ptr xs ++ c ∷ rest) (length xs) ≡ some c
  get_elem?-ptrs [] c rest = refl
  get_elem?-ptrs (x ∷ xs) c rest = get_elem?-ptrs xs c rest

  pub clear_bytes-some :
      (n : ℕ) (cs : List (Cell A))
      → n ≤ 8 * length cs
      → (r : List (Cell A)) × (clear_bytes n cs ≡ some r) × (length r ≡ length cs)
  unfolding clear_bytes
  clear_bytes-some n [] h = let e : n == 0 ≡ true = ground arith in ([], rw e refl, refl)
  clear_bytes-some n (c ∷ cs) h = elim (Bool-cases (n == 0)) [
    | inl x ↦ (c ∷ cs, rw x refl, refl)
    | inr x ↦ elim (Bool-cases (leb 8 n)) [
      | inl y ↦
          let (r, e, l) = clear_bytes-some (n - 8) cs (ground arith) in
          (null ∷ r, rw (x, y, e) refl, ap suc l)
      | inr y ↦ (smear c ∷ cs, rw (x, y) refl, refl)
    ]
  ]
