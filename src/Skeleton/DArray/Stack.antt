-- ===== src/Skeleton/DArray/Stack.antt =====
-- model/c-skeleton/src/lcthw/darray.c as a stack.
use kernel_test.Skeleton.DArray.Cells.{
  take-realloc, clear_bytes-some, realloc-ptrs, length-realloc, set-ptrs, get_elem?-ptrs,
  length-ptrs,
}
use mathlib.Core.List.{append_assoc}
use kernel_test.Base.{
  false, ◌%◌, not, ◌&&◌, length-replicate, some_eq, replicate, ◌==◌, ℕ, zero, suc, ◌+◌, ◌-◌, ◌<◌,
  ◌≡◌, refl, ap, ◌∙◌, true, List, [], ◌∷◌, ◌++◌, map, some, length, get_elem?, set, take, drop,
  length-append, length-drop, ltb, leb, arith, Bool-cases, inl, inr,
}
use kernel_test.Skeleton.DArray.{
  contract, remove, pop, create, darray_get, Cell, null, ptr, DArray, realloc, resize, expand,
  store, push,
}

module _ {ℓ} {A : Type ℓ} where
  -- The array holds `xs`: they stand at its start, and there is a cell behind them.
  pub record IsStack (a : DArray A) (xs : List A) : Type ℓ where
    pub rest : List (Cell A)
    pub cells : a.contents ≡ map ptr xs ++ rest
    pub count : a.end ≡ length xs
    pub size : length a.contents ≡ a.max
    pub below : a.end < a.max
    pub rate : 0 < a.expand_rate

  -- Pushing on an array that grows, or not, in memory that suffices: it returns 0, and the element
  -- stands behind the others.
  pub push-IsStack :
      (a : DArray A) (xs : List A) (x : A)
      → IsStack a xs
      → (a' : DArray A) × (push true a x ≡ some (true, a')) × IsStack a' (xs ++ x ∷ [])
  unfolding push store expand resize
  push-IsStack a xs x s = go s.rest s.cells
    where
      ptrs_snoc :
          (rest : List (Cell A)) → map ptr xs ++ ptr x ∷ rest ≡ map ptr (xs ++ x ∷ []) ++ rest
      ptrs_snoc rest = snoc xs
        where
          snoc : (ys : List A) → map ptr ys ++ ptr x ∷ rest ≡ map ptr (ys ++ x ∷ []) ++ rest
          snoc [] = refl
          snoc (y ∷ ys) = ap (◌∷◌ (ptr y)) (snoc ys)

      go :
          (rest : List (Cell A))
          → a.contents ≡ map ptr xs ++ rest
          → (a' : DArray A) × (push true a x ≡ some (true, a')) × IsStack a' (xs ++ x ∷ [])
      go [] e = absurd (
          omega (
            arith,
            s.size,
            s.below,
            s.count,
            ap length e,
            length-append (map ptr xs) [],
            length-ptrs xs,
          ))
      go (c ∷ rest) e =
          let cs : List (Cell A) = map ptr xs ++ ptr x ∷ rest in
          let fits : ltb a.end (length a.contents) ≡ true = ground (arith, s.size, s.below) in
          let put : set a.contents a.end (ptr x) ≡ cs =
            rw (e, s.count) (set-ptrs xs c (ptr x) rest) in
          let n : length cs ≡ a.max = omega (
            arith,
            s.size,
            ap length e,
            length-append (map ptr xs) (c ∷ rest),
            length-append (map ptr xs) (ptr x ∷ rest),
          ) in
          let l : length (xs ++ x ∷ []) ≡ length xs + 1 = length-append xs (x ∷ []) in
          elim (Bool-cases (leb a.max (a.end + 1))) [
            | inr roomy ↦ (
              record a { contents = cs; end = a.end + 1 },
              rw fits (rw put (rw roomy refl)),
              record {
                rest = rest;
                cells = ptrs_snoc rest;
                count = omega (arith, l, s.count);
                size = n;
                below = ground arith;
                rate = s.rate;
              },
            )
            | inl full ↦
                let grow = a.max + a.expand_rate in
                let grown : List (Cell A) = realloc grow cs in
                let ok : ltb 0 grow ≡ true = ground (arith, s.rate) in
                let tail = length-drop a.max grown in
                let total = length-realloc grow cs in
                let (r, f, g) =
                  clear_bytes-some (a.expand_rate + 1) (drop a.max grown)
                    (omega (arith, tail, total, s.rate)) in
                let kept : take a.max grown ≡ cs = take-realloc a.max grow cs n (omega arith) in
                (
                  record a { contents = cs ++ r; end = a.end + 1; max = grow },
                  rw fits (rw put (rw full (rw ok (rw f (rw kept refl))))),
                  record {
                    rest = rest ++ r;
                    cells = append_assoc (map ptr xs) (ptr x ∷ rest) r ∙ ptrs_snoc (rest ++ r);
                    count = omega (arith, l, s.count);
                    size = omega (arith, length-append cs r, n, g, tail, total);
                    below = omega (arith, s.below, s.rate);
                    rate = s.rate;
                  },
                )
          ]

  -- Popping, with memory for an array that shrinks: it returns the last element, and the others stay.
  pub pop-IsStack :
      (a : DArray A) (xs : List A) (x : A)
      → IsStack a (xs ++ x ∷ [])
      → (a' : DArray A) × (pop true a ≡ some (ptr x, a')) × IsStack a' xs
  unfolding pop remove store contract resize
  pop-IsStack a xs x s =
      let rest = s.rest in
      let snoc : (ys : List A) → map ptr (ys ++ x ∷ []) ++ rest ≡ map ptr ys ++ ptr x ∷ rest =
        elim [ [] ↦ refl | y ∷ (ys → ih) ↦ ap (◌∷◌ (ptr y)) ih ] in
      let cells : a.contents ≡ map ptr xs ++ ptr x ∷ rest = s.cells ∙ snoc xs in
      let n : a.end ≡ length xs + 1 = omega (arith, s.count, length-append xs (x ∷ [])) in
      let i : a.end - 1 ≡ length xs = omega (arith, n) in
      let some_left : leb 1 a.end ≡ true = ground (arith, n) in
      let at : get_elem? a.contents (a.end - 1) ≡ some (ptr x) =
        rw (cells, i) (get_elem?-ptrs xs (ptr x) rest) in
      let cs : List (Cell A) = map ptr xs ++ null ∷ rest in
      let fits : ltb (a.end - 1) (length a.contents) ≡ true = ground (arith, s.size, s.below) in
      let put : set a.contents (a.end - 1) null ≡ cs =
        rw (cells, i) (set-ptrs xs (ptr x) null rest) in
      let size : length cs ≡ a.max = omega (
        arith,
        s.size,
        ap length cells,
        length-append (map ptr xs) (ptr x ∷ rest),
        length-append (map ptr xs) (null ∷ rest),
      ) in
      elim (Bool-cases (ltb a.expand_rate (a.end - 1) && not ((a.end - 1) % a.expand_rate == 0))) [
        | inr stay ↦ (
          record a { contents = cs; end = a.end - 1 },
          rw some_left (rw at (rw fits (rw put (rw stay refl)))),
          record {
            rest = null ∷ rest;
            cells = refl;
            count = i;
            size = size;
            below = omega (arith, s.below);
            rate = s.rate;
          },
        )
        | inl shrink ↦
            let more : ltb (a.end - 1) a.expand_rate ≡ false = ground arith in
            let positive : ltb 0 (a.end - 1 + 1) ≡ true = ground arith in
            let next : a.end - 1 + 1 ≡ suc (length xs) = omega (arith, i) in
            let cut : realloc (a.end - 1 + 1) cs ≡ map ptr xs ++ null ∷ [] =
              ap (λ (k : ℕ). realloc k cs) next ∙ realloc-ptrs xs null rest in
            (
              record a { contents = map ptr xs ++ null ∷ []; end = a.end - 1; max = a.end - 1 + 1 },
              rw some_left
                  (rw at (rw fits (rw put (rw shrink (rw more (rw positive (rw cut refl))))))),
              record {
                rest = null ∷ [];
                cells = refl;
                count = i;
                size = omega (arith, i, length-append (map ptr xs) (null ∷ []), length-ptrs xs);
                below = omega arith;
                rate = s.rate;
              },
            )
      ]

  -- An array that was created with room for an element is an empty stack, and a pop of it returns
  -- NULL and leaves it.
  pub create-IsStack :
      (element_size initial_max : ℕ)
      → 0 < initial_max
      → (a : DArray A) × (create true element_size initial_max ≡ some a)
        × IsStack a []
        × (pop true a ≡ some (null, a))
  unfolding create pop
  create-IsStack element_size initial_max h =
      let ok : ltb 0 initial_max ≡ true = ground arith in
      (
        record {
          end = 0;
          max = initial_max;
          element_size = element_size;
          expand_rate = 300;
          contents = replicate initial_max null;
        },
        rw ok refl,
        record {
          rest = replicate initial_max null;
          cells = refl;
          count = refl;
          size = length-replicate initial_max null;
          below = h;
          rate = omega arith;
        },
        refl,
      )

  -- An element of an array is got by its place.
  pub get-IsStack :
      (a : DArray A) (xs : List A) (i : ℕ) (x : A)
      → IsStack a xs
      → get_elem? xs i ≡ some x
      → darray_get a i ≡ some (ptr x)
  unfolding darray_get
  get-IsStack a xs i x s e =
      let (lt, f) = found xs i s.rest e in
      let ok : ltb i a.max ≡ true = ground (arith, s.below, s.count) in
      rw ok (ap (λ (cs : List (Cell A)). get_elem? cs i) s.cells ∙ f)
    where
      found :
          (ys : List A) (j : ℕ) (rest : List (Cell A))
          → get_elem? ys j ≡ some x
          → (j < length ys) × (get_elem? (map ptr ys ++ rest) j ≡ some (ptr x))
      found [] j rest e = cc
      found (y ∷ ys) zero rest e = (omega arith, ap (λ (z : A). some (ptr z)) (some_eq e))
      found (y ∷ ys) (suc j) rest e = let (lt, f) = found ys j rest e in (omega arith, f)
