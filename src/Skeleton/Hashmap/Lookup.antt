-- ===== src/Skeleton/Hashmap/Lookup.antt =====
-- What is set in the map of model/c-skeleton/src/lcthw/hashmap.c is got from it.
use mathlib.Core.List.{append_assoc}
use mathlib.Core.Option as Option
use native.Mathlib.Nat.{mod-lt}
use kernel_test.Base.{
  ◌∙◌, refl, arith, ◌+◌, ap, inr, inl, Bool-cases, ltb, ◌++◌, ◌⊎◌, ◌%◌, length-append, ℕ, ◌<◌, ◌≡◌,
  Bool, true, false, List, [], ◌∷◌, Option, some, none, length, get_elem?,
}
use kernel_test.Skeleton.DArray.{darray_get, Cell, null, ptr, DArray}
use kernel_test.Skeleton.DArray.Stack.{get-IsStack, IsStack}
use kernel_test.Skeleton.Hashmap.{
  get_node, load, find_bucket, node_loop, hashmap_getnode, HashmapNode, Hashmap, matches,
}

at_end {ℓ} :
    {A : Type ℓ} (pre : List A) (x : A) (post : List A)
    → get_elem? (pre ++ x ∷ post) (length pre) ≡ some x
at_end [] x post = refl
at_end (y ∷ pre) x post = at_end pre x post

module _ {ℓ κ} {K : Type ℓ} {V : Type κ} (compare : K → K → Bool) (hash : K → ℕ) where
  -- The first node that matches.
  unfoldable pub lookup : K → List (HashmapNode K V) → Option (HashmapNode K V)
  lookup key [] = none
  lookup key (node ∷ nodes) = elim (matches compare hash (hash key) key node) [
    | true ↦ some node
    | false ↦ lookup key nodes
  ]

  -- A cell of the map holds the nodes of its bucket.
  abbrev pub Holds :
      Option (Cell (DArray (HashmapNode K V))) → List (HashmapNode K V) → Type (ℓ ⊔ κ)
  Holds c nodes =
      ((c ≡ some null) × (nodes ≡ []))
      ⊎ ((d : DArray (HashmapNode K V)) × (c ≡ some (ptr d)) × IsStack d nodes)

  -- The map holds the nodes `f n` in its bucket `n`.
  pub record IsMap (m : Hashmap K V) (f : ℕ → List (HashmapNode K V)) : Type (ℓ ⊔ κ) where
    pub some_buckets : 0 < m.max
    pub size : length m.contents ≡ m.max
    pub buckets : (n : ℕ) → n < m.max → Holds (get_elem? m.contents n) (f n)

  node_loop_lem :
      (d : DArray (HashmapNode K V)) (key : K) (pre post : List (HashmapNode K V)) (i : ℕ)
      → i ≡ length pre
      → IsStack d (pre ++ post)
      → (r : Option (ℕ × HashmapNode K V)) × (node_loop compare hash
            (length post)
            i
            (hash key)
            d
            key
          ≡ some r)
        × (Option.map (λ (q : ℕ × HashmapNode K V). q.1) r ≡ lookup key post)
  unfolding node_loop lookup load
  node_loop_lem d key pre [] i e s = (none, refl, refl)
  node_loop_lem d key pre (node ∷ post) i e s =
      let got : darray_get d i ≡ some (ptr node) =
        get-IsStack d (pre ++ node ∷ post) i node s (rw e (at_end pre node post)) in
      elim (Bool-cases (matches compare hash (hash key) key node)) [
        | inl x ↦ (some (i, node), rw got (rw x refl), rw (x, lookup) refl)
        | inr x ↦
            let s' : IsStack d ((pre ++ node ∷ []) ++ post) =
              rw (append_assoc pre (node ∷ []) post) s in
            let (r, f, g) =
              node_loop_lem d key (pre ++ node ∷ []) post (i + 1)
                (omega (arith, e, length-append pre (node ∷ []))) s' in
            (r, rw got (rw x f), rw (x, lookup) g)
      ]

  -- In a map that holds `f`, a key is looked up among the nodes of its bucket.
  pub hashmap_getnode-lookup :
      (m : Hashmap K V) (f : ℕ → List (HashmapNode K V)) (key : K)
      → IsMap m f
      → hashmap_getnode compare hash m key ≡ some (lookup key (f (hash key % m.max)))
  unfolding hashmap_getnode find_bucket get_node load darray_get lookup
  hashmap_getnode-lookup m f key v =
      let n = hash key % m.max in
      let lt = mod-lt (hash key) v.some_buckets in
      let ok : ltb n m.max ≡ true = ground arith in go ok (v.buckets n lt)
    where
      go :
          ltb (hash key % m.max) m.max ≡ true
          → Holds (get_elem? m.contents (hash key % m.max)) (f (hash key % m.max))
          → hashmap_getnode compare hash m key ≡ some (lookup key (f (hash key % m.max)))
      go ok (inl (e, nil)) = rw ok (rw e (rw nil refl))
      go ok (inr (d, e, s)) =
          let (r, g, h) = node_loop_lem d key [] (f (hash key % m.max)) 0 refl s in
          let ran : node_loop compare hash d.end 0 (hash key) d key ≡ some r =
            ap (λ (k : ℕ). node_loop compare hash k 0 (hash key) d key) s.count ∙ g in
          rw ok (rw e (rw ran (finish r h)))
        where
          finish :
              (r : Option (ℕ × HashmapNode K V))
              → Option.map (λ (q : ℕ × HashmapNode K V). q.1) r ≡ lookup key (f (hash key % m.max))
              → (elim r [ none ↦ some none | some q ↦ some (some (q.1)) ])
                ≡ some (lookup key (f (hash key % m.max)))
          finish none h = ap some h
          finish (some q) h = ap some h
