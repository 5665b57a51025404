-- ===== src/Skeleton/Hashmap/Update.antt =====
-- Setting in the map of model/c-skeleton/src/lcthw/hashmap.c.
use native.Mathlib.Nat.{mod-lt}
use kernel_test.Base.{
  ℕ, ◌%◌, ◌<◌, ◌≡◌, ◌≢◌, refl, sym, ap, ◌∙◌, Bool, true, false, List, [], ◌∷◌, ◌++◌, some, length,
  get_elem?, set, ltb, ◌==◌, if◌then◌else◌, length-set, get_elem?-set_self, get_elem?-set_ne, arith,
  Bool-cases, inl, inr,
}
use kernel_test.Skeleton.DArray.{ptr, DArray, darray_get, darray_set, store}
use kernel_test.Skeleton.DArray.Stack.{IsStack, push-IsStack, create-IsStack}
use kernel_test.Skeleton.Hashmap.{HashmapNode, Hashmap, load, find_bucket, put_back, hashmap_set}
use kernel_test.Skeleton.Hashmap.Lookup.{Holds, IsMap}

module _ {ℓ κ} {K : Type ℓ} {V : Type κ} (compare : K → K → Bool) (hash : K → ℕ) where
  -- A bucket with a node more.
  abbrev pub add_node :
      ℕ → HashmapNode K V → (ℕ → List (HashmapNode K V)) → ℕ → List (HashmapNode K V)
  add_node n node f i = if i == n then f n ++ node ∷ [] else f i

  changed_lem :
      (m m' : Hashmap K V) (f : ℕ → List (HashmapNode K V)) (n : ℕ) (node : HashmapNode K V)
      (d : DArray (HashmapNode K V))
      → IsMap compare hash m f
      → m'.max ≡ m.max
      → length m'.contents ≡ length m.contents
      → get_elem? m'.contents n ≡ some (ptr d)
      → ((i : ℕ) → n ≢ i → get_elem? m'.contents i ≡ get_elem? m.contents i)
      → IsStack d (f n ++ node ∷ [])
      → IsMap compare hash m' (add_node n node f)
  changed_lem m m' f n node d v top size at others s = record {
    some_buckets = omega (arith, top, v.some_buckets);
    size = size ∙ v.size ∙ sym top;
    buckets = λ i lt. at_bucket i (omega (arith, top));
  }
    where
      at_bucket :
          (i : ℕ) → i < m.max → Holds compare hash (get_elem? m'.contents i) (add_node n node f i)
      at_bucket i lt = elim (Bool-cases (i == n)) [
        | inl x ↦
            let e : i ≡ n = ground arith in rw x (inr (d, ap (get_elem? m'.contents) e ∙ at, s))
        | inr x ↦ let ne : n ≢ i = λ e. clash i e x in rw (x, others i ne) (v.buckets i lt)
      ]
        where
          clash : (j : ℕ) → n ≡ j → j == n ≡ false → ⊥
          clash j e h = ground arith

  -- In memory that suffices, setting a key returns 0, and adds a node with the key and the data at
  -- the end of the bucket of the key; the other buckets stay.
  pub hashmap_set-IsMap :
      (m : Hashmap K V) (f : ℕ → List (HashmapNode K V)) (key : K) (value : V)
      → IsMap compare hash m f
      → (m' : Hashmap K V) × (hashmap_set compare hash true m key value ≡ some (true, m'))
        × (m'.max ≡ m.max)
        × IsMap compare hash m'
            (add_node (hash key % m.max) (record { key = key; data' = value; hash = hash key }) f)
  unfolding hashmap_set find_bucket load darray_get darray_set store put_back
  hashmap_set-IsMap m f key value v =
      let n = hash key % m.max in
      let lt = mod-lt (hash key) v.some_buckets in
      let ok : ltb n m.max ≡ true = ground arith in
      let inside : n < length m.contents = omega (arith, v.size, lt) in
      go ok inside (v.buckets n lt)
    where
      node : HashmapNode K V
      node = record { key = key; data' = value; hash = hash key }

      go :
          ltb (hash key % m.max) m.max ≡ true
          → hash key % m.max < length m.contents
          → Holds compare hash (get_elem? m.contents (hash key % m.max)) (f (hash key % m.max))
          → (m' : Hashmap K V) × (hashmap_set compare hash true m key value ≡ some (true, m'))
            × (m'.max ≡ m.max)
            × IsMap compare hash m' (add_node (hash key % m.max) node f)
      go ok inside (inr (d, e, s)) =
          let n = hash key % m.max in
          let (d', p, s') = push-IsStack d (f n) node s in
          let m' : Hashmap K V = record m { contents = set m.contents n (ptr d') } in
          (
            m',
            rw ok (rw e (rw p refl)),
            refl,
            changed_lem m m' f n node d' v refl (length-set m.contents n (ptr d'))
                (get_elem?-set_self m.contents n (ptr d') inside)
                (λ i ne. get_elem?-set_ne m.contents (ptr d') ne) s',
          )
      go ok inside (inl (e, nil)) =
          let n = hash key % m.max in
          let (d, c, s, _) = create-IsStack {A = HashmapNode K V} 8 100 (omega arith) in
          let (d', p, s') = push-IsStack d [] node s in
          let room : ltb n (length m.contents) ≡ true = ground arith in
          let once = set m.contents n (ptr d) in
          let l : length once ≡ length m.contents = length-set m.contents n (ptr d) in
          let m' : Hashmap K V = record m {
            end = if ltb m.end n then n else m.end;
            contents = set once n (ptr d');
          } in
          let s₂ : IsStack d' (f n ++ node ∷ []) = rw nil s' in
          (
            m',
            rw ok (rw e (rw c (rw ok (rw room (rw p refl))))),
            refl,
            changed_lem m m' f n node d' v refl (length-set once n (ptr d') ∙ l)
                (get_elem?-set_self once n (ptr d') (omega (arith, l, inside)))
                (λ i ne. get_elem?-set_ne once (ptr d') ne ∙ get_elem?-set_ne m.contents (ptr d) ne)
                s₂,
          )
