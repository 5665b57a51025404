-- ===== src/Skeleton/Hashmap/GetSet.antt =====
-- Getting from the map of model/c-skeleton/src/lcthw/hashmap.c after setting in it.
use kernel_test.Base.{
  ℕ, ◌%◌, ◌≡◌, refl, sym, ap, ◌∙◌, Bool, true, false, List, [], ◌∷◌, ◌++◌, Option, some, none, ◌==◌,
  if◌then◌else◌, arith, Bool-cases, inl, inr, ◌>>=◌,
}
use kernel_test.Skeleton.Hashmap.{HashmapNode, Hashmap, hashmap_set, hashmap_getnode, matches}
use kernel_test.Skeleton.Hashmap.Lookup.{lookup, IsMap, hashmap_getnode-lookup}
use kernel_test.Skeleton.Hashmap.Update.{add_node, hashmap_set-IsMap}

-- The first answer, or else the second.
abbrev pub or_else {ℓ} : {A : Type ℓ} → Option A → Option A → Option A
or_else none b = b
or_else (some a) b = some a

module _ {ℓ κ} {K : Type ℓ} {V : Type κ} (compare : K → K → Bool) (hash : K → ℕ) where
  -- The node, if it matches the key.
  abbrev pub if_matches : K → HashmapNode K V → Option (HashmapNode K V)
  if_matches key node = if matches compare hash (hash key) key node then some node else none

  lookup-append :
      (key : K) (nodes : List (HashmapNode K V)) (node : HashmapNode K V)
      → lookup compare hash key (nodes ++ node ∷ [])
        ≡ or_else (lookup compare hash key nodes) (if_matches key node)
  unfolding lookup
  lookup-append key [] node = elim (Bool-cases (matches compare hash (hash key) key node)) [
    | inl x ↦ rw (x, lookup) refl
    | inr x ↦ rw (x, lookup) refl
  ]
  lookup-append key (n ∷ nodes) node = elim (Bool-cases (matches compare hash (hash key) key n)) [
    | inl x ↦ rw (x, lookup) refl
    | inr x ↦ rw (x, lookup) (lookup-append key nodes node)
  ]

  pub lookup-add_node :
      (f : ℕ → List (HashmapNode K V)) (size : ℕ) (key key' : K) (node : HashmapNode K V)
      → node.hash ≡ hash key
      → lookup compare hash key' (add_node compare hash (hash key % size) node f (hash key' % size))
        ≡ or_else (lookup compare hash key' (f (hash key' % size))) (if_matches key' node)
  lookup-add_node f size key key' node e = elim (Bool-cases (hash key' % size == hash key % size)) [
    | inl x ↦
        let b : hash key % size ≡ hash key' % size = ground arith in
        rw (x, b) (lookup-append key' (f (hash key' % size)) node)
    | inr x ↦
        let other : node.hash == hash key' ≡ false = differ (hash key) (hash key') size e x in
        rw (x, other) (keep (lookup compare hash key' (f (hash key' % size))))
  ]
    where
      keep : (o : Option (HashmapNode K V)) → o ≡ or_else o none
      keep none = refl
      keep (some a) = refl

      differ : (a b n : ℕ) → node.hash ≡ a → b % n == a % n ≡ false → node.hash == b ≡ false
      differ a b n h k = elim (Bool-cases (node.hash == b)) [
        | inr y ↦ y
        | inl y ↦
            let same : a ≡ b = ground arith in
            let mods : b % n ≡ a % n = ap (λ (t : ℕ). t % n) (sym same) in
            let hit : b % n == a % n ≡ true = ground arith in absurd (cc)
      ]

  -- In memory that suffices, setting a key in a map returns 0, and from then on each key gets what it
  -- got before, or else, if it matches the key that was set, the new node: a key that was there keeps
  -- its old data.
  pub getnode-set :
      (m : Hashmap K V) (f : ℕ → List (HashmapNode K V)) (key : K) (value : V)
      → IsMap compare hash m f
      → (m' : Hashmap K V) × (hashmap_set compare hash true m key value ≡ some (true, m'))
        × ((key' : K)
            → hashmap_getnode compare hash m' key' ≡ (
                hashmap_getnode compare hash m key' >>= λ r. some (
                  or_else r
                    (if_matches key' (record { key = key; data' = value; hash = hash key })))))
  getnode-set m f key value v =
      let node : HashmapNode K V = record { key = key; data' = value; hash = hash key } in
      let (m', e, top, v') = hashmap_set-IsMap compare hash m f key value v in
      let g = add_node compare hash (hash key % m.max) node f in
      (
        m',
        e,
        λ key'.
            let before = hashmap_getnode-lookup compare hash m f key' v in
            let after = hashmap_getnode-lookup compare hash m' g key' v' in
            let same : lookup compare hash key' (g (hash key' % m'.max))
                ≡ or_else (lookup compare hash key' (f (hash key' % m.max)))
                    (if_matches key' node) =
              ap (λ (t : ℕ). lookup compare hash key' (g (hash key' % t))) top
              ∙ lookup-add_node f m.max key key' node refl in
            rw before (after ∙ ap some same),
      )
