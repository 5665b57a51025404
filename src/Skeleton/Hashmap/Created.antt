-- ===== src/Skeleton/Hashmap/Created.antt =====
-- A new map of model/c-skeleton/src/lcthw/hashmap.c.
use kernel_test.Base.{
  ◌&&◌, ℕ, zero, suc, ◌<◌, ◌≡◌, refl, Bool, true, [], some, get_elem?, replicate, length-replicate,
  ltb, if◌then◌else◌, arith, inl,
}
use kernel_test.Skeleton.DArray.{null, create, default_expand_rate}
use kernel_test.Skeleton.Hashmap.{Hashmap, hashmap_create, default_number_of_buckets}
use kernel_test.Skeleton.Hashmap.Lookup.{IsMap}

get_elem?-replicate {ℓ} :
    {A : Type ℓ} (n i : ℕ) (x : A) → i < n → get_elem? (replicate n x) i ≡ some x
get_elem?-replicate zero i x h = absurd (omega arith)
get_elem?-replicate (suc n) zero x h = refl
get_elem?-replicate (suc n) (suc i) x h = get_elem?-replicate n i x (omega arith)

module _ {ℓ κ} {K : Type ℓ} {V : Type κ} (compare : K → K → Bool) (hash : K → ℕ) where
  -- In memory that suffices, a new map has the buckets that were asked for, or a hundred if none were,
  -- and holds no nodes.
  pub hashmap_create-IsMap :
      (buckets_len : ℕ)
      → (m : Hashmap K V) × (hashmap_create true buckets_len ≡ some m)
        × (m.max ≡ (if ltb 0 buckets_len then buckets_len else 100))
        × IsMap compare hash m (λ n. [])
  unfolding hashmap_create create
  hashmap_create-IsMap buckets_len =
      let n = if ltb 0 buckets_len then buckets_len else default_number_of_buckets in
      let pos : 0 < n = ground arith in
      let ok : ltb 0 n && true ≡ true = ground arith in
      (
        record {
          end = n;
          max = n;
          element_size = 8;
          expand_rate = default_expand_rate;
          contents = replicate n null;
        },
        rw ok refl,
        refl,
        record {
          some_buckets = pos;
          size = length-replicate n null;
          buckets = λ i lt. inl (get_elem?-replicate n i null lt, refl);
        },
      )
