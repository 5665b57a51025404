-- ===== src/Skeleton/KeyValue/Pushing.antt =====
-- What `keyvalue_push` of model/c-skeleton/src/lcthw/keyvalue.c does to the bytes of an array that need
-- not grow.
use kernel_test.Base.{
  ℕ, ◌+◌, ◌-◌, ◌*◌, ◌≤◌, ◌%◌, ◌^◌, ◌≡◌, refl, ap, ◌∙◌, false, List, ◌++◌, some, length, take, drop,
  leb, u32, arith, true,
}
use kernel_test.KernelHash.Write.Copy.{memcpy_at_lem}
use kernel_test.Skeleton.Chunk.Merging.{take-add}
use kernel_test.Skeleton.KeyValue.{KeyValue, keyvalue_full, keyvalue_push}

-- There is room for `n` elements of 20 bytes, and one more, in an array that an `int` can index.
pub record FitsMore (n : ℕ) (kv : KeyValue) : Type 0 where
  pub step : kv.step ≤ 20
  pub memory : kv.capacity ≤ length kv.key
  pub small : kv.capacity ≤ 2 ^ 31
  pub inside : kv.index + 20 * n + 20 ≤ kv.capacity

-- Pushing an element: it returns the place where the array ended, and the bytes of the array are the
-- old ones and the element.
pub keyvalue_push_fits :
    (n : ℕ) (kv : KeyValue) (el : List ℕ)
    → FitsMore (n + 1) kv
    → kv.step ≤ length el
    → (kv' : KeyValue) × (keyvalue_push true kv el ≡ some (some kv.index, kv'))
      × (kv'.capacity ≡ kv.capacity)
      × (take kv'.index kv'.key ≡ take kv.index kv.key ++ take kv.step el)
      × FitsMore n kv'
unfolding keyvalue_push keyvalue_full
keyvalue_push_fits n kv el v enough =
    let (k, e, c) =
      memcpy_at_lem kv.key kv.index el kv.step enough (omega (arith, v.memory, v.inside, v.step)) in
    let bytes : take (kv.index + kv.step) k ≡ take kv.index kv.key ++ take kv.step el =
      take-add kv.index kv.step k
      ∙ ap (λ (l : List ℕ). l ++ take kv.step (drop kv.index k)) (c.before 0 kv.index (omega arith))
      ∙ ap (λ (l : List ℕ). take kv.index kv.key ++ l) c.read in
    let place : kv.index % u32 ≡ kv.index = omega (arith, v.small, v.inside) in
    let above : leb (2 ^ 31) kv.index ≡ false = ground (arith, v.small, v.inside) in
    let fits : leb (kv.index + kv.step) (kv.capacity - kv.step) ≡ true =
      ground (arith, v.inside, v.step) in
    (
      record kv { key = k; index = kv.index + kv.step },
      rw place (rw above (rw e (rw fits refl))),
      refl,
      bytes,
      record {
        step = v.step;
        memory = omega (arith, c.size, v.memory);
        small = v.small;
        inside = omega (arith, v.inside, v.step);
      },
    )
