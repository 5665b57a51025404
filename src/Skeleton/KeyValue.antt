-- ===== src/Skeleton/KeyValue.antt =====
-- model/c-skeleton/src/lcthw/keyvalue.c: an array of records of `step` bytes that grows.
pub mod Pushing
use kernel_test.Base.{
  ◌%◌, ◌^◌, u32, ℕ, zero, suc, ◌+◌, ◌-◌, ◌*◌, Bool, true, false, ◌&&◌, List, Option, none, some,
  ◌>>=◌, length, replicate, leb, ltb, ◌==◌, if◌then◌else◌,
}
use kernel_test.KernelHash.Write.{memcpy_at}
use kernel_test.Skeleton.Chunk.{grow}

-- `SHA` and `SHANUM`
abbrev pub sha : ℕ
sha = 20

abbrev pub shanum : ℕ
shanum = 50000000

-- `keyvalue`; `key` has the bytes that are allocated. The sizes are bounded by the memory of a
-- machine, so their arithmetic does not wrap.
pub record KeyValue : Type 0 where
  pub index : ℕ
  pub capacity : ℕ
  pub expand_rate : ℕ
  pub step : ℕ
  pub key : List ℕ

-- keyvalue_create(num, step_s)
unfoldable pub keyvalue_create : Bool → ℕ → ℕ → Option KeyValue
keyvalue_create room num step_s =
    let n = if num == 0 then shanum else num in
    let s = if num == 0 then sha else step_s in
    if room
    then some (record {
      index = 0;
      capacity = n * s;
      expand_rate = n * s;
      step = s;
      key = replicate (n * s) 0;
    })
    else none

-- keyvalue_full(kv)
unfoldable pub keyvalue_full : KeyValue → Bool
keyvalue_full kv = if leb kv.index (kv.capacity - kv.step) then false else true

-- keyvalue_resize(kv, newsize)
unfoldable pub keyvalue_resize : Bool → KeyValue → ℕ → Bool × KeyValue
unfolding grow
keyvalue_resize room kv newsize =
    let kv' : KeyValue = record kv { capacity = newsize } in
    if ltb 0 newsize && room
    then (true, record kv' { key = grow (newsize * kv.step) kv.key })
    else (false, kv')

-- keyvalue_expand(kv)
unfoldable pub keyvalue_expand : Bool → KeyValue → Option (Bool × KeyValue)
unfolding keyvalue_resize
keyvalue_expand room kv =
    let old_max = kv.capacity in
    let (ok, kv') = keyvalue_resize room kv (kv.capacity + kv.expand_rate) in
    if ok
    then (memcpy_at kv'.key old_max (replicate kv'.expand_rate 0) kv'.expand_rate >>= λ k.
        some (true, record kv' { key = k }))
    else some (false, kv')

-- keyvalue_push(kv, el): the place of the element, NULL an inner `none`. `old_index` is an `int`; one
-- below zero stands before the array.
unfoldable pub keyvalue_push : Bool → KeyValue → List ℕ → Option (Option ℕ × KeyValue)
unfolding keyvalue_full keyvalue_expand
keyvalue_push room kv el =
    let old_index = kv.index % u32 in
    if leb (2 ^ 31) old_index
    then none
    else memcpy_at kv.key old_index el kv.step >>= λ k.
        let kv' : KeyValue = record kv { key = k; index = kv.index + kv.step } in
        if keyvalue_full kv'
        then (keyvalue_expand room kv' >>= λ r. some (if r.0 then some old_index else none, r.1))
        else some (some old_index, kv')
