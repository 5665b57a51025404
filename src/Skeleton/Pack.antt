-- ===== src/Skeleton/Pack.antt =====
-- model/c-skeleton/src/pack.c: cutting the payloads of captured packets into pieces and looking up
-- the digests of the pieces, with the points of lcthw/pack.h.
pub mod Signed
pub mod Points
pub mod Pieces
pub mod Run
pub mod Savings
use Prim.Native.Nat.{bit_and}
use kernel_test.Base.{
  ℕ, zero, suc, ◌+◌, ◌-◌, ◌*◌, ◌/◌, ◌%◌, ◌^◌, Bool, true, false, not, ◌&&◌, ◌||◌, List, [], ◌∷◌,
  ◌++◌, Option, none, some, ◌>>=◌, length, take, drop, get_elem?, replicate, leb, ltb, ◌==◌,
  if◌then◌else◌, u64, sext64, add64,
}
use kernel_test.KernelHash.Rolling.{pack_hash}
use kernel_test.KernelHash.Table.{same_sha}
use kernel_test.Skeleton.Chunk.{Chunk, chunk_store, chunk_merge, chunk_clean}
use kernel_test.Skeleton.KeyValue.{KeyValue, keyvalue_push, sha}
use kernel_test.Skeleton.Hashmap.{Hashmap, hashmap_get, hashmap_set}

-- `R`, `chunk_num`, `step`, `PLEN`, `BUCKETS_LEN` and `PACKET_LEN`
abbrev pub pack_base : ℕ
pack_base = 1048583

abbrev pub pack_num : ℕ
pack_num = 32

abbrev pub pack_step : ℕ
pack_step = 32

abbrev pub plen : ℕ
plen = 21000

abbrev pub buckets_len : ℕ
buckets_len = 127997

abbrev pub packet_len : ℕ
packet_len = 36000

-- The remainder of signed numbers: `x` is the bit pattern of a `long`, and `q` is positive.
unfoldable pub srem64 : ℕ → ℕ → ℕ
srem64 x q = if ltb x (2 ^ 63) then x % q else (u64 - (u64 - x) % q) % u64

-- for (i = 1; i <= n; i++) RM = (R * RM) % Q; the product of `long` values is taken to wrap.
unfoldable pub pack_power : ℕ → ℕ → ℕ → ℕ → ℕ
unfolding srem64
pack_power zero r q rm = rm
pack_power (suc n) r q rm = pack_power n r q (srem64 (r * rm % u64) q)

-- The two assignments that move the window. `RM` and `playload[i]` are signed, `txthash` is not.
unfoldable pub pack_roll : ℕ → ℕ → ℕ → ℕ → ℕ → ℕ → ℕ
unfolding srem64
pack_roll r q rm txthash old new =
    let dropped = (txthash + q + (u64 - srem64 (rm * sext64 old % u64) q)) % u64 % q in
    (dropped * r + sext64 new) % u64 % q

-- `part->index` up to `part->end`. part_set exits where the array is full.
unfoldable pub part_set : List ℕ → ℕ → Option (List ℕ)
part_set index x = if leb plen (length index) then none else some (index ++ x ∷ [])

-- (a == b) || (a == b + 1) || (b == a + 1), for two `char` values that are promoted to `int`
unfoldable pub near : ℕ → ℕ → Bool
near a b =
    let a' = (a + 128) % 256 in
    let b' = (b + 128) % 256 in a' == b' || (a' == b' + 1) || (b' == a' + 1)

-- check_data_point(playload, Q, R, index); what follows its first `return` is not reached.
unfoldable pub check_data_point : List ℕ → ℕ → Option Bool
unfolding near
check_data_point playload index =
    if ltb 0 index
    then (get_elem? playload (index - 1) >>= λ a. get_elem? playload index >>= λ b. some (near a b))
    else some false

-- The points, and the static `delay_time`.
pub record Marks : Type 0 where
  pub index : List ℕ
  pub delay_time : ℕ

-- The test on the window that ends at `i`, made before the loop and in it.
unfoldable pub mark_here : List ℕ → ℕ → ℕ → Marks → Option Marks
unfolding part_set check_data_point
mark_here playload i txthash s =
    if s.delay_time == 0
    then (check_data_point playload i >>= λ near_by.
        if bit_and txthash 63 == 0 || near_by
        then (part_set s.index i >>= λ index.
            some (record { index = index; delay_time = pack_step }))
        else some s)
    else some (record s { delay_time = s.delay_time - 1 })

-- The loop from `i` on: `old` is the payload from `i - chunk_num`, `new` the payload from `i`.
unfoldable pub mark_loop : ℕ → List ℕ → ℕ → ℕ → List ℕ → List ℕ → Marks → Option Marks
unfolding mark_here pack_roll
mark_loop rm playload i txthash old [] s = some s
mark_loop rm playload i txthash [] (c ∷ new) s = some s
mark_loop rm playload i txthash (o ∷ old) (c ∷ new) s =
    let txthash' = pack_roll pack_base (2 ^ 60) rm txthash o c in
    mark_here playload i txthash' s >>= mark_loop rm playload (i + 1) txthash' old new

-- `RM`, as main computes it.
unfoldable pub pack_rm : ℕ
unfolding pack_power
pack_rm = pack_power 31 pack_base (2 ^ 60) 1

-- pack_calculate_part(playload, playload_len, Q, R, RM, zero_value, chunk_num)
unfoldable pub pack_calculate_part : ℕ → List ℕ → Marks → Option Marks
unfolding mark_loop pack_rm
pack_calculate_part count_packet playload s =
    let txthash = pack_hash playload pack_num pack_base (2 ^ 60) in
    part_set s.index count_packet >>= λ i₁. part_set i₁ (length playload) >>= λ i₂.
    mark_here playload (pack_num - 1) txthash (record s { index = i₂ })
    >>= mark_loop pack_rm playload pack_num txthash playload (drop pack_num playload)

-- The bytes that calculate_sha copies; `end'` is the last.
unfoldable pub sha_bytes : List ℕ → ℕ → ℕ → Option (List ℕ)
sha_bytes src begin end' =
    if ltb end' (length src) then some (take (end' + 1 - begin) (drop begin src)) else none

-- pack_SHA, where `digest` is what it does with a piece and its length: calculate_sha and the look-up.
-- A `false` of `digest` is its jump to `error`.
module _ {ℓ} {S : Type ℓ} (digest : List ℕ → ℕ → S → Option (Bool × S)) (room : Bool) where
  -- The first point: the piece begins with what was left over.
  unfoldable pub first_piece : List ℕ → ℕ → Chunk → S → Option (Bool × Chunk × S)
  unfolding sha_bytes
  first_piece playload pp remain s = chunk_merge room remain playload 0 pp >>= λ r.
      let merged = r.1 in
      sha_bytes merged.content 0 (merged.end - 1) >>= λ piece.
      digest piece merged.end s >>= λ d. some (d.0, chunk_clean merged, d.1)

  -- The other points; the last of them comes with the result.
  unfoldable pub piece_loop : List ℕ → ℕ → List ℕ → S → Option (Bool × ℕ × S)
  unfolding sha_bytes
  piece_loop playload prev [] s = some (true, prev, s)
  piece_loop playload prev (p ∷ ps) s = sha_bytes playload (prev + 1) p >>= λ piece.
      digest piece (p - prev) s >>= λ d. elim (d.0) [
        | true ↦ piece_loop playload p ps (d.1)
        | false ↦ some (false, p, d.1)
      ]

  -- What is behind the last point is stored.
  unfoldable pub store_rest : List ℕ → ℕ → Chunk → Option Chunk
  store_rest playload last remain =
      if not (last == length playload - 1)
      then (chunk_store remain playload (last + 1) (length playload - 1) >>= λ r. some (r.1))
      else some remain

  -- pack_SHA(playload, playload_len), by the number of points; it exits where there is no header.
  unfoldable pub pack_sha : List ℕ → List ℕ → Chunk → S → Option (Chunk × S)
  unfolding first_piece piece_loop store_rest
  pack_sha playload [] remain s = none
  pack_sha playload (c ∷ []) remain s = none
  pack_sha playload (c ∷ l ∷ []) remain s =
      chunk_merge room remain playload 0 (length playload - 1) >>= λ r. some (r.1, s)
  pack_sha playload (c ∷ l ∷ pp ∷ []) remain s = first_piece playload pp remain s >>= λ f.
      if f.0
      then (store_rest playload pp (f.1) >>= λ remain'. some (remain', f.2))
      else some (f.1, f.2)
  pack_sha playload (c ∷ l ∷ pp ∷ p ∷ ps) remain s = first_piece playload pp remain s >>= λ f.
      if f.0
      then (piece_loop playload pp (p ∷ ps) (f.2) >>= λ g.
          if g.0
          then (store_rest playload (g.1) (f.1) >>= λ remain'. some (remain', g.2))
          else some (f.1, g.2))
      else some (f.1, f.2)

-- Hashmap_mode_hash(data)
unfoldable pub mode_hash_loop : ℕ → List ℕ → ℕ
mode_hash_loop h [] = h
mode_hash_loop h (c ∷ cs) = mode_hash_loop ((10 * h + c) % buckets_len) cs

unfoldable pub hashmap_mode_hash : List ℕ → ℕ
unfolding mode_hash_loop
hashmap_mode_hash key = mode_hash_loop 0 (take sha key)

-- Hashmap_mode_compare(a, b) == 0
unfoldable pub hashmap_mode_compare : List ℕ → List ℕ → Bool
hashmap_mode_compare a b = same_sha a b

-- `key`, `map` and `save_len`. The keys of the map point into `key`; a key is modelled by the bytes
-- that were pushed, and the data by their place, as long as the array stays where it is.
pub record Digests : Type 0 where
  pub key : KeyValue
  pub map : Hashmap (List ℕ) ℕ
  pub save_len : ℕ

module _ (sha1 : List ℕ → List ℕ) (room : Bool) where
  -- The digest of a piece is looked up, and is added where it is new. Where the array grew, realloc may
  -- have moved it, and the keys of the map point into what was freed: that is a `none`.
  unfoldable pub note_digest : List ℕ → ℕ → Digests → Option (Bool × Digests)
  unfolding hashmap_mode_hash hashmap_mode_compare
  note_digest piece len s =
      let res = sha1 piece in
      hashmap_get hashmap_mode_compare hashmap_mode_hash s.map res >>= λ f. elim f [
        | some d ↦ some (true, record s { save_len = add64 s.save_len len })
        | none ↦ keyvalue_push room s.key res >>= λ r.
            if not (r.1.capacity == s.key.capacity) then none else elim (r.0) [
              | none ↦ some (false, record s { key = r.1 })
              | some place ↦
                  hashmap_set hashmap_mode_compare hashmap_mode_hash room s.map res place >>= λ q.
                  some (true, record s { key = r.1; map = q.1 })
            ]
      ]
