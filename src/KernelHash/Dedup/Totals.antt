-- ===== src/KernelHash/Dedup/Totals.antt =====
-- The totals that model/kernel_hash/nf_in.c keeps of a payload.
use kernel_test.Base.{
  sub64, take, drop, some_of_ne_none, ℕ, ◌+◌, ◌-◌, ◌%◌, ◌<◌, ◌≡◌, ◌≢◌, sym, ap, List, [], ◌∷◌,
  Option, none, some, ◌>>=◌, leb, if◌then◌else◌, add64, u64, length, Bool-cases, Option-cases, inl,
  inr, some_eq, >>=-eq-some, arith,
}
use kernel_test.KernelHash.Params.{shalen, chunk_num, init_hash_parameters}
use kernel_test.KernelHash.Kfifo.{Kfifo}
use kernel_test.KernelHash.Item.{Item}
use kernel_test.KernelHash.Partition.{kfifolen}
use kernel_test.KernelHash.Partition.Tile.{chunks, build_all, get_partition-build_all}
use kernel_test.KernelHash.Table.{add_hash_info, get_hash_item}
use kernel_test.KernelHash.Dedup.{
  Machine, World, hand_new, hand_found, hand_hash, build_hash, partition_payload,
}

-- The bytes that count: a chunk of at most 22 bytes is passed over.
abbrev pub counted : ℕ → ℕ
counted len = if leb len 22 then 0 else len

unfoldable pub counted_all : List (ℕ × ℕ) → ℕ
counted_all [] = 0
counted_all ((a, b) ∷ r) = counted (b - a + 1) + counted_all r

module _ (m : Machine) where
  hand_new-sum :
      (src : List ℕ) (len : ℕ) (dst : List ℕ) (w : World) {w' : World}
      → hand_new m src len dst w ≡ some w'
      → w'.sum_num ≡ add64 w.sum_num len
  unfolding hand_new
  hand_new-sum src len dst w e =
      let (r, f, g) =
        >>=-eq-some (add_hash_info m.hash_max_count (m.answers w.calls) dst src len w.cache) _ e in
      ap (λ (v : World). v.sum_num) (sym (some_eq g))

  hand_found-sum :
      (item : Item) (dst : List ℕ) (w : World) {w' : World}
      → hand_found m item dst w ≡ some w'
      → w'.sum_num ≡ w.sum_num
  unfolding hand_found
  hand_found-sum item dst w e = ground arith

  hand_hash-sum :
      (src : List ℕ) (len : ℕ) (dst : List ℕ) (w : World) {w' : World}
      → hand_hash m src len dst w ≡ some w'
      → w'.sum_num ≡ add64 w.sum_num len
  unfolding hand_hash
  hand_hash-sum src len dst w {w'} e = elim (Option-cases (get_hash_item dst w.cache).0) [
    | inl f ↦
        hand_new-sum src len dst (record w { cache = (get_hash_item dst w.cache).1 })
          (rw (f, hand_hash) at e)
    | inr (cp, f) ↦
        let hit : World = record w {
          cache = (get_hash_item dst w.cache).1;
          sum_num = add64 w.sum_num len;
          save_num = add64 w.save_num (sub64 len (shalen + 2));
        } in
        hand_found-sum cp dst hit (rw (f, hand_hash) at e)
  ]

  build_hash-sum :
      (src : List ℕ) (start end' len : ℕ) (w : World) {w' : World}
      → ((l : List ℕ) → m.sha1_hash_data l ≢ none)
      → w.sum_num < u64
      → build_hash m src start end' len w ≡ some w'
      → w'.sum_num ≡ (w.sum_num + counted len) % u64
  unfolding build_hash
  build_hash-sum src start end' len w {w'} sha lt e = elim (Bool-cases (leb len (shalen + 2))) [
    | inl small ↦
        let e' : some w ≡ some w' = rw (small, build_hash) at e in
        rw (← some_eq e', small) (omega arith)
    | inr big ↦ elim (Bool-cases (m.room w.calls)) [
      | inr full ↦ let e' : none ≡ some w' = rw (big, full, build_hash) at e in absurd (cc)
      | inl free ↦
          let bytes : List ℕ = take (end' - start + 1) (drop start src) in
          let (dst, f) = some_of_ne_none (m.sha1_hash_data bytes) (sha bytes) in
          let w₁ : World = record w { calls = w.calls + 1 } in
          let e' : hand_hash m (drop start src) len dst w₁ ≡ some w' =
            rw (big, free, f, build_hash) at e in
          rw big (hand_hash-sum (drop start src) len dst w₁ e')
    ]
  ]

  build_all-none :
      (src : List ℕ) (cs : List (ℕ × ℕ)) {w' : World}
      → build_all (λ start end' len s. s >>= build_hash m src start end' len) cs none ≡ some w'
      → ⊥
  unfolding build_all
  build_all-none src [] e = cc
  build_all-none src ((a, b) ∷ cs) e = build_all-none src cs e

  -- Chunk by chunk.
  build_all-sum :
      (src : List ℕ) (cs : List (ℕ × ℕ)) (w : World) {w' : World}
      → ((l : List ℕ) → m.sha1_hash_data l ≢ none)
      → w.sum_num < u64
      → build_all (λ start end' len s. s >>= build_hash m src start end' len) cs (some w) ≡ some w'
      → w'.sum_num ≡ (w.sum_num + counted_all cs) % u64
  unfolding build_all counted_all
  build_all-sum src [] w sha lt e = rw (← some_eq e) (omega arith)
  build_all-sum src ((a, b) ∷ cs) w {w'} sha lt e =
      elim (Option-cases (build_hash m src a b (b - a + 1) w)) [
        | inl f ↦ absurd (build_all-none src cs (rw f at e))
        | inr (w₁, f) ↦
            let first = build_hash-sum src a b (b - a + 1) w sha lt f in
            omega (arith, first, build_all-sum src cs w₁ sha (omega (arith, first)) (rw f at e))
      ]

  -- For a payload of more than 32 bytes, a queue that kfifo_alloc has made, a digest that does not fail,
  -- and a `sum_num` of 64 bits: a run that does not stop at
  -- a `BUG()` adds to `sum_num`, modulo 2^64, the bytes of the chunks of more than 22 bytes, whatever
  -- chunks are new.
  pub partition_payload-sum :
      (k : Kfifo) (payload : List ℕ) (w : World) (f : k.Fifo) {w' : World}
      → chunk_num < length payload
      → k.alloc kfifolen ≡ some f
      → ((l : List ℕ) → m.sha1_hash_data l ≢ none)
      → w.sum_num < u64
      → partition_payload m k init_hash_parameters payload w ≡ some w'
      → w'.sum_num ≡ (w.sum_num + counted_all (chunks payload)) % u64
  unfolding partition_payload
  partition_payload-sum k payload w f {w'} long a sha lt e =
      let step =
        λ (start end' len : ℕ) (s : Option World). s >>= build_hash m payload start end' len in
      let run = get_partition-build_all step k payload (some w) f long a in
      build_all-sum payload (chunks payload) w sha lt (rw run at e)
