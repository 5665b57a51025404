-- ===== src/KernelHash/Partition.antt =====
-- Cutting a payload into chunks: `calculate_partition` of model/kernel_hash/chunk.c and
-- `get_partition` of model/kernel_hash/nf_in.c.
pub mod Points
pub mod Spacing
pub mod Tile
pub mod Cover
use Prim.Native.Nat.{bit_and}
use kernel_test.Base.{
  ℕ, zero, suc, ◌+◌, ◌-◌, ◌*◌, ◌/◌, List, [], ◌∷◌, Bool, not, Option, none, some, length, drop, ltb,
  ◌==◌, if◌then◌else◌, ◌>>=◌,
}
use kernel_test.KernelHash.Params.{Params, chunk_num, step, r_base}
use kernel_test.KernelHash.Rolling.{pack_hash, roll}
use kernel_test.KernelHash.Kfifo.{Kfifo}

-- `KFIFOLEN`
abbrev pub kfifolen : ℕ
kfifolen = 1024 * 4

module _ (k : Kfifo) (p : Params) where
  open k use {Fifo, put}

  -- The queue and `delay_time`.
  pub record Scan : Type 0 where
    pub fifo : Fifo
    pub delay_time : ℕ

  -- The test on the hash of the window that ends at `i`, made before the loop and in it.
  unfoldable pub part_here : ℕ → ℕ → Scan → Scan
  part_here i txthash s =
      if s.delay_time == 0
      then if bit_and txthash p.zero_value == 0
        then record { fifo = put s.fifo i; delay_time = step }
        else s
      else record s { delay_time = s.delay_time - 1 }

  -- The loop from `i` on: `old` is the payload from `i - chunk_num`, `new` the payload from `i`.
  unfoldable pub partition_loop : ℕ → ℕ → List ℕ → List ℕ → Scan → Scan
  unfolding part_here
  partition_loop i txthash old [] s = s
  partition_loop i txthash [] (c ∷ new) s = s
  partition_loop i txthash (o ∷ old) (c ∷ new) s =
      let txthash' = roll r_base p.q p.rm txthash o c in
      partition_loop (i + 1) txthash' old new (part_here i txthash' s)

  unfoldable pub calculate_partition : List ℕ → Fifo → Fifo
  unfolding partition_loop
  calculate_partition playload f =
      let txthash = pack_hash playload chunk_num r_base p.q in
      let s : Scan = record { fifo = f; delay_time = 0 } in
      (partition_loop chunk_num txthash playload (drop chunk_num playload)
        (part_here (chunk_num - 1) txthash s)).fifo

-- `build_hash(data, start, end, length, head)` is the argument `build`, over any state.
module _ {ℓ} {S : Type ℓ} (build : ℕ → ℕ → ℕ → S → S) (k : Kfifo) (p : Params) where
  open k use {Fifo, alloc, get, len}

  -- The loop over the queue: rounds left, `fifo_i` and `end_pos`. A failed `kfifo_get` would leave
  -- `value` unset, which is a `none`.
  unfoldable pub cut_loop : ℕ → ℕ → Fifo → ℕ → S → Option (ℕ × S)
  cut_loop zero fifo_i f end_pos s = some (end_pos, s)
  cut_loop (suc n) fifo_i f end_pos s = elim (get f) [
    | none ↦ none
    | some (value, f') ↦
        let start = if fifo_i == 0 then 0 else end_pos + 1 in
        cut_loop n (fifo_i + 1) f' value (build start value (value - start + 1) s)
  ]

  unfoldable pub get_partition : List ℕ → S → Option S
  unfolding calculate_partition cut_loop
  get_partition playload s =
      let length' = length playload in
      if ltb chunk_num length'
      then elim (alloc kfifolen) [
        | none ↦ some s
        | some fresh ↦
            let fifo = calculate_partition k p playload fresh in
            let fifo_len = len fifo / 4 in
            cut_loop fifo_len 0 fifo 0 s >>= λ r.
            let end_pos = r.0 in
            if ltb 0 fifo_len
            then if not (end_pos == length' - 1)
              then some (build (end_pos + 1) (length' - 1) (length' - 1 - (end_pos + 1) + 1) r.1)
              else some r.1
            else some (build 0 (length' - 1) (length' - 1 - 0 + 1) r.1)
      ]
      else some s
