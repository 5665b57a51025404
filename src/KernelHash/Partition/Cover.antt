-- ===== src/KernelHash/Partition/Cover.antt =====
-- The chunks of a payload cover it (model/kernel_hash/nf_in.c and chunk.c).
use mathlib.Core.List.{append-nil, append_assoc, flatten}
use kernel_test.Base.{ℕ, ◌<◌, ◌≡◌, sym, ap, ◌∙◌, List, [], ◌∷◌, ◌++◌, some, map, length, take, drop}
use kernel_test.KernelHash.Params.{chunk_num, init_hash_parameters}
use kernel_test.KernelHash.Kfifo.{Kfifo}
use kernel_test.KernelHash.Partition.{get_partition, kfifolen}
use kernel_test.KernelHash.Partition.Tile.{
  chunks, slice, build_all, LongButLast, get_partition-build_all, chunks-payload,
  chunks-LongButLast,
}

-- A `build_hash` that appends the bytes it is called with.
abbrev pub gather : List ℕ → ℕ → ℕ → ℕ → List ℕ → List ℕ
gather payload start end' len s = s ++ take len (drop start payload)

-- A `build_hash` that appends the indices it is called with.
abbrev pub enlist : ℕ → ℕ → ℕ → List (ℕ × ℕ) → List (ℕ × ℕ)
enlist start end' len s = s ++ (start, end') ∷ []

build_all-gather :
    (payload : List ℕ) (cs : List (ℕ × ℕ)) (s : List ℕ)
    → build_all (gather payload) cs s ≡ s ++ flatten (map (slice payload) cs)
unfolding build_all flatten
build_all-gather payload [] s = sym (append-nil s)
build_all-gather payload ((a, b) ∷ cs) s =
    build_all-gather payload cs (s ++ slice payload (a, b))
    ∙ append_assoc s (slice payload (a, b)) (flatten (map (slice payload) cs))

build_all-enlist : (cs s : List (ℕ × ℕ)) → build_all enlist cs s ≡ s ++ cs
unfolding build_all
build_all-enlist [] s = sym (append-nil s)
build_all-enlist ((a, b) ∷ cs) s =
    build_all-enlist cs (s ++ (a, b) ∷ []) ∙ append_assoc s ((a, b) ∷ []) cs

-- For a payload of more than 32 bytes, and a queue that kfifo_alloc has made: the chunks that
-- `get_partition` calls `build_hash` on, put together in the order of the calls, are the payload. No
-- byte is lost or counted twice.
pub get_partition-gather :
    (k : Kfifo) (payload : List ℕ) (f : k.Fifo)
    → chunk_num < length payload
    → k.alloc kfifolen ≡ some f
    → get_partition (gather payload) k init_hash_parameters payload [] ≡ some payload
get_partition-gather k payload f h a =
    get_partition-build_all (gather payload) k payload [] f h a
    ∙ ap some (build_all-gather payload (chunks payload) [] ∙ chunks-payload payload)

-- For a payload of more than 32 bytes, and a queue that kfifo_alloc has made: every chunk that `get_partition` calls `build_hash` on, but
-- the last, has at least 32 bytes.
pub get_partition-LongButLast :
    (k : Kfifo) (payload : List ℕ) (f : k.Fifo)
    → chunk_num < length payload
    → k.alloc kfifolen ≡ some f
    → (calls : List (ℕ × ℕ)) × (get_partition enlist k init_hash_parameters payload [] ≡ some calls)
      × LongButLast calls
get_partition-LongButLast k payload f h a = (
  chunks payload,
  get_partition-build_all enlist k payload [] f h a
      ∙ ap some (build_all-enlist (chunks payload) []),
  chunks-LongButLast payload,
)
