-- ===== src/Tests/Partition.antt =====
-- Runs of the chunking of model/kernel_hash (chunk.c and nf_in.c), with a queue that holds a list.
use kernel_test.KernelHash.Partition.Cover.{
  get_partition-LongButLast, get_partition-gather, enlist, gather,
}
use kernel_test.Tests.Box.{empty_box, box_get, boxes, zeros, box_put}
use kernel_test.Base.{ℕ, ◌≡◌, refl, ◌^◌, List, [], ◌∷◌, some, arith}
use kernel_test.KernelHash.Params.{init_hash_parameters}
use kernel_test.KernelHash.Rolling.{hash_from, roll, pack_hash}
use kernel_test.KernelHash.Rolling.Poly.{q60}
use kernel_test.KernelHash.Rolling.Roll.{roll_lem}
use kernel_test.KernelHash.Partition.{calculate_partition, get_partition}
use kernel_test.KernelHash.Partition.Points.{part_points, put_all, calculate_partition-points}
use kernel_test.KernelHash.Partition.Tile.{LongButLast, chunks}

-- A payload of zeros has a point in every window that may have one.
chunks-zeros : chunks zeros ≡ (0, 31) ∷ (32, 63) ∷ (64, 69) ∷ []
unfolding chunks part_points hash_from
chunks-zeros = refl

-- The calls of `build_hash`, last first.
abbrev log : ℕ → ℕ → ℕ → List (ℕ × ℕ × ℕ) → List (ℕ × ℕ × ℕ)
log a b n calls = (a, b, n) ∷ calls

get_partition-zeros :
    get_partition log boxes init_hash_parameters zeros []
    ≡ some ((64, 69, 6) ∷ (32, 63, 32) ∷ (0, 31, 32) ∷ [])
unfolding get_partition init_hash_parameters pack_hash roll hash_from box_put box_get
get_partition-zeros = refl

calculate_partition-points_example :
    calculate_partition boxes init_hash_parameters zeros empty_box
    ≡ put_all boxes empty_box (part_points zeros)
calculate_partition-points_example = calculate_partition-points boxes zeros empty_box (omega arith)

roll_lem_example :
    roll 10 q60 (10 ^ 2) (hash_from 10 q60 0 (1 ∷ 2 ∷ 3 ∷ [])) 1 4
    ≡ hash_from 10 q60 0 (2 ∷ 3 ∷ 4 ∷ [])
roll_lem_example = roll_lem 10 (10 ^ 2) 1 4 (2 ∷ 3 ∷ []) refl

get_partition-gather_example :
    get_partition (gather zeros) boxes init_hash_parameters zeros [] ≡ some zeros
get_partition-gather_example = get_partition-gather boxes zeros empty_box (omega arith) refl

get_partition-LongButLast_example :
    (calls : List (ℕ × ℕ)) × (get_partition enlist boxes init_hash_parameters zeros [] ≡ some calls)
    × LongButLast calls
get_partition-LongButLast_example =
    get_partition-LongButLast boxes zeros empty_box (omega arith) refl
