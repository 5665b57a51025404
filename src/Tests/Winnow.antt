-- ===== src/Tests/Winnow.antt =====
-- Points of model/c-skeleton/src/winn_pack.c at concrete inputs.
use kernel_test.Base.{ℕ, ◌≡◌, refl, List, [], ◌∷◌, ◌++◌, some, none, length, replicate, arith}
use kernel_test.KernelHash.Rolling.{hash_from, pack_hash}
use kernel_test.Skeleton.Pack.{part_set, pack_power, pack_roll, srem64}
use kernel_test.Skeleton.Winnow.{
  reset, see_hash, winn_first, winn_choose, winn_here, winn_loop, winn_end, winn_rm,
  winn_calculate_part,
}
use kernel_test.Skeleton.Winnow.Blocks.{block_points}
use kernel_test.Skeleton.Winnow.Points.{hashes, winn_calculate_part-points}

abbrev mixed : List ℕ
mixed = 3 ∷ replicate 20 5 ++ (9 ∷ 200 ∷ 7 ∷ []) ++ replicate 40 6

winn_calculate_part-points_example :
    winn_calculate_part 3 mixed (reset [])
    ≡ some (reset (3 ∷ length mixed ∷ block_points (length mixed) 15 none (hashes mixed)))
winn_calculate_part-points_example = winn_calculate_part-points 3 mixed (omega arith) (omega arith)

-- All hashes of zeros are equal, so each block has its last place.
zeros_points :
    winn_calculate_part 0 (replicate 50 0) (reset []) ≡ some (reset (0 ∷ 50 ∷ 30 ∷ 46 ∷ []))
unfolding winn_calculate_part winn_first winn_loop winn_here winn_choose winn_end winn_rm see_hash
    part_set pack_power pack_roll srem64 pack_hash hash_from
zeros_points = refl
