-- ===== src/KernelHash/Area.antt =====
-- The search for free bits that wr_file of model/kernel_hash/hash_table.c calls. bitmap.c has a copy of
-- the kernel's bitmap_find_next_zero_area, so it is a parameter, with what its comment says of it.
use kernel_test.Base.{ℕ, ◌+◌, ◌≤◌, ◌<◌, ◌≡◌, false}
use kernel_test.KernelHash.Bitmap.{Bits}

pub record BitSearch : Type 0 where
  -- bitmap_find_next_zero_area(map, size, start, nr, align_mask)
  pub bitmap_find_next_zero_area : Bits → ℕ → ℕ → ℕ → ℕ → ℕ
  -- the search goes on from `start`
  pub area-ge :
      (map : Bits) (size start nr : ℕ)
      → start ≤ size
      → start ≤ bitmap_find_next_zero_area map size start nr 0
  -- no area of `nr` clear bits is passed over
  pub area-le :
      (map : Bits) (size start nr j : ℕ)
      → start ≤ j
      → j + nr ≤ size
      → ((i : ℕ) → j ≤ i → i < j + nr → map i ≡ false)
      → bitmap_find_next_zero_area map size start nr 0 ≤ j
