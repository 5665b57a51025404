-- ===== src/KernelHash/Rolling.antt =====
-- The rolling hash of model/kernel_hash/chunk.c.
pub mod Poly
pub mod Roll
use kernel_test.Base.{ℕ, ◌+◌, ◌-◌, ◌*◌, ◌%◌, List, [], ◌∷◌, take, u64, sext64}

-- The loop of `pack_hash` over the bytes that it still reads.
unfoldable pub hash_from : ℕ → ℕ → ℕ → List ℕ → ℕ
hash_from r q h [] = h
hash_from r q h (c ∷ cs) = hash_from r q ((r * h + sext64 c) % u64 % q) cs

-- pack_hash(key, M, R, Q)
unfoldable pub pack_hash : List ℕ → ℕ → ℕ → ℕ → ℕ
unfolding hash_from
pack_hash key m r q = hash_from r q 0 (take m key)

-- The two assignments that move the window by a byte: `old` leaves it and `new` enters.
unfoldable pub roll : ℕ → ℕ → ℕ → ℕ → ℕ → ℕ → ℕ
roll r q rm txthash old new =
    let dropped = (txthash + q + u64 - rm * sext64 old % u64 % q) % u64 % q in
    (dropped * r + sext64 new) % u64 % q
