-- ===== src/KernelHash/Params.antt =====
-- The constants of model/kernel_hash, and the parameters of the rolling hash that main.c computes.
use kernel_test.Base.{ℕ, zero, suc, ◌+◌, ◌-◌, ◌*◌, ◌%◌, u64}

-- `CHUNKSTEP`, the unit of storage and, less one, the shortest distance of part points
abbrev pub chunkstep : ℕ
chunkstep = 32

-- `chunk_num`, the width of the rolling window
abbrev pub chunk_num : ℕ
chunk_num = 32

-- `SHALEN`
abbrev pub shalen : ℕ
shalen = 20

-- `step`
abbrev pub step : ℕ
step = chunkstep - 1

-- `R`, the base of the polynomial hash
abbrev pub r_base : ℕ
r_base = 1048583

pub record Params : Type 0 where
  pub q : ℕ
  pub rm : ℕ
  pub zero_value : ℕ

-- for (i = 0; i < n; ++i) x = (2 * x);
unfoldable pub double : ℕ → ℕ → ℕ
double zero x = x
double (suc n) x = double n (2 * x % u64)

-- for (i = 0; i < n; ++i) rm = (r * rm) % q;
unfoldable pub power_mod : ℕ → ℕ → ℕ → ℕ → ℕ
power_mod zero r q rm = rm
power_mod (suc n) r q rm = power_mod n r q (r * rm % u64 % q)

unfoldable pub init_hash_parameters : Params
unfolding double power_mod
init_hash_parameters =
    let q = double 60 1 in
    record {
      q = q;
      rm = power_mod (chunk_num - 1) r_base q 1;
      zero_value = (double 6 1 + u64 - 1) % u64;
    }
