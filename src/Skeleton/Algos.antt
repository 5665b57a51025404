-- ===== src/Skeleton/Algos.antt =====
-- The string hashes of model/c-skeleton/src/lcthw/hashmap_algos.c, and xor_checksum of checksum.c. A
-- string is the list of its bytes; bstrlib's `bchare` returns a `char`, which is signed.
use Prim.Native.Nat.{bit_or, bit_xor}
use kernel_test.Base.{ℕ, ◌+◌, ◌-◌, ◌*◌, ◌%◌, ◌^◌, List, [], ◌∷◌, add32, u32, ltb, if◌then◌else◌}

abbrev pub fnv_prime : ℕ
fnv_prime = 16777619

abbrev pub fnv_offset_basis : ℕ
fnv_offset_basis = 2166136261

abbrev pub mod_adler : ℕ
mod_adler = 65521

-- A `char` converted to `uint32_t`.
abbrev pub sext8 : ℕ → ℕ
sext8 b = if ltb b 128 then b else (u32 - 256) + b

unfoldable pub fnv1a_loop : ℕ → List ℕ → ℕ
fnv1a_loop hash [] = hash
fnv1a_loop hash (c ∷ s) = fnv1a_loop (bit_xor hash (sext8 c) * fnv_prime % u32) s

-- Hashmap_fnv1a_hash(data)
unfoldable pub hashmap_fnv1a_hash : List ℕ → ℕ
unfolding fnv1a_loop
hashmap_fnv1a_hash s = fnv1a_loop fnv_offset_basis s

unfoldable pub adler32_loop : ℕ → ℕ → List ℕ → ℕ
adler32_loop a b [] = bit_or (b * 2 ^ 16 % u32) a
adler32_loop a b (c ∷ s) =
    let a' = add32 a (sext8 c) % mod_adler in adler32_loop a' (add32 b a' % mod_adler) s

-- Hashmap_adler32_hash(data)
unfoldable pub hashmap_adler32_hash : List ℕ → ℕ
unfolding adler32_loop
hashmap_adler32_hash s = adler32_loop 1 0 s

unfoldable pub djb_loop : ℕ → List ℕ → ℕ
djb_loop hash [] = hash
djb_loop hash (c ∷ s) = djb_loop (add32 (add32 (hash * 2 ^ 5 % u32) hash) (sext8 c)) s

-- Hashmap_djb_hash(data)
unfoldable pub hashmap_djb_hash : List ℕ → ℕ
unfolding djb_loop
hashmap_djb_hash s = djb_loop 5381 s

unfoldable pub xor_loop : ℕ → List ℕ → ℕ
xor_loop x [] = x
xor_loop x (c ∷ s) = xor_loop (bit_xor x c) s

-- xor_checksum(buff, buff_len), on all of the buffer
unfoldable pub xor_checksum : List ℕ → ℕ
unfolding xor_loop
xor_checksum buff = xor_loop 0 buff
