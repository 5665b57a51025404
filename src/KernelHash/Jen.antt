-- ===== src/KernelHash/Jen.antt =====
-- `HASH_JEN` of model/kernel_hash/hash_table.h: Bob Jenkins' hash, which picks the bucket and the
-- lock of a chunk.
use Prim.Native.Nat.{bit_and, bit_xor}
use kernel_test.Base.{ℕ, ◌+◌, ◌-◌, ◌*◌, ◌/◌, ◌%◌, ◌^◌, List, ◌∷◌, length, get_or, add32, sub32, u32}

-- The three mixed words: `_hj_i`, `_hj_j` and `hashv`.
pub record Mix : Type 0 where
  pub i : ℕ
  pub j : ℕ
  pub v : ℕ

-- x -= y; x -= z; x ^= (z >> k);
unfoldable pub mix_right : ℕ → ℕ → ℕ → ℕ → ℕ
mix_right x y z k = bit_xor (sub32 (sub32 x y) z) (z / 2 ^ k)

-- x -= y; x -= z; x ^= (z << k);
unfoldable pub mix_left : ℕ → ℕ → ℕ → ℕ → ℕ
mix_left x y z k = bit_xor (sub32 (sub32 x y) z) (z * 2 ^ k % u32)

-- HASH_JEN_MIX(a, b, c)
unfoldable pub hash_jen_mix : Mix → Mix
unfolding mix_right mix_left
hash_jen_mix m =
    let a = mix_right m.i m.j m.v 13 in
    let b = mix_left m.j m.v a 8 in
    let c = mix_right m.v a b 13 in
    let a = mix_right a b c 12 in
    let b = mix_left b c a 16 in
    let c = mix_right c a b 5 in
    let a = mix_right a b c 3 in
    let b = mix_left b c a 10 in let c = mix_right c a b 15 in record { i = a; j = b; v = c }

-- Four bytes as a word, the first lowest.
abbrev pub word : ℕ → ℕ → ℕ → ℕ → ℕ
word k₀ k₁ k₂ k₃ = (k₀ + k₁ * 2 ^ 8 + k₂ * 2 ^ 16 + k₃ * 2 ^ 24) % u32

-- The switch on what is left of the key, fewer than twelve bytes: a byte that is not there adds
-- nothing.
unfoldable pub jen_tail : List ℕ → Mix → Mix
jen_tail key m = record {
  i = add32 m.i (word (get_or key 0 0) (get_or key 1 0) (get_or key 2 0) (get_or key 3 0));
  j = add32 m.j (word (get_or key 4 0) (get_or key 5 0) (get_or key 6 0) (get_or key 7 0));
  v = add32 m.v (word 0 (get_or key 8 0) (get_or key 9 0) (get_or key 10 0));
}

-- The loop, and what stands behind it; `n` is the length of the whole key.
unfoldable pub jen_loop : ℕ → List ℕ → Mix → Mix
unfolding hash_jen_mix jen_tail
jen_loop n (k₀ ∷ k₁ ∷ k₂ ∷ k₃ ∷ k₄ ∷ k₅ ∷ k₆ ∷ k₇ ∷ k₈ ∷ k₉ ∷ k₁₀ ∷ k₁₁ ∷ key) m = jen_loop n key (
    hash_jen_mix (record {
      i = add32 m.i (word k₀ k₁ k₂ k₃);
      j = add32 m.j (word k₄ k₅ k₆ k₇);
      v = add32 m.v (word k₈ k₉ k₁₀ k₁₁);
    }))
jen_loop n key m = hash_jen_mix (jen_tail key (record m { v = add32 m.v n }))

-- HASH_JEN(key, keylen, num_bkts, hashv, bkt): `hashv`, then `bkt`.
unfoldable pub hash_jen : List ℕ → ℕ
unfolding jen_loop
hash_jen key =
    (jen_loop (length key) key (record { i = 0x9e3779b9; j = 0x9e3779b9; v = 0xfeedbeef })).v

unfoldable pub jen_bkt : ℕ → ℕ → ℕ
jen_bkt num_bkts hashv = bit_and hashv (num_bkts - 1)
