-- ===== src/KernelHash/Partition/Points.antt =====
-- The part points that `calculate_partition` of model/kernel_hash/chunk.c queues, against a
-- description that hashes each window from scratch.
use Prim.Native.Nat.{bit_and}
use kernel_test.Base.{
  ℕ, ◌+◌, ◌-◌, ◌^◌, ◌%◌, ◌≤◌, ◌<◌, ◌≡◌, refl, sym, ap, ◌∙◌, List, [], ◌∷◌, ◌++◌, Bool, true, false,
  ◌&&◌, length, take, drop, length-take, length-drop, drop-suc, take-suc, ltb, ◌==◌, if◌then◌else◌,
  Bool-cases, inl, inr, arith,
}
use kernel_test.KernelHash.Params.{chunk_num, step, r_base, init_hash_parameters}
use kernel_test.KernelHash.Rolling.{pack_hash, hash_from, roll}
use kernel_test.KernelHash.Rolling.Poly.{q60}
use kernel_test.KernelHash.Rolling.Roll.{roll_lem}
use kernel_test.KernelHash.Kfifo.{Kfifo}
use kernel_test.KernelHash.Partition.{Scan, part_here, partition_loop, calculate_partition}

-- The lowest six bits of the hash of a window are zero.
unfoldable pub is_part : List ℕ → Bool
is_part w = bit_and (hash_from r_base q60 0 w) 63 == 0

-- The part points of a payload: `l` is the payload from the first byte of the window that ends at
-- `i`, and no point is set for the next `delay` windows.
unfoldable pub points_from : ℕ → ℕ → List ℕ → List ℕ
points_from i delay [] = []
points_from i delay (a ∷ l) =
    let found = delay == 0 && is_part (take chunk_num (a ∷ l)) in
    let more = points_from (i + 1) (if found then step else delay - 1) l in
    if ltb (length (a ∷ l)) chunk_num then [] else if found then i ∷ more else more

unfoldable pub part_points : List ℕ → List ℕ
unfolding points_from is_part
part_points l = points_from (chunk_num - 1) 0 l

pub points_from_short :
    (i delay : ℕ) (l : List ℕ) → length l < chunk_num → points_from i delay l ≡ []
unfolding points_from
points_from_short i delay [] h = refl
points_from_short i delay (a ∷ l) h = rw (lt→ltb' _ _ h)
  where
    lt→ltb' : (a b : ℕ) → a < b → ltb a b ≡ true
    lt→ltb' a b h = ground arith

-- What main.c computes.
pub parameters :
    (init_hash_parameters.q ≡ q60)
    × (init_hash_parameters.rm ≡ r_base ^ 31 % q60)
    × (init_hash_parameters.zero_value ≡ 63)
unfolding init_hash_parameters
parameters = (refl, refl, refl)

-- The hash that the loop carries is the hash of the next window.
next_lem :
    (o c h : ℕ) (w : List ℕ)
    → length w ≡ 31
    → h ≡ hash_from r_base q60 0 (o ∷ w)
    → roll r_base init_hash_parameters.q init_hash_parameters.rm h o c
      ≡ hash_from r_base q60 0 (w ++ c ∷ [])
next_lem o c h w n e =
    rw (e, parameters.0)
      (roll_lem r_base init_hash_parameters.rm o c w
        (parameters.1 ∙ ap (λ m. r_base ^ m % q60) (sym n)))

module _ (k : Kfifo) where
  open k use {Fifo, put}

  unfoldable pub put_all : Fifo → List ℕ → Fifo
  put_all f [] = f
  put_all f (x ∷ xs) = put_all (put f x) xs

  test_lem :
      (h : ℕ) (w : List ℕ)
      → h ≡ hash_from r_base q60 0 w
      → bit_and h init_hash_parameters.zero_value == 0 ≡ is_part w
  unfolding is_part
  test_lem h w e = rw (e, parameters.2)

  -- One test, in the terms of the description.
  here_lem :
      (s : Scan k init_hash_parameters) (i h : ℕ) (l : List ℕ) (a : ℕ)
      → chunk_num ≤ length (a ∷ l)
      → h ≡ hash_from r_base q60 0 (take chunk_num (a ∷ l))
      → let s' = part_here k init_hash_parameters i h s in
        put_all s.fifo (points_from i s.delay_time (a ∷ l))
        ≡ put_all s'.fifo (points_from (i + 1) s'.delay_time l)
  unfolding points_from part_here put_all
  here_lem s i h l a p e =
      rw (test_lem h _ e, le→ltb _ _ p)
        (elim (Bool-cases (s.delay_time == 0)) [
          | inl z ↦ elim (Bool-cases (is_part (take chunk_num (a ∷ l)))) [
            | inl f ↦ rw (z, f)
            | inr f ↦
                rw (z, f) (ap (λ d. put_all s.fifo (points_from (i + 1) d l)) (same s.delay_time z))
          ]
          | inr z ↦ rw z
        ])
    where
      le→ltb : (m n : ℕ) → m ≤ n → ltb n m ≡ false
      le→ltb m n q = ground arith

      same : (d : ℕ) → d == 0 ≡ true → d - 1 ≡ d
      same d z = ground arith

  loop_lem :
      (l new : List ℕ) (i h : ℕ) (s : Scan k init_hash_parameters)
      → drop chunk_num l ≡ new
      → h ≡ hash_from r_base q60 0 (take chunk_num l)
      → (partition_loop k init_hash_parameters i h l new s).fifo
        ≡ put_all s.fifo (points_from i s.delay_time (drop 1 l))
  unfolding partition_loop points_from put_all
  loop_lem [] [] i h s d e = refl
  loop_lem [] (c ∷ new) i h s d e = refl
  loop_lem (o ∷ old) [] i h s d e = rw (
      points_from_short i s.delay_time old
        (omega (arith, length-drop chunk_num (o ∷ old), ap length d)))
  loop_lem (o ∷ []) (c ∷ new) i h s d e = cc
  loop_lem (o ∷ a ∷ old) (c ∷ new) i h s d e =
      let l : List ℕ = a ∷ old in
      let fits : chunk_num ≤ length l = omega (arith, length-drop 31 l, ap length d) in
      let h' = roll r_base init_hash_parameters.q init_hash_parameters.rm h o c in
      let e' : h' ≡ hash_from r_base q60 0 (take chunk_num l) =
        next_lem o c h (take 31 l) (omega (arith, length-take 31 l)) e
        ∙ ap (hash_from r_base q60 0) (sym (take-suc 31 l d)) in
      loop_lem l new (i + 1) h' (part_here k init_hash_parameters i h' s) (drop-suc 31 l d) e'
      ∙ sym (here_lem s i h' old a fits e')

  -- For every payload of at least one window, `calculate_partition` queues, in order, exactly the
  -- part points that hashing each window from scratch finds.
  pub calculate_partition-points :
      (payload : List ℕ) (f : Fifo)
      → chunk_num ≤ length payload
      → calculate_partition k init_hash_parameters payload f ≡ put_all f (part_points payload)
  unfolding calculate_partition part_points pack_hash
  calculate_partition-points [] f p = absurd (omega arith)
  calculate_partition-points (a ∷ l) f p =
      let e = ap (λ q. hash_from r_base q 0 (take chunk_num (a ∷ l))) parameters.0 in
      loop_lem (a ∷ l) (drop chunk_num (a ∷ l)) chunk_num _ _ refl e
      ∙ sym (here_lem (record { fifo = f; delay_time = 0 }) 31 _ l a p e)
