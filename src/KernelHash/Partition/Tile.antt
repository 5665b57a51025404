-- ===== src/KernelHash/Partition/Tile.antt =====
-- The chunks that `get_partition` of model/kernel_hash/nf_in.c hands to `build_hash`.
use mathlib.Core.List.{flatten, append-nil}
use kernel_test.Base.{
  ℕ, zero, suc, ◌+◌, ◌-◌, ◌/◌, ◌≤◌, ◌<◌, ◌≡◌, refl, sym, ap, ◌∙◌, List, [], ◌∷◌, ◌++◌, map, Option,
  some, true, false, not, length, take, drop, length-drop, take-append-drop, take_all, ltb, ◌==◌,
  if◌then◌else◌, ◌>>=◌, Bool-cases, inl, inr, arith, lt→ltb,
}
use kernel_test.KernelHash.Params.{chunk_num, init_hash_parameters}
use kernel_test.KernelHash.Kfifo.{Kfifo}
use kernel_test.KernelHash.Partition.{calculate_partition, cut_loop, get_partition, kfifolen}
use kernel_test.KernelHash.Partition.Points.{part_points, calculate_partition-points}
use kernel_test.KernelHash.Partition.Spacing.{
  Spaced, Spaced-take, Spaced-weaken, part_points-Spaced, queued-put_all,
}

-- The first and the last index of each chunk, cut behind each point.
unfoldable pub segments : ℕ → List ℕ → ℕ → List (ℕ × ℕ)
segments lo [] n = if lo == n then [] else (lo, n - 1) ∷ []
segments lo (p ∷ ps) n = (lo, p) ∷ segments (p + 1) ps n

-- The bytes from the first index to the last.
abbrev pub slice : List ℕ → ℕ × ℕ → List ℕ
slice l (first, last) = take (last - first + 1) (drop first l)

-- The chunks of a payload: the queue holds 1024 points.
unfoldable pub chunks : List ℕ → List (ℕ × ℕ)
unfolding segments
chunks payload = segments 0 (take 1024 (part_points payload)) (length payload)

module _ {ℓ} {A : Type ℓ} where
  drop-nil : (n : ℕ) → drop {A = A} n [] ≡ []
  drop-nil zero = refl
  drop-nil (suc n) = refl

  drop_eq : (a b : ℕ) (l : List A) → a ≡ b → drop a l ≡ drop b l
  drop_eq a b l e = ap (λ k. drop k l) e

  drop-drop : (m n : ℕ) (l : List A) → drop m (drop n l) ≡ drop (n + m) l
  drop-drop m zero l = drop_eq m (zero + m) l (omega arith)
  drop-drop m (suc n) [] = rw (drop-nil, drop-nil)
  drop-drop m (suc n) (x ∷ l) =
      drop-drop m n l ∙ drop_eq (suc (n + m)) (suc n + m) (x ∷ l) (omega arith)

pub drop_all : (n : ℕ) (l : List ℕ) → length l ≤ n → drop n l ≡ []
drop_all zero [] h = refl
drop_all zero (x ∷ l) h = absurd (omega arith)
drop_all (suc n) [] h = refl
drop_all (suc n) (x ∷ l) h = drop_all n l (omega arith)

pub slice-drop : (l : List ℕ) (lo p : ℕ) → lo ≤ p → slice l (lo, p) ++ drop (p + 1) l ≡ drop lo l
slice-drop l lo p h =
    let e : lo + (p - lo + 1) ≡ p + 1 = omega arith in
    rw (← e, ← drop-drop) (take-append-drop (p - lo + 1) (drop lo l))

tile_lem :
    (l : List ℕ) (lo : ℕ) (ps : List ℕ)
    → lo ≤ length l
    → Spaced lo (length l) ps
    → flatten (map (slice l) (segments lo ps (length l))) ≡ drop lo l
unfolding segments flatten
tile_lem l lo [] h s = elim (Bool-cases (lo == length l)) [
  | inl e ↦ rw e (sym (drop_all lo l (ground arith)))
  | inr e ↦ rw e (append-nil _ ∙ take_all _ _ (omega (arith, length-drop lo l)))
]
tile_lem l lo (p ∷ ps) h s =
    rw (tile_lem l (p + 1) ps (omega arith) (Spaced-weaken _ _ _ ps (omega arith) s.2))
      (slice-drop l lo p s.0)

module _ {ℓ} {S : Type ℓ} (build : ℕ → ℕ → ℕ → S → S) where
  -- `build_hash` on each chunk in order, with its length.
  unfoldable pub build_all : List (ℕ × ℕ) → S → S
  build_all [] s = s
  build_all ((a, b) ∷ r) s = build_all r (build a b (b - a + 1) s)

  module _ (k : Kfifo) where
    open k use {Fifo, alloc, queued, size, get, get-queued, len-queued, queued-alloc, size-alloc}

    abbrev finish : ℕ → ℕ × S → Option S
    finish n r =
        if not (r.0 == n - 1)
        then some (build (r.0 + 1) (n - 1) (n - 1 - (r.0 + 1) + 1) r.1)
        else some r.1

    cut_lem :
        (ps : List ℕ) (f : Fifo) (i end_pos n : ℕ) (s : S)
        → 0 < i
        → queued f ≡ ps
        → Spaced (end_pos + 1) n ps
        → end_pos < n
        → (cut_loop build k init_hash_parameters (length ps) i f end_pos s >>= finish n)
          ≡ some (build_all (segments (end_pos + 1) ps n) s)
    unfolding cut_loop build_all segments
    cut_lem [] f i end_pos n s pos q sp h = elim (Bool-cases (end_pos == n - 1)) [
      | inl e ↦ rw (e, same end_pos n h e)
      | inr e ↦ rw (e, same' end_pos n h e)
    ]
      where
        same : (a m : ℕ) → a < m → a == m - 1 ≡ true → a + 1 == m ≡ true
        same a m h e = ground arith

        same' : (a m : ℕ) → a < m → a == m - 1 ≡ false → a + 1 == m ≡ false
        same' a m h e = ground arith
    cut_lem (p ∷ ps) f i end_pos n s pos q sp h =
        let (g, got, rest) = get-queued f p ps q in
        let later : i == 0 ≡ false = ground arith in
        rw (got, cut_loop)
          (rw later (
            cut_lem ps g (i + 1) p n _ (omega arith) rest
              (Spaced-weaken (p + 1) (p + chunk_num) n ps (omega arith) sp.2) sp.1))

    outer_lem :
        (ps : List ℕ) (g : Fifo) (n : ℕ) (s : S)
        → queued g ≡ ps
        → Spaced 31 n ps
        → 0 < n
        → (cut_loop build k init_hash_parameters (length ps) 0 g 0 s >>= λ r.
            if ltb 0 (length ps) then finish n r else some (build 0 (n - 1) (n - 1 - 0 + 1) r.1))
          ≡ some (build_all (segments 0 ps n) s)
    unfolding cut_loop build_all segments
    outer_lem [] g n s q sp pos = let ne : 0 == n ≡ false = ground arith in rw ne
    outer_lem (p ∷ ps) g n s q sp pos =
        let (g', got, rest) = get-queued g p ps q in
        let some_points : ltb 0 (length (p ∷ ps)) ≡ true = ground arith in
        rw (got, cut_loop)
          (rw some_points (
            cut_lem ps g' 1 p n _ (omega arith) rest
              (Spaced-weaken (p + 1) (p + chunk_num) n ps (omega arith) sp.2) sp.1))

    -- For a payload of more than 32 bytes and a queue that is allocated, whatever `build_hash` does, `get_partition` calls it on
    -- the chunks of the payload in order, with their lengths.
    pub get_partition-build_all :
        (payload : List ℕ) (s : S) (f : Fifo)
        → chunk_num < length payload
        → alloc kfifolen ≡ some f
        → get_partition build k init_hash_parameters payload s ≡ some (build_all (chunks payload) s)
    unfolding get_partition chunks
    get_partition-build_all payload s f h a =
        let ps : List ℕ = take 1024 (part_points payload) in
        let fifo : Fifo = calculate_partition k init_hash_parameters payload f in
        let q : queued fifo ≡ ps =
          ap queued (calculate_partition-points k payload f (omega arith))
          ∙ queued-put_all k (part_points payload) f 1024 (size-alloc 12 f a)
              (rw (queued-alloc kfifolen f a) (omega arith))
          ∙ rw (queued-alloc kfifolen f a) in
        let rounds : k.len fifo / 4 ≡ length ps = omega (arith, len-queued fifo, ap length q) in
        rw (a, lt→ltb _ _ h)
          (rw rounds (
            outer_lem ps fifo (length payload) s q
              (Spaced-take 1024 31 _ _ (part_points-Spaced payload)) (omega arith)))

    -- A payload of at most 32 bytes is not looked at.
    pub get_partition_short :
        (payload : List ℕ) (s : S)
        → length payload ≤ chunk_num
        → get_partition build k init_hash_parameters payload s ≡ some s
    unfolding get_partition
    get_partition_short payload s h =
        let short : ltb chunk_num (length payload) ≡ false = ground arith in rw short

-- The chunks of a payload, put together in order, are the payload.
pub chunks-payload : (payload : List ℕ) → flatten (map (slice payload) (chunks payload)) ≡ payload
unfolding chunks
chunks-payload payload =
    tile_lem payload 0 (take 1024 (part_points payload)) (omega arith)
      (Spaced-weaken 0 31 _ _ (omega arith) (Spaced-take 1024 31 _ _ (part_points-Spaced payload)))

-- The chunks but the last have at least 32 bytes.
abbrev pub LongButLast : List (ℕ × ℕ) → Type 0
LongButLast [] = Unit
LongButLast (c ∷ []) = Unit
LongButLast (c ∷ d ∷ cs) = (c.0 + chunk_num ≤ c.1 + 1) × LongButLast (d ∷ cs)

segments-LongButLast :
    (lo n : ℕ) (ps : List ℕ) → Spaced (lo + 31) n ps → LongButLast (segments lo ps n)
unfolding segments
segments-LongButLast lo n [] h = elim (Bool-cases (lo == n)) [ inl e ↦ rw e tt | inr e ↦ rw e tt ]
segments-LongButLast lo n (p ∷ []) h = elim (Bool-cases (p + 1 == n)) [
  | inl e ↦ rw e tt
  | inr e ↦ rw e (omega arith, tt)
]
segments-LongButLast lo n (p ∷ p' ∷ ps) h = (
  omega (arith, h.0),
  segments-LongButLast (p + 1) n (p' ∷ ps) (omega (arith, h.2.0), h.2.1, h.2.2),
)

-- The chunks of a payload do.
pub chunks-LongButLast : (payload : List ℕ) → LongButLast (chunks payload)
unfolding chunks
chunks-LongButLast payload = segments-LongButLast 0 (length payload) _ (
    Spaced-weaken (0 + 31) 31 _ _ (omega arith)
      (Spaced-take 1024 31 _ _ (part_points-Spaced payload)))
