-- ===== src/KernelHash/Partition/Spacing.antt =====
-- Where the part points of model/kernel_hash/chunk.c lie, and which of them the queue keeps.
use mathlib.Core.List.{append-nil, append_assoc}
use kernel_test.Base.{
  ℕ, zero, suc, ◌+◌, ◌-◌, ◌*◌, ◌≤◌, ◌<◌, ◌≡◌, refl, sym, ap, ◌∙◌, List, [], ◌∷◌, ◌++◌, length, take,
  length-append, take_all, leb, ltb, ◌==◌, Bool-cases, inl, inr, arith,
}
use kernel_test.KernelHash.Params.{chunk_num, step}
use kernel_test.KernelHash.Kfifo.{Kfifo}
use kernel_test.KernelHash.Partition.Points.{points_from, part_points, is_part, put_all}

-- The points start at `lo`, are at least `chunk_num` apart and lie below `n`.
abbrev pub Spaced : ℕ → ℕ → List ℕ → Type 0
Spaced lo n [] = Unit
Spaced lo n (x ∷ xs) = (lo ≤ x) × (x < n) × Spaced (x + chunk_num) n xs

pub Spaced-take : (m lo n : ℕ) (xs : List ℕ) → Spaced lo n xs → Spaced lo n (take m xs)
Spaced-take zero lo n xs h = tt
Spaced-take (suc m) lo n [] h = tt
Spaced-take (suc m) lo n (x ∷ xs) h = (h.0, h.1, Spaced-take m (x + chunk_num) n xs h.2)

pub Spaced-weaken : (lo lo' n : ℕ) (xs : List ℕ) → lo ≤ lo' → Spaced lo' n xs → Spaced lo n xs
Spaced-weaken lo lo' n [] p h = tt
Spaced-weaken lo lo' n (x ∷ xs) p h = (omega (arith, h.0), h.1, h.2)

points_from-Spaced :
    (l : List ℕ) (i delay n : ℕ)
    → i + length l ≡ n + 31
    → Spaced (i + delay) n (points_from i delay l)
unfolding points_from
points_from-Spaced [] i delay n e = tt
points_from-Spaced (a ∷ l) i delay n e =
    let ih = λ (d : ℕ). points_from-Spaced l (i + 1) d n (omega arith) in
    elim (Bool-cases (ltb (length (a ∷ l)) chunk_num)) [
      | inl short ↦ rw short tt
      | inr long ↦ elim (Bool-cases (delay == 0)) [
        | inl z ↦ elim (Bool-cases (is_part (take chunk_num (a ∷ l)))) [
          | inl f ↦
              rw (long, z, f)
                (
                  ground arith,
                  ground arith,
                  Spaced-weaken (i + chunk_num) (i + 1 + step) n _ (omega arith) (ih step),
                )
          | inr f ↦
              rw (long, z, f)
                (Spaced-weaken (i + delay) (i + 1 + (delay - 1)) n _ (ground arith)
                  (ih (delay - 1)))
        ]
        | inr z ↦
            rw (long, z)
              (Spaced-weaken (i + delay) (i + 1 + (delay - 1)) n _ (ground arith) (ih (delay - 1)))
      ]
    ]

-- The part points of a payload lie inside it, the first at 31 or later, and are at least 32 apart.
pub part_points-Spaced : (payload : List ℕ) → Spaced 31 (length payload) (part_points payload)
unfolding part_points
part_points-Spaced payload = points_from-Spaced payload 31 0 (length payload) (omega arith)

take-append_full : (n : ℕ) (q ys : List ℕ) → length q ≡ n → take n (q ++ ys) ≡ q
take-append_full n [] ys h = rw (← h)
take-append_full zero (x ∷ q) ys h = absurd (omega arith)
take-append_full (suc n) (x ∷ q) ys h = ap (◌∷◌ x) (take-append_full n q ys (omega arith))

module _ (k : Kfifo) where
  open k use {Fifo, put, queued, size, queued-put, size-put}

  -- A queue with room for `n` values keeps the first `n` of what is put.
  pub queued-put_all :
      (xs : List ℕ) (f : Fifo) (n : ℕ)
      → size f ≡ 4 * n
      → length (queued f) ≤ n
      → queued (put_all k f xs) ≡ take n (queued f ++ xs)
  unfolding put_all
  queued-put_all [] f n e h = sym (rw (append-nil (queued f)) (take_all n (queued f) h))
  queued-put_all (x ∷ xs) f n e h = elim (Bool-cases (leb (4 * length (queued f) + 4) (size f))) [
    | inl fits ↦
        let step' : queued (put f x) ≡ queued f ++ x ∷ [] = queued-put f x ∙ rw fits refl in
        queued-put_all xs (put f x) n (size-put f x ∙ e) (rw (step', length-append) (ground arith))
        ∙ rw (step', append_assoc)
    | inr full ↦
        let step' : queued (put f x) ≡ queued f = queued-put f x ∙ rw full refl in
        let n' : length (queued f) ≡ n = ground arith in
        queued-put_all xs (put f x) n (size-put f x ∙ e) (rw step' h)
        ∙ rw step'
            (take-append_full n (queued f) xs n' ∙ sym (take-append_full n (queued f) (x ∷ xs) n'))
  ]
