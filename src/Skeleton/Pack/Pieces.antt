-- ===== src/Skeleton/Pack/Pieces.antt =====
-- The pieces whose digests `pack_SHA` of model/c-skeleton/src/pack.c looks up.
use mathlib.Core.List.{flatten, append_assoc}
use kernel_test.Base.{
  ℕ, ◌+◌, ◌-◌, ◌≤◌, ◌<◌, ◌≡◌, refl, sym, ap, ◌∙◌, Bool, true, false, List, [], ◌∷◌, ◌++◌, Option,
  some, ◌>>=◌, >>=-eq-some, length, take, drop, length-take, length-drop, take-append-drop,
  take_all, ltb, ◌==◌, Bool-cases, inl, inr, arith,
}
use kernel_test.KernelHash.Partition.Tile.{slice, slice-drop, drop_all}
use kernel_test.Skeleton.Chunk.{Chunk, chunk_clean, chunk_merge}
use kernel_test.Skeleton.Chunk.Merging.{Holds, chunk_merge-Holds, chunk_store-Holds}
use kernel_test.Skeleton.Pack.{sha_bytes, first_piece, piece_loop, store_rest, pack_sha}

-- The points start at `lo`, increase, and lie below `n`.
abbrev pub Increasing : ℕ → ℕ → List ℕ → Type 0
Increasing lo n [] = Unit
Increasing lo n (p ∷ ps) = (lo ≤ p) × (p < n) × Increasing (p + 1) n ps

-- The pieces behind the point `prev`.
unfoldable pub later_pieces : List ℕ → ℕ → List ℕ → List (List ℕ)
later_pieces playload prev [] = []
later_pieces playload prev (p ∷ ps) = slice playload (prev + 1, p) ∷ later_pieces playload p ps

-- The pieces of a payload, when `left` was left over: the first piece begins with it.
unfoldable pub pieces : List ℕ → List ℕ → List ℕ → List (List ℕ)
unfolding later_pieces
pieces left playload [] = []
pieces left playload (p ∷ ps) = (left ++ take (p + 1) playload) ∷ later_pieces playload p ps

last_point : ℕ → List ℕ → ℕ
last_point p [] = p
last_point p (q ∷ qs) = last_point q qs

-- What is left over afterwards.
unfoldable pub left_over : List ℕ → List ℕ → List ℕ → List ℕ
unfolding last_point
left_over left playload [] = left ++ playload
left_over left playload (p ∷ ps) = drop (last_point p ps + 1) playload

later_pieces-flatten :
    (playload : List ℕ) (prev : ℕ) (ps : List ℕ)
    → Increasing (prev + 1) (length playload) ps
    → flatten (later_pieces playload prev ps) ++ drop (last_point prev ps + 1) playload
      ≡ drop (prev + 1) playload
unfolding later_pieces last_point flatten
later_pieces-flatten playload prev [] h = refl
later_pieces-flatten playload prev (p ∷ ps) h =
    append_assoc (slice playload (prev + 1, p)) _ _
    ∙ ap (λ (l : List ℕ). slice playload (prev + 1, p) ++ l)
        (later_pieces-flatten playload p ps h.2)
    ∙ slice-drop playload (prev + 1) p h.0

-- Nothing is lost: the pieces and what is left over afterwards are what was left over and the payload.
pub pieces-flatten :
    (left playload ps : List ℕ)
    → Increasing 0 (length playload) ps
    → flatten (pieces left playload ps) ++ left_over left playload ps ≡ left ++ playload
unfolding pieces left_over flatten
pieces-flatten left playload [] h = refl
pieces-flatten left playload (p ∷ ps) h =
    append_assoc (left ++ take (p + 1) playload) _ _
    ∙ append_assoc left (take (p + 1) playload) _
    ∙ ap (λ (l : List ℕ). left ++ l)
        (ap (λ (l : List ℕ). take (p + 1) playload ++ l) (later_pieces-flatten playload p ps h.2)
          ∙ take-append-drop (p + 1) playload)

-- Merging the beginning of a payload, up to the point `pp`.
chunk_merge_prefix :
    (room : Bool) (ck : Chunk) (left playload : List ℕ) (pp : ℕ)
    → Holds ck left
    → pp < length playload
    → ck.end + length playload ≤ ck.limit
    → (m : Chunk) × (chunk_merge room ck playload 0 pp ≡ some (some (pp + 1), m))
      × Holds m (left ++ take (pp + 1) playload)
      × (m.end ≡ ck.end + (pp + 1))
      × (m.limit ≡ ck.limit)
chunk_merge_prefix room ck left playload pp h lt fits =
    let all : pp + 1 - 0 ≡ pp + 1 = omega arith in
    rw all at (chunk_merge-Holds room ck left playload 0 pp h (omega arith) lt (omega arith))

module _ {ℓ} {S : Type ℓ} (digest : List ℕ → ℕ → S → Option (Bool × S)) where
  -- The look-ups of the pieces in order, each with its length, until one jumps to `error`.
  unfoldable pub digest_all : List (List ℕ) → S → Option (Bool × S)
  digest_all [] s = some (true, s)
  digest_all (x ∷ xs) s = digest x (length x) s >>= λ d. elim (d.0) [
    | true ↦ digest_all xs (d.1)
    | false ↦ some (false, d.1)
  ]

  -- A run that goes to the end, from its first look-up on.
  pub digest_all-cons :
      (x : List ℕ) (xs : List (List ℕ)) (s s' : S)
      → digest_all (x ∷ xs) s ≡ some (true, s')
      → (t : S) × (digest x (length x) s ≡ some (true, t)) × (digest_all xs t ≡ some (true, s'))
  unfolding digest_all
  digest_all-cons x xs s s' e =
      let (d, e₁, e₂) = >>=-eq-some (digest x (length x) s) _ e in go d e₁ e₂
    where
      go :
          (d : Bool × S)
          → digest x (length x) s ≡ some d
          → ◌≡◌ {A = Option (Bool × S)}
              (elim (d.0) [ true ↦ digest_all xs (d.1) | false ↦ some (false, d.1) ])
              (some (true, s'))
          → (t : S) × (digest x (length x) s ≡ some (true, t)) × (digest_all xs t ≡ some (true, s'))
      go (true, t) e₁ e₂ = (t, e₁, e₂)
      go (false, t) e₁ e₂ = cc

  module _ (room : Bool) where
    sha_bytes-slice :
        (playload : List ℕ) (prev p : ℕ)
        → prev + 1 ≤ p
        → p < length playload
        → (sha_bytes playload (prev + 1) p ≡ some (slice playload (prev + 1, p)))
          × (length (slice playload (prev + 1, p)) ≡ p - prev)
    unfolding sha_bytes
    sha_bytes-slice playload prev p lo hi =
        let inside : ltb p (length playload) ≡ true = ground arith in
        let n : p + 1 - (prev + 1) ≡ p - (prev + 1) + 1 = omega arith in
        (
          rw (inside, n) refl,
          omega (
            arith,
            length-take (p - (prev + 1) + 1) (drop (prev + 1) playload),
            length-drop (prev + 1) playload,
          ),
        )

    piece_loop-digest_all :
        (playload : List ℕ) (prev : ℕ) (ps : List ℕ) (s s' : S)
        → Increasing (prev + 1) (length playload) ps
        → digest_all (later_pieces playload prev ps) s ≡ some (true, s')
        → piece_loop digest room playload prev ps s ≡ some (true, last_point prev ps, s')
    unfolding piece_loop digest_all later_pieces last_point
    piece_loop-digest_all playload prev [] s s' h e =
        ap (λ (q : Option (Bool × S)). q >>= λ r. some (r.0, prev, r.1)) e
    piece_loop-digest_all playload prev (p ∷ ps) s s' h e =
        let (bytes, n) = sha_bytes-slice playload prev p h.0 h.1 in
        let (t, e₁, e₂) = digest_all-cons (slice playload (prev + 1, p)) _ s s' e in
        let e₁' : digest (slice playload (prev + 1, p)) (p - prev) s ≡ some (true, t) =
          rw n at e₁ in
        rw bytes (rw e₁' (piece_loop-digest_all playload p ps t s' h.2 e₂))

    first_piece-Holds :
        (playload : List ℕ) (pp : ℕ) (ck : Chunk) (left : List ℕ) (s t : S)
        → Holds ck left
        → pp < length playload
        → ck.end + length playload ≤ ck.limit
        → digest (left ++ take (pp + 1) playload) (length (left ++ take (pp + 1) playload)) s
          ≡ some (true, t)
        → (ck' : Chunk) × (first_piece digest room playload pp ck s ≡ some (true, ck', t))
          × Holds ck' []
          × (ck'.end ≡ 0)
          × (ck'.limit ≡ ck.limit)
    unfolding first_piece chunk_clean sha_bytes
    first_piece-Holds playload pp ck left s t h lt fits e =
        let (m, em, hm, more, same) = chunk_merge_prefix room ck left playload pp h lt fits in
        let bytes : List ℕ = left ++ take (pp + 1) playload in
        let inside : ltb (m.end - 1) (length m.content) ≡ true =
          ground (arith, more, same, hm.size) in
        let whole : m.end - 1 + 1 - 0 ≡ m.end = omega (arith, more) in
        let n : length bytes ≡ m.end =
          sym (ap length hm.read)
          ∙ omega (arith, length-take m.end m.content, hm.size, more, same) in
        let e' : digest bytes m.end s ≡ some (true, t) = rw n at e in
        (
          record m { end = 0 },
          rw em (rw (inside, whole, hm.read, e') refl),
          record { size = hm.size; within = omega arith; read = refl },
          refl,
          same,
        )

    last_point-lt : (n p : ℕ) (ps : List ℕ) → p < n → Increasing (p + 1) n ps → last_point p ps < n
    unfolding last_point
    last_point-lt n p [] lt h = lt
    last_point-lt n p (q ∷ qs) lt h = last_point-lt n q qs h.1 h.2

    store_rest-Holds :
        (playload : List ℕ) (last : ℕ) (ck : Chunk)
        → Holds ck []
        → ck.end ≡ 0
        → last < length playload
        → length playload ≤ ck.limit
        → (ck' : Chunk) × (store_rest digest room playload last ck ≡ some ck')
          × Holds ck' (drop (last + 1) playload)
          × (ck'.end ≡ length playload - (last + 1))
          × (ck'.limit ≡ ck.limit)
    unfolding store_rest
    store_rest-Holds playload last ck h empty lt fits =
        elim (Bool-cases (last == length playload - 1)) [
          | inl y ↦
              let nothing : drop (last + 1) playload ≡ [] =
                drop_all (last + 1) playload (ground arith) in
              (ck, rw y refl, rw nothing h, ground arith, refl)
          | inr y ↦
              let n = length playload in
              let (ck', e, h', size, same) =
                chunk_store-Holds ck playload (last + 1) (n - 1) h.size (ground arith) (omega arith)
                  (omega arith) in
              let all : take (n - 1 + 1 - (last + 1)) (drop (last + 1) playload)
                  ≡ drop (last + 1) playload =
                take_all _ _ (omega (arith, length-drop (last + 1) playload)) in
              (ck', rw (y, e) refl, rw all at h', omega (arith, size), same)
        ]

-- For a payload that is not empty, points that increase below its length, a chunk with the
-- bytes `left` and room for the payload behind them, and any way of looking up a digest that goes on with each piece: pack_SHA does not stop. It
-- looks up the pieces in order, each with its length, and afterwards the chunk holds what is behind the last
-- point, or, if there is no point, what it held and the payload.
pub pack_sha-pieces {ℓ} :
    {S : Type ℓ} (digest : List ℕ → ℕ → S → Option (Bool × S)) (room : Bool) (playload : List ℕ)
    (c l : ℕ) (ps : List ℕ) (ck : Chunk) (left : List ℕ) (s s' : S)
    → Holds ck left
    → 0 < length playload
    → Increasing 0 (length playload) ps
    → ck.end + length playload ≤ ck.limit
    → digest_all digest (pieces left playload ps) s ≡ some (true, s')
    → (ck' : Chunk) × (pack_sha digest room playload (c ∷ l ∷ ps) ck s ≡ some (ck', s'))
      × Holds ck' (left_over left playload ps)
      × (ck'.limit ≡ ck.limit)
unfolding pack_sha pieces left_over last_point digest_all later_pieces
pack_sha-pieces {S = S} digest room playload c l [] ck left s s' h some_bytes inc fits e =
    let n = length playload in
    let (m, em, hm, more, same) =
      chunk_merge_prefix room ck left playload (n - 1) h (omega arith) fits in
    let all : take (n - 1 + 1) playload ≡ playload = take_all _ _ (omega arith) in
    (m, rw em (ap (λ (q : Option (Bool × S)). q >>= λ r. some (m, r.1)) e), rw all at hm, same)
pack_sha-pieces digest room playload c l (pp ∷ []) ck left s s' h some_bytes inc fits e =
    let (t, e₁, e₂) = digest_all-cons digest (left ++ take (pp + 1) playload) [] s s' e in
    let (m, em, hm, empty, same) =
      first_piece-Holds digest room playload pp ck left s t h inc.1 fits e₁ in
    let (ck', es, h', size, same') =
      store_rest-Holds digest room playload pp m hm empty inc.1 (omega (arith, same)) in
    let last : t ≡ s' = cc in (ck', rw em (rw (es, last) refl), h', same' ∙ same)
pack_sha-pieces digest room playload c l (pp ∷ p ∷ ps) ck left s s' h some_bytes inc fits e =
    let n = length playload in
    let (t, e₁, e₂) =
      digest_all-cons digest (left ++ take (pp + 1) playload) (later_pieces playload pp (p ∷ ps)) s
        s' e in
    let (m, em, hm, empty, same) =
      first_piece-Holds digest room playload pp ck left s t h inc.1 fits e₁ in
    let el = piece_loop-digest_all digest room playload pp (p ∷ ps) t s' inc.2 e₂ in
    let (ck', es, h', size, same') =
      store_rest-Holds digest room playload (last_point pp (p ∷ ps)) m hm empty
        (last_point-lt digest room n pp (p ∷ ps) inc.1 inc.2) (omega (arith, same)) in
    (ck', rw em (rw el (rw es refl)), h', same' ∙ same)
