-- ===== src/Skeleton/Chunk/Merging.antt =====
-- What `chunk_merge` of model/c-skeleton/src/lcthw/chunk.c does to the bytes of a chunk.
use kernel_test.Base.{
  ℕ, zero, suc, ◌+◌, ◌-◌, ◌≤◌, ◌<◌, ◌≡◌, refl, sym, ap, ◌∙◌, Bool, true, false, List, [], ◌∷◌, ◌++◌,
  none, some, length, take, drop, replicate, length-drop, length-replicate, length-take,
  length-append, leb, ltb, arith,
}
use kernel_test.KernelHash.Write.Copy.{memcpy_at_lem, memcpy_at-none}
use kernel_test.Skeleton.Chunk.{Chunk, chunk_merge, chunk_store, grow}

pub take-add : (m n : ℕ) (l : List ℕ) → take (m + n) l ≡ take m l ++ take n (drop m l)
take-add zero n l = ap (λ (k : ℕ). take k l) (omega arith)
take-add (suc m) n [] = ap (λ (k : ℕ). take k []) step ∙ sym (nothing n)
  where
    step : suc m + n ≡ suc (m + n)
    step = omega arith

    nothing : (k : ℕ) → take {A = ℕ} k [] ≡ []
    nothing zero = refl
    nothing (suc k) = refl
take-add (suc m) n (x ∷ l) =
    let step : suc m + n ≡ suc (m + n) = omega arith in
    ap (λ (k : ℕ). take k (x ∷ l)) step ∙ ap (◌∷◌ x) (take-add m n l)

-- The chunk holds these bytes, in a buffer of its limit.
pub record Holds (ck : Chunk) (bytes : List ℕ) : Type 0 where
  pub size : length ck.content ≡ ck.limit
  pub within : ck.end ≤ ck.limit
  pub read : take ck.end ck.content ≡ bytes

pub Holds-length : (ck : Chunk) (bytes : List ℕ) → Holds ck bytes → ck.end ≡ length bytes
Holds-length ck bytes h =
    omega (arith, ap length h.read, length-take ck.end ck.content, h.size, h.within)

pub chunk_merge-Holds :
    (room : Bool) (ck : Chunk) (bytes src : List ℕ) (begin end' : ℕ)
    → Holds ck bytes
    → begin ≤ end'
    → end' < length src
    → ck.end + (end' + 1 - begin) ≤ ck.limit
    → (ck' : Chunk) × (chunk_merge room ck src begin end' ≡ some (some (end' + 1 - begin), ck'))
      × Holds ck' (bytes ++ take (end' + 1 - begin) (drop begin src))
      × (ck'.end ≡ ck.end + (end' + 1 - begin))
      × (ck'.limit ≡ ck.limit)
unfolding chunk_merge
chunk_merge-Holds room ck bytes src begin end' h le inside fits =
    let len = end' + 1 - begin in
    let (r, e, c) =
      memcpy_at_lem ck.content ck.end (drop begin src) len (omega (arith, length-drop begin src))
        (omega (arith, h.size)) in
    let ordered : leb begin end' ≡ true = ground arith in
    let small : ltb ck.limit (ck.end + len - 1) ≡ false = ground arith in
    (
      record ck { content = r; end = ck.end + len },
      rw ordered (rw small (rw e refl)),
      record {
        size = c.size ∙ h.size;
        within = fits;
        read =
            take-add ck.end len r
            ∙ ap (λ (l : List ℕ). l ++ take len (drop ck.end r))
                (c.before 0 ck.end (omega arith) ∙ h.read)
            ∙ ap (λ (l : List ℕ). bytes ++ l) c.read;
      },
      refl,
      refl,
    )

-- chunk_store writes over what the chunk held.
pub chunk_store-Holds :
    (ck : Chunk) (src : List ℕ) (begin end' : ℕ)
    → length ck.content ≡ ck.limit
    → begin ≤ end'
    → end' < length src
    → end' + 1 - begin ≤ ck.limit
    → (ck' : Chunk) × (chunk_store ck src begin end' ≡ some (some (end' + 1 - begin), ck'))
      × Holds ck' (take (end' + 1 - begin) (drop begin src))
      × (ck'.end ≡ end' + 1 - begin)
      × (ck'.limit ≡ ck.limit)
unfolding chunk_store
chunk_store-Holds ck src begin end' size le inside fits =
    let len = end' + 1 - begin in
    let (r, e, c) =
      memcpy_at_lem ck.content 0 (drop begin src) len (omega (arith, length-drop begin src))
        (omega (arith, size)) in
    let ordered : leb begin end' ≡ true = ground arith in
    (
      record ck { content = r; end = len },
      rw ordered (rw e refl),
      record { size = c.size ∙ size; within = fits; read = c.read },
      refl,
      refl,
    )

-- A piece of the source that fits behind the bytes of a chunk: `chunk_merge` returns its length, and
-- the bytes of the chunk are the old ones and the piece.
pub chunk_merge-append :
    (room : Bool) (ck : Chunk) (src : List ℕ) (begin end' : ℕ)
    → begin ≤ end'
    → end' < length src
    → length ck.content ≡ ck.limit
    → ck.end + (end' + 1 - begin) ≤ ck.limit
    → (ck' : Chunk) × (chunk_merge room ck src begin end' ≡ some (some (end' + 1 - begin), ck'))
      × (take ck'.end ck'.content
          ≡ take ck.end ck.content ++ take (end' + 1 - begin) (drop begin src))
chunk_merge-append room ck src begin end' le inside size fits =
    let (ck', e, h, more, same) =
      chunk_merge-Holds room ck (take ck.end ck.content) src begin end'
        (record { size = size; within = omega arith; read = refl }) le inside fits in
    (ck', e, h.read)

pub length-grow : (n : ℕ) (l : List ℕ) → length (grow n l) ≡ n
unfolding grow
length-grow n l = omega (
  arith,
  length-take n (l ++ replicate n 0),
  length-append l (replicate n 0),
  length-replicate {A = ℕ} n 0,
)

-- Whenever `chunk_merge` makes the buffer larger, it then clears bytes past the end of the buffer.
pub chunk_merge-overrun :
    (ck : Chunk) (src : List ℕ) (begin end' : ℕ)
    → begin ≤ end'
    → ck.limit < ck.end + (end' + 1 - begin) - 1
    → chunk_merge true ck src begin end' ≡ none
unfolding chunk_merge
chunk_merge-overrun ck src begin end' le more =
    let len = end' + 1 - begin in
    let need = ck.end + len - 1 in
    let ordered : leb begin end' ≡ true = ground arith in
    let large : ltb ck.limit need ≡ true = ground arith in
    let z : length {A = ℕ} (replicate (len + 1) 0) ≡ len + 1 = length-replicate (len + 1) 0 in
    let g : length (grow need ck.content) ≡ need = length-grow need ck.content in
    let e =
      memcpy_at-none (grow need ck.content) ck.end (replicate (len + 1) 0) (len + 1) (omega arith)
        (omega (arith, z)) (omega (arith, g)) in
    rw ordered (rw large (rw e refl))
