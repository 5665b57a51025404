-- ===== src/Skeleton/Winnow/Blocks.antt =====
-- Blocks of hashes of model/c-skeleton/src/winn_pack.c: what the loop does with the hashes of the
-- windows, block by block.
use kernel_test.Base.{
  ℕ, zero, suc, ◌+◌, ◌-◌, ◌<◌, ◌≡◌, refl, ◌∙◌, Bool, true, false, List, [], ◌∷◌, ◌++◌, Option, none,
  some, ◌>>=◌, length, take, drop, leb, ltb, ◌==◌, if◌then◌else◌, Bool-cases, inl, inr, arith,
}
use kernel_test.Skeleton.Winnow.{
  Winn, see_hash, reset, winn_choose, winn_here, winn_window, winn_threshold,
}

-- The place of the last of the greatest hashes, and that hash.
abbrev pub top : List ℕ → ℕ × ℕ
top [] = (0, 0)
top (h ∷ []) = (0, h)
top (h ∷ g ∷ t) = let r = top (g ∷ t) in if ltb (r.1) h then (0, h) else (suc (r.0), r.1)

-- Far enough from the point before, if there is one.
abbrev pub is_far : Option ℕ → ℕ → Bool
is_far none m = true
is_far (some p) m = leb winn_threshold (m - p)

-- The points of the hashes from place `i` on, a full block after the other, `n` at most.
unfoldable pub block_points : ℕ → ℕ → Option ℕ → List ℕ → List ℕ
block_points zero i prev hs = []
block_points (suc n) i prev hs =
    let m = i + (top (take winn_window hs)).0 in
    let hit = m ∷ block_points n (i + winn_window) (some m) (drop winn_window hs) in
    let miss = block_points n (i + winn_window) prev (drop winn_window hs) in
    if ltb (length hs) winn_window then [] else if is_far prev m then hit else miss

-- The loop on hashes that are given.
unfoldable pub scan : ℕ → List ℕ → Winn → Option Winn
scan i [] s = some s
scan i (h ∷ hs) s = winn_here i h s >>= scan (i + 1) hs

abbrev pub see_all : ℕ → List ℕ → Winn → Winn
see_all i [] s = s
see_all i (h ∷ hs) s = see_all (i + 1) hs (see_hash i h s)

pub see_hash-window : (i h : ℕ) (s : Winn) → (see_hash i h s).window ≡ s.window - 1
unfolding see_hash
see_hash-window i h s = elim (Bool-cases (leb s.min_hash h)) [
  | inl y ↦ rw (y, see_hash) refl
  | inr y ↦ rw (y, see_hash) refl
]

pub winn_here-later : (i h : ℕ) (s : Winn) → 1 < s.window → winn_here i h s ≡ some (see_hash i h s)
unfolding winn_here
winn_here-later i h s p =
    let later : (see_hash i h s).window == 0 ≡ false = ground (arith, see_hash-window i h s) in
    rw (later, winn_here) refl

winn_here-last :
    (i h : ℕ) (s : Winn) → s.window ≡ 1 → winn_here i h s ≡ winn_choose (see_hash i h s)
unfolding winn_here
winn_here-last i h s p =
    let last : (see_hash i h s).window == 0 ≡ true = ground (arith, see_hash-window i h s) in
    rw (last, winn_here) refl

-- Hashes that do not fill the block.
pub scan-short :
    (i : ℕ) (hs : List ℕ) (s : Winn) → length hs < s.window → scan i hs s ≡ some (see_all i hs s)
unfolding scan
scan-short i [] s p = refl
scan-short i (h ∷ hs) s p =
    rw (winn_here-later i h s (omega arith), scan)
      (scan-short (i + 1) hs (see_hash i h s) (omega (arith, see_hash-window i h s)))

-- Hashes that fill the block, and more.
pub scan-block :
    (i h : ℕ) (hs rest : List ℕ) (s : Winn)
    → s.window ≡ suc (length hs)
    → scan i (h ∷ hs ++ rest) s
      ≡ (winn_choose (see_all i (h ∷ hs) s) >>= scan (i + suc (length hs)) rest)
unfolding scan
scan-block i h [] rest s p = rw (winn_here-last i h s p, scan) refl
scan-block i h (g ∷ hs) rest s p =
    let here = winn_here-later i h s (omega arith) in
    let more =
      scan-block (i + 1) g hs rest (see_hash i h s) (omega (arith, see_hash-window i h s)) in
    let place : i + 1 + suc (length hs) ≡ i + suc (suc (length hs)) = omega arith in
    rw (here, scan) (rw place at more)

-- What is kept of some hashes, by what was kept before.
abbrev kept : ℕ → List ℕ → Winn → Winn
kept i hs s =
    let r = top hs in
    if ltb (r.1) s.min_hash
    then record s { window = s.window - length hs }
    else record s { window = s.window - length hs; min_index = i + r.0; min_hash = r.1 }

kept_one : (i h : ℕ) (s : Winn) → see_hash i h s ≡ kept i (h ∷ []) s
unfolding see_hash
kept_one i h s = elim (Bool-cases (ltb h s.min_hash)) [
  | inl y ↦ let z : leb s.min_hash h ≡ false = ground arith in rw (y, z, see_hash) refl
  | inr y ↦
      let z : leb s.min_hash h ≡ true = ground arith in
      let here : i + 0 ≡ i = omega arith in rw (y, z, here, see_hash) refl
]

kept_more :
    (i h g : ℕ) (t : List ℕ) (s : Winn)
    → kept (i + 1) (g ∷ t) (see_hash i h s) ≡ kept i (h ∷ g ∷ t) s
unfolding see_hash
kept_more i h g t s =
    let r = top (g ∷ t) in
    let left : s.window - 1 - suc (length t) ≡ s.window - suc (suc (length t)) = omega arith in
    let place : i + 1 + r.0 ≡ i + suc (r.0) = omega arith in
    let here : i + 0 ≡ i = omega arith in
    elim (Bool-cases (leb s.min_hash h)) [
      | inl y ↦ elim (Bool-cases (ltb (r.1) h)) [
        | inl z ↦
            let w : ltb h s.min_hash ≡ false = ground arith in
            rw (y, z, w, left, here, see_hash) refl
        | inr z ↦
            let w : ltb (r.1) s.min_hash ≡ false = ground arith in
            rw (y, z, w, left, place, see_hash) refl
      ]
      | inr y ↦ elim (Bool-cases (ltb (r.1) h)) [
        | inl z ↦
            let w : ltb h s.min_hash ≡ true = ground arith in
            let v : ltb (r.1) s.min_hash ≡ true = ground arith in
            rw (y, z, w, v, left, see_hash) refl
        | inr z ↦ elim (Bool-cases (ltb (r.1) s.min_hash)) [
          | inl w ↦ rw (y, z, w, left, see_hash) refl
          | inr w ↦ rw (y, z, w, left, place, see_hash) refl
        ]
      ]
    ]

see_all-kept : (i h : ℕ) (t : List ℕ) (s : Winn) → see_all i (h ∷ t) s ≡ kept i (h ∷ t) s
see_all-kept i h [] s = kept_one i h s
see_all-kept i h (g ∷ t) s = see_all-kept (i + 1) g t (see_hash i h s) ∙ kept_more i h g t s

-- Of a whole block, from the state that a block begins in.
pub see_all-block :
    (i : ℕ) (b index : List ℕ)
    → length b ≡ winn_window
    → see_all i b (reset index)
      ≡ record { index = index; window = 0; min_index = i + (top b).0; min_hash = (top b).1 }
see_all-block i [] index p = cc
see_all-block i (h ∷ t) index p =
    let y : ltb ((top (h ∷ t)).1) 0 ≡ false = ground arith in
    let z : 16 - suc (length t) ≡ 0 = omega arith in
    see_all-kept i h t (reset index) ∙ rw (y, z) refl

pub see_all-index : (i : ℕ) (hs : List ℕ) (s : Winn) → (see_all i hs s).index ≡ s.index
unfolding see_hash
see_all-index i [] s = refl
see_all-index i (h ∷ hs) s =
    see_all-index (i + 1) hs (see_hash i h s) ∙ elim (Bool-cases (leb s.min_hash h)) [
      | inl y ↦ rw (y, see_hash) refl
      | inr y ↦ rw (y, see_hash) refl
    ]
