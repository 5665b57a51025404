-- ===== src/Skeleton/Winnow/Choice.antt =====
-- Which points the loop of model/c-skeleton/src/winn_pack.c chooses from blocks of hashes.
use mathlib.Core.List.{append-nil, append_assoc}
use kernel_test.Base.{
  ℕ, zero, suc, ◌+◌, ◌-◌, ◌*◌, ◌≤◌, ◌<◌, ◌≡◌, refl, sym, ap, ◌∙◌, Bool, true, false, List, [], ◌∷◌,
  ◌++◌, Option, none, some, ◌>>=◌, length, take, drop, get_elem?, leb, ltb, ◌==◌, take-append-drop,
  length-append, length-take, length-drop, Bool-cases, inl, inr, arith,
}
use kernel_test.Skeleton.Pack.{part_set, plen}
use kernel_test.Skeleton.Winnow.{Winn, reset, winn_choose, winn_window}
use kernel_test.Skeleton.Winnow.Blocks.{
  top, is_far, block_points, scan, see_all, scan-short, scan-block, see_all-block, see_all-index,
}

-- The point before is the last of those that are set, which stand behind two other numbers.
abbrev pub Prev : Option ℕ → List ℕ → Type 0
Prev none index = length index ≡ 2
Prev (some p) index = (2 < length index) × (get_elem? index (length index - 1) ≡ some p)

get_elem?-last : (xs : List ℕ) (x : ℕ) → get_elem? (xs ++ x ∷ []) (length xs) ≡ some x
get_elem?-last [] x = refl
get_elem?-last (y ∷ xs) x = get_elem?-last xs x

Prev-last : (index : List ℕ) (m : ℕ) → 2 ≤ length index → Prev (some m) (index ++ m ∷ [])
Prev-last index m p =
    let n : length (index ++ m ∷ []) ≡ length index + 1 = length-append index (m ∷ []) in
    let place : length (index ++ m ∷ []) - 1 ≡ length index = omega (arith, n) in
    (omega (arith, n), rw place (get_elem?-last index m))

Prev-long : (prev : Option ℕ) (index : List ℕ) → Prev prev index → 2 ≤ length index
Prev-long none index p = omega arith
Prev-long (some q) index p = omega (arith, p.0)

abbrev chosen : Bool → List ℕ → ℕ → List ℕ
chosen true index m = index ++ m ∷ []
chosen false index m = index

module _ (index : List ℕ) (m h : ℕ) where
  abbrev full : Winn
  full = record { index = index; window = 0; min_index = m; min_hash = h }

  winn_choose_lem :
      (prev : Option ℕ)
      → Prev prev index
      → (is_far prev m ≡ true → length index < plen)
      → winn_choose full ≡ some (reset (chosen (is_far prev m) index m))
  unfolding winn_choose part_set
  winn_choose_lem none p room =
      let short : length index < plen = room refl in
      let two : length index == 2 ≡ true = ground arith in
      let free : leb plen (length index) ≡ false = ground arith in
      let (long, last) = Prev-last index m (omega arith) in
      let three : ltb 2 (length (index ++ m ∷ [])) ≡ true = ground arith in
      let near : leb 16 (m - m) ≡ false = ground arith in
      rw (two, free, three, last, near, winn_choose) refl
  winn_choose_lem (some q) (long, last) room =
      let two : length index == 2 ≡ false = ground arith in
      let three : ltb 2 (length index) ≡ true = ground arith in
      elim (Bool-cases (leb 16 (m - q))) [
        | inl y ↦
            let short : length index < plen = room y in
            let free : leb plen (length index) ≡ false = ground arith in
            rw (two, three, last, y, free, winn_choose) refl
        | inr y ↦ rw (two, three, last, y, winn_choose) refl
      ]

-- What the loop makes of hashes, from the start of a block.
abbrev pub Scanned : ℕ → List ℕ → List ℕ → List ℕ → Type 0
Scanned i hs index points =
    (s : Winn) × (scan i hs (reset index) ≡ some s) × (s.index ≡ index ++ points)

short_lem : (i : ℕ) (hs index : List ℕ) → length hs < winn_window → Scanned i hs index []
short_lem i hs index short = (
  see_all i hs (reset index),
  scan-short i hs (reset index) short,
  see_all-index i hs (reset index) ∙ sym (append-nil index),
)

-- A block that is full.
block_lem :
    (i x : ℕ) (xs index : List ℕ) (prev : Option ℕ)
    → let m = i + (top (take winn_window (x ∷ xs))).0 in
      winn_window ≤ length (x ∷ xs)
      → Prev prev index
      → (is_far prev m ≡ true → length index < plen)
      → scan i (x ∷ xs) (reset index)
        ≡ scan
            (i + winn_window)
            (drop winn_window (x ∷ xs))
            (reset (chosen (is_far prev m) index m))
block_lem i x xs index prev long p room =
    let b : List ℕ = take 15 xs in
    let n : length b ≡ 15 = omega (arith, length-take 15 xs) in
    let m = i + (top (x ∷ b)).0 in
    let cut : scan i (x ∷ b ++ drop 15 xs) (reset index) ≡ (
        winn_choose (see_all i (x ∷ b) (reset index)) >>= scan (i + suc (length b)) (drop 15 xs)) =
      scan-block i x b (drop 15 xs) (reset index) (omega (arith, n)) in
    let whole : see_all i (x ∷ b) (reset index) ≡ full index m ((top (x ∷ b)).1) =
      see_all-block i (x ∷ b) index (omega (arith, n)) in
    let choice = winn_choose_lem index m ((top (x ∷ b)).1) prev p room in
    ap (λ l. scan i (x ∷ l) (reset index)) (sym (take-append-drop 15 xs))
    ∙ cut
    ∙ rw (whole, choice, n) refl

pub scan_lem :
    (n i : ℕ) (prev : Option ℕ) (hs index : List ℕ)
    → length hs < winn_window * suc n
    → Prev prev index
    → length index + length (block_points n i prev hs) ≤ plen
    → Scanned i hs index (block_points n i prev hs)
unfolding block_points
scan_lem zero i prev hs index p q fits = short_lem i hs index (omega arith)
scan_lem (suc n) i prev [] index p q fits = short_lem i [] index (omega arith)
scan_lem (suc n) i prev (x ∷ xs) index p q fits =
    let rest : List ℕ = drop 15 xs in
    let m = i + (top (take winn_window (x ∷ xs))).0 in
    let less : length rest < winn_window * suc n = omega (arith, length-drop 15 xs) in
    elim (Bool-cases (ltb (length (x ∷ xs)) winn_window)) [
      | inl y ↦
          let none_left : block_points (suc n) i prev (x ∷ xs) ≡ [] = rw (y, block_points) refl in
          rw none_left (short_lem i (x ∷ xs) index (ground arith))
      | inr y ↦
          let long : winn_window ≤ length (x ∷ xs) = ground arith in
          elim (Bool-cases (is_far prev m)) [
            | inl far ↦
                let next : List ℕ = block_points n (i + winn_window) (some m) rest in
                let found : block_points (suc n) i prev (x ∷ xs) ≡ m ∷ next =
                  rw (y, far, block_points) refl in
                let count : length (block_points (suc n) i prev (x ∷ xs)) ≡ suc (length next) =
                  ap length found in
                let more : length (index ++ m ∷ []) ≡ length index + 1 =
                  length-append index (m ∷ []) in
                let (s, e, points) =
                  scan_lem n (i + winn_window) (some m) rest (index ++ m ∷ []) less
                    (Prev-last index m (Prev-long prev index q))
                    (omega (arith, count, more, fits)) in
                let block = block_lem i x xs index prev long q (λ f. omega (arith, count, fits)) in
                (
                  s,
                  block ∙ rw far e,
                  points ∙ append_assoc index (m ∷ []) next ∙ ap (◌++◌ index) (sym found),
                )
            | inr near ↦
                let next : List ℕ = block_points n (i + winn_window) prev rest in
                let missed : block_points (suc n) i prev (x ∷ xs) ≡ next =
                  rw (y, near, block_points) refl in
                let (s, e, points) =
                  scan_lem n (i + winn_window) prev rest index less q (rw missed at fits) in
                let block = block_lem i x xs index prev long q (λ f. absurd (no_both _ f near)) in
                (s, block ∙ rw near e, points ∙ ap (◌++◌ index) (sym missed))
          ]
    ]
  where
    no_both : (b : Bool) → b ≡ true → b ≡ false → ⊥
    no_both b p q = cc
