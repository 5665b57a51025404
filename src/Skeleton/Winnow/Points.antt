-- ===== src/Skeleton/Winnow/Points.antt =====
-- The points that pack_calculate_part of model/c-skeleton/src/winn_pack.c sets, against a description
-- block by block.
use kernel_test.Base.{
  ◌&&◌, ℕ, zero, suc, ◌+◌, ◌-◌, ◌*◌, ◌^◌, ◌%◌, ◌≤◌, ◌<◌, ◌≡◌, refl, sym, ap, ◌∙◌, true, false, List,
  [], ◌∷◌, ◌++◌, Option, none, some, ◌>>=◌, length, take, drop, ltb, ◌==◌, if◌then◌else◌,
  length-take, length-drop, drop-suc, take-suc, Bool-cases, inl, inr, arith,
}
use kernel_test.KernelHash.Rolling.{hash_from, pack_hash}
use kernel_test.KernelHash.Rolling.Poly.{q60}
use kernel_test.KernelHash.Rolling.Roll.{roll_lem}
use kernel_test.Skeleton.Pack.{packet_len, plen, pack_base, pack_roll}
use kernel_test.Skeleton.Pack.Signed.{pack_roll-roll}
use kernel_test.Skeleton.Winnow.{
  Winn, see_hash, reset, winn_first, winn_here, winn_loop, winn_end, winn_rm, winn_calculate_part,
  winn_window, winn_num,
}
use kernel_test.Skeleton.Winnow.Blocks.{
  top, is_far, block_points, scan, see_hash-window, winn_here-later,
}
use kernel_test.Skeleton.Winnow.Choice.{scan_lem}

-- The hashes of the windows of 16 bytes.
unfoldable pub hashes : List ℕ → List ℕ
hashes [] = []
hashes (a ∷ l) =
    let rest = hashes l in
    if ltb (length (a ∷ l)) winn_num
    then []
    else hash_from pack_base q60 0 (take winn_num (a ∷ l)) ∷ rest

hashes-short : (l : List ℕ) → length l < winn_num → hashes l ≡ []
unfolding hashes
hashes-short [] p = refl
hashes-short (a ∷ l) p =
    let short : ltb (length (a ∷ l)) winn_num ≡ true = ground arith in rw (short, hashes) refl

hashes-long :
    (a : ℕ) (l : List ℕ)
    → winn_num ≤ length (a ∷ l)
    → hashes (a ∷ l) ≡ hash_from pack_base q60 0 (take winn_num (a ∷ l)) ∷ hashes l
unfolding hashes
hashes-long a l p =
    let long : ltb (length (a ∷ l)) winn_num ≡ false = ground arith in rw (long, hashes) refl

rm_mod : winn_rm % q60 ≡ pack_base ^ 15 % q60 % q60
unfolding winn_rm
rm_mod = refl

-- The hash that the loop carries is the hash of the next window.
next_lem :
    (o c h : ℕ) (w : List ℕ)
    → length w ≡ 15
    → h ≡ hash_from pack_base q60 0 (o ∷ w)
    → pack_roll pack_base q60 winn_rm h o c ≡ hash_from pack_base q60 0 (w ++ c ∷ [])
next_lem o c h w n e =
    pack_roll-roll pack_base winn_rm (pack_base ^ 15 % q60) h o c rm_mod
    ∙ rw e (
        roll_lem pack_base (pack_base ^ 15 % q60) o c w
          (ap (λ (m : ℕ). pack_base ^ m % q60) (sym n)))

winn_loop-scan :
    (i h : ℕ) (l new : List ℕ) (s : Winn)
    → drop winn_num l ≡ new
    → h ≡ hash_from pack_base q60 0 (take winn_num l)
    → winn_loop winn_rm i h l new s ≡ scan i (hashes (drop 1 l)) s
unfolding winn_loop scan
winn_loop-scan i h l [] s d e =
    let few : length (drop 1 l) < winn_num =
      omega (arith, length-drop winn_num l, length-drop 1 l, ap length d) in
    rw (hashes-short (drop 1 l) few) (stops l)
  where
    stops : (l : List ℕ) → winn_loop winn_rm i h l [] s ≡ some s
    stops [] = refl
    stops (o ∷ old) = refl
winn_loop-scan i h [] (c ∷ new) s d e = cc
winn_loop-scan i h (o ∷ []) (c ∷ new) s d e = cc
winn_loop-scan i h (o ∷ a ∷ old) (c ∷ new) s d e =
    let l : List ℕ = a ∷ old in
    let room : winn_num ≤ length l = omega (arith, length-drop 15 l, ap length d) in
    let h' = pack_roll pack_base q60 winn_rm h o c in
    let e' : h' ≡ hash_from pack_base q60 0 (take winn_num l) =
      next_lem o c h (take 15 l) (omega (arith, length-take 15 l)) e
      ∙ ap (hash_from pack_base q60 0) (sym (take-suc 15 l d)) in
    rw (hashes-long a old room) (
      rw (← e') (
        ap (λ (f : Winn → Option Winn). winn_here i h' s >>= f)
          (λ j s'. winn_loop-scan (i + 1) h' l new s' (drop-suc 15 l d) e' j)))

block_points-few :
    (n i : ℕ) (prev : Option ℕ) (hs : List ℕ)
    → winn_window * length (block_points n i prev hs) ≤ length hs
unfolding block_points
block_points-few zero i prev hs = omega arith
block_points-few (suc n) i prev hs =
    let m = i + (top (take winn_window hs)).0 in
    let rest : List ℕ = drop winn_window hs in
    let left : length rest ≡ length hs - winn_window = length-drop winn_window hs in
    elim (Bool-cases (ltb (length hs) winn_window)) [
      | inl y ↦ rw (y, block_points) (omega arith)
      | inr y ↦ elim (Bool-cases (is_far prev m)) [
        | inl far ↦
            rw (y, far, block_points)
              (ground (arith, left, block_points-few n (i + winn_window) (some m) rest))
        | inr near ↦
            rw (y, near, block_points)
              (ground (arith, left, block_points-few n (i + winn_window) prev rest))
      ]
    ]

hashes-few : (l : List ℕ) → length (hashes l) ≤ length l
unfolding hashes
hashes-few [] = omega arith
hashes-few (a ∷ l) = elim (Bool-cases (ltb (length (a ∷ l)) winn_num)) [
  | inl y ↦ rw (y, hashes) (omega arith)
  | inr y ↦ rw (y, hashes) (omega (arith, hashes-few l))
]

winn_end_lem : (s : Winn) → winn_end s ≡ reset s.index
unfolding winn_end
winn_end_lem s =
    elim (Bool-cases (s.min_index == 0 && s.min_hash == 0 && s.window == winn_window)) [
      | inl y ↦
          let a : s.min_index ≡ 0 = ground arith in
          let b : s.min_hash ≡ 0 = ground arith in
          let c : s.window ≡ winn_window = ground arith in
          rw (y, winn_end)
            (λ j. record { index = s.index; window = c j; min_index = a j; min_hash = b j })
      | inr y ↦ rw (y, winn_end) refl
    ]

-- The code before the loop does not fill the block.
winn_first-some :
    (i h : ℕ) (index : List ℕ) → winn_first i h (reset index) ≡ some (see_hash i h (reset index))
unfolding winn_first
winn_first-some i h index =
    let later : (see_hash i h (reset index)).window == 0 ≡ false =
      ground (arith, see_hash-window i h (reset index)) in
    rw (later, winn_first) refl

-- For a payload of 16 bytes or more, and of PACKET_LEN at most, with the points cleaned before:
-- pack_calculate_part of winn_pack.c runs to its end. Behind the number of packets and the length of
-- the payload it sets, in order, one point for each full block of 16 windows, at the end of the last
-- of those with the greatest hash, unless that is less than 16 behind the point before. It leaves
-- `window`, `min_index` and `min_hash` as they were at the start.
pub winn_calculate_part-points :
    (count_packet : ℕ) (playload : List ℕ)
    → winn_num ≤ length playload
    → length playload ≤ packet_len
    → winn_calculate_part count_packet playload (reset [])
      ≡ some (
          reset (
            count_packet
            ∷ length playload
            ∷ block_points (length playload) 15 none (hashes playload)))
unfolding winn_calculate_part pack_hash scan
winn_calculate_part-points count_packet [] p q = absurd (omega arith)
winn_calculate_part-points count_packet (a ∷ l) p q =
    let playload : List ℕ = a ∷ l in
    let n = length playload in
    let index : List ℕ = count_packet ∷ n ∷ [] in
    let h = hash_from pack_base q60 0 (take winn_num playload) in
    let points : List ℕ = block_points n 15 none (hashes playload) in
    let few = hashes-few playload in
    let fits : length index + length points ≤ plen =
      omega (arith, few, block_points-few n 15 none (hashes playload)) in
    let (s, e, set) = scan_lem n 15 none (hashes playload) index (omega (arith, few)) refl fits in
    let s₁ = see_hash 15 h (reset index) in
    let first : winn_first 15 h (reset index) ≡ some s₁ = winn_first-some 15 h index in
    let all : (winn_here 15 h (reset index) >>= scan 16 (hashes l)) ≡ some s =
      rw (hashes-long a l p) at e in
    let rest : scan 16 (hashes l) s₁ ≡ some s =
      rw (winn_here-later 15 h (reset index) (omega arith)) at all in
    let loop : winn_loop winn_rm 16 h playload (drop 16 playload) s₁ ≡ some s =
      winn_loop-scan 16 h playload (drop 16 playload) s₁ refl refl ∙ rest in
    ap
      (λ (o : Option Winn). o >>= λ s'.
        winn_loop winn_rm 16 h playload (drop 16 playload) s' >>= λ s''. some (winn_end s''))
      first
    ∙ ap (λ (o : Option Winn). o >>= λ s''. some (winn_end s'')) loop
    ∙ ap some (winn_end_lem s ∙ ap reset set)
