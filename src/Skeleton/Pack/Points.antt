-- ===== src/Skeleton/Pack/Points.antt =====
-- The points that `pack_calculate_part` of model/c-skeleton/src/pack.c sets, against a description
-- that looks at each window by itself.
use Prim.Native.Nat.{bit_and}
use mathlib.Core.List.{append-nil, append_assoc}
use kernel_test.Base.{
  ℕ, zero, suc, ◌+◌, ◌-◌, ◌^◌, ◌%◌, ◌≤◌, ◌<◌, ◌≡◌, refl, sym, ap, ◌∙◌, List, [], ◌∷◌, ◌++◌, Bool,
  true, false, ◌&&◌, ◌||◌, some, length, take, drop, get_elem?, get_or, length-append, length-take,
  length-drop, drop-suc, take-suc, leb, ltb, ◌==◌, if◌then◌else◌, Bool-cases, inl, inr, arith,
}
use kernel_test.KernelHash.Rolling.{hash_from, pack_hash}
use kernel_test.KernelHash.Rolling.Poly.{q60}
use kernel_test.KernelHash.Rolling.Roll.{roll_lem}
use kernel_test.Skeleton.Pack.{
  pack_base, pack_num, pack_step, plen, part_set, near, check_data_point, Marks, mark_here,
  mark_loop, pack_roll, pack_rm, pack_calculate_part,
}
use kernel_test.Skeleton.Pack.Signed.{pack_roll-roll}

-- The lowest six bits of the hash of a window are zero, or its last two bytes differ by at most one.
unfoldable pub is_point : List ℕ → Bool
is_point w = bit_and (hash_from pack_base q60 0 w) 63 == 0 || near (get_or w 30 0) (get_or w 31 0)

-- The points of a payload, and the delay that is left for the next payload: `l` is the payload from
-- the first byte of the window that ends at `i`, and no point is set for the next `delay` windows.
unfoldable pub pack_points : ℕ → ℕ → List ℕ → List ℕ × ℕ
pack_points i delay [] = ([], delay)
pack_points i delay (a ∷ l) =
    let found = delay == 0 && is_point (take pack_num (a ∷ l)) in
    let more = pack_points (i + 1) (if found then pack_step else delay - 1) l in
    if ltb (length (a ∷ l)) pack_num
    then ([], delay)
    else if found
    then (i ∷ more.0, more.1)
    else more

pub pack_points_short :
    (i delay : ℕ) (l : List ℕ) → length l < pack_num → pack_points i delay l ≡ ([], delay)
unfolding pack_points
pack_points_short i delay [] h = refl
pack_points_short i delay (a ∷ l) h =
    let short : ltb (length (a ∷ l)) pack_num ≡ true = ground arith in rw short refl

module _ (i delay a : ℕ) (l : List ℕ) (p : pack_num ≤ length (a ∷ l)) where
  long : ltb (length (a ∷ l)) pack_num ≡ false
  long = ground arith

  pub pack_points_wait :
      delay == 0 ≡ false → pack_points i delay (a ∷ l) ≡ pack_points (i + 1) (delay - 1) l
  unfolding pack_points
  pack_points_wait z = rw (long, z, pack_points) refl

  pub pack_points_found :
      delay == 0 ≡ true
      → is_point (take pack_num (a ∷ l)) ≡ true
      → pack_points i delay (a ∷ l)
        ≡ (i ∷ (pack_points (i + 1) pack_step l).0, (pack_points (i + 1) pack_step l).1)
  unfolding pack_points
  pack_points_found z y = rw (long, z, y, pack_points) refl

  pub pack_points_missed :
      delay == 0 ≡ true
      → is_point (take pack_num (a ∷ l)) ≡ false
      → pack_points i delay (a ∷ l) ≡ pack_points (i + 1) delay l
  unfolding pack_points
  pack_points_missed z y =
      let same : delay - 1 ≡ delay = ground arith in rw (long, z, y, same, pack_points) refl

get_elem?-drop : (k j : ℕ) (l : List ℕ) → get_elem? (drop k l) j ≡ get_elem? l (k + j)
get_elem?-drop zero j l = ap (get_elem? l) {x = j} (omega arith)
get_elem?-drop (suc k) j [] = refl
get_elem?-drop (suc k) j (x ∷ l) =
    get_elem?-drop k j l ∙ ap (get_elem? (x ∷ l)) {x = suc (k + j)} (omega arith)

get_elem?-take :
    (n j : ℕ) (l : List ℕ) (d : ℕ)
    → j < n
    → n ≤ length l
    → get_elem? l j ≡ some (get_or (take n l) j d)
get_elem?-take zero j l d h p = absurd (omega arith)
get_elem?-take (suc n) j [] d h p = absurd (omega arith)
get_elem?-take (suc n) zero (x ∷ l) d h p = refl
get_elem?-take (suc n) (suc j) (x ∷ l) d h p = get_elem?-take n j l d (omega arith) (omega arith)

rm_mod : pack_rm % q60 ≡ pack_base ^ 31 % q60 % q60
unfolding pack_rm
rm_mod = refl

-- The hash that the loop carries is the hash of the next window.
next_lem :
    (o c h : ℕ) (w : List ℕ)
    → length w ≡ 31
    → h ≡ hash_from pack_base q60 0 (o ∷ w)
    → pack_roll pack_base q60 pack_rm h o c ≡ hash_from pack_base q60 0 (w ++ c ∷ [])
next_lem o c h w n e =
    pack_roll-roll pack_base pack_rm (pack_base ^ 31 % q60) h o c rm_mod
    ∙ rw e (
        roll_lem pack_base (pack_base ^ 31 % q60) o c w
          (ap (λ (m : ℕ). pack_base ^ m % q60) (sym n)))

module _ (playload : List ℕ) where
  check_data_point-window :
      (k : ℕ) (l : List ℕ)
      → drop k playload ≡ l
      → pack_num ≤ length l
      → check_data_point playload (k + 31)
        ≡ some (near (get_or (take 32 l) 30 0) (get_or (take 32 l) 31 0))
  unfolding check_data_point
  check_data_point-window k l e p =
      let a : get_elem? playload (k + 31 - 1) ≡ some (get_or (take 32 l) 30 0) =
        ap (get_elem? playload) (omega arith)
        ∙ sym (get_elem?-drop k 30 playload)
        ∙ rw e (get_elem?-take 32 30 l 0 (omega arith) p) in
      let b : get_elem? playload (k + 31) ≡ some (get_or (take 32 l) 31 0) =
        sym (get_elem?-drop k 31 playload) ∙ rw e (get_elem?-take 32 31 l 0 (omega arith) p) in
      let positive : ltb 0 (k + 31) ≡ true = ground arith in rw (positive) (rw a (rw b refl))

  -- What a step of the loop does, in the terms of the description.
  record Step (i : ℕ) (a : ℕ) (l : List ℕ) (s s' : Marks) : Type 0 where
    points :
        s.index ++ (pack_points i s.delay_time (a ∷ l)).0
        ≡ s'.index ++ (pack_points (i + 1) s'.delay_time l).0
    delay : (pack_points i s.delay_time (a ∷ l)).1 ≡ (pack_points (i + 1) s'.delay_time l).1

  here_lem :
      (k i h a : ℕ) (l : List ℕ) (s : Marks)
      → i ≡ k + 31
      → drop k playload ≡ a ∷ l
      → pack_num ≤ length (a ∷ l)
      → h ≡ hash_from pack_base q60 0 (take pack_num (a ∷ l))
      → length s.index + length (pack_points i s.delay_time (a ∷ l)).0 ≤ plen
      → (s' : Marks) × (mark_here playload i h s ≡ some s') × Step i a l s s'
  unfolding mark_here is_point part_set
  here_lem k i h a l s at_k e p eh fits =
      let w = take pack_num (a ∷ l) in
      let check : check_data_point playload i ≡ some (near (get_or w 30 0) (get_or w 31 0)) =
        ap (check_data_point playload) at_k ∙ check_data_point-window k (a ∷ l) e p in
      elim (Bool-cases (s.delay_time == 0)) [
        | inr z ↦
            let d = pack_points_wait i s.delay_time a l p z in
            (
              record s { delay_time = s.delay_time - 1 },
              rw (z, mark_here) refl,
              record { points = rw d refl; delay = rw d refl },
            )
        | inl z ↦ elim (Bool-cases (is_point w)) [
          | inl y ↦
              let d = pack_points_found i s.delay_time a l p z y in
              let free : leb plen (length s.index) ≡ false =
                ground (arith, ap (λ (q : List ℕ × ℕ). length (q.0)) d) in
              let hit : (bit_and h 63 == 0 || near (get_or w 30 0) (get_or w 31 0)) ≡ true =
                rw eh y in
              (
                record { index = s.index ++ i ∷ []; delay_time = pack_step },
                rw (z, check, mark_here) (rw (hit, free) refl),
                record { points = rw d (sym (append_assoc s.index (i ∷ []) _)); delay = rw d refl },
              )
          | inr y ↦
              let d = pack_points_missed i s.delay_time a l p z y in
              let hit : (bit_and h 63 == 0 || near (get_or w 30 0) (get_or w 31 0)) ≡ false =
                rw eh y in
              (
                s,
                rw (z, check, mark_here) (rw hit refl),
                record { points = rw d refl; delay = rw d refl },
              )
        ]
      ]

  fits_later :
      (i a : ℕ) (l : List ℕ) (s s' : Marks)
      → Step i a l s s'
      → length s.index + length (pack_points i s.delay_time (a ∷ l)).0 ≤ plen
      → length s'.index + length (pack_points (i + 1) s'.delay_time l).0 ≤ plen
  fits_later i a l s s' t fits = omega (
    arith,
    ap length t.points,
    length-append s.index (pack_points i s.delay_time (a ∷ l)).0,
    length-append s'.index (pack_points (i + 1) s'.delay_time l).0,
  )

  -- What the rest of the loop does.
  abbrev Rest : ℕ → ℕ → List ℕ → List ℕ → Marks → Type 0
  Rest i h l new s =
      (s' : Marks) × (mark_loop pack_rm playload i h l new s ≡ some s')
      × (s'.index ≡ s.index ++ (pack_points i s.delay_time (drop 1 l)).0)
      × (s'.delay_time ≡ (pack_points i s.delay_time (drop 1 l)).1)

  stops_lem :
      (i h : ℕ) (l : List ℕ) (s : Marks)
      → length (drop 1 l) < pack_num
      → mark_loop pack_rm playload i h l [] s ≡ some s
      → Rest i h l [] s
  stops_lem i h l s short e =
      let none_left = pack_points_short i s.delay_time (drop 1 l) short in
      (s, e, rw none_left (sym (append-nil s.index)), rw none_left refl)

  loop_lem :
      (k i : ℕ) (l new : List ℕ) (h : ℕ) (s : Marks)
      → i ≡ k + 32
      → drop k playload ≡ l
      → drop pack_num l ≡ new
      → h ≡ hash_from pack_base q60 0 (take pack_num l)
      → length s.index + length (pack_points i s.delay_time (drop 1 l)).0 ≤ plen
      → Rest i h l new s
  unfolding mark_loop
  loop_lem k i [] [] h s at_k dp d e fits = stops_lem i h [] s (omega arith) refl
  loop_lem k i [] (c ∷ new) h s at_k dp d e fits = cc
  loop_lem k i (o ∷ old) [] h s at_k dp d e fits =
      stops_lem i h (o ∷ old) s (omega (arith, length-drop pack_num (o ∷ old), ap length d)) refl
  loop_lem k i (o ∷ []) (c ∷ new) h s at_k dp d e fits = cc
  loop_lem k i (o ∷ a ∷ old) (c ∷ new) h s at_k dp d e fits =
      let l : List ℕ = a ∷ old in
      let room : pack_num ≤ length l = omega (arith, length-drop 31 l, ap length d) in
      let h' = pack_roll pack_base q60 pack_rm h o c in
      let e' : h' ≡ hash_from pack_base q60 0 (take pack_num l) =
        next_lem o c h (take 31 l) (omega (arith, length-take 31 l)) e
        ∙ ap (hash_from pack_base q60 0) (sym (take-suc 31 l d)) in
      let next : drop (suc k) playload ≡ l = drop-suc k playload dp in
      let (s', m, t) = here_lem (suc k) i h' a old s (omega arith) next room e' fits in
      let (s'', m', points, delay) =
        loop_lem (suc k) (i + 1) l new h' s' (omega arith) next (drop-suc 31 l d) e'
          (fits_later i a old s s' t fits) in
      (s'', rw m m', points ∙ sym t.points, delay ∙ sym t.delay)

part_set-some :
    (index : List ℕ) (x : ℕ) → length index < plen → part_set index x ≡ some (index ++ x ∷ [])
unfolding part_set
part_set-some index x h = let free : leb plen (length index) ≡ false = ground arith in rw free refl

marks_eq :
    (s : Marks) {index : List ℕ} {delay : ℕ}
    → s.index ≡ index
    → s.delay_time ≡ delay
    → s ≡ record { index = index; delay_time = delay }
marks_eq s p q = λ i. record { index = p i; delay_time = q i }

-- For a payload of at least 32 bytes and room in the array of points: pack_calculate_part records
-- the number of packets, the length of the payload, and then, in order, exactly the points that
-- looking at each window by itself finds, with the delay that was left by the payload before.
pub pack_calculate_part-points :
    (count_packet : ℕ) (playload : List ℕ) (s : Marks)
    → pack_num ≤ length playload
    → length s.index + 2 + length (pack_points 31 s.delay_time playload).0 ≤ plen
    → pack_calculate_part count_packet playload s
      ≡ some (record {
        index =
            s.index ++ count_packet ∷ length playload ∷ (pack_points 31 s.delay_time playload).0;
        delay_time = (pack_points 31 s.delay_time playload).1;
      })
unfolding pack_calculate_part pack_hash
pack_calculate_part-points count_packet [] s p fits = absurd (omega arith)
pack_calculate_part-points count_packet (a ∷ l) s p fits =
    let playload : List ℕ = a ∷ l in
    let n = length playload in
    let i₁ : List ℕ = s.index ++ count_packet ∷ [] in
    let i₂ : List ℕ = i₁ ++ n ∷ [] in
    let s₀ : Marks = record s { index = i₂ } in
    let h = pack_hash playload pack_num pack_base q60 in
    let one : length i₁ ≡ length s.index + 1 = length-append s.index (count_packet ∷ []) in
    let two : length i₂ ≡ length i₁ + 1 = length-append i₁ (n ∷ []) in
    let e₁ = part_set-some s.index count_packet (omega (arith, fits)) in
    let e₂ = part_set-some i₁ n (omega (arith, fits, one)) in
    let fits₀ : length i₂ + length (pack_points 31 s.delay_time playload).0 ≤ plen =
      omega (arith, fits, one, two) in
    let (s', m, t) = here_lem playload 0 31 h a l s₀ refl refl p refl fits₀ in
    let (s'', m', points, delay) =
      loop_lem playload 0 32 playload (drop pack_num playload) h s' refl refl refl refl
        (fits_later playload 31 a l s₀ s' t fits₀) in
    let header : i₂ ++ (pack_points 31 s.delay_time playload).0
        ≡ s.index ++ count_packet ∷ n ∷ (pack_points 31 s.delay_time playload).0 =
      append_assoc i₁ (n ∷ []) _ ∙ append_assoc s.index (count_packet ∷ []) _ in
    rw e₁ (
      rw e₂
        (rw m (m' ∙ ap some (marks_eq s'' (points ∙ sym t.points ∙ header) (delay ∙ sym t.delay)))))
