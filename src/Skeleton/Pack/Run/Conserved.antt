-- ===== src/Skeleton/Pack/Run/Conserved.antt =====
-- The bytes of a capture through model/c-skeleton/src/pack.c: no byte is lost between payloads.
use mathlib.Core.Path.{subst}
use mathlib.Core.List.{flatten, append-nil, append_assoc}
use kernel_test.Base.{
  ℕ, ◌+◌, ◌-◌, ◌≤◌, ◌<◌, ◌%◌, ◌≡◌, refl, sym, ap, ◌∙◌, Bool, true, List, [], ◌∷◌, ◌++◌, Option,
  some, length, length-append, take, ltb, ◌==◌, Bool-cases, inl, inr, arith, add64, u64,
}
use kernel_test.Skeleton.Chunk.Merging.{Holds, Holds-length}
use kernel_test.Skeleton.Pack.{pack_num, pack_step, plen}
use kernel_test.Skeleton.Pack.Points.{
  pack_points, is_point, pack_points_short, pack_points_wait, pack_points_found, pack_points_missed,
  pack_calculate_part-points,
}
use kernel_test.Skeleton.Pack.Pieces.{
  Increasing, pieces, left_over, pieces-flatten, digest_all, digest_all-cons, pack_sha-pieces,
}
use kernel_test.Skeleton.Pack.Run.{Session, pack_payload, pack_payloads}

-- The points lie between the end of the first window and the end of the payload, and there are no more of them
-- than windows.
record Within (i n : ℕ) (ps : List ℕ) : Type 0 where
  increasing : Increasing i n ps
  few : length ps + i ≤ n

Increasing-weaken :
    (lo lo' n : ℕ) (ps : List ℕ) → lo ≤ lo' → Increasing lo' n ps → Increasing lo n ps
Increasing-weaken lo lo' n [] p h = tt
Increasing-weaken lo lo' n (x ∷ ps) p h = (omega (arith, h.0), h.1, h.2)

pack_points-Within :
    (i delay n : ℕ) (l : List ℕ)
    → i + length l ≡ n + 31
    → i ≤ n
    → Within i n (pack_points i delay l).0
pack_points-Within i delay n [] e h = absurd (omega arith)
pack_points-Within i delay n (a ∷ l) e h = elim (Bool-cases (ltb (length (a ∷ l)) pack_num)) [
  | inl short ↦
      let stop = pack_points_short i delay (a ∷ l) (ground arith) in
      rw stop (record { increasing = tt; few = omega arith })
  | inr long ↦
      let p : pack_num ≤ length (a ∷ l) = ground arith in
      let rest = λ (d : ℕ). pack_points-Within (i + 1) d n l (omega arith) (omega arith) in
      let later = λ (d : ℕ). skip d (rest d) in
      elim (Bool-cases (delay == 0)) [
        | inr z ↦ rw (pack_points_wait i delay a l p z) (later (delay - 1))
        | inl z ↦ elim (Bool-cases (is_point (take pack_num (a ∷ l)))) [
          | inl y ↦ rw (pack_points_found i delay a l p z y) (record {
            increasing = (omega arith, omega arith, (rest pack_step).increasing);
            few = omega (arith, (rest pack_step).few);
          })
          | inr y ↦ rw (pack_points_missed i delay a l p z y) (later delay)
        ]
      ]
]
  where
    skip :
        (d : ℕ)
        → Within (i + 1) n (pack_points (i + 1) d l).0
        → Within i n (pack_points (i + 1) d l).0
    skip d w = record {
      increasing = Increasing-weaken i (i + 1) n _ (omega arith) w.increasing;
      few = omega (arith, w.few);
    }

payload_points :
    (delay : ℕ) (playload : List ℕ)
    → pack_num ≤ length playload
    → Increasing 0 (length playload) (pack_points 31 delay playload).0
      × (length (pack_points 31 delay playload).0 ≤ length playload)
payload_points delay playload h =
    let w = pack_points-Within 31 delay (length playload) playload (omega arith) (omega arith) in
    (Increasing-weaken 0 31 _ _ (omega arith) w.increasing, omega (arith, w.few))

-- Payloads that printPcap does not pass over, and that cannot fill the array of points.
abbrev pub AllFit : List (List ℕ) → Type 0
AllFit [] = Unit
AllFit (x ∷ xs) = (pack_num ≤ length x) × (length x + 2 ≤ plen) × AllFit xs

-- The pieces of the payloads in order, and what is left over at the end.
unfoldable pub all_pieces : ℕ → List ℕ → List (List ℕ) → List (List ℕ) × List ℕ
unfolding pieces left_over
all_pieces delay left [] = ([], left)
all_pieces delay left (x ∷ xs) =
    let q = pack_points 31 delay x in
    let r = all_pieces (q.1) (left_over left x (q.0)) xs in (pieces left x (q.0) ++ r.0, r.1)

-- Every byte of the payloads stands in one piece or is left over at the end, in order.
pub all_pieces-flatten :
    (delay : ℕ) (left : List ℕ) (xs : List (List ℕ))
    → AllFit xs
    → flatten (all_pieces delay left xs).0 ++ (all_pieces delay left xs).1 ≡ left ++ flatten xs
unfolding all_pieces flatten
all_pieces-flatten delay left [] h = sym (append-nil left)
all_pieces-flatten delay left (x ∷ xs) h =
    let q = pack_points 31 delay x in
    let r = all_pieces (q.1) (left_over left x (q.0)) xs in
    ap (λ (l : List ℕ). l ++ r.1) (flatten-append (pieces left x (q.0)) (r.0))
    ∙ append_assoc (flatten (pieces left x (q.0))) (flatten (r.0)) (r.1)
    ∙ ap (λ (l : List ℕ). flatten (pieces left x (q.0)) ++ l)
        (all_pieces-flatten (q.1) (left_over left x (q.0)) xs h.2)
    ∙ sym (append_assoc (flatten (pieces left x (q.0))) (left_over left x (q.0)) (flatten xs))
    ∙ ap (λ (l : List ℕ). l ++ flatten xs)
        (pieces-flatten left x (q.0) (payload_points delay x h.0).0)
    ∙ append_assoc left x (flatten xs)
  where
    flatten-append : (as' bs : List (List ℕ)) → flatten (as' ++ bs) ≡ flatten as' ++ flatten bs
    flatten-append [] bs = refl
    flatten-append (a ∷ as') bs =
        ap (λ (l : List ℕ). a ++ l) (flatten-append as' bs) ∙ sym (append_assoc a _ _)

module _ {ℓ} {S : Type ℓ} (digest : List ℕ → ℕ → S → Option (Bool × S)) where
  digest_all-append :
      (xs ys : List (List ℕ)) (s s' : S)
      → digest_all digest (xs ++ ys) s ≡ some (true, s')
      → (t : S) × (digest_all digest xs s ≡ some (true, t))
        × (digest_all digest ys t ≡ some (true, s'))
  unfolding digest_all
  digest_all-append [] ys s s' e = (s, refl, e)
  digest_all-append (x ∷ xs) ys s s' e =
      let (t, e₁, e₂) = digest_all-cons digest x (xs ++ ys) s s' e in
      let (u, f₁, f₂) = digest_all-append xs ys t s' e₂ in (u, rw e₁ f₁, f₂)

  module _ (room : Bool) where
    pack_payload-Holds :
        (x left : List ℕ) (z : Session S) (t : S)
        → pack_num ≤ length x
        → length x + 2 ≤ plen
        → Holds z.remain left
        → z.remain.end + length x ≤ z.remain.limit
        → let q = pack_points 31 z.delay_time x in
          digest_all digest (pieces left x (q.0)) z.digests ≡ some (true, t)
          → (z' : Session S) × (pack_payload digest room x z ≡ some z')
            × Holds z'.remain (left_over left x (q.0))
            × (z'.remain.limit ≡ z.remain.limit)
            × (z'.delay_time ≡ q.1)
            × (z'.digests ≡ t)
            × (z'.sum_len ≡ add64 z.sum_len (length x))
    unfolding pack_payload
    pack_payload-Holds x left z t long short h fits e =
        let (inc, few) = payload_points z.delay_time x long in
        let marked =
          pack_calculate_part-points 0 x (record { index = []; delay_time = z.delay_time }) long
            (omega (arith, few)) in
        let (ck, ep, hc, same) =
          pack_sha-pieces digest room x 0 (length x) (pack_points 31 z.delay_time x).0 z.remain left
            z.digests t h (omega arith) inc fits e in
        (
          record {
            delay_time = (pack_points 31 z.delay_time x).1;
            remain = ck;
            digests = t;
            sum_len = add64 z.sum_len (length x);
          },
          rw marked (rw ep refl),
          hc,
          same,
          refl,
          refl,
          refl,
        )

    flatten-nil : length (flatten {A = ℕ} []) ≡ 0
    unfolding flatten
    flatten-nil = refl

    flatten-cons :
        (x : List ℕ) (xs : List (List ℕ))
        → length (flatten (x ∷ xs)) ≡ length x + length (flatten xs)
    unfolding flatten
    flatten-cons x xs = length-append x (flatten xs)

    left_over-length :
        (left x ps : List ℕ)
        → Increasing 0 (length x) ps
        → length (left_over left x ps) ≤ length left + length x
    left_over-length left x ps h = omega (
      arith,
      ap length (pieces-flatten left x ps h),
      length-append (flatten (pieces left x ps)) (left_over left x ps),
      length-append left x,
    )

    -- For payloads of 32 to 20998 bytes each, a chunk that holds `left` and has room for all of their bytes behind it, and any
    -- way of looking up a digest that goes on with each piece: the run over the payloads does not stop, and looks up
    -- the pieces of all payloads in order. Afterwards the chunk holds what is left
    -- over at the end, and `sum_len` has grown by the number of bytes, modulo 2 ^ 64.
    pub pack_payloads-all_pieces :
        (xs : List (List ℕ)) (left : List ℕ) (z : Session S) (s' : S)
        → AllFit xs
        → Holds z.remain left
        → length left + length (flatten xs) ≤ z.remain.limit
        → z.sum_len < u64
        → digest_all digest (all_pieces z.delay_time left xs).0 z.digests ≡ some (true, s')
        → (z' : Session S) × (pack_payloads digest room xs z ≡ some z')
          × (z'.digests ≡ s')
          × Holds z'.remain (all_pieces z.delay_time left xs).1
          × (z'.sum_len ≡ (z.sum_len + length (flatten xs)) % u64)
    unfolding pack_payloads all_pieces digest_all
    pack_payloads-all_pieces [] left z s' all h fits small e =
        (z, refl, cc, h, omega (arith, flatten-nil))
    pack_payloads-all_pieces (x ∷ xs) left z s' all h fits small e =
        let q = pack_points 31 z.delay_time x in
        let left' = left_over left x (q.0) in
        let size = flatten-cons x xs in
        let (t, e₁, e₂) =
          digest_all-append (pieces left x (q.0)) (all_pieces (q.1) left' xs).0 z.digests s' e in
        let end' = Holds-length z.remain left h in
        let (z₁, ez, h₁, same, delay, look, sum) =
          pack_payload-Holds x left z t all.0 all.1 h (omega (arith, end', size, fits)) e₁ in
        let less = left_over-length left x (q.0) (payload_points z.delay_time x all.0).0 in
        let e₃ : digest_all digest (all_pieces z₁.delay_time left' xs).0 z₁.digests
            ≡ some (true, s') =
          rw (delay, look) e₂ in
        let (z₂, ez', look', h₂, sum') =
          pack_payloads-all_pieces xs left' z₁ s' all.2 h₁ (omega (arith, less, size, fits, same))
            (omega (arith, sum)) e₃ in
        (
          z₂,
          rw ez ez',
          look',
          subst (λ (d : ℕ). Holds z₂.remain (all_pieces d left' xs).1) (delay) h₂,
          omega (arith, sum, sum', size),
        )

-- A look-up that only writes the pieces down.
abbrev pub log : List ℕ → ℕ → List (List ℕ) → Option (Bool × List (List ℕ))
log piece len written = some (true, written ++ piece ∷ [])

digest_all-log :
    (xs written : List (List ℕ)) → digest_all log xs written ≡ some (true, written ++ xs)
unfolding digest_all
digest_all-log [] written = ap (λ (l : List (List ℕ)). some (true, l)) (sym (append-nil written))
digest_all-log (x ∷ xs) written =
    digest_all-log xs (written ++ x ∷ [])
    ∙ ap (λ (l : List (List ℕ)). some (true, l)) (append_assoc written (x ∷ []) xs)

-- For payloads of 32 to 20998 bytes each and a chunk that holds `left` and has room for all of their
-- bytes behind it: the pieces whose digests are looked up, put together in order, and the bytes that the chunk
-- holds at the end, are `left` and the bytes of the payloads.
pub pack_payloads-conserved :
    (room : Bool) (xs : List (List ℕ)) (left : List ℕ) (z : Session (List (List ℕ)))
    → AllFit xs
    → Holds z.remain left
    → length left + length (flatten xs) ≤ z.remain.limit
    → z.sum_len < u64
    → z.digests ≡ []
    → (z' : Session (List (List ℕ))) × (pack_payloads log room xs z ≡ some z')
      × (flatten z'.digests ++ take z'.remain.end z'.remain.content ≡ left ++ flatten xs)
pack_payloads-conserved room xs left z all h fits small none_yet =
    let q = all_pieces z.delay_time left xs in
    let logged : digest_all log (q.0) z.digests ≡ some (true, q.0) =
      digest_all-log (q.0) z.digests ∙ ap (λ (l : List (List ℕ)). some (true, l ++ q.0)) none_yet in
    let (z', e, d, h', sum) =
      pack_payloads-all_pieces log room xs left z (q.0) all h fits small logged in
    (z', e, rw (d, h'.read) (all_pieces-flatten z.delay_time left xs all))
