-- ===== src/SendModule/Entries/Ageing.antt =====
-- How the buckets of model/send_module/hash_table.c age.
use kernel_test.Base.{
  ℕ, zero, suc, ◌+◌, ◌-◌, ◌≤◌, ◌<◌, ◌^◌, ◌≡◌, refl, sym, ap, ◌∙◌, true, false, List, [], ◌∷◌,
  length, ltb, ◌==◌, if◌then◌else◌, Bool-cases, inl, inr, arith, dec32, sle, u32, ◌≢◌,
}
use native.Mathlib.Numerals.{unary_clauses}
use kernel_test.SendModule.Entries.{Entry, Entries, clear_entries, bucket_clear_item}

-- The entries of a bucket are cited, and their counts are positive as signed numbers.
abbrev pub AllCited : List Entry → Type 0
AllCited [] = Unit
AllCited (cp ∷ cps) = (0 < cp.refcnt) × (cp.refcnt < 2 ^ 31) × AllCited cps

-- What is left of a bucket after `n` rounds: the entries that are cited more than `n` times.
unfoldable pub aged : ℕ → List Entry → List Entry
aged n [] = []
aged n (cp ∷ cps) =
    let rest = aged n cps in
    if ltb n cp.refcnt then record cp { refcnt = cp.refcnt - n } ∷ rest else rest

-- `n` runs of the timer of bucket `b`.
unfoldable pub clear_rounds : ℕ → ℕ → Entries → Entries
clear_rounds zero b t = t
clear_rounds (suc n) b t = bucket_clear_item b (clear_rounds n b t)

aged-AllCited : (n : ℕ) (cps : List Entry) → AllCited cps → AllCited (aged n cps)
unfolding aged
aged-AllCited n [] h = tt
aged-AllCited n (cp ∷ cps) h = elim (Bool-cases (ltb n cp.refcnt)) [
  | inl y ↦
      let lt : n < cp.refcnt = ground arith in
      rw y (omega arith, omega (arith, h.1), aged-AllCited n cps h.2)
  | inr y ↦ rw y (aged-AllCited n cps h.2)
]

aged_zero : (cps : List Entry) → AllCited cps → aged 0 cps ≡ cps
unfolding aged
aged_zero [] h = refl
aged_zero (cp ∷ cps) h =
    let y : ltb 0 cp.refcnt ≡ true = ground arith in
    rw (y, aged_zero cps h.2) (simp unary_clauses refl)

aged-aged : (n : ℕ) (cps : List Entry) → AllCited cps → aged 1 (aged n cps) ≡ aged (suc n) cps
unfolding aged
aged-aged n [] h = refl
aged-aged n (cp ∷ cps) h = ground (arith, aged-aged n cps h.2)

length-aged : (n : ℕ) (cps : List Entry) → length (aged n cps) ≤ length cps
unfolding aged
length-aged n [] = omega arith
length-aged n (cp ∷ cps) = ground (arith, length-aged n cps)

clear_entries-aged :
    (cps : List Entry) (hash_count : ℕ)
    → AllCited cps
    → length cps ≤ hash_count
    → hash_count < u32
    → ((clear_entries cps hash_count).0 ≡ aged 1 cps)
      × ((clear_entries cps hash_count).1 + length cps ≡ hash_count + length (aged 1 cps))
unfolding clear_entries aged
clear_entries-aged [] hash_count h fits small = (refl, refl)
clear_entries-aged (cp ∷ cps) hash_count h fits small = elim (Bool-cases (ltb 1 cp.refcnt)) [
  | inl y ↦
      let more : sle cp.refcnt 1 ≡ false = ground arith in
      let one : dec32 cp.refcnt ≡ cp.refcnt - 1 = omega (arith, h.1) in
      let (kept, count) = clear_entries-aged cps hash_count h.2 (omega arith) small in
      rw (y, more, clear_entries) (rw (kept, one) refl, omega (arith, count))
  | inr y ↦
      let over : sle cp.refcnt 1 ≡ true = ground arith in
      let one : dec32 hash_count ≡ hash_count - 1 = omega arith in
      let (kept, count) = clear_entries-aged cps (hash_count - 1) h.2 (omega arith) (omega arith) in
      rw (y, over, one, clear_entries) (kept, omega (arith, count))
]

-- After `n` runs of its timer a bucket holds the entries that were cited more than `n` times, in
-- order and with `n` citations less. The other buckets are as they were, and `hash_count` has gone down by the number of
-- entries that are gone. The counts of the bucket are positive signed numbers to begin with, and
-- `hash_count` counts at least its entries.
pub clear_rounds-aged :
    (n b : ℕ) (t : Entries)
    → AllCited (t.tab b)
    → length (t.tab b) ≤ t.hash_count
    → t.hash_count < u32
    → ((clear_rounds n b t).tab b ≡ aged n (t.tab b))
      × ((i : ℕ) → i ≢ b → (clear_rounds n b t).tab i ≡ t.tab i)
      × ((clear_rounds n b t).hash_count + length (t.tab b)
          ≡ t.hash_count + length (aged n (t.tab b)))
unfolding clear_rounds bucket_clear_item
clear_rounds-aged zero b t h fits small =
    (sym (aged_zero (t.tab b) h), (λ i ne. refl), rw (aged_zero (t.tab b) h) refl)
clear_rounds-aged (suc n) b t h fits small =
    let (tab, others, count) = clear_rounds-aged n b t h fits small in
    let s : Entries = clear_rounds n b t in
    let fewer : length (aged n (t.tab b)) ≤ length (t.tab b) = length-aged n (t.tab b) in
    let sizes : length (s.tab b) ≡ length (aged n (t.tab b)) = ap length tab in
    let (kept, count') =
      clear_entries-aged (s.tab b) s.hash_count (rw tab (aged-AllCited n (t.tab b) h))
        (omega (arith, count, sizes)) (omega (arith, count, sizes)) in
    let last : aged 1 (s.tab b) ≡ aged (suc n) (t.tab b) = rw tab (aged-aged n (t.tab b) h) in
    let here : b == b ≡ true = ground arith in
    (
      rw here (kept ∙ last),
      (λ i ne. let there : i == b ≡ false = ground arith in rw there (others i ne)),
      omega (arith, count, count', sizes, ap length last),
    )
