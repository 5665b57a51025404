-- ===== src/KernelHash/Table/Invariant.antt =====
-- The invariant of the table of model/kernel_hash/hash_table.c, kept by adding, by looking up and by
-- the timer of a bucket.
use kernel_test.KernelHash.Table.Added.{hash_new_item-cases, Added}
use kernel_test.KernelHash.Sweep.{expired}
use kernel_test.KernelHash.Sweep.Survivors.{sweep-survivors, aged, survivors}
use kernel_test.Base.{
  true, ◌&&◌, if◌then◌else◌, false, ◌⊎◌, none, refl, ◌==◌, Option, Option-cases, ℕ, ◌+◌, ◌^◌, ◌≤◌,
  ◌<◌, ◌≡◌, List, [], ◌∷◌, some, ◌>>=◌, Bool-cases, inl, inr, arith, some_eq, >>=-eq-some,
}
use kernel_test.KernelHash.Item.{Item}
use kernel_test.KernelHash.Sweep.Safety.{sweep-AllSound, Sound, AllSound}
use kernel_test.KernelHash.Table.{
  Ward, bucket_clear_item, Answers, hash_new_item, put_bucket, get_hash_item, Cache, bkt_of,
  same_sha, touch, find_item,
}

-- Each item stands in the bucket that its digest picks, and is referred to by the table and by at
-- most `n - 1` others.
abbrev pub AllAt : ℕ → ℕ → List Item → Type 0
AllAt n b [] = Unit
AllAt n b (cp ∷ cps) =
    (bkt_of cp.sha1 ≡ b) × (0 < cp.share_ref) × (cp.share_ref ≤ n) × AllAt n b cps

pub record IsValid (n : ℕ) (c : Cache) : Type 0 where
  pub sound : (b : ℕ) → AllSound (c.tab b)
  pub placed : (b : ℕ) → AllAt n b (c.tab b)

AllAt-weaken : (n b : ℕ) (cps : List Item) → AllAt n b cps → AllAt (n + 1) b cps
AllAt-weaken n b [] h = tt
AllAt-weaken n b (cp ∷ cps) h = (h.0, h.1, omega (arith, h.2), AllAt-weaken n b cps h.3)

touch-Sound : (cp : Item) → Sound cp → 0 < cp.share_ref → cp.share_ref < 2 ^ 31 → Sound (touch cp)
unfolding touch
touch-Sound cp s p q = ground arith

-- What a hit does to its bucket.
find_item-AllAt :
    (info : List ℕ) (n b : ℕ) (cps : List Item) {r : Item × List Item}
    → n < 2 ^ 31
    → AllSound cps
    → AllAt n b cps
    → find_item info cps ≡ some r
    → AllSound r.1 × AllAt (n + 1) b r.1
unfolding find_item
find_item-AllAt info n b [] lt s h e = cc
find_item-AllAt info n b (cp ∷ cps) {r} lt s h e = elim (Bool-cases (same_sha cp.sha1 info)) [
  | inl y ↦
      let e' : some (cp, touch cp ∷ cps) ≡ some r = rw (y, find_item) at e in
      rw (← some_eq e') (
        (touch-Sound cp s.0 h.1 (omega (arith, h.2)), s.1),
        (
          h.0,
          touch_pos cp h.1 (omega (arith, h.2)),
          touch_bound cp h.2 (omega (arith, h.2)),
          AllAt-weaken n b cps h.3,
        ),
      )
  | inr y ↦
      let e' : (find_item info cps >>= λ q. some (q.0, cp ∷ q.1)) ≡ some r =
        rw (y, find_item) at e in
      let (q, f, g) = >>=-eq-some (find_item info cps) (λ q. some (q.0, cp ∷ q.1)) e' in
      let (t, u) = find_item-AllAt info n b cps lt s.1 h.3 f in
      rw (← some_eq g) ((s.0, t), (h.0, h.1, omega (arith, h.2), u))
]
  where
    touch_pos : (cp : Item) → 0 < cp.share_ref → cp.share_ref < 2 ^ 31 → 0 < (touch cp).share_ref
    touch_pos cp p q = unfold touch in (omega arith)

    touch_bound :
        (cp : Item) → cp.share_ref ≤ n → cp.share_ref < 2 ^ 31 → (touch cp).share_ref ≤ n + 1
    touch_bound cp p q = unfold touch in (omega arith)

module _ (n b : ℕ) (c c' : Cache) (cps : List Item) (e : c'.tab ≡ put_bucket b cps c.tab) where
  put_bucket-IsValid : IsValid n c → AllSound cps → AllAt n b cps → IsValid n c'
  put_bucket-IsValid v s h = record {
    sound = λ i. rw e (sound_at i);
    placed = λ i. rw e (placed_at i);
  }
    where
      sound_at : (i : ℕ) → AllSound (put_bucket b cps c.tab i)
      sound_at i = elim (Bool-cases (i == b)) [ inl y ↦ rw y s | inr y ↦ rw y (v.sound i) ]

      placed_at : (i : ℕ) → AllAt n i (put_bucket b cps c.tab i)
      placed_at i = elim (Bool-cases (i == b)) [
        | inl y ↦ let same : i ≡ b = ground arith in rw (y, same) h
        | inr y ↦ rw y (v.placed i)
      ]

IsValid-weaken : (n : ℕ) (c : Cache) → IsValid n c → IsValid (n + 1) c
IsValid-weaken n c v = record {
  sound = v.sound;
  placed = λ b. AllAt-weaken n b (c.tab b) (v.placed b);
}

-- A look-up in a valid table with at most `n` references to each item, `n < 2^31`, leaves a valid table
-- with at most `n + 1`.
pub get_hash_item-IsValid :
    (info : List ℕ) (n : ℕ) (c : Cache)
    → n < 2 ^ 31
    → IsValid n c
    → IsValid (n + 1) (get_hash_item info c).1
unfolding get_hash_item
get_hash_item-IsValid info n c lt v = elim (Option-cases (find_item info (c.tab (bkt_of info)))) [
  | inl e ↦ rw (e, get_hash_item) (IsValid-weaken n c v)
  | inr (r, e) ↦
      let b = bkt_of info in
      let (s, h) = find_item-AllAt info n b (c.tab b) lt (v.sound b) (v.placed b) e in
      rw (e, get_hash_item) (put_bucket-IsValid (n + 1) b c _ r.1 refl (IsValid-weaken n c v) s h)
]

-- A call of `hash_new_item` that does not stop leaves a valid table valid, whether it adds an item or
-- returns NULL.
pub hash_new_item-IsValid :
    (hash_max_count : ℕ) (ans : Answers) (info value : List ℕ) (len_value n : ℕ) (c : Cache)
    {r : Option Item × Cache}
    → 0 < n
    → IsValid n c
    → hash_new_item hash_max_count ans info value len_value c ≡ some r
    → IsValid n r.1
hash_new_item-IsValid hash_max_count ans info value len_value n c {r} pos v e =
    go (hash_new_item-cases hash_max_count ans info value len_value c e)
  where
    go :
        (r ≡ (none, c)) ⊎ ((cp : Item) × (r.0 ≡ some cp) × Added info value len_value c cp r.1)
        → IsValid n r.1
    go (inl e) = rw e v
    go (inr (cp, e, a)) =
        let b = bkt_of cp.sha1 in
        let sound : Sound cp = rw a.flag_cache (a.held, rw a.cpuid refl) in
        put_bucket-IsValid n b c (r.1) (cp ∷ c.tab b) a.tab v (sound, v.sound b)
          (refl, rw a.share_ref (omega arith), rw a.share_ref pos, v.placed b)

survivors-AllAt : (n b : ℕ) (cps : List Item) → AllAt n b cps → AllAt n b (survivors cps)
unfolding survivors aged
survivors-AllAt n b [] h = tt
survivors-AllAt n b (cp ∷ cps) h = elim (Bool-cases (expired cp)) [
  | inl x ↦ rw x (survivors-AllAt n b cps h.3)
  | inr x ↦ rw x (h.0, h.1, h.2, survivors-AllAt n b cps h.3)
]

-- In a valid table the timer of a bucket never stops at a `BUG()`, and keeps the invariant.
pub bucket_clear_item-IsValid :
    (b n : ℕ) (c : Cache)
    → IsValid n c
    → (c' : Cache) × (bucket_clear_item b c ≡ some c') × IsValid n c'
unfolding bucket_clear_item
bucket_clear_item-IsValid b n c v =
    let w : Ward = record {
      stats = c.stats;
      hash_count = c.hash_count;
      bitmap = c.bitmap;
      flag = false;
    } in
    let (r, e, s) = sweep-AllSound (c.tab b) w (v.sound b) in
    let c' : Cache = record c {
      tab = put_bucket b (r.0) c.tab;
      stats = r.1.stats;
      hash_count = r.1.hash_count;
      bitmap = r.1.bitmap;
      pending = λ i. if i == b && r.1.flag then true else c.pending i;
    } in
    let at : AllAt n b r.0 =
      rw (sweep-survivors (c.tab b) w e) (survivors-AllAt n b (c.tab b) (v.placed b)) in
    (c', rw e, put_bucket-IsValid n b c c' r.0 refl v s at)
