-- ===== src/KernelHash/Table/Lookup.antt =====
-- Looking up what was added (model/kernel_hash/hash_table.c).
use kernel_test.KernelHash.Table.Invariant.{AllAt, IsValid}
use kernel_test.Base.{
  ◌||◌, Bool, zero, suc, ◌≢◌, suc, ℕ, ◌≡◌, refl, sym, ap, ◌∙◌, true, false, List, [], ◌∷◌, Option,
  none, some, ◌>>=◌, ◌==◌, Bool-cases, Option-cases, inl, inr, arith, take, add32, some_eq, ◌⊎◌,
}
use kernel_test.KernelHash.Params.{shalen}
use kernel_test.KernelHash.Item.{Item}
use kernel_test.KernelHash.Table.{
  hash_jen, hash_tab_size, jen_bkt, Cache, Answers, bkt_of, hash_new_item, same_sha, bytes_eq,
  touch, find_item, get_hash_item,
}
use kernel_test.KernelHash.Table.Added.{Added, hash_new_item-cases}

bytes_eq_refl : (a : List ℕ) → bytes_eq a a ≡ true
unfolding bytes_eq
bytes_eq_refl [] = refl
bytes_eq_refl (x ∷ a) = ground (arith, bytes_eq_refl a)

bytes_eq-eq : (a b : List ℕ) → bytes_eq a b ≡ true → a ≡ b
unfolding bytes_eq
bytes_eq-eq [] [] h = refl
bytes_eq-eq [] (y ∷ b) h = cc
bytes_eq-eq (x ∷ a) [] h = cc
bytes_eq-eq (x ∷ a) (y ∷ b) h = ground (arith, bytes_eq-eq a b)

pub take-take : (n : ℕ) (l : List ℕ) → take n (take n l) ≡ take n l
take-take zero l = refl
take-take (suc n) [] = refl
take-take (suc n) (x ∷ l) = ap (◌∷◌ x) (take-take n l)

-- Digests that begin with the same twenty bytes pick the same bucket.
pub bkt_of-take : (info : List ℕ) → bkt_of (take shalen info) ≡ bkt_of info
unfolding bkt_of
bkt_of-take info = rw (take-take shalen info)

same_sha-take : (info : List ℕ) → same_sha (take shalen info) info ≡ true
unfolding same_sha
same_sha-take info = rw (take-take shalen info) (bytes_eq_refl (take shalen info))

==_refl : (n : ℕ) → n == n ≡ true
==_refl n = ground arith

touch_refcnt : (cp : Item) → (touch cp).refcnt ≡ add32 cp.refcnt 6
unfolding touch
touch_refcnt cp = refl

touch_share : (cp : Item) → (touch cp).share_ref ≡ add32 cp.share_ref 1
unfolding touch
touch_share cp = refl

touch_same : (cp : Item) → ((touch cp).addr ≡ cp.addr) × ((touch cp).contents ≡ cp.contents)
unfolding touch
touch_same cp = (refl, refl)

-- A chunk that was added is found under its digest, with its bytes, with a `refcnt` of 12 and
-- two references.
pub get-hash_new_item :
    (hash_max_count : ℕ) (ans : Answers) (info value : List ℕ) (len_value : ℕ) (c : Cache)
    {cp : Item} {c' : Cache}
    → hash_new_item hash_max_count ans info value len_value c ≡ some (some cp, c')
    → (found : Item) × ((get_hash_item info c').0 ≡ some found)
      × (found.addr ≡ cp.addr)
      × (take len_value found.contents ≡ take len_value value)
      × (found.refcnt ≡ 12)
      × (found.share_ref ≡ 2)
unfolding get_hash_item
get-hash_new_item hash_max_count ans info value len_value c {cp} {c'} e =
    go (hash_new_item-cases hash_max_count ans info value len_value c e)
  where
    go :
        (◌≡◌ {A = Option Item × Cache} (some cp, c') (none, c))
          ⊎ ((cp' : Item) × (some cp ≡ some cp') × Added info value len_value c cp' c')
        → (found : Item) × ((get_hash_item info c').0 ≡ some found)
          × (found.addr ≡ cp.addr)
          × (take len_value found.contents ≡ take len_value value)
          × (found.refcnt ≡ 12)
          × (found.share_ref ≡ 2)
    go (inl f) = absurd (cc)
    go (inr (cp', f, a)) =
        let b : bkt_of cp'.sha1 ≡ bkt_of info = rw a.sha1 (bkt_of-take info) in
        let bucket : c'.tab (bkt_of info) ≡ cp' ∷ c.tab (bkt_of info) =
          rw (a.tab, b, ==_refl (bkt_of info)) refl in
        let hit : same_sha cp'.sha1 info ≡ true = rw a.sha1 (same_sha-take info) in
        let found : find_item info (c'.tab (bkt_of info))
            ≡ some (cp', touch cp' ∷ c.tab (bkt_of info)) =
          rw bucket (unfold find_item in (rw hit refl)) in
        (
          touch cp',
          rw (found, get_hash_item) refl,
          (touch_same cp').0 ∙ ap (λ (q : Item). q.addr) (sym (some_eq f)),
          rw (touch_same cp').1 a.filled,
          rw (touch_refcnt cp', a.refcnt) refl,
          rw (touch_share cp', a.share_ref) refl,
        )

-- No item of a bucket has the digest.
abbrev pub AllMiss : List ℕ → List Item → Type 0
AllMiss info [] = Unit
AllMiss info (cp ∷ cps) = (same_sha cp.sha1 info ≡ false) × AllMiss info cps

find_item-none : (info : List ℕ) (cps : List Item) → find_item info cps ≡ none → AllMiss info cps
unfolding find_item
find_item-none info [] e = tt
find_item-none info (cp ∷ cps) e = elim (Bool-cases (same_sha cp.sha1 info)) [
  | inl y ↦
      let e' : ◌≡◌ {A = Option (Item × List Item)} (some (cp, touch cp ∷ cps)) none =
        rw (y, find_item) at e in
      absurd (cc)
  | inr y ↦
      let e' : (find_item info cps >>= λ r. some (r.0, cp ∷ r.1)) ≡ none = rw (y, find_item) at e in
      (
        y,
        elim (Option-cases (find_item info cps)) [
          | inl f ↦ find_item-none info cps f
          | inr (r, f) ↦
              let e₂ : ◌≡◌ {A = Option (Item × List Item)} (some (r.0, cp ∷ r.1)) none =
                rw f at e' in
              absurd (cc)
        ],
      )
]

pub same_sha-bkt_of : (a b : List ℕ) → same_sha a b ≡ true → bkt_of a ≡ bkt_of b
unfolding same_sha bkt_of
same_sha-bkt_of a b h = ap (λ (l : List ℕ). jen_bkt hash_tab_size (hash_jen l)) (bytes_eq-eq _ _ h)

miss_elsewhere :
    (info : List ℕ) (n b : ℕ) (cps : List Item) → AllAt n b cps → bkt_of info ≢ b → AllMiss info cps
miss_elsewhere info n b [] h ne = tt
miss_elsewhere info n b (cp ∷ cps) h ne = elim (Bool-cases (same_sha cp.sha1 info)) [
  | inl y ↦ absurd (ne (sym (same_sha-bkt_of cp.sha1 info y) ∙ h.0))
  | inr y ↦ (y, miss_elsewhere info n b cps h.3 ne)
]

-- In a valid table a look-up that finds nothing says that no item of any bucket has the digest.
pub get_hash_item-none :
    (info : List ℕ) (n : ℕ) (c : Cache)
    → IsValid n c
    → (get_hash_item info c).0 ≡ none
    → (b : ℕ) → AllMiss info (c.tab b)
unfolding get_hash_item
get_hash_item-none info n c v e b = elim (Bool-cases (bkt_of info == b)) [
  | inl y ↦
      let same : bkt_of info ≡ b = ground arith in
      elim (Option-cases (find_item info (c.tab (bkt_of info)))) [
        | inl f ↦ rw (← same) (find_item-none info (c.tab (bkt_of info)) f)
        | inr (r, f) ↦ let e' : some (touch r.0) ≡ none = rw (f, get_hash_item) at e in absurd (cc)
      ]
  | inr y ↦ miss_elsewhere info n b (c.tab b) (v.placed b) (ground arith)
]

pub same_sha-take_eq : (a b : List ℕ) → same_sha a b ≡ true → take shalen a ≡ take shalen b
unfolding same_sha
same_sha-take_eq a b h = bytes_eq-eq (take shalen a) (take shalen b) h

-- One more digest that is known.
abbrev pub add_known : List ℕ → (List ℕ → Bool) → List ℕ → Bool
add_known info known d = same_sha info d || known d
