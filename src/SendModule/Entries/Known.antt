-- ===== src/SendModule/Entries/Known.antt =====
-- Which digests the table of model/send_module/hash_table.c holds.
use kernel_test.Base.{
  sext32, ℕ, ◌+◌, add32, ◌≡◌, refl, Bool, true, false, ◌||◌, List, [], ◌∷◌, none, some, take, ltb,
  ◌==◌, Bool-cases, inl, inr, arith, ◌≤◌, ◌<◌, ◌^◌, ◌%◌, u32,
}
use kernel_test.KernelHash.Params.{shalen}
use kernel_test.KernelHash.Table.{bkt_of, put_bucket, same_sha}
use kernel_test.KernelHash.Table.Lookup.{bkt_of-take, same_sha-bkt_of, take-take}
use kernel_test.SendModule.Entries.{
  Entry, Entries, hash_new_item, add_hash_info, find_entry, get_hash_item, cite, cite_add,
}

-- An entry of the bucket has the digest.
unfoldable pub any_entry : List ℕ → List Entry → Bool
any_entry info [] = false
any_entry info (cp ∷ cps) = same_sha cp.sha1 info || any_entry info cps

unfoldable pub is_known : Entries → List ℕ → Bool
unfolding any_entry
is_known t info = any_entry info (t.tab (bkt_of info))

cite_sha1 : (cp : Entry) → (cite cp).sha1 ≡ cp.sha1
unfolding cite
cite_sha1 cp = refl

find_entry-none :
    (info : List ℕ) (cps : List Entry) → any_entry info cps ≡ false → find_entry info cps ≡ none
unfolding any_entry find_entry
find_entry-none info [] h = refl
find_entry-none info (cp ∷ cps) h = ground (arith, find_entry-none info cps)

-- A hit changes no digest of the bucket.
find_entry-some :
    (info : List ℕ) (cps : List Entry)
    → any_entry info cps ≡ true
    → (r : Entry × List Entry) × (find_entry info cps ≡ some r)
      × ((d : List ℕ) → any_entry d (r.1) ≡ any_entry d cps)
unfolding any_entry find_entry
find_entry-some info [] h = cc
find_entry-some info (cp ∷ cps) h = elim (Bool-cases (same_sha cp.sha1 info)) [
  | inl y ↦ ((cite cp, cite cp ∷ cps), rw y refl, λ d. rw (cite_sha1 cp) refl)
  | inr y ↦
      let h' : any_entry info cps ≡ true = rw y at h in
      let (r, f, same) = find_entry-some info cps h' in
      ((r.0, cp ∷ r.1), rw (y, f) refl, λ d. rw (same d) refl)
]

any_put :
    (d : List ℕ) (b : ℕ) (cps : List Entry) (tab : ℕ → List Entry)
    → any_entry d cps ≡ any_entry d (tab b)
    → (i : ℕ) → any_entry d (put_bucket b cps tab i) ≡ any_entry d (tab i)
any_put d b cps tab h i = elim (Bool-cases (i == b)) [
  | inl y ↦ let e : i ≡ b = ground arith in rw (y, e) h
  | inr y ↦ rw y refl
]

-- A look-up misses where no entry has the digest, and changes no answer.
pub get_hash_item-miss :
    (info : List ℕ) (t : Entries) → is_known t info ≡ false → get_hash_item info t ≡ (none, t)
unfolding is_known get_hash_item
get_hash_item-miss info t h = rw (find_entry-none info (t.tab (bkt_of info)) h, get_hash_item) refl

pub get_hash_item-hit :
    (info : List ℕ) (t : Entries)
    → is_known t info ≡ true
    → (cp : Entry) × (t' : Entries) × (get_hash_item info t ≡ (some cp, t'))
      × ((d : List ℕ) → is_known t' d ≡ is_known t d)
      × (t'.hash_count ≡ t.hash_count)
unfolding is_known get_hash_item
get_hash_item-hit info t h =
    let (r, f, same) = find_entry-some info (t.tab (bkt_of info)) h in
    (
      r.0,
      record t { tab = put_bucket (bkt_of info) (r.1) t.tab },
      rw (f, get_hash_item) refl,
      λ d. any_put d (bkt_of info) (r.1) t.tab (same d) (bkt_of d),
      refl,
    )

==_refl : (n : ℕ) → n == n ≡ true
==_refl n = ground arith

same_sha-take_any : (info d : List ℕ) → same_sha (take shalen info) d ≡ same_sha info d
unfolding same_sha
same_sha-take_any info d = rw (take-take shalen info) refl

-- An entry at the head of the bucket of its digest.
any_push :
    (d info : List ℕ) (cp : Entry) (tab : ℕ → List Entry)
    → cp.sha1 ≡ take shalen info
    → any_entry d (put_bucket (bkt_of info) (cp ∷ tab (bkt_of info)) tab (bkt_of d))
      ≡ (same_sha info d || any_entry d (tab (bkt_of d)))
unfolding any_entry
any_push d info cp tab e =
    let same : same_sha cp.sha1 d ≡ same_sha info d = rw e (same_sha-take_any info d) in
    elim (Bool-cases (bkt_of d == bkt_of info)) [
      | inl y ↦ let b : bkt_of d ≡ bkt_of info = ground arith in rw (y, same, b) refl
      | inr y ↦ elim (Bool-cases (same_sha info d)) [
        | inl z ↦ let b : bkt_of info ≡ bkt_of d = same_sha-bkt_of info d z in absurd (ground arith)
        | inr z ↦ rw (y, z) refl
      ]
    ]

abbrev fresh_entry : ℕ → List ℕ → ℕ → Entry
fresh_entry address info len_value = record {
  addr = address;
  refcnt = cite_add;
  len = len_value % u32;
  sha1 = take shalen info;
}

pushed : ℕ → List ℕ → ℕ → Entries → Entries
pushed address info len_value t =
    let bkt = bkt_of (take shalen info) in
    record {
      tab = put_bucket bkt (fresh_entry address info len_value ∷ t.tab bkt) t.tab;
      hash_count = add32 t.hash_count 1;
    }

hash_new_item-room :
    (hash_max_count address : ℕ) (info : List ℕ) (len_value : ℕ) (t : Entries)
    → t.hash_count ≤ hash_max_count
    → t.hash_count < 2 ^ 31
    → hash_new_item hash_max_count true address info len_value t
      ≡ (some (fresh_entry address info len_value), pushed address info len_value t)
unfolding hash_new_item pushed
hash_new_item-room hash_max_count address info len_value t room small =
    let positive : sext32 t.hash_count ≡ t.hash_count = ground arith in
    let free : ltb hash_max_count (sext32 t.hash_count) ≡ false = rw positive (ground arith) in
    rw (free, hash_new_item) refl

add_hash_info-room :
    (hash_max_count address : ℕ) (info : List ℕ) (len_value : ℕ) (t : Entries)
    → t.hash_count ≤ hash_max_count
    → t.hash_count < 2 ^ 31
    → add_hash_info hash_max_count true address info len_value t
      ≡ (true, pushed address info len_value t)
unfolding add_hash_info
add_hash_info-room hash_max_count address info len_value t room small =
    let e = hash_new_item-room hash_max_count address info len_value t room small in
    rw (e, add_hash_info) (rw e refl)

-- Where there is room, what is added is known afterwards, and else nothing changes.
pub add_hash_info-is_known :
    (hash_max_count address : ℕ) (info : List ℕ) (len_value : ℕ) (t : Entries)
    → t.hash_count ≤ hash_max_count
    → t.hash_count < 2 ^ 31
    → (t' : Entries) × (add_hash_info hash_max_count true address info len_value t ≡ (true, t'))
      × ((d : List ℕ) → is_known t' d ≡ (same_sha info d || is_known t d))
      × (t'.hash_count ≡ t.hash_count + 1)
unfolding is_known pushed
add_hash_info-is_known hash_max_count address info len_value t room small = (
  pushed address info len_value t,
  add_hash_info-room hash_max_count address info len_value t room small,
  (λ d. rw (bkt_of-take info) (any_push d info _ t.tab refl)),
  omega arith,
)
