-- ===== src/Skeleton/Pack/Savings.antt =====
-- What model/c-skeleton/src/pack.c counts as saved.
use mathlib.Core.List.{flatten}
use kernel_test.Base.{
  suc, ℕ, ◌+◌, ◌%◌, ◌≤◌, ◌<◌, ◌≡◌, refl, sym, ap, ◌∙◌, Bool, true, false, ◌&&◌, ◌||◌, List, [], ◌∷◌,
  Option, none, some, length, ◌==◌, Bool-cases, Option-cases, inl, inr, arith, add64, u64,
}
use kernel_test.Skeleton.KeyValue.{KeyValue}
use kernel_test.KernelHash.Table.{same_sha}
use kernel_test.KernelHash.Table.Lookup.{add_known, same_sha-take_eq}
use kernel_test.Skeleton.KeyValue.Pushing.{FitsMore, keyvalue_push_fits}
use kernel_test.Skeleton.Hashmap.{HashmapNode, Hashmap, hashmap_get, hashmap_set, matches}
use kernel_test.Skeleton.Hashmap.Lookup.{IsMap, lookup, hashmap_getnode-lookup}
use kernel_test.Skeleton.Hashmap.Update.{hashmap_set-IsMap, add_node}
use kernel_test.Skeleton.Hashmap.GetSet.{or_else, if_matches, lookup-add_node}
use kernel_test.Skeleton.Pack.{
  Digests, note_digest, hashmap_mode_compare, hashmap_mode_hash, mode_hash_loop,
}
use kernel_test.Skeleton.Chunk.Merging.{Holds}
use kernel_test.Skeleton.Pack.Pieces.{digest_all}
use kernel_test.Skeleton.Pack.Run.{Session, pack_payloads}
use kernel_test.Skeleton.Pack.Run.Conserved.{AllFit, all_pieces, pack_payloads-all_pieces}

abbrev is_some {ℓ} : {A : Type ℓ} → Option A → Bool
is_some none = false
is_some (some a) = true

-- The map has a node for exactly the digests that are known.
pub record Knows (m : Hashmap (List ℕ) ℕ) (known : List ℕ → Bool) : Type 0 where
  pub nodes : ℕ → List (HashmapNode (List ℕ) ℕ)
  pub valid : IsMap hashmap_mode_compare hashmap_mode_hash m nodes
  pub knows :
      (d : List ℕ)
      → is_some
          (lookup hashmap_mode_compare hashmap_mode_hash d (nodes (hashmap_mode_hash d % m.max)))
        ≡ known d

same_sha-hash : (a b : List ℕ) → same_sha a b ≡ true → hashmap_mode_hash a ≡ hashmap_mode_hash b
unfolding hashmap_mode_hash
same_sha-hash a b h = ap (mode_hash_loop 0) (same_sha-take_eq a b h)

abbrev node_of : List ℕ → ℕ → HashmapNode (List ℕ) ℕ
node_of res place = record { key = res; data' = place; hash = hashmap_mode_hash res }

matches-same_sha :
    (res d : List ℕ) (place : ℕ)
    → matches hashmap_mode_compare hashmap_mode_hash (hashmap_mode_hash d) d (node_of res place)
      ≡ same_sha res d
unfolding hashmap_mode_compare
matches-same_sha res d place = elim (Bool-cases (same_sha res d)) [
  | inl y ↦
      let e = same_sha-hash res d y in
      let same : hashmap_mode_hash res == hashmap_mode_hash d ≡ true = ground arith in
      rw (same, y) refl
  | inr y ↦ rw y (and_false _)
]
  where
    and_false : (b : Bool) → b && false ≡ false
    and_false true = refl
    and_false false = refl

or_else_lem :
    (r : Option (HashmapNode (List ℕ) ℕ)) (known : Bool) (res d : List ℕ) (place : ℕ)
    → is_some r ≡ known
    → is_some (or_else r (if_matches hashmap_mode_compare hashmap_mode_hash d (node_of res place)))
      ≡ (same_sha res d || known)
or_else_lem r known res d place e = elim (Bool-cases (same_sha res d)) [
  | inl y ↦ rw (matches-same_sha res d place, y) (found r)
  | inr y ↦ rw (matches-same_sha res d place, y) (kept r ∙ e)
]
  where
    found :
        (q : Option (HashmapNode (List ℕ) ℕ))
        → is_some (or_else q (some (node_of res place))) ≡ true
    found none = refl
    found (some a) = refl

    kept : (q : Option (HashmapNode (List ℕ) ℕ)) → is_some (or_else q none) ≡ is_some q
    kept none = refl
    kept (some a) = refl

hashmap_set-Knows :
    (m : Hashmap (List ℕ) ℕ) (known : List ℕ → Bool) (res : List ℕ) (place : ℕ)
    → Knows m known
    → (m' : Hashmap (List ℕ) ℕ) × (hashmap_set hashmap_mode_compare hashmap_mode_hash true m res
          place
        ≡ some (true, m'))
      × Knows m' (add_known res known)
hashmap_set-Knows m known res place k =
    let (m', e, top, v) =
      hashmap_set-IsMap hashmap_mode_compare hashmap_mode_hash m k.nodes res place k.valid in
    (
      m',
      e,
      record {
        nodes =
            add_node hashmap_mode_compare hashmap_mode_hash (hashmap_mode_hash res % m.max)
              (node_of res place) k.nodes;
        valid = v;
        knows = λ d. rw top (
            rw
              (lookup-add_node hashmap_mode_compare hashmap_mode_hash k.nodes m.max res d
                (node_of res place) refl)
              (or_else_lem _ (known d) res d place (k.knows d)));
      },
    )

hashmap_get-Knows :
    (m : Hashmap (List ℕ) ℕ) (known : List ℕ → Bool) (d : List ℕ)
    → Knows m known
    → (r : Option ℕ) × (hashmap_get hashmap_mode_compare hashmap_mode_hash m d ≡ some r)
      × (is_some r ≡ known d)
unfolding hashmap_get
hashmap_get-Knows m known d k =
    let e = hashmap_getnode-lookup hashmap_mode_compare hashmap_mode_hash m k.nodes d k.valid in
    let node =
      lookup hashmap_mode_compare hashmap_mode_hash d (k.nodes (hashmap_mode_hash d % m.max)) in
    elim (Option-cases node) [
      | inl z ↦ (none, rw (e, hashmap_get) (rw z refl), ap is_some (sym z) ∙ k.knows d)
      | inr (q, z) ↦ (some q.data', rw (e, hashmap_get) (rw z refl), ap is_some (sym z) ∙ k.knows d)
    ]

module _ (sha1 : List ℕ → List ℕ) where
  -- The bytes of the pieces whose digest was known or came before.
  unfoldable pub saved : (List ℕ → Bool) → List (List ℕ) → ℕ
  saved known [] = 0
  saved known (x ∷ xs) = elim (known (sha1 x)) [
    | true ↦ length x + saved known xs
    | false ↦ saved (add_known (sha1 x) known) xs
  ]

  -- The digests that are known when the pieces have been looked up.
  unfoldable pub known_after : (List ℕ → Bool) → List (List ℕ) → List ℕ → Bool
  known_after known [] = known
  known_after known (x ∷ xs) = elim (known (sha1 x)) [
    | true ↦ known_after known xs
    | false ↦ known_after (add_known (sha1 x) known) xs
  ]

  -- What the look-ups rely on and keep: the map, an array that need not grow for `n` digests, and the
  -- counter.
  pub record Ready (n : ℕ) (known : List ℕ → Bool) (s : Digests) : Type 0 where
    pub map : Knows s.map known
    pub room : FitsMore n s.key
    pub small : s.save_len < u64

  fewer : (n : ℕ) (kv : KeyValue) → FitsMore (n + 1) kv → FitsMore n kv
  fewer n kv v = record {
    step = v.step;
    memory = v.memory;
    small = v.small;
    inside = omega (arith, v.inside);
  }

  note_digest-hit :
      (n : ℕ) (known : List ℕ → Bool) (x : List ℕ) (s : Digests)
      → Ready (n + 1) known s
      → known (sha1 x) ≡ true
      → (s' : Digests) × (note_digest sha1 true x (length x) s ≡ some (true, s'))
        × Ready n known s'
        × (s'.save_len ≡ (s.save_len + length x) % u64)
  unfolding note_digest
  note_digest-hit n known x s k y =
      let (r, e, found) = hashmap_get-Knows s.map known (sha1 x) k.map in
      elim (Option-cases r) [
        | inl z ↦ absurd (cc)
        | inr (place, z) ↦ (
          record s { save_len = add64 s.save_len (length x) },
          rw e (rw z refl),
          record { map = k.map; room = fewer n s.key k.room; small = omega arith },
          refl,
        )
      ]

  note_digest-miss :
      (n : ℕ) (known : List ℕ → Bool) (x : List ℕ) (s : Digests)
      → Ready (n + 1) known s
      → known (sha1 x) ≡ false
      → length (sha1 x) ≡ 20
      → (s' : Digests) × (note_digest sha1 true x (length x) s ≡ some (true, s'))
        × Ready n (add_known (sha1 x) known) s'
        × (s'.save_len ≡ s.save_len)
  unfolding note_digest
  note_digest-miss n known x s k y size =
      let (r, e, found) = hashmap_get-Knows s.map known (sha1 x) k.map in
      elim (Option-cases r) [
        | inr (place, z) ↦ absurd (cc)
        | inl z ↦
            let (key, ek, capacity, bytes, room) =
              keyvalue_push_fits n s.key (sha1 x) k.room (omega (arith, k.room.step, size)) in
            let unmoved : key.capacity == s.key.capacity ≡ true = ground (arith, capacity) in
            let (map, em, kept) = hashmap_set-Knows s.map known (sha1 x) s.key.index k.map in
            (
              record s { key = key; map = map },
              rw e (rw z (rw ek (rw unmoved (rw em refl)))),
              record { map = kept; room = room; small = k.small },
              refl,
            )
      ]

  more_one :
      (xs : List (List ℕ)) (known : List ℕ → Bool) (s : Digests)
      → Ready (suc (length xs)) known s
      → Ready (length xs + 1) known s
  more_one xs known s k = rw (one_more (length xs)) k
    where
      one_more : (n : ℕ) → n + 1 ≡ suc n
      one_more n = omega arith

  -- For any pieces, with memory that suffices, a digest of 20 bytes, a map as the code leaves it, and an
  -- array with room for a digest of each piece: the look-ups do not stop. They add to `save_len` the bytes
  -- of the pieces whose digest was known or came before, modulo 2 ^ 64, and the map then knows the
  -- digests that it knew and those of the pieces.
  pub digest_all-saved :
      (known : List ℕ → Bool) (xs : List (List ℕ)) (s : Digests)
      → ((l : List ℕ) → length (sha1 l) ≡ 20)
      → Ready (length xs) known s
      → (s' : Digests) × (digest_all (note_digest sha1 true) xs s ≡ some (true, s'))
        × Ready 0 (known_after known xs) s'
        × (s'.save_len ≡ (s.save_len + saved known xs) % u64)
  unfolding digest_all saved known_after
  digest_all-saved known [] s size k = (s, refl, k, omega (arith, k.small))
  digest_all-saved known (x ∷ xs) s size k = elim (Bool-cases (known (sha1 x))) [
    | inl y ↦
        let (t, e, kt, sum) = note_digest-hit (length xs) known x s (more_one xs known s k) y in
        let (s', e', k', sum') = digest_all-saved known xs t size kt in
        (s', rw e e', rw (y, known_after) k', rw (y, saved) (omega (arith, sum, sum')))
    | inr y ↦
        let (t, e, kt, sum) =
          note_digest-miss (length xs) known x s (more_one xs known s k) y (size x) in
        let (s', e', k', sum') = digest_all-saved (add_known (sha1 x) known) xs t size kt in
        (s', rw e e', rw (y, known_after) k', rw (y, saved) (omega (arith, sum, sum')))
  ]

  -- The whole run over payloads of 32 to 20998 bytes each, with memory that suffices, a digest of 20
  -- bytes, a chunk that holds `left` and has room for all of their bytes behind it, a map as the code
  -- leaves it, and an array that need not grow for a digest of each piece: it does not stop, `sum_len` grows by the
  -- bytes of the payloads, and `save_len` by the bytes of the pieces whose digest was known or came
  -- before, both modulo 2 ^ 64.
  pub pack_payloads-saved :
      (known : List ℕ → Bool) (xs : List (List ℕ)) (left : List ℕ) (z : Session Digests)
      → ((l : List ℕ) → length (sha1 l) ≡ 20)
      → Ready (length (all_pieces z.delay_time left xs).0) known z.digests
      → AllFit xs
      → Holds z.remain left
      → length left + length (flatten xs) ≤ z.remain.limit
      → z.sum_len < u64
      → (z' : Session Digests) × (pack_payloads (note_digest sha1 true) true xs z ≡ some z')
        × (z'.sum_len ≡ (z.sum_len + length (flatten xs)) % u64)
        × (z'.digests.save_len
            ≡ (z.digests.save_len + saved known (all_pieces z.delay_time left xs).0) % u64)
  pack_payloads-saved known xs left z size k all h fits small =
      let (s', e, k', save) =
        digest_all-saved known (all_pieces z.delay_time left xs).0 z.digests size k in
      let (z', ez, d, h', sum) =
        pack_payloads-all_pieces (note_digest sha1 true) true xs left z s' all h fits small e in
      (z', ez, sum, rw d save)
