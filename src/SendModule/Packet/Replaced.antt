-- ===== src/SendModule/Packet/Replaced.antt =====
-- Which chunks of a payload model/send_module/nf_out.c finds.
use mathlib.Core.Path.{fun_ext}
use mathlib.Core.List.{append-nil, append_assoc}
use kernel_test.Base.{
  ℕ, ◌+◌, ◌-◌, ◌≤◌, ◌<◌, ◌^◌, ◌≡◌, refl, sym, ◌∙◌, Bool, true, false, List, [], ◌∷◌, ◌++◌, some,
  length, take, leb, Bool-cases, inl, inr, arith, add64, sub64,
}
use kernel_test.KernelHash.Params.{chunk_num, shalen, init_hash_parameters}
use kernel_test.KernelHash.Kfifo.{Kfifo}
use kernel_test.KernelHash.Table.Lookup.{add_known}
use kernel_test.KernelHash.Partition.{kfifolen}
use kernel_test.KernelHash.Partition.Tile.{chunks, slice}
use kernel_test.SendModule.Entries.Known.{
  is_known, get_hash_item-miss, get_hash_item-hit, add_hash_info-is_known,
}
use kernel_test.SendModule.Packet.{
  Sender, Sending, ReplaceItem, hand_hash, note_replace, build_hash, send_partition,
}
use kernel_test.SendModule.Packet.Cuts.{
  Cuts, chunks-Cuts, build_chunks, send_partition-build_chunks,
}

module _ (sha : List ℕ → List ℕ) (payload : List ℕ) where
  -- The chunks that are longer than 22 bytes and whose digest was known or came before.
  unfoldable pub replaced : (List ℕ → Bool) → List (ℕ × ℕ) → List ReplaceItem
  replaced known [] = []
  replaced known ((a, b) ∷ r) =
      let dst = sha (slice payload (a, b)) in
      let item : ReplaceItem = record { start = a; stop = b; sha1 = take shalen dst } in
      elim (leb (b - a + 1) (shalen + 2)) [
        | true ↦ replaced known r
        | false ↦ elim (known dst) [
          | true ↦ item ∷ replaced known r
          | false ↦ replaced (add_known dst known) r
        ]
      ]

  -- The digests that are known afterwards.
  unfoldable pub known_after : (List ℕ → Bool) → List (ℕ × ℕ) → List ℕ → Bool
  known_after known [] = known
  known_after known ((a, b) ∷ r) =
      let dst = sha (slice payload (a, b)) in
      elim (leb (b - a + 1) (shalen + 2)) [
        | true ↦ known_after known r
        | false ↦ elim (known dst) [
          | true ↦ known_after known r
          | false ↦ known_after (add_known dst known) r
        ]
      ]

-- The allocator gives what is asked for, and the digest does not fail.
pub record IsServed (m : Sender) (sha : List ℕ → List ℕ) : Type 0 where
  pub room : (n : ℕ) → m.room n ≡ true
  pub digest : (l : List ℕ) → m.sha1_hash_data l ≡ some (sha l)
  pub limit : m.hash_max_count < 2 ^ 31

module _ (m : Sender) (sha : List ℕ → List ℕ) (ok : IsServed m sha) (payload : List ℕ) where
  hand_hash-hit :
      (len : ℕ) (dst : List ℕ) (s : Sending)
      → is_known s.entries dst ≡ true
      → (s' : Sending) × (hand_hash m len dst s ≡ (true, s'))
        × (is_known s'.entries ≡ is_known s.entries)
        × (s'.head ≡ s.head)
        × (s'.entries.hash_count ≡ s.entries.hash_count)
  unfolding hand_hash
  hand_hash-hit len dst s h =
      let (cp, t, e, same, count) = get_hash_item-hit dst s.entries h in
      (
        record s {
          entries = t;
          sum_num = add64 s.sum_num len;
          save_num = add64 s.save_num (sub64 len (shalen + 2));
          new_len = sub64 s.new_len (sub64 len (shalen + 2));
        },
        rw (e, hand_hash) (rw e refl),
        fun_ext same,
        refl,
        count,
      )

  hand_hash-miss :
      (len : ℕ) (dst : List ℕ) (s : Sending)
      → is_known s.entries dst ≡ false
      → s.entries.hash_count ≤ m.hash_max_count
      → (s' : Sending) × (hand_hash m len dst s ≡ (false, s'))
        × (is_known s'.entries ≡ add_known dst (is_known s.entries))
        × (s'.head ≡ s.head)
        × (s'.entries.hash_count ≡ s.entries.hash_count + 1)
  unfolding hand_hash
  hand_hash-miss len dst s h few =
      let e = get_hash_item-miss dst s.entries h in
      let (t, a, more, count) =
        add_hash_info-is_known m.hash_max_count (m.address s.calls) dst len s.entries few
          (omega (arith, ok.limit)) in
      let r = ok.room s.calls in
      (
        record s { entries = t; sum_num = add64 s.sum_num len; calls = s.calls + 1 },
        rw (e, hand_hash) (rw (r, e, a) refl),
        fun_ext more,
        refl,
        count,
      )

  note_replace-room :
      (a b : ℕ) (dst : List ℕ) (s : Sending)
      → a ≤ b
      → note_replace m a (b - a + 1) dst (true, s)
        ≡ some (record s {
          head = s.head ++ record { start = a; stop = b; sha1 = take shalen dst } ∷ [];
          calls = s.calls + 1;
        })
  unfolding note_replace
  note_replace-room a b dst s order =
      let stop : a + (b - a + 1) - 1 ≡ b = omega arith in
      rw (ok.room s.calls, note_replace) (rw stop refl)

  -- One chunk: what build_hash adds to the list, and what is known afterwards.
  build_hash-replaced :
      (a b n : ℕ) (s : Sending)
      → a ≤ b
      → s.entries.hash_count + n + 1 ≤ m.hash_max_count
      → (s' : Sending) × (build_hash m payload a (b - a + 1) s ≡ some s')
        × ((r : List (ℕ × ℕ))
            → s.head ++ replaced sha payload (is_known s.entries) ((a, b) ∷ r)
              ≡ s'.head ++ replaced sha payload (is_known s'.entries) r)
        × ((r : List (ℕ × ℕ))
            → known_after sha payload (is_known s.entries) ((a, b) ∷ r)
              ≡ known_after sha payload (is_known s'.entries) r)
        × (s'.entries.hash_count + n ≤ m.hash_max_count)
  unfolding build_hash replaced known_after
  build_hash-replaced a b n s order few = elim (Bool-cases (leb (b - a + 1) (shalen + 2))) [
    | inl y ↦ (
      s,
      rw (y, build_hash) refl,
      (λ r. rw (y, replaced) refl),
      (λ r. rw (y, known_after) refl),
      omega (arith, few),
    )
    | inr y ↦
        let dst = sha (slice payload (a, b)) in
        let t : Sending = record s { calls = s.calls + 1 } in
        let room = ok.room s.calls in
        let d = ok.digest (slice payload (a, b)) in
        let step : build_hash m payload a (b - a + 1) s
            ≡ note_replace m a (b - a + 1) dst (hand_hash m (b - a + 1) dst t) =
          rw (y, room, d, build_hash) refl in
        elim (Bool-cases (is_known s.entries dst)) [
          | inl z ↦
              let (s', e, known, head, count) = hand_hash-hit (b - a + 1) dst t z in
              let item : ReplaceItem = record { start = a; stop = b; sha1 = take shalen dst } in
              let noted = note_replace-room a b dst s' order in
              (
                record s' { head = s'.head ++ item ∷ []; calls = s'.calls + 1 },
                step ∙ rw e noted,
                (λ r. rw (y, z, known, head, replaced) (sym (append_assoc s.head (item ∷ []) _))),
                (λ r. rw (y, z, known, known_after) refl),
                omega (arith, few, count),
              )
          | inr z ↦
              let (s', e, known, head, count) =
                hand_hash-miss (b - a + 1) dst t z (omega (arith, few)) in
              (
                s',
                step ∙ rw (e) refl,
                (λ r. rw (y, z, known, head, replaced) refl),
                (λ r. rw (y, z, known, known_after) refl),
                omega (arith, few, count),
              )
        ]
  ]

  build_chunks-replaced :
      (cs : List (ℕ × ℕ)) (lo n : ℕ) (s : Sending)
      → Cuts lo n cs
      → s.entries.hash_count + length cs ≤ m.hash_max_count
      → (s' : Sending) × (build_chunks m payload cs s ≡ some s')
        × (s'.head ≡ s.head ++ replaced sha payload (is_known s.entries) cs)
        × (is_known s'.entries ≡ known_after sha payload (is_known s.entries) cs)
  unfolding build_chunks
  build_chunks-replaced [] lo n s cuts few =
      unfold replaced known_after in (s, refl, sym (append-nil s.head), refl)
  build_chunks-replaced ((a, b) ∷ r) lo n s cuts few =
      let (t, e, head, known, few') =
        build_hash-replaced a b (length r) s cuts.1 (omega (arith, few)) in
      let (s', e', head', known') = build_chunks-replaced r (b + 1) n t cuts.3 few' in
      (s', rw e e', head' ∙ sym (head r), known' ∙ sym (known r))

-- For a payload of more than 32 bytes and an allocated queue, with an allocator that gives what is
-- asked for, a digest that does not fail, and room in the table for all chunks of the payload:
-- get_partition does not stop. It appends to the list the chunks of more than 22 bytes whose digest was
-- known or came earlier in the payload, in order, and the digests that the table knows afterwards are
-- those that it knew and those of the other chunks of more than 22 bytes.
pub send_partition-replaced :
    (m : Sender) (sha : List ℕ → List ℕ) (k : Kfifo) (payload : List ℕ) (s : Sending) (f : k.Fifo)
    → IsServed m sha
    → chunk_num < length payload
    → k.alloc kfifolen ≡ some f
    → s.entries.hash_count + length (chunks payload) ≤ m.hash_max_count
    → (s' : Sending) × (send_partition m k init_hash_parameters payload s ≡ some s')
      × (s'.head ≡ s.head ++ replaced sha payload (is_known s.entries) (chunks payload))
      × (is_known s'.entries ≡ known_after sha payload (is_known s.entries) (chunks payload))
send_partition-replaced m sha k payload s f ok h a few =
    let (s', e, head, known) =
      build_chunks-replaced m sha ok payload (chunks payload) 0 (length payload) s
        (chunks-Cuts payload) few in
    (s', send_partition-build_chunks m payload k s f h a ∙ e, head, known)
