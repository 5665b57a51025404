-- ===== src/SendModule/Packet/Fits.antt =====
-- The length that replace_skb of model/send_module/nf_out.c reaches.
use mathlib.Core.Path.{subst}
use kernel_test.Base.{
  leb, if◌then◌else◌, ℕ, ◌+◌, ◌-◌, ◌*◌, ◌≤◌, ◌<◌, ◌≡◌, refl, sym, ◌∙◌, Bool, true, false, List, [],
  ◌∷◌, ◌++◌, Option, none, some, >>=-eq-some, some_eq, length, take, drop, leb, ltb, ◌==◌, add64,
  sub64, u64, Bool-cases, Option-cases, inl, inr, arith,
}
use kernel_test.KernelHash.Params.{chunk_num, shalen, init_hash_parameters}
use kernel_test.KernelHash.Kfifo.{Kfifo}
use kernel_test.KernelHash.Partition.{kfifolen}
use kernel_test.KernelHash.Partition.Tile.{chunks}
use kernel_test.SendModule.Entries.{get_hash_item}
use kernel_test.SendModule.Packet.{
  Sender, Sending, ReplaceItem, hand_hash, note_replace, build_hash, send_partition, replace_loop,
  replace_skb, mtu,
}
use kernel_test.SendModule.Packet.Cuts.{
  Cuts, chunks-Cuts, build_chunks, send_partition-build_chunks,
}

-- The items are in order between `lo` and `hi`, and each replaces more than 22 bytes.
abbrev pub FitsIn : ℕ → List ReplaceItem → ℕ → Type 0
FitsIn lo [] hi = lo ≤ hi
FitsIn lo (r ∷ rs) hi = (lo ≤ r.start) × (r.start + 22 ≤ r.stop) × FitsIn (r.stop + 1) rs hi

-- What the items save, counting 22 bytes for each.
abbrev pub saving : List ReplaceItem → ℕ
saving [] = 0
saving (r ∷ rs) = (r.stop - r.start + 1 - 22) + saving rs

FitsIn-append :
    (lo : ℕ) (rs : List ReplaceItem) (hi : ℕ) (r : ReplaceItem)
    → FitsIn lo rs hi
    → hi ≤ r.start
    → r.start + 22 ≤ r.stop
    → FitsIn lo (rs ++ r ∷ []) (r.stop + 1)
FitsIn-append lo [] hi r h p q = (omega (arith, h), q, omega arith)
FitsIn-append lo (x ∷ rs) hi r h p q = (h.0, h.1, FitsIn-append (x.stop + 1) rs hi r h.2 p q)

FitsIn-weaken :
    (lo : ℕ) (rs : List ReplaceItem) (hi hi' : ℕ) → FitsIn lo rs hi → hi ≤ hi' → FitsIn lo rs hi'
FitsIn-weaken lo [] hi hi' h p = omega (arith, h)
FitsIn-weaken lo (x ∷ rs) hi hi' h p = (h.0, h.1, FitsIn-weaken (x.stop + 1) rs hi hi' h.2 p)

saving-append :
    (rs : List ReplaceItem) (r : ReplaceItem)
    → saving (rs ++ r ∷ []) ≡ saving rs + (r.stop - r.start + 1 - 22)
saving-append [] r = omega arith
saving-append (x ∷ rs) r = omega (arith, saving-append rs r)

saving-le : (lo : ℕ) (rs : List ReplaceItem) (hi : ℕ) → FitsIn lo rs hi → saving rs + lo ≤ hi
saving-le lo [] hi h = omega (arith, h)
saving-le lo (x ∷ rs) hi h = omega (arith, h.0, h.1, saving-le (x.stop + 1) rs hi h.2)

-- The loop of replace_skb reaches its end, two bytes below the count of `saving` for each item.
replace_loop-some :
    (rs : List ReplaceItem) (last index n : ℕ)
    → FitsIn last rs n
    → index + n < u64 + last
    → (r : ℕ × ℕ) × (replace_loop rs last index ≡ some r)
      × (last ≤ r.0)
      × (r.0 ≤ n)
      × (r.1 + saving rs + 2 * length rs + last ≡ index + r.0)
unfolding replace_loop
replace_loop-some [] last index n h small = ((last, index), refl, omega arith, h, omega arith)
replace_loop-some (x ∷ rs) last index n h small =
    let in_order = h.0 in
    let long = h.1 in
    let below = saving-le (x.stop + 1) rs n h.2 in
    elim (Bool-cases (ltb last x.start)) [
      | inl y ↦
          let i : add64 (add64 index (x.start - last)) shalen ≡ index + (x.start - last) + 20 =
            ground arith in
          let (r, e, lo, hi, sum) =
            replace_loop-some rs (x.stop + 1) (index + (x.start - last) + 20) n h.2
              (ground arith) in
          let step : replace_loop (x ∷ rs) last index
              ≡ replace_loop rs (x.stop + 1) (index + (x.start - last) + 20) =
            rw (y, i, replace_loop) refl in
          (r, step ∙ e, omega arith, hi, omega (arith, sum, in_order, long))
      | inr y ↦
          let here : x.start ≡ last = ground arith in
          let z : x.start == last ≡ true = ground arith in
          let i : add64 index shalen ≡ index + 20 = ground arith in
          let (r, e, lo, hi, sum) =
            replace_loop-some rs (x.stop + 1) (index + 20) n h.2 (omega arith) in
          let step : replace_loop (x ∷ rs) last index ≡ replace_loop rs (x.stop + 1) (index + 20) =
            rw (y, z, i, replace_loop) refl in
          (r, step ∙ e, omega arith, hi, omega (arith, sum, here, long))
    ]

pub replace_skb-some :
    (rs : List ReplaceItem) (len n : ℕ)
    → FitsIn 0 rs n
    → n < u64
    → (index : ℕ) × (replace_skb true rs len n ≡ some (index, if leb len mtu then mtu else len))
      × (index + saving rs + 2 * length rs ≡ n)
unfolding replace_skb
replace_skb-some rs len n h small =
    let (r, e, lo, hi, sum) = replace_loop-some rs 0 0 n h (omega arith) in
    elim (Bool-cases (r.0 == n)) [
      | inl y ↦ (r.1, rw (e, replace_skb) (rw y refl), ground arith)
      | inr y ↦
          let i : add64 r.1 (sub64 n r.0) ≡ r.1 + (n - r.0) = ground arith in
          (r.1 + (n - r.0), rw (e, replace_skb) (rw (y, i) refl), omega (arith, sum))
    ]

-- What holds when the chunks below `lo` have been looked at, of `n` bytes.
record Sent (lo n : ℕ) (s : Sending) : Type 0 where
  fits : FitsIn 0 s.head lo
  counts : s.new_len + saving s.head ≡ n

module _ (m : Sender) where
  -- hand_hash leaves the list, and takes what a hit saves from `new_len`.
  abbrev Shape : ℕ → Sending → Bool × Sending → Type 0
  Shape len s (false, s') = (s'.head ≡ s.head) × (s'.new_len ≡ s.new_len)
  Shape len s (true, s') =
      (s'.head ≡ s.head) × (s'.new_len ≡ sub64 s.new_len (sub64 len (shalen + 2)))

  hand_hash-Shape : (len : ℕ) (dst : List ℕ) (s : Sending) → Shape len s (hand_hash m len dst s)
  unfolding hand_hash
  hand_hash-Shape len dst s = elim (Option-cases ((get_hash_item dst s.entries).0)) [
    | inl e ↦ rw (e, hand_hash) (refl, refl)
    | inr (cp, e) ↦ rw (e, hand_hash) (refl, refl)
  ]

  note_replace-Sent :
      (start len n : ℕ) (dst : List ℕ) (s : Sending) (r : Bool × Sending) {s' : Sending}
      → Sent start n s
      → Shape len s r
      → 22 < len
      → start + len ≤ n
      → n < u64
      → note_replace m start len dst r ≡ some s'
      → Sent (start + len) n s'
  unfolding note_replace
  note_replace-Sent start len n dst s (false, r) {s'} h (same, count) long le small e =
      rw (← some_eq e) record {
        fits = rw same (FitsIn-weaken 0 s.head start (start + len) h.fits (omega arith));
        counts = rw (same, count) h.counts;
      }
  note_replace-Sent start len n dst s (true, r) {s'} h (same, count) long le small e =
      elim (Bool-cases (m.room r.calls)) [
        | inl y ↦
            let item : ReplaceItem = record {
              start = start;
              stop = start + len - 1;
              sha1 = take shalen dst;
            } in
            let e' : some (record r { head = r.head ++ item ∷ []; calls = r.calls + 1 }) ≡ some s' =
              rw (y, note_replace) at e in
            let before : FitsIn 0 r.head start = rw same h.fits in
            let above : saving r.head + 0 ≤ start = saving-le 0 r.head start before in
            let total : s.new_len + saving r.head ≡ n = rw same h.counts in
            let less : r.new_len ≡ s.new_len - (len - 22) = count ∙ ground arith in
            rw (← some_eq e') record {
              fits =
                  FitsIn-weaken 0 _ (item.stop + 1) (start + len)
                    (FitsIn-append 0 r.head start item before (omega arith) (omega arith))
                    (omega arith);
              counts = omega (arith, saving-append r.head item, less, total, above);
            }
        | inr y ↦
            let e' : ◌≡◌ {A = Option Sending} none (some s') = rw (y, note_replace) at e in
            absurd (cc)
      ]

  build_hash-Sent :
      (payload : List ℕ) (start len n : ℕ) (s : Sending) {s' : Sending}
      → Sent start n s
      → start + len ≤ n
      → n < u64
      → build_hash m payload start len s ≡ some s'
      → Sent (start + len) n s'
  unfolding build_hash
  build_hash-Sent payload start len n s {s'} h le small e =
      elim (Bool-cases (leb len (shalen + 2))) [
        | inl y ↦
            let e' : some s ≡ some s' = rw (y, build_hash) at e in rw (← some_eq e') (later s h)
        | inr y ↦ elim (Bool-cases (m.room s.calls)) [
          | inr z ↦
              let e' : ◌≡◌ {A = Option Sending} none (some s') = rw (y, z, build_hash) at e in
              absurd (cc)
          | inl z ↦
              let t : Sending = record s { calls = s.calls + 1 } in
              let ht : Sent start n t = record { fits = h.fits; counts = h.counts } in
              elim (Option-cases (m.sha1_hash_data (take len (drop start payload)))) [
                | inl d ↦
                    let e' : some t ≡ some s' = rw (y, z, d, build_hash) at e in
                    rw (← some_eq e') (later t ht)
                | inr (dst, d) ↦
                    let e' : note_replace m start len dst (hand_hash m len dst t) ≡ some s' =
                      rw (y, z, d, build_hash) at e in
                    note_replace-Sent start len n dst t (hand_hash m len dst t) ht
                      (hand_hash-Shape len dst t) (ground arith) le small e'
              ]
        ]
      ]
    where
      later : (t : Sending) → Sent start n t → Sent (start + len) n t
      later t g = record {
        fits = FitsIn-weaken 0 t.head start (start + len) g.fits (omega arith);
        counts = g.counts;
      }

  build_chunks-Sent :
      (payload : List ℕ) (cs : List (ℕ × ℕ)) (lo n : ℕ) (s : Sending) {s' : Sending}
      → Cuts lo n cs
      → Sent lo n s
      → n < u64
      → build_chunks m payload cs s ≡ some s'
      → Sent n n s'
  unfolding build_chunks
  build_chunks-Sent payload [] lo n s cuts h small e =
      rw (← some_eq e) (subst (λ (x : ℕ). Sent x n s) (cuts) h)
  build_chunks-Sent payload ((a, b) ∷ r) lo n s (at_lo, order, below, cuts) h small e =
      let (t, e₁, e₂) = >>=-eq-some (build_hash m payload a (b - a + 1) s) _ e in
      let ha : Sent a n s = rw at_lo h in
      let end' : a + (b - a + 1) ≡ b + 1 = omega arith in
      build_chunks-Sent payload r (b + 1) n t cuts
        (rw (← end') (build_hash-Sent payload a (b - a + 1) n s ha (omega arith) small e₁)) small e₂

-- For a payload of more than 32 bytes, an allocated queue, an empty list and `new_len` the length of
-- the payload, for any table and any answers of the allocator to get_partition: if get_partition does
-- not stop, then replace_skb, with memory for its buffer, takes its list without a `BUG()`. What it
-- counts is two bytes shorter than `new_len` for each item of the list, and fits in its buffer;
-- `new_len` is at most the length of the payload.
pub replace_skb-send_partition :
    (m : Sender) (k : Kfifo) (payload : List ℕ) (s : Sending) (f : k.Fifo) {s' : Sending}
    → chunk_num < length payload
    → length payload < u64
    → k.alloc kfifolen ≡ some f
    → s.head ≡ []
    → s.new_len ≡ length payload
    → send_partition m k init_hash_parameters payload s ≡ some s'
    → (index : ℕ) × (size : ℕ) × (replace_skb true s'.head s'.new_len (length payload)
        ≡ some (index, size))
      × (index ≤ size)
      × (index + 2 * length s'.head ≡ s'.new_len)
      × (s'.new_len ≤ length payload)
replace_skb-send_partition m k payload s f {s'} h small a empty full e =
    let n = length payload in
    let e' = sym (send_partition-build_chunks m payload k s f h a) ∙ e in
    let start : Sent 0 n s = record {
      fits = rw empty (omega arith);
      counts = rw (empty, full) (omega arith);
    } in
    let sent =
      build_chunks-Sent m payload (chunks payload) 0 n s (chunks-Cuts payload) start small e' in
    let (index, r, sum) = replace_skb-some _ s'.new_len n sent.fits small in
    let count : index + 2 * length s'.head ≡ s'.new_len = omega (arith, sum, sent.counts) in
    (
      index,
      if leb s'.new_len mtu then mtu else s'.new_len,
      r,
      fits_buffer index s'.new_len (omega (arith, count)),
      count,
      omega (arith, sent.counts),
    )
  where
    fits_buffer : (i len : ℕ) → i ≤ len → i ≤ (if leb len mtu then mtu else len)
    fits_buffer i len h = ground arith
