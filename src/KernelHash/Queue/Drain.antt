-- ===== src/KernelHash/Queue/Drain.antt =====
-- When clear_remainder_skb of model/kernel_hash/nf_in.c returns.
use kernel_test.Base.{
  Bool, ℕ, zero, suc, ◌+◌, ◌-◌, ◌*◌, ◌≤◌, ◌<◌, ◌≡◌, ◌≢◌, refl, sym, ap, ◌∙◌, true, false, List, [],
  ◌∷◌, ◌++◌, Option, none, some, take, drop, length, length-drop, ◌==◌, Bool-cases, inl, inr, arith,
}
use kernel_test.KernelHash.Queue.{
  Skb, Queues, at_index, queue_work, handle_skb, cut_all, threshold, count_empty, flush_works,
  clear_remainder_skb,
}
use kernel_test.KernelHash.Queue.Fifo.{passing, works-passing, handled, nil_of_length}
use mathlib.Core.List.{append-nil}
use kernel_test.KernelHash.Queue.Waits.{count_empty_step, count_waiting_step, handle_skb-frame}

module _ {ℓ} {S : Type ℓ} (cut : Skb → S → Option S) (read : S → Option S)
    (room : Queues S → Bool) where
  -- What waits is only in the queue of this processor, and no work is queued.
  record Alone (here : ℕ) (q : Queues S) : Type ℓ where
    others : (c : ℕ) → c ≢ here → q.skb_list c ≡ []
    no_work : (w : ℕ) → q.work w ≡ none

  count_empty-others :
      (here n cpu rem : ℕ) (q : Queues S)
      → ((c : ℕ) → cpu ≤ c → c < cpu + n → q.skb_list c ≡ [])
      → count_empty cut read here n cpu rem q ≡ (rem + n, q)
  count_empty-others here zero cpu rem q h =
      unfold count_empty in ap (λ (r : ℕ). (r, q)) {x = rem} (omega arith)
  count_empty-others here (suc n) cpu rem q h =
      let none_here : length (q.skb_list cpu) == 0 ≡ true =
        rw (h cpu (omega arith) (omega arith)) refl in
      count_empty_step cut read here n cpu rem q none_here
      ∙ count_empty-others here n (cpu + 1) (rem + 1) q (λ c a b. h c (omega arith) (omega arith))
      ∙ ap (λ (r : ℕ). (r, q)) {x = rem + 1 + n} (omega arith)

  count_empty-here :
      (here n cpu rem : ℕ) (q : Queues S)
      → cpu ≤ here
      → here < cpu + n
      → length (q.skb_list here) == 0 ≡ false
      → Alone here q
      → count_empty cut read here n cpu rem q
        ≡ (rem + n - 1, record q { work = queue_work here here q.work })
  count_empty-here here zero cpu rem q lo hi some_wait k = absurd (omega arith)
  count_empty-here here (suc n) cpu rem q lo hi some_wait k = elim (Bool-cases (here == cpu)) [
    | inl y ↦
        let e : here ≡ cpu = ground arith in
        let waiting : length (q.skb_list cpu) == 0 ≡ false = rw e at some_wait in
        count_waiting_step cut read here n cpu rem q waiting
        ∙ count_empty-others here n (cpu + 1) rem (record q { work = queue_work cpu here q.work })
            (λ c a b. k.others c (λ (z : c ≡ here). absurd (omega (arith, z, e))))
        ∙ (let less : rem + suc n - 1 ≡ rem + n = omega arith in rw (less, e) refl)
    | inr y ↦
        let none_here : length (q.skb_list cpu) == 0 ≡ true =
          rw (k.others cpu (λ (z : cpu ≡ here). absurd (ground arith))) refl in
        count_empty_step cut read here n cpu rem q none_here
        ∙ count_empty-here here n (cpu + 1) (rem + 1) q (ground arith) (omega arith) some_wait k
        ∙ (let less : rem + suc n - 1 ≡ rem + 1 + n - 1 = omega arith in rw less refl)
  ]

  flush_works-none :
      (n w : ℕ) (q : Queues S)
      → ((v : ℕ) → w ≤ v → q.work v ≡ none)
      → flush_works cut read room n w q ≡ some q
  unfolding flush_works
  flush_works-none zero w q h = refl
  flush_works-none (suc n) w q h =
      let idle : q.work w ≡ none = h w (omega arith) in
      rw (idle, flush_works) (flush_works-none n (w + 1) q (λ v a. h v (omega arith)))

  flush_works-one :
      (here n w : ℕ) (q q₁ : Queues S)
      → w ≤ here
      → here < w + n
      → q.work here ≡ some here
      → ((v : ℕ) → v ≢ here → q.work v ≡ none)
      → handle_skb cut read (room q) here here q ≡ some q₁
      → ((v : ℕ) → q₁.work v ≡ none)
      → flush_works cut read room n w q ≡ some q₁
  unfolding flush_works
  flush_works-one here zero w q q₁ lo hi one others e idle = absurd (omega arith)
  flush_works-one here (suc n) w q q₁ lo hi one others e idle = elim (Bool-cases (w == here)) [
    | inl y ↦
        let at : w ≡ here = ground arith in
        let one' : q.work w ≡ some here = rw at one in
        let e' : handle_skb cut read (room q) w here q ≡ some q₁ = rw at e in
        rw (one', flush_works) (rw e' (flush_works-none n (w + 1) q₁ (λ v a. idle v)))
    | inr y ↦
        let off : q.work w ≡ none = others w (λ (z : w ≡ here). absurd (ground arith)) in
        rw (off, flush_works)
          (flush_works-one here n (w + 1) q q₁ (ground arith) (omega arith) one others e idle)
  ]

  queue_work-idle :
      (w cpu : ℕ) (work : ℕ → Option ℕ)
      → work w ≡ none
      → queue_work w cpu work ≡ at_index w (some cpu) work
  unfolding queue_work
  queue_work-idle w cpu work e = rw (e, queue_work) refl

  at_self : {A : Type 0} (c : ℕ) (a : A) (f : ℕ → A) → at_index c a f c ≡ a
  at_self c a f = let y : c == c ≡ true = ground arith in rw y refl

  at_other : {A : Type 0} (c d : ℕ) (a : A) (f : ℕ → A) → d ≢ c → at_index c a f d ≡ f d
  at_other c d a f ne = let y : d == c ≡ false = ground arith in rw y refl

  idle_after :
      (here v : ℕ) (work : ℕ → Option ℕ)
      → ((u : ℕ) → u ≢ here → work u ≡ none)
      → at_index here none work v ≡ none
  idle_after here v work off = elim (Bool-cases (v == here)) [
    | inl y ↦ rw y refl
    | inr y ↦ rw y (off v (λ (z : v ≡ here). absurd (ground arith)))
  ]

  empty_everywhere :
      (here c : ℕ) (q : Queues S)
      → ((d : ℕ) → d ≢ here → q.skb_list d ≡ [])
      → q.skb_list here ≡ []
      → q.skb_list c ≡ []
  empty_everywhere here c q others nothing = elim (Bool-cases (c == here)) [
    | inl y ↦ let e : c ≡ here = ground arith in rw e nothing
    | inr y ↦ others c (λ (z : c ≡ here). absurd (ground arith))
  ]

  returns :
      (cpus here fuel : ℕ) (q : Queues S)
      → ((c : ℕ) → q.skb_list c ≡ [])
      → clear_remainder_skb cut read room cpus here (suc fuel) q ≡ some (true, q)
  unfolding clear_remainder_skb
  returns cpus here fuel q h =
      let counted = count_empty-others here cpus 0 0 q (λ c a b. h c) in
      let all : 0 + cpus == cpus ≡ true = ground arith in
      rw (counted, clear_remainder_skb) (rw all refl)

  module _ (cut_total : (x : Skb) (s : S) → (s' : S) × (cut x s ≡ some s'))
      (read_total : (s : S) → (s' : S) × (read s ≡ some s'))
      (memory : (q : Queues S) → room q ≡ true) where
    cut_all-total : (xs : List Skb) (s : S) → (s' : S) × (cut_all cut read xs s ≡ some s')
    unfolding cut_all
    cut_all-total [] s = (s, refl)
    cut_all-total (x ∷ xs) s =
        let (s₁, e₁) = cut_total x s in let (s₂, e₂) = cut_all-total xs s₁ in (s₂, rw e₁ e₂)

    handle_skb-total :
        (w cpu : ℕ) (q : Queues S)
        → (q₁ : Queues S) × (handle_skb cut read (room q) w cpu q ≡ some q₁)
    unfolding handle_skb
    handle_skb-total w cpu q =
        let hand_list = take threshold (q.skb_list cpu) in
        let (s₁, e₁) = cut_all-total hand_list q.state in
        let (s₂, e₂) = read_total s₁ in
        elim (Bool-cases (length hand_list == 0)) [
          | inl y ↦ (
            record q {
              skb_list = at_index cpu (drop threshold (q.skb_list cpu)) q.skb_list;
              work = at_index w none q.work;
            },
            rw (y, handle_skb) refl,
          )
          | inr y ↦ (handled cut read w cpu s₂ q, rw (y, memory q, handle_skb) (rw e₁ (rw e₂ refl)))
        ]

    -- One round: the queue of this processor is shorter by `threshold` packets.
    round_lem :
        (cpus here fuel : ℕ) (q : Queues S)
        → here < cpus
        → length (q.skb_list here) == 0 ≡ false
        → Alone here q
        → (q₁ : Queues S) × (clear_remainder_skb cut read room cpus here (suc fuel) q
            ≡ clear_remainder_skb cut read room cpus here fuel q₁)
          × Alone here q₁
          × (q₁.skb_list here ≡ drop threshold (q.skb_list here))
          × (passing here q₁ ≡ passing here q)
    unfolding clear_remainder_skb
    round_lem cpus here fuel q lt some_wait k =
        let q₀ : Queues S = record q { work = queue_work here here q.work } in
        let counted = count_empty-here here cpus 0 0 q (omega arith) (omega arith) some_wait k in
        let short : 0 + cpus - 1 == cpus ≡ false = ground arith in
        let (q₁, e) = handle_skb-total here here q₀ in
        let (lists, works) = handle_skb-frame cut read (room q₀) here here q₀ q₁ e in
        let idle : queue_work here here q.work ≡ at_index here (some here) q.work =
          queue_work-idle here here q.work (k.no_work here) in
        let one : q₀.work here ≡ some here = rw idle (at_self here (some here) q.work) in
        let off : (v : ℕ) → v ≢ here → q₀.work v ≡ none =
          λ v ne. rw idle (at_other here v (some here) q.work ne ∙ k.no_work v) in
        let off₁ : (v : ℕ) → q₁.work v ≡ none = λ v. rw works (idle_after here v q₀.work off) in
        let flushed =
          flush_works-one here cpus 0 q₀ q₁ (omega arith) (omega arith) one off e off₁ in
        (
          q₁,
          rw (counted, clear_remainder_skb) (rw (short, flushed) refl),
          record {
            others = λ c ne. rw lists (at_other here c _ q.skb_list ne ∙ k.others c ne);
            no_work = off₁;
          },
          rw lists (at_self here _ q.skb_list),
          works-passing cut read here here q₀ q₁ here (rw (memory q₀) at e),
        )

    at_once :
        (cpus here fuel : ℕ) (q : Queues S)
        → ((c : ℕ) → c ≢ here → q.skb_list c ≡ [])
        → q.skb_list here ≡ []
        → (q' : Queues S) × (clear_remainder_skb cut read room cpus here (suc fuel) q
            ≡ some (true, q'))
          × (q'.skb_list here ≡ [])
          × (q'.resent here ≡ q.resent here ++ q.skb_list here)
    at_once cpus here fuel q others nothing = (
      q,
      returns cpus here fuel q (λ c. empty_everywhere here c q others nothing),
      nothing,
      rw nothing (sym (append-nil (q.resent here))),
    )

    -- With no more fuel than one jump back for each `threshold` packets: if packets wait only on the
    -- processor that runs clear_remainder_skb, no work is queued, the allocations of handle_skb and
    -- resend_skb succeed, and get_partition and read_data do not stop, it returns. The queue is empty
    -- then, and its packets have been sent again in order.
    pub clear_remainder_skb-drains :
        (cpus here fuel : ℕ) (q : Queues S)
        → here < cpus
        → ((c : ℕ) → c ≢ here → q.skb_list c ≡ [])
        → ((w : ℕ) → q.work w ≡ none)
        → length (q.skb_list here) ≤ threshold * fuel
        → (q' : Queues S) × (clear_remainder_skb cut read room cpus here (suc fuel) q
            ≡ some (true, q'))
          × (q'.skb_list here ≡ [])
          × (q'.resent here ≡ q.resent here ++ q.skb_list here)
    clear_remainder_skb-drains cpus here zero q lt others no_work enough =
        at_once cpus here 0 q others (nil_of_length cut read (q.skb_list here) (ground arith))
    clear_remainder_skb-drains cpus here (suc fuel) q lt others no_work enough =
        elim (Bool-cases (length (q.skb_list here) == 0)) [
          | inl y ↦
              at_once cpus here (suc fuel) q others (nil_of_length cut read (q.skb_list here) y)
          | inr y ↦
              let (q₁, step, k, list, same) =
                round_lem cpus here (suc fuel) q lt y
                  (record { others = others; no_work = no_work }) in
              let shorter : length (q₁.skb_list here) ≤ threshold * fuel =
                omega (arith, ap length list, length-drop threshold (q.skb_list here), enough) in
              let (q', e, nothing, sent) =
                clear_remainder_skb-drains cpus here fuel q₁ lt k.others k.no_work shorter in
              (q', step ∙ e, nothing, sent ∙ same)
        ]
