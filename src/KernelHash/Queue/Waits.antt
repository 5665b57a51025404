-- ===== src/KernelHash/Queue/Waits.antt =====
-- When clear_remainder_skb of model/kernel_hash/nf_in.c does not return.
use kernel_test.Base.{
  ℕ, zero, suc, ◌+◌, ◌≤◌, ◌<◌, ◌≡◌, ◌≢◌, refl, Bool, true, false, List, [], ◌∷◌, Option, none, some,
  ◌>>=◌, >>=-eq-some, some_eq, take, drop, length, ◌==◌, Bool-cases, Option-cases, inl, inr, ◌⊎◌,
  arith,
}
use kernel_test.KernelHash.Queue.{
  Skb, Queues, at_index, queue_work, handle_skb, cut_all, threshold, count_empty, flush_works,
  clear_remainder_skb,
}
use kernel_test.KernelHash.Queue.Fifo.{handled}

module _ {ℓ} {S : Type ℓ} (cut : Skb → S → Option S) (read : S → Option S) where
  -- Packets wait on another processor, and works are queued on this one only.
  record Stuck (here c : ℕ) (q : Queues S) : Type ℓ where
    waits : length (q.skb_list c) == 0 ≡ false
    queued : (w : ℕ) → (q.work w ≡ none) ⊎ (q.work w ≡ some here)

  queue_work-here :
      (w here : ℕ) (work : ℕ → Option ℕ)
      → ((v : ℕ) → (work v ≡ none) ⊎ (work v ≡ some here))
      → (v : ℕ) → (queue_work w here work v ≡ none) ⊎ (queue_work w here work v ≡ some here)
  unfolding queue_work
  queue_work-here w here work h v = elim (Option-cases (work w)) [
    | inr (c, e) ↦ rw (e, queue_work) (h v)
    | inl e ↦ elim (Bool-cases (v == w)) [
      | inl y ↦ rw (e, queue_work) (rw y (inr refl))
      | inr y ↦ rw (e, queue_work) (rw y (h v))
    ]
  ]

  pub count_empty_step :
      (here n cpu rem : ℕ) (q : Queues S)
      → length (q.skb_list cpu) == 0 ≡ true
      → count_empty cut read here (suc n) cpu rem q
        ≡ count_empty cut read here n (cpu + 1) (rem + 1) q
  unfolding count_empty
  count_empty_step here n cpu rem q y = rw (y, count_empty) refl

  pub count_waiting_step :
      (here n cpu rem : ℕ) (q : Queues S)
      → length (q.skb_list cpu) == 0 ≡ false
      → count_empty cut read here (suc n) cpu rem q
        ≡ count_empty cut read here n (cpu + 1) rem (record q { work = queue_work cpu here q.work })
  unfolding count_empty
  count_waiting_step here n cpu rem q y = rw (y, count_empty) refl

  -- The count stays below the number of processors.
  count_empty-Stuck :
      (here c n cpu rem : ℕ) (q : Queues S)
      → Stuck here c q
      → let r = count_empty cut read here n cpu rem q in
        Stuck here c (r.1) × (r.0 ≤ rem + n) × (cpu ≤ c → c < cpu + n → r.0 < rem + n)
  count_empty-Stuck here c zero cpu rem q k =
      unfold count_empty in (k, omega arith, λ a b. absurd (omega arith))
  count_empty-Stuck here c (suc n) cpu rem q k = elim (Bool-cases (length (q.skb_list cpu) == 0)) [
    | inl y ↦
        let (k', le, lt) = count_empty-Stuck here c n (cpu + 1) (rem + 1) q k in
        rw (count_empty_step here n cpu rem q y) (
          k',
          omega (arith, le),
          λ a b. elim (Bool-cases (c == cpu)) [
            | inl z ↦
                let e : c ≡ cpu = ground arith in
                let empty : length (q.skb_list c) == 0 ≡ true = rw e y in
                absurd (no_both _ empty k.waits)
            | inr z ↦ omega (arith, lt (ground arith) (omega arith))
          ],
        )
    | inr y ↦
        let q₁ : Queues S = record q { work = queue_work cpu here q.work } in
        let k₁ : Stuck here c q₁ = record {
          waits = k.waits;
          queued = queue_work-here cpu here q.work k.queued;
        } in
        let (k', le, lt) = count_empty-Stuck here c n (cpu + 1) rem q₁ k₁ in
        rw (count_waiting_step here n cpu rem q y) (k', omega (arith, le), λ a b. omega (arith, le))
  ]
    where
      no_both : (b : Bool) → b ≡ true → b ≡ false → ⊥
      no_both b p q = cc

  -- The queues and the works after a run of handle_skb that does not stop.
  pub handle_skb-frame :
      (r : Bool) (w cpu : ℕ) (q q₁ : Queues S)
      → handle_skb cut read r w cpu q ≡ some q₁
      → (q₁.skb_list ≡ at_index cpu (drop threshold (q.skb_list cpu)) q.skb_list)
        × (q₁.work ≡ at_index w none q.work)
  unfolding handle_skb
  handle_skb-frame r w cpu q q₁ e =
      let hand_list = take threshold (q.skb_list cpu) in
      let q' : Queues S = record q {
        skb_list = at_index cpu (drop threshold (q.skb_list cpu)) q.skb_list;
        work = at_index w none q.work;
      } in
      elim (Bool-cases (length hand_list == 0)) [
        | inl y ↦
            let e' : some q' ≡ some q₁ = rw (y, handle_skb) at e in rw (← some_eq e') (refl, refl)
        | inr y ↦ elim (Bool-cases r) [
          | inr z ↦
              let e' : ◌≡◌ {A = Option (Queues S)} none (some q₁) = rw (y, z, handle_skb) at e in
              absurd (cc)
          | inl z ↦
              let e' : (cut_all cut read hand_list q.state >>= λ s.
              read s >>= λ s'. some (handled cut read w cpu s' q))
                  ≡ some q₁ =
                rw (y, z, handle_skb) at e in
              let (s, e₁, f₁) = >>=-eq-some (cut_all cut read hand_list q.state) _ e' in
              let (s', e₂, f₂) = >>=-eq-some (read s) _ f₁ in rw (← some_eq f₂) (refl, refl)
        ]
      ]

  module _ (room : Queues S → Bool) where
    handle_skb-Stuck :
        (here c w : ℕ) (q q₁ : Queues S)
        → c ≢ here
        → Stuck here c q
        → handle_skb cut read (room q) w here q ≡ some q₁
        → Stuck here c q₁
    handle_skb-Stuck here c w q q₁ ne k e =
        let (lists, works) = handle_skb-frame (room q) w here q q₁ e in
        let other : c == here ≡ false = ground arith in
        record {
          waits = rw (lists, other) k.waits;
          queued = λ v.
              rw works (elim (Bool-cases (v == w)) [
                | inl y ↦ rw y (inl refl)
                | inr y ↦ rw y (k.queued v)
              ]);
        }

    flush_works-Stuck :
        (here c n w : ℕ) (q q₁ : Queues S)
        → c ≢ here
        → Stuck here c q
        → flush_works cut read room n w q ≡ some q₁
        → Stuck here c q₁
    unfolding flush_works
    flush_works-Stuck here c zero w q q₁ ne k e = rw (← some_eq e) k
    flush_works-Stuck here c (suc n) w q q₁ ne k e = elim (k.queued w) [
      | inl z ↦
          let e' : flush_works cut read room n (w + 1) q ≡ some q₁ = rw (z, flush_works) at e in
          flush_works-Stuck here c n (w + 1) q q₁ ne k e'
      | inr z ↦
          let e' : (handle_skb cut read (room q) w here q >>= flush_works cut read room n (w + 1))
              ≡ some q₁ =
            rw (z, flush_works) at e in
          let (q₂, e₁, e₂) = >>=-eq-some (handle_skb cut read (room q) w here q) _ e' in
          flush_works-Stuck here c n (w + 1) q₂ q₁ ne (handle_skb-Stuck here c w q q₂ ne k e₁) e₂
    ]

    never_returns :
        (cpus here c fuel : ℕ) (q q' : Queues S)
        → c ≢ here
        → c < cpus
        → Stuck here c q
        → clear_remainder_skb cut read room cpus here fuel q ≢ some (true, q')
    unfolding clear_remainder_skb
    never_returns cpus here c zero q q' ne lt k = λ e. cc
    never_returns cpus here c (suc fuel) q q' ne lt k = λ e.
        let r = count_empty cut read here cpus 0 0 q in
        let (k', le, below) = count_empty-Stuck here c cpus 0 0 q k in
        let short : r.0 == cpus ≡ false = ground (arith, below (omega arith) (omega arith)) in
        let e' : (flush_works cut read room cpus 0 (r.1)
              >>= clear_remainder_skb cut read room cpus here fuel)
            ≡ some (true, q') =
          rw (short, clear_remainder_skb) at e in
        let (q₁, e₁, e₂) = >>=-eq-some (flush_works cut read room cpus 0 (r.1)) _ e' in
        never_returns cpus here c fuel q₁ q' ne lt
          (flush_works-Stuck here c cpus 0 (r.1) q₁ ne k' e₁) e₂

    -- While packets wait on another processor than the one that runs clear_remainder_skb, and no work
    -- is queued at the start, it does not return, with any fuel and any memory: the works that it queues run on its own
    -- processor, and take packets from the queue of that processor only.
    pub clear_remainder_skb-waits :
        (cpus here c fuel : ℕ) (q q' : Queues S)
        → c ≢ here
        → c < cpus
        → q.skb_list c ≢ []
        → ((w : ℕ) → q.work w ≡ none)
        → clear_remainder_skb cut read room cpus here fuel q ≢ some (true, q')
    clear_remainder_skb-waits cpus here c fuel q q' ne lt some_wait no_work =
        never_returns cpus here c fuel q q' ne lt
          (record { waits = not_empty (q.skb_list c) some_wait; queued = λ w. inl (no_work w) })
      where
        not_empty : (l : List Skb) → l ≢ [] → length l == 0 ≡ false
        not_empty [] h = absurd (h refl)
        not_empty (x ∷ l) h = ground arith
