-- ===== src/KernelHash/Queue/Fifo.antt =====
-- Packets leave the queues of model/kernel_hash/nf_in.c in the order in which they came.
use mathlib.Core.List.{append-nil, append_assoc}
use kernel_test.Base.{
  ℕ, add64, ◌≡◌, refl, sym, ap, ◌∙◌, Bool, true, false, List, [], ◌∷◌, ◌++◌, Option, none, some,
  ◌>>=◌, >>=-eq-some, some_eq, take, drop, take-append-drop, length, ltb, ◌==◌, if◌then◌else◌,
  Bool-cases, Option-cases, inl, inr, arith,
}
use kernel_test.KernelHash.Queue.{
  Skb, Queues, at_index, is_taken, reserve_limit, jpf_ip_rcv, handle_skb, cut_all, threshold,
  queue_work, resend_skb,
}

-- The packet is put into a queue.
abbrev pub accepts : ℕ → Skb → Bool
accepts reserve_mem skb =
    if ltb reserve_mem reserve_limit
    then false
    else elim (is_taken skb) [ none ↦ false | some taken ↦ taken ]

-- A packet arrives at a processor, or a work runs on a processor.
pub data Event : Type 0 where
  arrive : ℕ → ℕ → Skb → Event
  run : ℕ → ℕ → Event

-- The packets among the events that are put into the queue of processor `c`.
unfoldable pub accepted : ℕ → List Event → List Skb
accepted c [] = []
accepted c (arrive reserve_mem cpu skb ∷ es) =
    let rest = accepted c es in
    if accepts reserve_mem skb then (if c == cpu then skb ∷ rest else rest) else rest
accepted c (run w cpu ∷ es) = accepted c es

-- What processor `c` has sent and what waits there.
abbrev pub passing {ℓ} : {S : Type ℓ} → ℕ → Queues S → List Skb
passing c q = q.resent c ++ q.skb_list c

module _ {ℓ} {S : Type ℓ} (cut : Skb → S → Option S) (read : S → Option S) where
  -- The events take the state to `q'`. A work runs where it is queued.
  pub data Runs (q' : Queues S) : Queues S → List Event → Type ℓ where
    stops : {q : Queues S} → q ≡ q' → Runs q' q []
    arrives :
        {q q₁ : Queues S} {es : List Event} (reserve_mem cpu : ℕ) (skb : Skb)
        → jpf_ip_rcv true reserve_mem cpu skb q ≡ some q₁
        → Runs q' q₁ es
        → Runs q' q (arrive reserve_mem cpu skb ∷ es)
    works :
        {q q₁ : Queues S} {es : List Event} (w cpu : ℕ)
        → q.work w ≡ some cpu
        → handle_skb cut read true w cpu q ≡ some q₁
        → Runs q' q₁ es
        → Runs q' q (run w cpu ∷ es)

  resend_skb-append : (xs sent : List Skb) → resend_skb xs sent ≡ sent ++ xs
  unfolding resend_skb
  resend_skb-append [] sent = sym (append-nil sent)
  resend_skb-append (x ∷ xs) sent =
      resend_skb-append xs (sent ++ x ∷ []) ∙ append_assoc sent (x ∷ []) xs

  at_index-append :
      (c cpu : ℕ) (skb : Skb) (f : ℕ → List Skb)
      → at_index cpu (f cpu ++ skb ∷ []) f c ≡ f c ++ (if c == cpu then skb ∷ [] else [])
  at_index-append c cpu skb f = elim (Bool-cases (c == cpu)) [
    | inl y ↦ let e : c ≡ cpu = ground arith in rw (y, e) refl
    | inr y ↦ rw y (sym (append-nil (f c)))
  ]

  arrives-passing :
      (reserve_mem cpu : ℕ) (skb : Skb) (q q₁ : Queues S) (c : ℕ)
      → jpf_ip_rcv true reserve_mem cpu skb q ≡ some q₁
      → passing c q₁
        ≡ passing c q
          ++ (if accepts reserve_mem skb then (if c == cpu then skb ∷ [] else []) else [])
  unfolding jpf_ip_rcv
  arrives-passing reserve_mem cpu skb q q₁ c e = elim (Bool-cases (ltb reserve_mem reserve_limit)) [
    | inl y ↦
        let e' : some q ≡ some q₁ = rw (y, jpf_ip_rcv) at e in
        rw (y, ← some_eq e') (sym (append-nil (passing c q)))
    | inr y ↦ elim (Option-cases (is_taken skb)) [
      | inl t ↦
          let e' : ◌≡◌ {A = Option (Queues S)} none (some q₁) = rw (y, t, jpf_ip_rcv) at e in
          absurd (cc)
      | inr (true, t) ↦
          let q₂ : Queues S = record q {
            skb_list = at_index cpu (q.skb_list cpu ++ skb ∷ []) q.skb_list;
            skb_num = add64 q.skb_num 1;
            work = queue_work cpu cpu q.work;
          } in
          let e' : some q₂ ≡ some q₁ = rw (y, t, jpf_ip_rcv) at e in
          rw (y, t, ← some_eq e')
            (ap (λ (l : List Skb). q.resent c ++ l) (at_index-append c cpu skb q.skb_list)
              ∙ sym (append_assoc (q.resent c) (q.skb_list c) _))
      | inr (false, t) ↦
          let e' : some q ≡ some q₁ = rw (y, t, jpf_ip_rcv) at e in
          rw (y, t, ← some_eq e') (sym (append-nil (passing c q)))
    ]
  ]

  at_index-at : (c : ℕ) (a : List Skb) (f : ℕ → List Skb) → at_index c a f c ≡ a
  at_index-at c a f = let y : c == c ≡ true = ground arith in rw y refl

  -- The state after a run of handle_skb that has packets.
  abbrev pub handled : ℕ → ℕ → S → Queues S → Queues S
  handled w cpu s q = record {
    skb_list = at_index cpu (drop threshold (q.skb_list cpu)) q.skb_list;
    work = at_index w none q.work;
    skb_num = q.skb_num;
    resent = at_index cpu (resend_skb (take threshold (q.skb_list cpu)) (q.resent cpu)) q.resent;
    state = s;
  }

  take-drop_at :
      (w cpu : ℕ) (s : S) (q : Queues S) (c : ℕ) → passing c (handled w cpu s q) ≡ passing c q
  take-drop_at w cpu s q c = elim (Bool-cases (c == cpu)) [
    | inl y ↦
        let e : c ≡ cpu = ground arith in
        rw (y, e, resend_skb-append (take threshold (q.skb_list cpu)) (q.resent cpu))
          (append_assoc (q.resent cpu) _ _
            ∙ ap (λ (l : List Skb). q.resent cpu ++ l)
                (take-append-drop threshold (q.skb_list cpu)))
    | inr y ↦ rw y refl
  ]

  pub nil_of_length : (l : List Skb) → length l == 0 ≡ true → l ≡ []
  nil_of_length [] h = refl
  nil_of_length (x ∷ l) h = absurd (ground arith)

  -- A run of handle_skb keeps what is passing, in order, on every processor.
  pub works-passing :
      (w cpu : ℕ) (q q₁ : Queues S) (c : ℕ)
      → handle_skb cut read true w cpu q ≡ some q₁
      → passing c q₁ ≡ passing c q
  unfolding handle_skb
  works-passing w cpu q q₁ c e =
      let hand_list = take threshold (q.skb_list cpu) in
      elim (Bool-cases (length hand_list == 0)) [
        | inl y ↦
            let q' : Queues S = record q {
              skb_list = at_index cpu (drop threshold (q.skb_list cpu)) q.skb_list;
              work = at_index w none q.work;
            } in
            let e' : some q' ≡ some q₁ = rw (y, handle_skb) at e in
            let nothing : hand_list ≡ [] = nil_of_length hand_list y in
            let whole : drop threshold (q.skb_list cpu) ≡ q.skb_list cpu =
              sym (ap (λ (l : List Skb). l ++ drop threshold (q.skb_list cpu)) nothing)
              ∙ take-append-drop threshold (q.skb_list cpu) in
            rw (← some_eq e') (ap (λ (l : List Skb). q.resent c ++ l) (same cpu c q whole))
        | inr y ↦
            let e' : (cut_all cut read hand_list q.state >>= λ s.
            read s >>= λ s'. some (handled w cpu s' q))
                ≡ some q₁ =
              rw (y, handle_skb) at e in
            let (s, e₁, f₁) = >>=-eq-some (cut_all cut read hand_list q.state) _ e' in
            let (s', e₂, f₂) = >>=-eq-some (read s) _ f₁ in
            rw (← some_eq f₂) (take-drop_at w cpu s' q c)
      ]
    where
      same :
          (cpu c : ℕ) (q : Queues S)
          → drop threshold (q.skb_list cpu) ≡ q.skb_list cpu
          → at_index cpu (drop threshold (q.skb_list cpu)) q.skb_list c ≡ q.skb_list c
      same cpu c q whole = elim (Bool-cases (c == cpu)) [
        | inl y ↦ let e : c ≡ cpu = ground arith in rw (y, e) whole
        | inr y ↦ rw y refl
      ]

  -- Whatever packets arrive and whatever works run, in any order: on every processor, the packets that were sent again
  -- followed by those that wait are those of the beginning followed by the packets that
  -- were accepted there, in the order in which they came. No packet is lost, sent twice or overtaken.
  pub Runs-passing :
      {q' q : Queues S} {es : List Event} (c : ℕ)
      → Runs q' q es
      → passing c q' ≡ passing c q ++ accepted c es
  unfolding accepted
  Runs-passing {q = q} c (stops e) = sym (ap (passing c) e) ∙ sym (append-nil (passing c q))
  Runs-passing {q = q} c (arrives {q₁ = q₁} {es = es} reserve_mem cpu skb e r) =
      Runs-passing c r
      ∙ ap (λ (l : List Skb). l ++ accepted c es) (arrives-passing reserve_mem cpu skb q q₁ c e)
      ∙ append_assoc (passing c q) _ (accepted c es)
      ∙ ap (λ (l : List Skb). passing c q ++ l) (here (accepts reserve_mem skb) (c == cpu))
    where
      here :
          (taken at_c : Bool)
          → (if taken then (if at_c then skb ∷ [] else []) else []) ++ accepted c es ≡ (
              if taken
              then (if at_c then skb ∷ accepted c es else accepted c es)
              else accepted c es)
      here true true = refl
      here true false = refl
      here false at_c = refl
  Runs-passing {q = q} c (works {q₁ = q₁} {es = es} w cpu p e r) =
      Runs-passing c r ∙ ap (λ (l : List Skb). l ++ accepted c es) (works-passing w cpu q q₁ c e)
