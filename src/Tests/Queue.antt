-- ===== src/Tests/Queue.antt =====
-- Runs of the queue of packets of model/kernel_hash/nf_in.c, and its theorems at inputs that meet
-- their hypotheses.
use kernel_test.Base.{
  ℕ, ◌+◌, ◌≡◌, ◌≢◌, refl, true, false, List, [], ◌∷◌, ◌++◌, Option, some, none, ◌==◌, if◌then◌else◌,
  replicate, arith,
}
use kernel_test.KernelHash.Queue.{
  Skb, Queues, is_taken, jpf_ip_rcv, handle_skb, clear_remainder_skb,
}
use kernel_test.KernelHash.Queue.Fifo.{
  Event, arrive, run, accepted, passing, Runs, stops, arrives, works, Runs-passing,
}
use kernel_test.KernelHash.Queue.Waits.{clear_remainder_skb-waits}
use kernel_test.KernelHash.Queue.Drain.{clear_remainder_skb-drains}

-- A TCP packet that is known by its last byte.
abbrev tcp : ℕ → Skb
tcp n = 69 ∷ 0 ∷ 0 ∷ 40 ∷ 0 ∷ 0 ∷ 0 ∷ 0 ∷ 64 ∷ 6 ∷ replicate 30 n

abbrev count : Skb → ℕ → Option ℕ
count x s = some (s + 1)

abbrev keep : ℕ → Option ℕ
keep s = some s

abbrev no_packets : Queues ℕ
no_packets = record {
  skb_list = λ c. [];
  work = λ w. none;
  skb_num = 0;
  resent = λ c. [];
  state = 0;
}

abbrev events : List Event
events = arrive 200000 0 (tcp 1) ∷ arrive 200000 1 (tcp 2) ∷ arrive 200000 0 (tcp 3) ∷ run 0 0 ∷ []

after_events : (q : Queues ℕ) × Runs count keep q no_packets events
unfolding jpf_ip_rcv handle_skb
after_events = (
  _,
  arrives 200000 0 (tcp 1) refl (
      arrives 200000 1 (tcp 2) refl
        (arrives 200000 0 (tcp 3) refl (works 0 0 refl refl (stops refl)))),
)

Runs-passing_example : passing 0 after_events.0 ≡ [] ++ accepted 0 events
Runs-passing_example = Runs-passing count keep 0 after_events.1

sent_in_order : after_events.0.resent 0 ≡ tcp 1 ∷ tcp 3 ∷ []
unfolding after_events
sent_in_order = refl

not_for_server :
    is_taken (replicate 9 0 ++ (6 ∷ 0 ∷ 0 ∷ 139 ∷ 209 ∷ 90 ∷ 213 ∷ []) ++ replicate 4 0)
    ≡ some false
unfolding is_taken
not_for_server = refl

-- Two packets wait on processor 1.
abbrev waiting : Queues ℕ
waiting = record no_packets { skb_list = λ c. if c == 1 then tcp 1 ∷ tcp 2 ∷ [] else [] }

clear_remainder_skb-waits_example :
    clear_remainder_skb count keep (λ q. true) 2 0 7 waiting ≢ some (true, waiting)
clear_remainder_skb-waits_example =
    clear_remainder_skb-waits count keep (λ q. true) 2 0 1 7 waiting waiting (omega arith)
      (omega arith) (λ e. cc) (λ w. refl)

clear_remainder_skb-drains_example :
    (q' : Queues ℕ) × (clear_remainder_skb count keep (λ q. true) 2 1 2 waiting ≡ some (true, q'))
    × (q'.skb_list 1 ≡ [])
    × (q'.resent 1 ≡ [] ++ (tcp 1 ∷ tcp 2 ∷ []))
clear_remainder_skb-drains_example =
    clear_remainder_skb-drains count keep (λ q. true) (λ x s. (s + 1, refl)) (λ s. (s, refl))
      (λ q. refl) 2 1 1 waiting (omega arith) only_one (λ w. refl) (omega arith)
  where
    only_one : (c : ℕ) → c ≢ 1 → waiting.skb_list c ≡ []
    only_one c ne = let off : c == 1 ≡ false = ground arith in rw off refl
