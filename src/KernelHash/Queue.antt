-- ===== src/KernelHash/Queue.antt =====
-- The queue of packets of model/kernel_hash/nf_in.c: jpf_ip_rcv, handle_skb, resend_skb and
-- clear_remainder_skb.
pub mod Fifo
pub mod Waits
pub mod Drain
use Prim.Native.Nat.{bit_and}
use kernel_test.Base.{
  ℕ, zero, suc, ◌+◌, ◌-◌, ◌*◌, ◌/◌, Bool, true, false, not, ◌&&◌, List, [], ◌∷◌, ◌++◌, Option, none,
  some, ◌>>=◌, take, drop, get_elem?, length, ltb, ◌==◌, if◌then◌else◌, add64,
}
use kernel_test.KernelHash.Params.{Params}
use kernel_test.KernelHash.Kfifo.{Kfifo}
use kernel_test.KernelHash.Dedup.{Machine, World, partition_payload}

-- The linear bytes of a packet from its IP header on.
abbrev pub Skb : Type 0
Skb = List ℕ

-- `threshold`
abbrev pub threshold : ℕ
threshold = 10000

-- The queue of each processor, where the work of each processor is queued, the packets that each
-- processor has sent again, and the rest of the state.
pub record Queues {ℓ} (S : Type ℓ) : Type ℓ where
  pub skb_list : ℕ → List Skb
  pub work : ℕ → Option ℕ
  pub skb_num : ℕ
  pub resent : ℕ → List Skb
  pub state : S

-- The entry of one processor changed.
abbrev pub at_index {ℓ} : {A : Type ℓ} → ℕ → A → (ℕ → A) → ℕ → A
at_index c a f i = if i == c then a else f i

-- !strcmp(host, "139.209.90.213")
unfoldable pub is_server : List ℕ → Bool
is_server (a ∷ b ∷ c ∷ d ∷ []) = a == 139 && b == 209 && c == 90 && d == 213
is_server _ = false

-- The test of jpf_ip_rcv on a packet: TCP, and neither address is the server's. A read outside of the
-- packet is a `none`.
unfoldable pub is_taken : Skb → Option Bool
unfolding is_server
is_taken skb = do
  protocol ← get_elem? skb 9
  last ← get_elem? skb 19
  some (
      (protocol == 6)
      && not (is_server (take 4 (drop 16 skb)))
      && not (is_server (take 4 (drop 12 skb))))

-- 400ULL*1024*1024/4/1024
abbrev pub reserve_limit : ℕ
reserve_limit = 400 * 1024 * 1024 / 4 / 1024

-- queue_work, unless the work is pending
unfoldable pub queue_work : ℕ → ℕ → (ℕ → Option ℕ) → ℕ → Option ℕ
queue_work w cpu work = elim (work w) [ none ↦ at_index w (some cpu) work | some c ↦ work ]

-- jpf_ip_rcv(skb, ...) on processor `cpu`, with `reserve_mem` free pages; the copy of the packet is
-- taken to succeed.
unfoldable pub jpf_ip_rcv {ℓ} : {S : Type ℓ} → Bool → ℕ → ℕ → Skb → Queues S → Option (Queues S)
unfolding is_taken queue_work
jpf_ip_rcv room reserve_mem cpu skb q =
    if ltb reserve_mem reserve_limit
    then some q
    else (is_taken skb >>= λ taken.
        if not taken
        then some q
        else if not room
        then none
        else some (record q {
          skb_list = at_index cpu (q.skb_list cpu ++ skb ∷ []) q.skb_list;
          skb_num = add64 q.skb_num 1;
          work = queue_work cpu cpu q.work;
        }))

-- resend_skb(head): each packet goes to the tasklet in turn, and `sent` is what was sent before.
unfoldable pub resend_skb : List Skb → List Skb → List Skb
resend_skb [] sent = sent
resend_skb (x ∷ xs) sent = resend_skb xs (sent ++ x ∷ [])

-- `cut` is what is done with each packet, and `read` is read_data.
module _ {ℓ} {S : Type ℓ} (cut : Skb → S → Option S) (read : S → Option S) where
  unfoldable pub cut_all : List Skb → S → Option S
  cut_all [] s = some s
  cut_all (x ∷ xs) s = cut x s >>= cut_all xs

  -- handle_skb(w) on processor `cpu`: it takes packets from the queue of the processor that it runs
  -- on. The work is not pending from its start on. At the end resend_skb sends the packets in order.
  -- `room` says whether both allocations succeed: without memory for the list heads there is a `BUG()`,
  -- and the tasklet of resend_skb is used without a test.
  unfoldable pub handle_skb : Bool → ℕ → ℕ → Queues S → Option (Queues S)
  unfolding cut_all resend_skb
  handle_skb room w cpu q =
      let hand_list = take threshold (q.skb_list cpu) in
      let q' : Queues S = record q {
        skb_list = at_index cpu (drop threshold (q.skb_list cpu)) q.skb_list;
        work = at_index w none q.work;
      } in
      if length hand_list == 0
      then some q'
      else if not room
      then none
      else (cut_all hand_list q.state >>= λ s. read s >>= λ s'. some (record q' {
        state = s';
        resent = at_index cpu (resend_skb hand_list (q.resent cpu)) q.resent;
      }))

  -- The first loop of clear_remainder_skb over the processors from `cpu` on, `n` of them, on processor
  -- `here`: `rem`, and where the works are queued.
  unfoldable pub count_empty : ℕ → ℕ → ℕ → ℕ → Queues S → ℕ × Queues S
  unfolding queue_work
  count_empty here zero cpu rem q = (rem, q)
  count_empty here (suc n) cpu rem q =
      let empty = length (q.skb_list cpu) == 0 in
      count_empty here n (cpu + 1) (if empty then rem + 1 else rem)
        (if empty then q else record q { work = queue_work cpu here q.work })

  -- flush_workqueue(skb_wq): each work that is queued runs where it is queued. `room` is what its
  -- allocations are answered, in the state that they are made in.
  unfoldable pub flush_works : (Queues S → Bool) → ℕ → ℕ → Queues S → Option (Queues S)
  unfolding handle_skb
  flush_works room zero w q = some q
  flush_works room (suc n) w q = elim (q.work w) [
    | none ↦ flush_works room n (w + 1) q
    | some cpu ↦ handle_skb (room q) w cpu q >>= flush_works room n (w + 1)
  ]

  -- clear_remainder_skb() on processor `here` of `cpus`, with fuel for the jumps back: whether it has
  -- returned.
  unfoldable pub clear_remainder_skb :
      (Queues S → Bool) → ℕ → ℕ → ℕ → Queues S → Option (Bool × Queues S)
  unfolding count_empty flush_works
  clear_remainder_skb room cpus here zero q = some (false, q)
  clear_remainder_skb room cpus here (suc fuel) q =
      let r = count_empty here cpus 0 0 q in
      let again = flush_works room cpus 0 (r.1) >>= clear_remainder_skb room cpus here fuel in
      if r.0 == cpus then some (true, r.1) else again

-- What handle_skb does with a packet: the payload goes to get_partition. Where the headers are longer
-- than `tot_len`, `data_len` is negative as an `int`, and nothing is done.
unfoldable pub cut_packet : Machine → Kfifo → Params → Skb → World → Option World
cut_packet m k p skb w = get_elem? skb 0 >>= λ version_ihl. get_elem? skb 2 >>= λ high.
    get_elem? skb 3 >>= λ low.
    let ihl = bit_and version_ihl 15 in
    let tot_len = high * 256 + low in
    let tcph = drop (ihl * 4) skb in
    get_elem? tcph 12 >>= λ b.
    let doff = b / 16 in
    let headers = ihl * 4 + doff * 4 in
    let data' = drop (doff * 4) tcph in
    if ltb tot_len headers
    then some w
    else if ltb (length data') (tot_len - headers)
    then none
    else partition_payload m k p (take (tot_len - headers) data') w
