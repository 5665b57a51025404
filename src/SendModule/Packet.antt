-- ===== src/SendModule/Packet.antt =====
-- hand_hash, build_hash, get_partition, replace_skb and nf_out of model/send_module/nf_out.c.
pub mod Cuts
pub mod Fits
pub mod Replaced
use Prim.Native.Nat.{bit_and}
use kernel_test.Base.{
  ℕ, ◌+◌, ◌-◌, ◌*◌, ◌/◌, Bool, true, false, not, ◌&&◌, List, [], ◌∷◌, ◌++◌, Option, none, some,
  ◌>>=◌, take, drop, get_elem?, length, leb, ltb, ◌==◌, if◌then◌else◌, add64, sub64,
}
use kernel_test.KernelHash.Params.{Params, shalen}
use kernel_test.KernelHash.Kfifo.{Kfifo}
use kernel_test.KernelHash.Partition.{get_partition}
use kernel_test.SendModule.Entries.{Entries, add_hash_info, get_hash_item}

-- `struct replace_item`; `stop` is its `end`.
pub record ReplaceItem : Type 0 where
  pub start : ℕ
  pub stop : ℕ
  pub sha1 : List ℕ

-- The table, the totals, what `new_len` points to, the list that `head` points to, and the number of
-- calls of the allocator.
pub record Sending : Type 0 where
  pub entries : Entries
  pub sum_num : ℕ
  pub save_num : ℕ
  pub new_len : ℕ
  pub head : List ReplaceItem
  pub calls : ℕ

-- What is not in the repository: the digest, which may fail, the limit that depends on the size of
-- an entry, and the answers of the allocator to the n-th call.
pub record Sender : Type 0 where
  pub sha1_hash_data : List ℕ → Option (List ℕ)
  pub hash_max_count : ℕ
  pub room : ℕ → Bool
  pub address : ℕ → ℕ

module _ (m : Sender) where
  -- hand_hash(src, len, dst, new_len): its result, and the state afterwards. A failure to add is only
  -- printed.
  unfoldable pub hand_hash : ℕ → List ℕ → Sending → Bool × Sending
  hand_hash len dst s =
      let (item, t) = get_hash_item dst s.entries in
      elim item [
        | none ↦
            let r = add_hash_info m.hash_max_count (m.room s.calls) (m.address s.calls) dst len t in
            (false, record s { entries = r.1; sum_num = add64 s.sum_num len; calls = s.calls + 1 })
        | some cp ↦ (
          true,
          record s {
            entries = t;
            sum_num = add64 s.sum_num len;
            save_num = add64 s.save_num (sub64 len (shalen + 2));
            new_len = sub64 s.new_len (sub64 len (shalen + 2));
          },
        )
      ]

  -- What build_hash does with the answer of hand_hash: `kmem_cache_zalloc`, and `list_add_tail`.
  unfoldable pub note_replace : ℕ → ℕ → List ℕ → Bool × Sending → Option Sending
  note_replace start len dst (false, s) = some s
  note_replace start len dst (true, s) =
      if not (m.room s.calls)
      then none
      else let item : ReplaceItem = record {
        start = start;
        stop = start + len - 1;
        sha1 = take shalen dst;
      } in
        some (record s { head = s.head ++ item ∷ []; calls = s.calls + 1 })

  -- build_hash(src, start, length, head, new_len)
  unfoldable pub build_hash : List ℕ → ℕ → ℕ → Sending → Option Sending
  unfolding hand_hash note_replace
  build_hash src start len s =
      if leb len (shalen + 2)
      then some s
      else if not (m.room s.calls)
      then none
      else let s' : Sending = record s { calls = s.calls + 1 } in
        elim (m.sha1_hash_data (take len (drop start src))) [
          | none ↦ some s'
          | some dst ↦ note_replace start len dst (hand_hash len dst s')
        ]

  -- get_partition(data, length, head, new_len): the code is that of model/kernel_hash, but for the
  -- arguments of `build_hash`.
  unfoldable pub send_partition : Kfifo → Params → List ℕ → Sending → Option Sending
  unfolding build_hash
  send_partition k p payload s =
      get_partition (λ start end' len s'. s' >>= build_hash payload start len) k p payload (some s)
      >>= λ s'. s'

-- The loop of replace_skb over the list: `last` and `index` afterwards. The copies are commented out.
unfoldable pub replace_loop : List ReplaceItem → ℕ → ℕ → Option (ℕ × ℕ)
replace_loop [] last index = some (last, index)
replace_loop (cp ∷ cps) last index =
    let after = replace_loop cps (cp.stop + 1) (add64 (add64 index (cp.start - last)) shalen) in
    let here = replace_loop cps (cp.stop + 1) (add64 index shalen) in
    if ltb last cp.start then after else if cp.start == last then here else none

-- `MTU`
abbrev pub mtu : ℕ
mtu = 1460

-- replace_skb(skb, old_data, head, len, old_len, packet_len): where `index` stands at the end, and the
-- size of the buffer for the new data, which comes from mtu_data up to `MTU` and else from kmalloc, and
-- is freed again. `room` is the answer of the allocator that is asked; no memory is a `BUG()`.
unfoldable pub replace_skb : Bool → List ReplaceItem → ℕ → ℕ → Option (ℕ × ℕ)
unfolding replace_loop
replace_skb room head len old_len =
    let size = if leb len mtu then mtu else len in
    if not room
    then none
    else replace_loop head 0 0 >>= λ r.
        if not (r.0 == old_len)
        then some (add64 r.1 (sub64 old_len r.0), size)
        else some (r.1, size)

-- IPPROTO_TCP
abbrev pub ipproto_tcp : ℕ
ipproto_tcp = 6

-- The fields of the headers that nf_out reads. A read outside of the packet is a `none`.
pub record Headers : Type 0 where
  pub ihl : ℕ
  pub protocol : ℕ
  pub tot_len : ℕ
  pub daddr : List ℕ

unfoldable pub ip_header : List ℕ → Option Headers
ip_header skb = do
  version_ihl ← get_elem? skb 0
  high ← get_elem? skb 2
  low ← get_elem? skb 3
  protocol ← get_elem? skb 9
  last ← get_elem? skb 19
  some (record {
    ihl = bit_and version_ihl 15;
    protocol = protocol;
    tot_len = high * 256 + low;
    daddr = take 4 (drop 16 skb);
  })

-- `doff` of the TCP header
unfoldable pub tcp_doff : List ℕ → Option ℕ
tcp_doff tcph = do b ← get_elem? tcph 12; some (b / 16)

-- strcmp(dsthost, "192.168.109.1") == 0
unfoldable pub is_watched : List ℕ → Bool
is_watched (a ∷ b ∷ c ∷ d ∷ []) = a == 192 && b == 168 && c == 109 && d == 1
is_watched _ = false

-- What nf_out changes outside of the packet.
pub record Hook : Type 0 where
  pub sending : Sending
  pub skb_num : ℕ

module _ (m : Sender) (k : Kfifo) (p : Params) where
  -- nf_out for a payload, with an empty `hand_list`
  unfoldable pub out_payload : List ℕ → Hook → Option Hook
  out_payload payload h = do
    s ← send_partition m k p payload (record h.sending { new_len = length payload; head = [] })
    let h' : Hook = record { sending = s; skb_num = add64 h.skb_num 1 }
    elim s.head [
      | [] ↦ some h'
      | r ∷ rs ↦ do
        index ← replace_skb (m.room s.calls) s.head s.new_len (length payload)
        some (record h' { sending = record s { head = []; calls = s.calls + 1 } })
    ]

  -- nf_out(skb) on the linear bytes of a packet from its IP header on. The packet is accepted and is
  -- not changed. Where the lengths of the headers exceed `tot_len`, `data_len` is negative as an
  -- `int`, and get_partition does nothing.
  unfoldable pub nf_out : List ℕ → Hook → Option Hook
  unfolding ip_header tcp_doff is_watched out_payload
  nf_out skb h = ip_header skb >>= λ iph.
      let tcph = drop (iph.ihl * 4) skb in
      if not (iph.protocol == ipproto_tcp)
      then some h
      else if not (is_watched iph.daddr)
      then some h
      else (tcp_doff tcph >>= λ doff.
          let data' = drop (doff * 4) tcph in
          let headers = iph.ihl * 4 + doff * 4 in
          if ltb iph.tot_len headers
          then some (record h { skb_num = add64 h.skb_num 1 })
          else if ltb (length data') (iph.tot_len - headers)
          then none
          else out_payload (take (iph.tot_len - headers) data') h)
