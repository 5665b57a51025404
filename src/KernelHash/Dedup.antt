-- ===== src/KernelHash/Dedup.antt =====
-- `hand_hash`, `build_hash` and the chunking of a payload (model/kernel_hash/nf_in.c).
pub mod Totals
use kernel_test.Base.{
  not, ℕ, ◌+◌, ◌-◌, Bool, List, [], ◌∷◌, Option, none, some, ◌>>=◌, take, drop, leb, ◌==◌,
  if◌then◌else◌, add64, sub64, dec32,
}
use kernel_test.KernelHash.Params.{Params, shalen}
use kernel_test.KernelHash.Item.{Item, unset, marked, stored}
use kernel_test.KernelHash.Kfifo.{Kfifo}
use kernel_test.KernelHash.Partition.{get_partition}
use kernel_test.KernelHash.Bitmap.{at_cpu}
use kernel_test.KernelHash.Sweep.{is_from_file}
use kernel_test.KernelHash.Table.{Cache, Answers, bkt_of, put_bucket, add_hash_info, get_hash_item}

-- `struct read_skb`: a reference to an item, by its bucket and its address.
pub record ReadSkb : Type 0 where
  pub bucket : ℕ
  pub address : ℕ

-- The table, the totals, and the list of chunks to read for each processor. `calls` counts the calls
-- to the kernel's allocator.
pub record World : Type 0 where
  pub cache : Cache
  pub sum_num : ℕ
  pub save_num : ℕ
  pub reads : ℕ → List ReadSkb
  pub calls : ℕ

-- What is not in the repository: the digest, which may fail, the number of processors, the limit
-- that depends on the size of an item, and the answers of the allocator to the n-th call.
pub record Machine : Type 0 where
  pub sha1_hash_data : List ℕ → Option (List ℕ)
  pub num_online_cpus : ℕ
  pub hash_max_count : ℕ
  pub answers : ℕ → Answers
  pub room : ℕ → Bool

-- The item at an address, changed.
unfoldable pub update_at : ℕ → (Item → Item) → List Item → List Item
update_at a f [] = []
update_at a f (cp ∷ cps) = (if cp.addr == a then f cp else cp) ∷ update_at a f cps

module _ (m : Machine) where
  -- The item is not there: it is added, and a failure is only printed.
  unfoldable pub hand_new : List ℕ → ℕ → List ℕ → World → Option World
  hand_new src len dst w =
      add_hash_info m.hash_max_count (m.answers w.calls) dst src len w.cache >>= λ r.
      some (record w { cache = r.1; sum_num = add64 w.sum_num len; calls = w.calls + 1 })

  -- The item is there, as `get_hash_item` left it. A negative `cpuid` would name no list.
  unfoldable pub hand_found : Item → List ℕ → World → Option World
  unfolding update_at
  hand_found item dst w =
      let b = bkt_of dst in
      if not (is_from_file item.flag_cache)
      then some (record w {
        cache = record (w.cache) {
          tab =
              put_bucket b
                (update_at item.addr (λ cp. record cp { share_ref = dec32 cp.share_ref })
                  (w.cache.tab b))
                (w.cache.tab);
        };
      })
      else if not (m.room w.calls)
      then none
      else elim item.cpuid [
        | stored c ↦
            if leb m.num_online_cpus c
            then none
            else some (record w {
              reads = at_cpu c (record { bucket = b; address = item.addr } ∷ w.reads c) w.reads;
              calls = w.calls + 1;
            })
        | unset ↦ none
        | marked ↦ none
      ]

  -- hand_hash(src, len, dst, head)
  unfoldable pub hand_hash : List ℕ → ℕ → List ℕ → World → Option World
  unfolding hand_new hand_found
  hand_hash src len dst w =
      let (item, c) = get_hash_item dst w.cache in
      elim item [
        | none ↦ hand_new src len dst (record w { cache = c })
        | some cp ↦ hand_found cp dst (record w {
          cache = c;
          sum_num = add64 w.sum_num len;
          save_num = add64 w.save_num (sub64 len (shalen + 2));
        })
      ]

  -- build_hash(src, start, end, length, head)
  unfoldable pub build_hash : List ℕ → ℕ → ℕ → ℕ → World → Option World
  unfolding hand_hash
  build_hash src start end' len w =
      if leb len (shalen + 2)
      then some w
      else if not (m.room w.calls)
      then none
      else elim (m.sha1_hash_data (take (end' - start + 1) (drop start src))) [
        | none ↦ some (record w { calls = w.calls + 1 })
        | some dst ↦ hand_hash (drop start src) len dst (record w { calls = w.calls + 1 })
      ]

  -- get_partition(data, length, head), with `build_hash` on each chunk
  unfoldable pub partition_payload : Kfifo → Params → List ℕ → World → Option World
  partition_payload k p payload w =
      get_partition (λ start end' len s. s >>= build_hash payload start end' len) k p payload
        (some w)
      >>= λ s. s
