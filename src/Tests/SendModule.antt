-- ===== src/Tests/SendModule.antt =====
-- Runs of the sender (model/send_module), and its theorems at inputs that meet their hypotheses.
use kernel_test.Base.{
  ℕ, ◌+◌, ◌*◌, ◌≤◌, ◌≡◌, ◌≢◌, refl, true, List, [], ◌∷◌, ◌++◌, some, length, take, replicate, arith,
  if◌then◌else◌, ◌==◌,
}
use kernel_test.KernelHash.Params.{init_hash_parameters}
use kernel_test.KernelHash.Rolling.{roll, pack_hash, hash_from}
use kernel_test.KernelHash.Partition.Points.{part_points}
use kernel_test.KernelHash.Jen.{hash_jen, jen_bkt}
use kernel_test.KernelHash.Table.{same_sha, bkt_of}
use kernel_test.KernelHash.Partition.{get_partition}
use kernel_test.KernelHash.Partition.Tile.{chunks}
use kernel_test.SendModule.Entries.{
  Entry, Entries, add_hash_info, get_hash_item, hash_item_expire, hash_flush,
}
use kernel_test.SendModule.Entries.Ageing.{aged, clear_rounds, clear_rounds-aged}
use kernel_test.SendModule.Entries.Known.{is_known}
use kernel_test.SendModule.Packet.{Sender, Sending, send_partition, replace_skb, nf_out}
use kernel_test.SendModule.Packet.Fits.{replace_skb-send_partition}
use kernel_test.SendModule.Packet.Replaced.{
  IsServed, replaced, known_after, send_partition-replaced,
}
use kernel_test.Tests.Box.{box_get, box_put, boxes, empty_box, zeros}

abbrev pad : List ℕ → List ℕ
pad l = take 20 (l ++ replicate 20 0)

abbrev sender : Sender
sender = record {
  sha1_hash_data = λ l. some (pad l);
  hash_max_count = 100;
  room = λ n. true;
  address = λ n. n;
}

abbrev no_entries : Entries
no_entries = record { tab = λ b. []; hash_count = 0 }

abbrev before : Sending
before = record {
  entries = no_entries;
  sum_num = 0;
  save_num = 0;
  new_len = 70;
  head = [];
  calls = 0;
}

-- Seventy zeros are two equal chunks of 32 bytes and a short one: the second is replaced.
sent : (s' : Sending) × (send_partition sender boxes init_hash_parameters zeros before ≡ some s')
unfolding send_partition get_partition pack_hash init_hash_parameters roll box_put box_get
    get_hash_item add_hash_info jen_bkt hash_jen same_sha bkt_of
sent = (_, refl)

sent_items : sent.0.head ≡ record { start = 32; stop = 63; sha1 = replicate 20 0 } ∷ []
unfolding sent
sent_items = refl

replace_skb-send_partition_example :
    (index : ℕ) × (size : ℕ) × (replace_skb true sent.0.head sent.0.new_len 70 ≡ some (index, size))
    × (index ≤ size)
    × (index + 2 * length sent.0.head ≡ sent.0.new_len)
    × (sent.0.new_len ≤ 70)
replace_skb-send_partition_example =
    replace_skb-send_partition sender boxes zeros before empty_box (omega arith) (omega arith) refl
      refl refl sent.1

sender-IsServed : IsServed sender pad
sender-IsServed = record { room = λ n. refl; digest = λ l. refl; limit = omega arith }

few_chunks : 0 + length (chunks zeros) ≤ 100
unfolding chunks part_points hash_from
few_chunks = omega arith

send_partition-replaced_example :
    (s' : Sending) × (send_partition sender boxes init_hash_parameters zeros before ≡ some s')
    × (s'.head ≡ [] ++ replaced pad zeros (is_known no_entries) (chunks zeros))
    × (is_known s'.entries ≡ known_after pad zeros (is_known no_entries) (chunks zeros))
send_partition-replaced_example =
    send_partition-replaced sender pad boxes zeros before empty_box sender-IsServed (omega arith)
      refl few_chunks

-- Two entries of a bucket, cited once and three times.
abbrev entry : ℕ → ℕ → Entry
entry a r = record { addr = a; refcnt = r; len = 32; sha1 = [] }

abbrev two_entries : Entries
two_entries = record {
  tab = λ b. if b == 5 then entry 0 1 ∷ entry 1 3 ∷ [] else [];
  hash_count = 2;
}

clear_rounds-aged_example :
    ((clear_rounds 2 5 two_entries).tab 5 ≡ aged 2 (entry 0 1 ∷ entry 1 3 ∷ []))
    × ((i : ℕ) → i ≢ 5 → (clear_rounds 2 5 two_entries).tab i ≡ two_entries.tab i)
    × ((clear_rounds 2 5 two_entries).hash_count + 2
        ≡ 2 + length (aged 2 (entry 0 1 ∷ entry 1 3 ∷ [])))
clear_rounds-aged_example =
    clear_rounds-aged 2 5 two_entries (omega arith) (omega arith) (omega arith)

aged_twice : aged 2 (entry 0 1 ∷ entry 1 3 ∷ []) ≡ entry 1 1 ∷ []
unfolding aged
aged_twice = refl

not_deleted : hash_item_expire (λ n. n) (entry 0 1) 7 ≡ (some (entry 0 1), 7)
unfolding hash_item_expire
not_deleted = refl

flushed : (hash_flush 10 0 two_entries).hash_count ≡ 0
unfolding hash_flush
flushed = refl

-- A packet that is not TCP passes.
abbrev udp : List ℕ
udp = 69 ∷ 0 ∷ 0 ∷ 40 ∷ 0 ∷ 0 ∷ 0 ∷ 0 ∷ 64 ∷ 17 ∷ replicate 30 0

passed :
    nf_out sender boxes init_hash_parameters udp (record { sending = before; skb_num = 3 })
    ≡ some (record { sending = before; skb_num = 3 })
unfolding nf_out
passed = refl
