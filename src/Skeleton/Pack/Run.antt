-- ===== src/Skeleton/Pack/Run.antt =====
-- The packets of a capture, one after the other (model/c-skeleton/src/pack.c).
pub mod Conserved
use kernel_test.Base.{
  ℕ, ◌+◌, ◌-◌, ◌*◌, ◌/◌, ◌%◌, Bool, true, false, not, ◌&&◌, ◌||◌, List, [], ◌∷◌, ◌++◌, Option, none,
  some, ◌>>=◌, length, take, drop, get_or, replicate, leb, ltb, ◌==◌, if◌then◌else◌, add64,
}
use kernel_test.Skeleton.Chunk.{Chunk, chunk_clean}
use kernel_test.Skeleton.KeyValue.{keyvalue_push}
use kernel_test.Skeleton.Hashmap.{hashmap_get, hashmap_set}
use kernel_test.Skeleton.Pack.{
  Marks, pack_num, packet_len, pack_calculate_part, pack_sha, sha_bytes, Digests,
  hashmap_mode_compare, hashmap_mode_hash, note_digest,
}

-- `delay_time`, `remain_data`, what the look-ups change, and `sum_len`
pub record Session {ℓ} (S : Type ℓ) : Type ℓ where
  pub delay_time : ℕ
  pub remain : Chunk
  pub digests : S
  pub sum_len : ℕ

module _ {ℓ} {S : Type ℓ} (digest : List ℕ → ℕ → S → Option (Bool × S)) (room : Bool) where
  -- A payload of at least `chunk_num` bytes: part_clean, pack_calculate_part, pack_SHA. No packet is
  -- counted in `count_packet`.
  unfoldable pub pack_payload : List ℕ → Session S → Option (Session S)
  pack_payload playload z =
      pack_calculate_part 0 playload (record { index = []; delay_time = z.delay_time }) >>= λ marks.
      pack_sha digest room playload marks.index z.remain z.digests >>= λ r. some (record {
        delay_time = marks.delay_time;
        remain = r.0;
        digests = r.1;
        sum_len = add64 z.sum_len (length playload);
      })

  unfoldable pub pack_payloads : List (List ℕ) → Session S → Option (Session S)
  unfolding pack_payload
  pack_payloads [] z = some z
  pack_payloads (x ∷ xs) z = pack_payload x z >>= pack_payloads xs

-- A number of two bytes in network order.
abbrev pub be16 : List ℕ → ℕ → ℕ
be16 frame i = get_or frame i 0 * 256 + get_or frame (i + 1) 0

-- The payload that printPcap takes from a frame, which it reads in a cleared buffer of
-- `MAX_ETH_FRAME` bytes. The TCP header is taken to stand 20 bytes behind the IP header. A packet that
-- is passed over is an inner `none`, and a copy out of the buffer an outer one.
unfoldable pub tcp_payload : List ℕ → Option (Option (List ℕ))
tcp_payload frame =
    let ihl = get_or frame 14 0 % 16 in
    let tot_len = be16 frame 16 in
    let doff = get_or frame 46 0 / 16 in
    let syn = get_or frame 47 0 / 2 % 2 in
    let headers = ihl * 4 + doff * 4 in
    let start = 34 + doff * 4 in
    let len = tot_len - headers in
    if be16 frame 12 == 2048
      && (get_or frame 23 0 == 6)
      && not (syn == 1)
      && (be16 frame 34 == 80 || (be16 frame 36 == 80))
      && ltb headers tot_len
    then if leb (start + len) packet_len
      then if leb pack_num len
        then some (some (take len (drop start (frame ++ replicate (packet_len - length frame) 0))))
        else some none
      else none
    else some none

module _ {ℓ} {S : Type ℓ} (digest : List ℕ → ℕ → S → Option (Bool × S)) (room : Bool) where
  -- printPcap(data, ph)
  unfoldable pub print_pcap : List ℕ → Session S → Option (Session S)
  unfolding tcp_payload
  print_pcap frame z = tcp_payload frame >>= λ p. elim p [
    | none ↦ some z
    | some playload ↦ pack_payload digest room playload z
  ]

  -- The loop of main over the frames.
  unfoldable pub print_frames : List (List ℕ) → Session S → Option (Session S)
  unfolding print_pcap
  print_frames [] z = some z
  print_frames (x ∷ xs) z = print_pcap x z >>= print_frames xs

module _ (sha1 : List ℕ → List ℕ) (room : Bool) where
  -- The look-up of remain_SHA. What keyvalue_push returns is not looked at: a NULL key would be read
  -- by the hash.
  unfoldable pub note_remain : List ℕ → Digests → Option Digests
  note_remain piece s =
      let res = sha1 piece in
      hashmap_get hashmap_mode_compare hashmap_mode_hash s.map res >>= λ f. elim f [
        | some d ↦ some s
        | none ↦ keyvalue_push room s.key res >>= λ r. elim (r.0) [
          | none ↦ none
          | some place ↦
              hashmap_set hashmap_mode_compare hashmap_mode_hash room s.map res place >>= λ q.
              some (record s { key = r.1; map = q.1 })
        ]
      ]

  -- remain_SHA()
  unfoldable pub remain_sha : Session Digests → Option (Session Digests)
  unfolding note_remain
  remain_sha z =
      (if z.remain.end == 0 then some [] else sha_bytes z.remain.content 0 (z.remain.end - 1))
      >>= λ piece. note_remain piece z.digests >>= λ d.
          some (record z { remain = chunk_clean z.remain; digests = d })

  -- main: the frames, and then what is left over.
  unfoldable pub pack_main : List (List ℕ) → Session Digests → Option (Session Digests)
  unfolding print_frames remain_sha
  pack_main frames z = print_frames (note_digest sha1 room) room frames z >>= remain_sha
