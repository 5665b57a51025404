-- ===== src/Tests/Pack.antt =====
-- Runs of the packing of model/c-skeleton/src/pack.c, and its theorems at inputs that meet their
-- hypotheses.
use kernel_test.KernelHash.Rolling.{hash_from}
use mathlib.Core.List.{flatten}
use kernel_test.Base.{
  length-append, length-take, ℕ, ◌+◌, ◌%◌, ◌≤◌, ◌≡◌, refl, true, false, List, [], ◌∷◌, ◌++◌, some,
  none, length, take, replicate, length-replicate, u64, arith,
}
use kernel_test.Skeleton.Chunk.{Chunk}
use kernel_test.Skeleton.Chunk.Merging.{Holds}
use kernel_test.Skeleton.KeyValue.{KeyValue}
use kernel_test.Skeleton.Hashmap.{Hashmap, hashmap_create}
use kernel_test.Skeleton.Hashmap.Lookup.{lookup}
use kernel_test.Skeleton.Hashmap.Created.{hashmap_create-IsMap}
use kernel_test.Skeleton.Pack.{
  Digests, pack_calculate_part, pack_sha, note_digest, near, hashmap_mode_compare,
  hashmap_mode_hash,
}
use kernel_test.Skeleton.Pack.Points.{pack_points, is_point, pack_calculate_part-points}
use kernel_test.Skeleton.Pack.Pieces.{digest_all, pieces, left_over, pack_sha-pieces}
use kernel_test.Skeleton.Pack.Run.{Session, pack_payloads, tcp_payload}
use kernel_test.Skeleton.Pack.Run.Conserved.{AllFit, all_pieces, log, pack_payloads-conserved}
use kernel_test.Skeleton.Pack.Savings.{Knows, Ready, saved, pack_payloads-saved}

abbrev seventy : List ℕ
seventy = replicate 70 0

-- Two points, the second as soon as the delay allows.
points_of_zeros : pack_points 31 0 seventy ≡ (31 ∷ 64 ∷ [], 27)
unfolding pack_points is_point hash_from
points_of_zeros = refl

near_bytes : near 255 0 ≡ true
unfolding near
near_bytes = refl

far_bytes : near 127 128 ≡ false
unfolding near
far_bytes = refl

few_points : 0 + 2 + length (pack_points 31 0 seventy).0 ≤ 21000
unfolding pack_points is_point hash_from
few_points = omega arith

pack_calculate_part-points_example :
    pack_calculate_part 0 seventy (record { index = []; delay_time = 0 })
    ≡ some (record {
      index = 0 ∷ 70 ∷ (pack_points 31 0 seventy).0;
      delay_time = (pack_points 31 0 seventy).1;
    })
pack_calculate_part-points_example =
    pack_calculate_part-points 0 seventy (record { index = []; delay_time = 0 }) (omega arith)
      few_points

-- A chunk of two hundred bytes that holds three.
abbrev three_left : Chunk
three_left = record { end = 3; limit = 200; content = 7 ∷ 8 ∷ 9 ∷ replicate 197 0 }

three_left-Holds : Holds three_left (7 ∷ 8 ∷ 9 ∷ [])
three_left-Holds = record { size = refl; within = omega arith; read = refl }

pack_sha-pieces_example :
    (ck' : Chunk) × (pack_sha log true seventy (0 ∷ 70 ∷ 31 ∷ 64 ∷ []) three_left []
      ≡ some (ck', pieces (7 ∷ 8 ∷ 9 ∷ []) seventy (31 ∷ 64 ∷ [])))
    × Holds ck' (left_over (7 ∷ 8 ∷ 9 ∷ []) seventy (31 ∷ 64 ∷ []))
    × (ck'.limit ≡ 200)
unfolding digest_all pieces
pack_sha-pieces_example =
    pack_sha-pieces log true seventy 0 70 (31 ∷ 64 ∷ []) three_left (7 ∷ 8 ∷ 9 ∷ []) [] _
      three_left-Holds (omega arith) (omega arith) (omega arith) refl

abbrev start_session : Session (List (List ℕ))
start_session = record { delay_time = 0; remain = three_left; digests = []; sum_len = 0 }

two_payloads-AllFit : AllFit (seventy ∷ seventy ∷ [])
two_payloads-AllFit = omega arith

room_for_all : 3 + length (flatten (seventy ∷ seventy ∷ [])) ≤ 200
unfolding flatten
room_for_all = omega arith

pack_payloads-conserved_example :
    (z' : Session (List (List ℕ))) × (pack_payloads log true (seventy ∷ seventy ∷ []) start_session
      ≡ some z')
    × (flatten z'.digests ++ take z'.remain.end z'.remain.content
        ≡ (7 ∷ 8 ∷ 9 ∷ []) ++ flatten (seventy ∷ seventy ∷ []))
pack_payloads-conserved_example =
    pack_payloads-conserved true (seventy ∷ seventy ∷ []) (7 ∷ 8 ∷ 9 ∷ []) start_session
      two_payloads-AllFit three_left-Holds room_for_all (omega arith) refl

-- An array for ten digests, and a map of four buckets.
abbrev small_array : KeyValue
small_array = record {
  index = 0;
  capacity = 200;
  expand_rate = 60;
  step = 20;
  key = replicate 200 0;
}

small_map :
    (m : Hashmap (List ℕ) ℕ) × (hashmap_create true 4 ≡ some m) × (m.max ≡ 4) × Knows m (λ d. false)
unfolding lookup
small_map =
    let (m, e, top, v) = hashmap_create-IsMap hashmap_mode_compare hashmap_mode_hash 4 in
    (m, e, top, record { nodes = λ n. []; valid = v; knows = λ d. refl })

abbrev pad20 : List ℕ → List ℕ
pad20 l = take 20 (l ++ replicate 20 0)

length-pad20 : (l : List ℕ) → length (pad20 l) ≡ 20
length-pad20 l = omega (
  arith,
  length-take 20 (l ++ replicate 20 0),
  length-append l (replicate 20 0),
  length-replicate {A = ℕ} 20 0,
)

abbrev counting : Session Digests
counting = record {
  delay_time = 0;
  remain = three_left;
  digests = record { key = small_array; map = small_map.0; save_len = 0 };
  sum_len = 0;
}

few_pieces : length (all_pieces 0 (7 ∷ 8 ∷ 9 ∷ []) (seventy ∷ seventy ∷ [])).0 ≤ 8
unfolding all_pieces pieces left_over pack_points is_point near hash_from
few_pieces = omega arith

counting-Ready :
    Ready pad20
      (length (all_pieces 0 (7 ∷ 8 ∷ 9 ∷ []) (seventy ∷ seventy ∷ [])).0)
      (λ d. false)
      counting.digests
counting-Ready = record {
  map = small_map.3;
  room = record {
    step = omega arith;
    memory = omega arith;
    small = omega arith;
    inside = omega (arith, few_pieces);
  };
  small = omega arith;
}

pack_payloads-saved_example :
    (z' : Session Digests) × (pack_payloads
        (note_digest pad20 true)
        true
        (seventy ∷ seventy ∷ [])
        counting
      ≡ some z')
    × (z'.sum_len ≡ (0 + length (flatten (seventy ∷ seventy ∷ []))) % u64)
    × (z'.digests.save_len
        ≡ (0 + saved pad20 (λ d. false) (all_pieces 0 (7 ∷ 8 ∷ 9 ∷ []) (seventy ∷ seventy ∷ [])).0)
          % u64)
pack_payloads-saved_example =
    pack_payloads-saved pad20 (λ d. false) (seventy ∷ seventy ∷ []) (7 ∷ 8 ∷ 9 ∷ []) counting
      length-pad20 counting-Ready two_payloads-AllFit three_left-Holds room_for_all (omega arith)

-- A frame that is no TCP packet on port 80 is passed over.
passed_over : tcp_payload (replicate 60 0) ≡ some none
unfolding tcp_payload
passed_over = refl

-- A frame of TCP from port 80 with a payload of forty bytes.
abbrev web_frame : List ℕ
web_frame =
    replicate 12 0
    ++ (8 ∷ 0 ∷ 69 ∷ 0 ∷ 0 ∷ 80 ∷ 0 ∷ 0 ∷ 0 ∷ 0 ∷ 64 ∷ 6 ∷ [])
    ++ replicate 10 0
    ++ (0 ∷ 80 ∷ 1 ∷ 2 ∷ [])
    ++ replicate 8 0
    ++ (80 ∷ 16 ∷ [])
    ++ replicate 6 0
    ++ replicate 40 5

taken : tcp_payload web_frame ≡ some (some (replicate 40 5))
unfolding tcp_payload
taken = refl
