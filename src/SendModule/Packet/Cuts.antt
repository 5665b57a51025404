-- ===== src/SendModule/Packet/Cuts.antt =====
-- The calls of build_hash that get_partition of model/send_module/nf_out.c makes.
use kernel_test.Base.{
  ℕ, ◌+◌, ◌-◌, ◌≤◌, ◌<◌, ◌≡◌, refl, List, [], ◌∷◌, Option, none, some, ◌>>=◌, length, ◌==◌,
  Bool-cases, inl, inr, arith,
}
use kernel_test.KernelHash.Params.{chunk_num, init_hash_parameters}
use kernel_test.KernelHash.Kfifo.{Kfifo}
use kernel_test.KernelHash.Partition.{kfifolen}
use kernel_test.KernelHash.Partition.Spacing.{
  Spaced, Spaced-take, Spaced-weaken, part_points-Spaced,
}
use kernel_test.KernelHash.Partition.Tile.{segments, chunks, build_all, get_partition-build_all}
use kernel_test.SendModule.Packet.{Sender, Sending, build_hash, send_partition}

-- The chunks follow each other from `lo` to `n`.
abbrev pub Cuts : ℕ → ℕ → List (ℕ × ℕ) → Type 0
Cuts lo n [] = lo ≡ n
Cuts lo n ((a, b) ∷ r) = (a ≡ lo) × (a ≤ b) × (b < n) × Cuts (b + 1) n r

segments-Cuts : (lo n : ℕ) (ps : List ℕ) → lo ≤ n → Spaced lo n ps → Cuts lo n (segments lo ps n)
unfolding segments
segments-Cuts lo n [] h s = elim (Bool-cases (lo == n)) [
  | inl y ↦ rw y (ground arith)
  | inr y ↦ rw y (refl, ground arith, ground arith, ground arith)
]
segments-Cuts lo n (p ∷ ps) h s = (
  refl,
  s.0,
  s.1,
  segments-Cuts (p + 1) n ps (omega (arith, s.1)) (Spaced-weaken _ _ _ ps (omega arith) s.2),
)

pub chunks-Cuts : (payload : List ℕ) → Cuts 0 (length payload) (chunks payload)
unfolding chunks
chunks-Cuts payload =
    segments-Cuts 0 (length payload) _ (omega arith)
      (Spaced-weaken 0 31 _ _ (omega arith) (Spaced-take 1024 31 _ _ (part_points-Spaced payload)))

module _ (m : Sender) (payload : List ℕ) where
  unfoldable pub build_chunks : List (ℕ × ℕ) → Sending → Option Sending
  build_chunks [] s = some s
  build_chunks ((a, b) ∷ r) s = build_hash m payload a (b - a + 1) s >>= build_chunks r

  abbrev call : ℕ → ℕ → ℕ → Option Sending → Option Sending
  call start end' len s' = s' >>= build_hash m payload start len

  build_all-build_chunks :
      (cs : List (ℕ × ℕ)) (o : Option Sending) → build_all call cs o ≡ (o >>= build_chunks cs)
  unfolding build_all build_chunks
  build_all-build_chunks [] none = refl
  build_all-build_chunks [] (some s) = refl
  build_all-build_chunks ((a, b) ∷ r) none = build_all-build_chunks r none
  build_all-build_chunks ((a, b) ∷ r) (some s) =
      build_all-build_chunks r (build_hash m payload a (b - a + 1) s)

  pub send_partition-build_chunks :
      (k : Kfifo) (s : Sending) (f : k.Fifo)
      → chunk_num < length payload
      → k.alloc kfifolen ≡ some f
      → send_partition m k init_hash_parameters payload s ≡ build_chunks (chunks payload) s
  unfolding send_partition
  send_partition-build_chunks k s f h a =
      rw (get_partition-build_all call k payload (some s) f h a)
        (build_all-build_chunks (chunks payload) (some s))
