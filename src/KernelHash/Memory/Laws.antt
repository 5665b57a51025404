-- ===== src/KernelHash/Memory/Laws.antt =====
-- Allocating and freeing the data of an item (model/kernel_hash/hash_table.c).
use kernel_test.Base.{
  none, inr, leb→le, take-take-append, some_eq, drop, ◌++◌, inl, leb, Bool-cases, take, List, ℕ,
  ◌≤◌, ◌<◌, ◌≡◌, Bool, false, [], some, length, length-replicate, u64, arith,
}
use kernel_test.KernelHash.Item.{
  is_released, MemStyle, released, kmalloced, slab1, slab2, slab3, Item, Stats,
}
use kernel_test.KernelHash.Memory.{memcpy, alloc_data_memory, free_data_memory}

-- The counter of a kind of memory.
abbrev pub mm : MemStyle → Stats → ℕ
mm kmalloced st = st.mm0
mm slab1 st = st.mm1
mm slab2 st = st.mm2
mm slab3 st = st.mm3
mm released st = 0

-- The counters are 64 bits wide.
pub record InRange (st : Stats) : Type 0 where
  pub mm0_in : st.mm0 < u64
  pub mm1_in : st.mm1 < u64
  pub mm2_in : st.mm2 < u64
  pub mm3_in : st.mm3 < u64

-- An allocation for an item without data that does not stop gives it a buffer in which its `len`
-- bytes fit, and a `mem_style` that says so.
pub alloc_data_memory-fits :
    (room : Bool) (cp : Item) (st : Stats) {cp' : Item} {st' : Stats}
    → cp.mem_style ≡ released
    → alloc_data_memory room cp.len cp st ≡ some (cp', st')
    → (cp.len ≤ length cp'.contents) × (is_released cp'.mem_style ≡ false)
unfolding alloc_data_memory
alloc_data_memory-fits room cp st e h = ground (
  arith,
  length-replicate {A = ℕ} 32 0,
  length-replicate {A = ℕ} 64 0,
  length-replicate {A = ℕ} 96 0,
  length-replicate {A = ℕ} cp.len 0,
)

-- Freeing the data of an item right after it was allocated gives the item without data and the
-- counters back, whichever of the four kinds of memory was used.
pub free-alloc_data_memory :
    (room : Bool) (cp : Item) (st : Stats) {cp' : Item} {st' : Stats}
    → cp.mem_style ≡ released
    → cp.contents ≡ []
    → InRange st
    → alloc_data_memory room cp.len cp st ≡ some (cp', st')
    → free_data_memory cp' st' ≡ some (cp, st)
unfolding alloc_data_memory free_data_memory
free-alloc_data_memory room cp st e c v h = ground arith

-- Allocating leaves the rest of an item alone.
pub alloc_data_memory-keeps :
    (room : Bool) (n : ℕ) (cp : Item) (st : Stats) {r : Item × Stats}
    → alloc_data_memory room n cp st ≡ some r
    → (r.0.flag_cache ≡ cp.flag_cache) × (r.0.cpuid ≡ cp.cpuid) × (r.0.len ≡ cp.len)
unfolding alloc_data_memory
alloc_data_memory-keeps room n cp st e = ground arith

-- A copy that stays inside both buffers has the bytes of its source.
pub memcpy-take :
    (n : ℕ) (dst src : List ℕ) {d : List ℕ} → memcpy dst src n ≡ some d → take n d ≡ take n src
memcpy-take n dst src {d} e = elim (Bool-cases (leb n (length dst))) [
  | inl p ↦ elim (Bool-cases (leb n (length src))) [
    | inl q ↦
        let e' : some (take n src ++ drop n dst) ≡ some d = rw (p, q) at e in
        rw (← some_eq e') (take-take-append n src (drop n dst) (leb→le _ _ q))
    | inr q ↦ let e' : none ≡ some d = rw (p, q) at e in cc
  ]
  | inr p ↦ let e' : none ≡ some d = rw p at e in cc
]
