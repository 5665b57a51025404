-- ===== src/KernelHash/Read/Restored.antt =====
-- Data that was written to a file comes back (model/kernel_hash/nf_in.c and hash_table.c).
use kernel_test.Base.{
  ◌>>=◌, if◌then◌else◌, Bool, ◌&&◌, some_of_ne_none, ◌%◌, ◌≢◌, ℕ, ◌+◌, ◌*◌, ◌≤◌, ◌≡◌, refl, ap, ◌∙◌,
  true, false, not, List, ◌++◌, some, none, length, take, drop, replicate, leb, ltb, length-take,
  take-take-append, take_all, arith, dec32, u64,
}
use kernel_test.KernelHash.Item.{Item, Stats, is_released, released}
use kernel_test.KernelHash.Memory.{alloc_data_memory, memcpy}
use kernel_test.KernelHash.Memory.Laws.{alloc_data_memory-fits, memcpy-take}
use kernel_test.KernelHash.Vfs.{Vfs}
use kernel_test.KernelHash.Read.{Reading, fetch, read_item}

alloc-ne-none :
    (cp : Item) (st : Stats) → cp.mem_style ≡ released → alloc_data_memory true cp.len cp st ≢ none
unfolding alloc_data_memory
alloc-ne-none cp st e = ground arith

-- Allocating leaves the references.
alloc-share_ref :
    (cp : Item) (st : Stats) {a : Item × Stats}
    → alloc_data_memory true cp.len cp st ≡ some a
    → a.0.share_ref ≡ cp.share_ref
unfolding alloc_data_memory
alloc-share_ref cp st e = ground arith

-- A copy that fits.
memcpy-some :
    (dst src : List ℕ) (n : ℕ)
    → n ≤ length dst
    → n ≤ length src
    → (d : List ℕ) × (memcpy dst src n ≡ some d)
memcpy-some dst src n h k =
    let p : leb n (length dst) ≡ true = ground arith in
    let q : leb n (length src) ≡ true = ground arith in (take n src ++ drop n dst, rw (p, q) refl)

take-length : (n : ℕ) (l : List ℕ) → n ≤ length l → length (take n l) ≡ n
take-length n l h = omega (arith, length-take n l)

module _ (v : Vfs) where
  -- An item whose data is not in memory, and whose bytes stand in the file at 32 times its `start`:
  -- with memory for it, `read_data` brings it back with these bytes, marks it as read, counts it and
  -- its bytes, and gives back a reference.
  pub read_item-restores :
      (cp : Item) (file : v.File) (w : Reading) (bytes : List ℕ)
      → cp.mem_style ≡ released
      → cp.flag_mem ≡ false
      → cp.len ≤ length bytes
      → v.kernel_read file (32 * cp.start) cp.len ≡ some (take cp.len bytes)
      → (cp' : Item) × (w' : Reading) × (read_item v true true file cp w ≡ some (cp', w'))
        × (take cp.len cp'.contents ≡ take cp.len bytes)
        × (is_released cp'.mem_style ≡ false)
        × (cp'.flag_mem ≡ true)
        × (cp'.share_ref ≡ dec32 cp.share_ref)
        × (w'.rdl ≡ (w.rdl + cp.len) % u64)
        × (w'.rdf ≡ (w.rdf + 1) % u64)
  unfolding read_item fetch
  read_item-restores cp file w bytes gone unread enough e =
      let (a, e₁) =
        some_of_ne_none (alloc_data_memory true cp.len cp w.stats)
          (alloc-ne-none cp w.stats gone) in
      let (fits, held) = alloc_data_memory-fits true cp w.stats gone e₁ in
      let n : length (take cp.len bytes) ≡ cp.len = take-length cp.len bytes enough in
      let got : List ℕ = take cp.len (take cp.len bytes ++ replicate cp.len 0) in
      let same : got ≡ take cp.len bytes =
        take-take-append cp.len bytes (replicate cp.len 0) enough in
      let full : cp.len ≤ length got = omega (arith, n, ap length same) in
      let (d, e₂) = memcpy-some a.0.contents got cp.len fits full in
      let copied = memcpy-take cp.len a.0.contents got e₂ in
      let room : not (ltb 512 cp.len && not true) ≡ true = ground arith in
      let at : cp.start * 32 ≡ 32 * cp.start = omega arith in
      (
        record (a.0) { contents = d; flag_mem = true; share_ref = dec32 a.0.share_ref },
        record { rdl = (w.rdl + cp.len) % u64; rdf = (w.rdf + 1) % u64; stats = a.1 },
        ap
              (λ (u : Bool). (if not u then fetch v true true file cp w else some (cp, w)) >>= λ r.
                some (record (r.0) { share_ref = dec32 r.0.share_ref }, r.1))
              unread
            ∙ rw e₁ (rw room (rw at (rw e (rw e₂ refl)))),
        copied ∙ ap (take cp.len) same ∙ take_all cp.len (take cp.len bytes) (omega (arith, n)),
        held,
        refl,
        ap dec32 (alloc-share_ref cp w.stats e₁),
        refl,
        refl,
      )
