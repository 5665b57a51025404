-- ===== src/KernelHash/Write/Readable.antt =====
-- What `wr_file` of model/kernel_hash/hash_table.c writes can be read where the item says.
use kernel_test.KernelHash.Write.Written.{
  stored-AllWritten, stored-AllFreeable, AllWritten, none-AllWritten,
}
use kernel_test.Base.{
  u64, ◌%◌, some_of_ne_none, length-replicate, length, replicate, ◌==◌, none, ◌≢◌, ◌^◌, ◌<◌,
  Bool-cases, ◌+◌, ℕ, ◌*◌, ◌≤◌, ◌≡◌, refl, true, false, List, some, map, arith, inl, inr,
}
use kernel_test.KernelHash.Item.{Stats, Item}
use kernel_test.KernelHash.Vfs.{Vfs}
use kernel_test.KernelHash.Sweep.Safety.{AllSound}
use kernel_test.KernelHash.Write.{Copying, wr_file, BitSearch, Pool}
use kernel_test.KernelHash.Write.Mark.{free_pass_lem, mark_pass_lem, mark1, marked_units, freed}
use kernel_test.KernelHash.Write.Store.{store_pass_lem, Ready, AllReady}

-- The end of the file is the place of the next unit, and the units from there on are free.
pub record Aligned (bitmap_size : ℕ) {File : Type 0} (pool : Pool File) : Type 0 where
  pub place : pool.loff_file ≡ 32 * pool.bitmap_index
  pub inside : pool.bitmap_index ≤ bitmap_size
  pub ahead : (j : ℕ) → pool.bitmap_index ≤ j → pool.bitmap j ≡ false

module _ (v : Vfs) (b : BitSearch) (cpu bitmap_size : ℕ) where
  -- What a run promises of the items, of the file and of the bitmap.
  pub record Kept (cps cps' : List Item) (pool pool' : Pool v.File) : Type 0 where
    pub written : AllWritten v cpu pool'.file cps cps'
    pub aligned : Aligned bitmap_size pool'
    pub before :
        (q n : ℕ)
        → q + n ≤ pool.loff_file
        → v.kernel_read pool'.file q n ≡ v.kernel_read pool.file q n

  some_written :
      (cps : List Item) (pool : Pool v.File) (st : Stats)
      → bitmap_size < 2 ^ 31
      → Aligned bitmap_size pool
      → pool.bitmap_index + marked_units cps ≤ bitmap_size
      → AllSound cps
      → AllReady cps
      → ((buf : List ℕ) → v.vfs_write pool.file buf pool.loff_file ≢ none)
      → 0 < marked_units cps
      → (cps' : List Item) × (pool' : Pool v.File) × (st' : Stats) × (wr_file v b cpu bitmap_size
            true cps pool st
          ≡ some (cps', pool', st'))
        × Kept cps cps' pool pool'
  unfolding wr_file
  some_written cps pool st small a fits sound ready accepts pos =
      let all = 0 + 32 * marked_units cps in
      let first_pass = mark_pass_lem cps 0 (omega arith) in
      let start : Copying = record {
        bitmap = pool.bitmap;
        bitmap_index = pool.bitmap_index;
        copy_mem = replicate all 0;
        mem_index = 0;
        st_all_size = 0;
      } in
      let l : length {A = ℕ} (replicate all 0) ≡ all = length-replicate all 0 in
      let v₀ : Ready b cpu bitmap_size pool.bitmap_index (omega arith) start (marked_units cps) =
        record {
          place = omega arith;
          room = omega (arith, l);
          memory = omega (arith, l);
          inside = fits;
          ahead = a.ahead;
        } in
      let (cps₂, c, e₂, v₂, i₂, l₂, s₂, b₂) =
        store_pass_lem b cpu bitmap_size pool.bitmap_index (omega arith) cps start ready v₀ in
      let (file', e₃) =
        some_of_ne_none (v.vfs_write pool.file c.copy_mem pool.loff_file) (accepts c.copy_mem) in
      let free = stored-AllFreeable cpu pool.bitmap_index c.copy_mem cps cps₂ sound s₂ in
      let st₁ : Stats = record st { mmw = (st.mmw + c.st_all_size) % u64 } in
      let (st', e₄) = free_pass_lem cps₂ st₁ free in
      let pool' : Pool v.File = record {
        bitmap = c.bitmap;
        bitmap_index = c.bitmap_index;
        loff_file = (pool.loff_file + all) % u64;
        file = file';
      } in
      let some_size : all == 0 ≡ false = ground arith in
      (
        map freed cps₂,
        pool',
        st',
        rw first_pass (rw some_size (rw e₂ (rw e₃ (rw e₄ refl)))),
        record {
          written =
              stored-AllWritten v cpu pool.bitmap_index pool.loff_file c.copy_mem pool.file file'
                cps cps₂ a.place e₃ s₂;
          aligned = record {
            place = omega (arith, a.place, i₂);
            inside = omega (arith, i₂);
            ahead = v₂.ahead;
          };
          before = λ q n h. v.read-before pool.file c.copy_mem pool.loff_file q n file' e₃ h;
        },
      )

  -- For a bucket of sound items whose data has its bytes and none of which is left marked, memory for
  -- the copy, a bitmap of less than 2^31 bits with room for the units that the items to be written
  -- take, a file that ends where the bitmap says, and a disk that accepts the write, where a write that
  -- is accepted is complete: `wr_file` returns. Each item to be written is then only on
  -- disk, and its bytes are read from the file of its processor at 32 times its `start`; what stood in
  -- the file is read as before; and the file ends again where the bitmap says.
  pub wr_file-Kept :
      (cps : List Item) (pool : Pool v.File) (st : Stats)
      → bitmap_size < 2 ^ 31
      → Aligned bitmap_size pool
      → pool.bitmap_index + marked_units cps ≤ bitmap_size
      → AllSound cps
      → AllReady cps
      → ((buf : List ℕ) → v.vfs_write pool.file buf pool.loff_file ≢ none)
      → (cps' : List Item) × (pool' : Pool v.File) × (st' : Stats) × (wr_file v b cpu bitmap_size
            true cps pool st
          ≡ some (cps', pool', st'))
        × Kept cps cps' pool pool'
  unfolding wr_file
  wr_file-Kept cps pool st small a fits sound ready accepts =
      elim (Bool-cases (marked_units cps == 0)) [
        | inl x ↦
            let zero_units : marked_units cps ≡ 0 = ground arith in
            let nothing : (0 + 32 * marked_units cps) == 0 ≡ true = ground arith in
            (
              map mark1 cps,
              pool,
              st,
              rw (mark_pass_lem cps 0 (omega arith)) (rw nothing refl),
              record {
                written = none-AllWritten v cpu pool.file cps zero_units;
                aligned = a;
                before = λ q n h. refl;
              },
            )
        | inr x ↦ some_written cps pool st small a fits sound ready accepts (ground arith)
      ]
