-- ===== src/KernelHash/Write.antt =====
-- `wr_file` of model/kernel_hash/hash_table.c: the work that writes the chunks of a bucket to the
-- file of the processor that it is bound to, and frees their memory.
pub mod Copy
pub mod Mark
pub mod Store
pub mod Written
pub mod Readable
use kernel_test.Base.{
  ◌%◌, u32, sext32, not, ℕ, zero, suc, ◌*◌, Bool, true, ◌&&◌, List, [], ◌∷◌, Option, none, some,
  ◌>>=◌, ◌==◌, ltb, length, take, leb, replicate, if◌then◌else◌, add64, slt, sle,
}
use kernel_test.KernelHash.Params.{chunkstep}
use kernel_test.KernelHash.Item.{
  on_disk, unset, marked, stored, will_write, Item, Stats, units, is_stored, is_marked, is_unset,
}
use kernel_test.KernelHash.Memory.{free_data_memory}
use kernel_test.KernelHash.Bitmap.{Bits, write_bits}
use kernel_test.KernelHash.Area.{BitSearch}
use kernel_test.KernelHash.Vfs.{Vfs}
use kernel_test.KernelHash.Sweep.{is_to_write, is_should_write, item_disk_limit, item_vip_limit}

-- An item that is to be written.
unfoldable pub to_mark : Item → Bool
to_mark cp =
    slt cp.refcnt item_vip_limit
    && sle item_disk_limit cp.refcnt
    && is_to_write cp.flag_cache
    && is_unset cp.cpuid
    && cp.share_ref == 1

unfoldable pub mark : Item → Item
mark cp = record cp {
  store_flag = if is_should_write cp.store_flag then will_write else cp.store_flag;
  cpuid = marked;
}

-- The first pass: the items, and `all_size`.
unfoldable pub mark_pass : List Item → ℕ → List Item × ℕ
unfolding to_mark mark
mark_pass [] all_size = ([], all_size)
mark_pass (cp ∷ cps) all_size =
    let chosen = to_mark cp in
    let rest =
      mark_pass cps (if chosen then add64 all_size (units cp.len * chunkstep) else all_size) in
    ((if chosen then mark cp else cp) ∷ rest.0, rest.1)

-- Writing `src` into memory at an offset; a write past the end is a `none`.
unfoldable pub write_at : ℕ → List ℕ → List ℕ → Option (List ℕ)
write_at zero [] dst = some dst
write_at zero (x ∷ src) [] = none
write_at zero (x ∷ src) (y ∷ dst) = write_at zero src dst >>= λ r. some (x ∷ r)
write_at (suc o) src [] = none
write_at (suc o) src (y ∷ dst) = write_at o src dst >>= λ r. some (y ∷ r)

-- memcpy(dst + offset, src, n)
unfoldable pub memcpy_at : List ℕ → ℕ → List ℕ → ℕ → Option (List ℕ)
unfolding write_at
memcpy_at dst offset src n = if leb n (length src) then write_at offset (take n src) dst else none

-- What the second pass changes beside the items: the bitmap of the processor and `bitmap_index`, and
-- its local variables.
pub record Copying : Type 0 where
  pub bitmap : Bits
  pub bitmap_index : ℕ
  pub copy_mem : List ℕ
  pub mem_index : ℕ
  pub st_all_size : ℕ

-- An item that is referred to again, which is not written.
unfoldable pub taken_back : Item → Bool
taken_back cp = is_marked cp.cpuid && is_to_write cp.flag_cache && slt 1 cp.share_ref

unfoldable pub to_store : Item → Bool
to_store cp =
    slt cp.refcnt item_vip_limit
    && sle item_disk_limit cp.refcnt
    && is_marked cp.cpuid
    && is_to_write cp.flag_cache
    && cp.share_ref == 1

module _ (b : BitSearch) (cpu bitmap_size : ℕ) where
  open b use {bitmap_find_next_zero_area}

  -- The second pass on an item that is written. The position is kept in an `int`, and compared as an
  -- `unsigned long`; one past `bitmap_size` is a `BUG()`.
  unfoldable pub store_item : Item → Copying → Option (Item × Copying)
  unfolding memcpy_at
  store_item cp c =
      let num = units cp.len in
      let find_index =
        sext32 (bitmap_find_next_zero_area c.bitmap bitmap_size c.bitmap_index num 0 % u32) in
      if ltb bitmap_size find_index
      then none
      else (memcpy_at c.copy_mem c.mem_index cp.contents cp.len >>= λ copied. some (
        record cp { start = find_index; cpuid = stored cpu },
        record {
          bitmap = write_bits true num find_index c.bitmap;
          bitmap_index = add64 c.bitmap_index num;
          copy_mem = copied;
          mem_index = add64 c.mem_index (num * chunkstep);
          st_all_size = add64 c.st_all_size cp.len;
        },
      ))

  unfoldable pub store_pass : List Item → Copying → Option (List Item × Copying)
  unfolding taken_back to_store store_item
  store_pass [] c = some ([], c)
  store_pass (cp ∷ cps) c =
      (if taken_back cp
        then some (record cp { cpuid = unset }, c)
        else if to_store cp
        then store_item cp c
        else some (cp, c))
      >>= λ q. store_pass cps q.1 >>= λ r. some (q.0 ∷ r.0, r.1)

-- The third pass: the data of what is on disk is freed.
unfoldable pub to_free : Item → Bool
to_free cp = is_to_write cp.flag_cache && cp.share_ref == 1 && is_stored cp.cpuid

unfoldable pub free_pass : List Item → Stats → Option (List Item × Stats)
unfolding to_free
free_pass [] st = some ([], st)
free_pass (cp ∷ cps) st =
    (if to_free cp then free_data_memory (record cp { flag_cache = on_disk }) st else some (cp, st))
    >>= λ q. free_pass cps q.1 >>= λ r. some (q.0 ∷ r.0, r.1)

-- What belongs to the processor.
pub record Pool (File : Type 0) : Type 0 where
  pub bitmap : Bits
  pub bitmap_index : ℕ
  pub loff_file : ℕ
  pub file : File

module _ (v : Vfs) (b : BitSearch) (cpu bitmap_size : ℕ) where
  open v use {File, vfs_write}

  -- wr_file(work): the bucket, what belongs to the processor, and the counters; `room` says whether
  -- there is memory for the copy.
  unfoldable pub wr_file :
      Bool → List Item → Pool File → Stats → Option (List Item × Pool File × Stats)
  unfolding mark_pass store_pass free_pass
  wr_file room cps pool st =
      let (cps₁, all_size) = mark_pass cps 0 in
      if all_size == 0
      then some (cps₁, pool, st)
      else if not room
      then none
      else (store_pass b cpu bitmap_size cps₁ (record {
        bitmap = pool.bitmap;
        bitmap_index = pool.bitmap_index;
        copy_mem = replicate all_size 0;
        mem_index = 0;
        st_all_size = 0;
      })
          >>= λ s. vfs_write pool.file s.1.copy_mem pool.loff_file >>= λ file'.
              free_pass s.0 (record st { mmw = add64 st.mmw s.1.st_all_size }) >>= λ f. some (
                f.0,
                record {
                  bitmap = s.1.bitmap;
                  bitmap_index = s.1.bitmap_index;
                  loff_file = add64 pool.loff_file all_size;
                  file = file';
                },
                f.1,
              ))
