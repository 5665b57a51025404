-- ===== src/KernelHash/Read.antt =====
-- `read_data` of model/kernel_hash/nf_in.c: the data of the items on the lists of a packet comes back
-- from the files of the processors.
pub mod Restored
use kernel_test.Base.{
  guard, ◌>>◌, ℕ, zero, suc, ◌+◌, ◌*◌, Bool, true, false, not, ◌&&◌, List, [], ◌∷◌, ◌++◌, Option,
  none, some, ◌>>=◌, ◌==◌, ltb, take, replicate, if◌then◌else◌, add64, dec32,
}
use kernel_test.KernelHash.Params.{chunkstep}
use kernel_test.KernelHash.Item.{Item, Stats}
use kernel_test.KernelHash.Memory.{alloc_data_memory, memcpy}
use kernel_test.KernelHash.Vfs.{Vfs}
use kernel_test.KernelHash.Table.{Cache, put_bucket}
use kernel_test.KernelHash.Dedup.{ReadSkb, update_at}

-- `rdl` and `rdf`, and the counters of hash_table.c.
pub record Reading : Type 0 where
  pub rdl : ℕ
  pub rdf : ℕ
  pub stats : Stats

module _ (v : Vfs) where
  open v use {File, kernel_read}

  -- The body of the loop for data that is not in memory. The bytes come through a cleared buffer of
  -- `len` bytes, which has to be allocated if they are more than 512; `data_room` and `tmp_room` say
  -- whether the two allocations succeed. A buffer that was not allocated is an access through NULL.
  unfoldable pub fetch : Bool → Bool → File → Item → Reading → Option (Item × Reading)
  fetch data_room tmp_room file item w = alloc_data_memory data_room item.len item w.stats >>= λ a.
      guard (not (ltb 512 item.len && not tmp_room))
      >> kernel_read file (item.start * chunkstep) item.len
      >>= λ bytes.
          memcpy a.0.contents (take item.len (bytes ++ replicate item.len 0)) item.len >>= λ data'.
          some (
            record (a.0) { contents = data'; flag_mem = true },
            record { rdl = add64 w.rdl item.len; rdf = add64 w.rdf 1; stats = a.1 },
          )

  -- The body of the loop.
  unfoldable pub read_item : Bool → Bool → File → Item → Reading → Option (Item × Reading)
  unfolding fetch
  read_item data_room tmp_room file item w =
      (if not item.flag_mem then fetch data_room tmp_room file item w else some (item, w)) >>= λ r.
      some (record (r.0) { share_ref = dec32 r.0.share_ref }, r.1)

  -- The item at an address; there is none if it was freed.
  unfoldable pub item_at : ℕ → List Item → Option Item
  item_at a [] = none
  item_at a (cp ∷ cps) = if cp.addr == a then some cp else item_at a cps

  -- The loop over the list of one processor.
  unfoldable pub read_list :
      Bool → Bool → File → List ReadSkb → Cache → Reading → Option (Cache × Reading)
  unfolding read_item item_at update_at
  read_list data_room tmp_room file [] c w = some (c, w)
  read_list data_room tmp_room file (r ∷ rs) c w = item_at r.address (c.tab r.bucket) >>= λ item.
      read_item data_room tmp_room file item w >>= λ q.
      read_list data_room tmp_room file rs
        (record c {
          tab = put_bucket r.bucket (update_at r.address (λ cp. q.0) (c.tab r.bucket)) c.tab;
        })
        q.1
