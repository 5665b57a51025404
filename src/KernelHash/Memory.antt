-- ===== src/KernelHash/Memory.antt =====
-- `alloc_data_memory` and `free_data_memory` of model/kernel_hash/hash_table.c.
pub mod Laws
use kernel_test.Base.{
  ℕ, ◌*◌, Bool, List, [], Option, none, some, replicate, length, drop, take, ◌++◌, leb,
  if◌then◌else◌, add64, sub64,
}
use kernel_test.KernelHash.Params.{chunkstep}
use kernel_test.KernelHash.Item.{released, kmalloced, slab1, slab2, slab3, Item, Stats}

-- The state that an allocation changes. `BUG()` is a `none`.
abbrev pub Charged : Type 0
Charged = Item × Stats

-- A zeroed object of `size` bytes, if there is memory for it.
abbrev pub zalloc : Bool → ℕ → Option (List ℕ)
zalloc room size = if room then some (replicate size 0) else none

-- alloc_data_memory(cp, length); `room` says whether the allocation succeeds. What `kmalloc` returns
-- is not cleared, and is filled by its callers: the model clears it.
alloc_new : Bool → ℕ → Item → Stats → Option Charged
alloc_new room n cp st =
    if leb n chunkstep
    then elim (zalloc room chunkstep) [
      | none ↦ none
      | some d ↦
          some (record cp { contents = d; mem_style = slab1 }, record st { mm1 = add64 st.mm1 n })
    ]
    else if leb n (chunkstep * 2)
    then elim (zalloc room (chunkstep * 2)) [
      | none ↦ none
      | some d ↦
          some (record cp { contents = d; mem_style = slab2 }, record st { mm2 = add64 st.mm2 n })
    ]
    else if leb n (chunkstep * 3)
    then elim (zalloc room (chunkstep * 3)) [
      | none ↦ none
      | some d ↦
          some (record cp { contents = d; mem_style = slab3 }, record st { mm3 = add64 st.mm3 n })
    ]
    else elim (zalloc room cp.len) [
      | none ↦ none
      | some d ↦ some (
        record cp { contents = d; mem_style = kmalloced },
        record st { mm0 = add64 st.mm0 cp.len },
      )
    ]

unfoldable pub alloc_data_memory : Bool → ℕ → Item → Stats → Option Charged
unfolding alloc_new
alloc_data_memory room n cp st = elim cp.mem_style [
  | released ↦ alloc_new room n cp st
  | _ ↦ some (cp, st)
]

-- free_data_memory(cp)
unfoldable pub free_data_memory : Item → Stats → Option Charged
free_data_memory cp st =
    let gone : Item = record cp { contents = []; mem_style = released } in
    elim cp.mem_style [
      | kmalloced ↦ some (gone, record st { mm0 = sub64 st.mm0 cp.len })
      | slab1 ↦ some (gone, record st { mm1 = sub64 st.mm1 cp.len })
      | slab2 ↦ some (gone, record st { mm2 = sub64 st.mm2 cp.len })
      | slab3 ↦ some (gone, record st { mm3 = sub64 st.mm3 cp.len })
      | released ↦ none
    ]

-- memcpy(dst, src, n); a write past the end of `dst` or a read past the end of `src` is a `none`.
abbrev pub memcpy : List ℕ → List ℕ → ℕ → Option (List ℕ)
memcpy dst src n =
    if leb n (length dst)
    then if leb n (length src) then some (take n src ++ drop n dst) else none
    else none
