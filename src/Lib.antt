-- ===== src/Lib.antt =====
-- A model of the deduplicating chunk cache of this repository, and proofs about it.
--
-- The program. model/kernel_hash is a kernel module that watches TCP payloads. It cuts a payload into
-- chunks where a rolling hash of the last 32 bytes ends in six zero bits (chunk.c, and get_partition of
-- nf_in.c), takes the SHA-1 of each chunk, and keeps the chunks in a hash table of 2^20 buckets
-- (hash_table.c). A chunk that comes again counts as saved bytes. A timer ages each bucket: chunks that
-- are hit often stay in memory, chunks that are hit sometimes are written to a file of the processor,
-- and chunks that are not hit are dropped. model/send_module is a simpler module for the other end of a
-- line: it keeps digests only, and works out where the digests of known chunks would stand in a packet.
-- model/c-skeleton is the program in user space in which the idea was tried: it reads the frames of a
-- capture, cuts their payloads with a like hash, carries the end of a payload over to the next one, and
-- counts the bytes of pieces whose digest it has seen.
--
-- The files.
--   KernelHash/Params: the parameters that main.c computes, and the constants of chunk.h.
--   KernelHash/Rolling: pack_hash and the rolling step of chunk.c, modulo 2^64 where C wraps. A `char`
--     is signed, so a byte from 128 on is sign-extended. Rolling/Poly and Rolling/Roll relate it to a
--     polynomial.
--   KernelHash/Kfifo: the kernel's queue, an interface with the laws that the code relies on.
--   KernelHash/Partition: calculate_partition of chunk.c, and get_partition of nf_in.c with build_hash
--     as a parameter. Partition/Points describes the points window by window, Partition/Spacing says
--     where they lie, Partition/Tile and Partition/Cover say what chunks come of them.
--   KernelHash/Item: struct hashinfo_item of hash_table.h, and the counters of hash_table.c.
--   KernelHash/Memory: alloc_data_memory and free_data_memory of hash_table.c.
--   KernelHash/Bitmap: the bitmaps of the storage units, and the loops of set_bit and clear_bit.
--   KernelHash/Sweep: the loop of bucket_clear_item of hash_table.c, a function for each of its parts.
--     Sweep/Safety, Sweep/Survivors and Sweep/Accounting say what it never does, what it keeps, and what
--     it does to the counters.
--   KernelHash/Jen: HASH_JEN of hash_table.h.
--   KernelHash/Table: the table, hash_new_item, add_hash_info, get_hash_item and bucket_clear_item of
--     hash_table.c, and the locks of hash_lock.h.
--   KernelHash/Dedup: hand_hash and build_hash of nf_in.c, and the chunking of a payload into the table.
--   KernelHash/Area: the search for free units that wr_file calls, an interface with laws: the one of
--     bitmap.c is a copy of the kernel's.
--   KernelHash/Vfs: the files of the kernel, an interface with laws.
--   KernelHash/Write: wr_file of hash_table.c, a function for each pass. Write/Copy, Write/Mark,
--     Write/Store and Write/Written lead to Write/Readable, which says what it promises.
--   KernelHash/Read: the loop of read_data of nf_in.c on the list of one processor. Read/Restored says
--     that data comes back.
--   KernelHash/Expire: hash_del_item, hash_item_expire and hash_flush of hash_table.c.
--   KernelHash/Queue: jpf_ip_rcv, handle_skb, resend_skb and clear_remainder_skb of nf_in.c. Queue/Fifo
--     is about any sequence of arrivals and works, Queue/Waits and Queue/Drain are about the loop of
--     clear_remainder_skb.
--   KernelHash/Setup: slab_cache.c, alloc_file.c, and alloc_bitmap and free_bitmap of bitmap.c.
--     Setup/Cache has initial_hash_table_cache and release_hash_table_cache of hash_table.c and the
--     users of the digest pool of sha.c, Setup/Entry has minit and mexit of main.c with a function for
--     each label; mexit runs the works, the clearing loop and the flush of Queue and Expire.
--     Setup/Percpu is about the loops over the processors, Entry/Expected tells what is held after each
--     first refusal, Entry/Outcome that it is so, Entry/Unload what mexit leaves.
--   SendModule/Entries: the table of model/send_module/hash_table.c. Entries/Known says which digests it
--     knows, Entries/Ageing what its timers leave.
--   SendModule/Packet: hand_hash, build_hash, get_partition, replace_skb and nf_out of
--     model/send_module/nf_out.c. Packet/Cuts lists the calls of build_hash, Packet/Replaced says which
--     chunks are found, Packet/Fits how long the new data is.
--   SendModule/Setup: minit and mexit of model/send_module/main.c, with what they call of its
--     slab_cache.c, hash_table.c and sha.c. Setup/Outcome tells what is held after each first refusal.
--   Skeleton/Pack: model/c-skeleton/src/pack.c and its lcthw/pack.h. Pack/Signed relates its signed
--     arithmetic to the hash of chunk.c, Pack/Points describes its points window by window, Pack/Pieces
--     what it digests. Pack/Run has the loop over the frames, Run/Conserved and Pack/Savings what comes
--     of a run.
--   Skeleton/Winnow: pack_calculate_part of model/c-skeleton/src/winn_pack.c. Winnow/Blocks is about one
--     block of windows, Winnow/Choice about a sequence of hashes, Winnow/Points about a payload.
--   Skeleton/DArray, Skeleton/Hashmap, Skeleton/Algos, Skeleton/Chunk, Skeleton/KeyValue: darray.c and
--     darray.h, hashmap.c and hashmap.h, hashmap_algos.c with checksum.c, chunk.c and keyvalue.c of
--     model/c-skeleton/src/lcthw, the containers of the user-space version. The array is a copy of
--     liblcthw's; it is written out, with lemmas in DArray/Stack, as what the hash map, which differs
--     from the library's, stands on. Hashmap/Lookup, Hashmap/Update and Hashmap/GetSet say what a key
--     gets.
--   Base: Boolean tests, lists, the Option monad and machine words over the native numbers.
--   Tests: runs at concrete inputs, and the theorems at inputs that meet their hypotheses.
--
-- How state is modelled. Each function of the program takes the state that it reads and returns the
-- state that it leaves; a `none` is a run that stops, at a `BUG()` or at a bad access. Counters wrap as
-- in C: `atomic_t` is a word of 32 bits compared as a signed number, `atomic64_t` and
-- `percpu_counter` are 64 bits wide. A bucket is a list in the order of its links. An item is named
-- by its address. The table is a function from bucket numbers. The code of a function runs under its
-- lock, so a function is one step; steps of several processors are sequences of calls. All loops are
-- recursions on a list or on the number of rounds that the code fixes, but for the loop of
-- clear_remainder_skb, which has fuel: it waits until other code empties a queue.
--
-- What is a parameter. The kernel's queue (Kfifo, with laws: values come out in order, a value that
-- does not fit is dropped, and a queue of a power of two of values holds that many), SHA-1, the number of processors and the answers of the allocator
-- (Machine, Answers; Sender for the sender; Kernel and SendKernel for the entries of the modules),
-- the search for free units (BitSearch), and the kernel's files (Vfs, with the law that a write to a
-- regular file that reports no error is complete: a short write is excluded). The limit hash_max_count depends on the size of a C structure and is an argument.
--
-- What is not modelled. list_sort of sort.c and the search of bitmap.c are copies of the kernel's
-- functions. pack.c keeps pointers to keys into an array that may move when it grows; the model keeps
-- the keys by value, and a run in which the array grows stops, so nothing is said of it. Work that is queued is recorded in `pending`; wr_file is a function of its
-- own, which runs on the processor that its work is bound to. A look-up between the passes of wr_file
-- is not modelled. The order of the lists that read_data reads is not modelled: its comparison reads
-- the wrong structure. The crypto and slab interfaces are calls of the kernel; of the entries of the
-- two modules the model has which objects are held, not what they are, and neither the members of the
-- digest pool nor the counters that are set to 0. The works of wr_file and the timers that are still to
-- run when mexit flushes the table are left out. The rest of winn_pack.c is the text of pack.c; the
-- duplicate counter of model/c-skeleton is not modelled; bstrlib is a library; test holds experiments
-- and samples. A `void *` that is stored is a value, and a bucket of a map that is changed in place
-- is written back.
pub mod Base
pub mod KernelHash
pub mod SendModule
pub mod Skeleton
mod Tests
