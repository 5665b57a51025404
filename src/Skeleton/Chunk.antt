-- ===== src/Skeleton/Chunk.antt =====
-- model/c-skeleton/src/lcthw/chunk.c: a buffer that keeps the bytes that are left over.
pub mod Merging
use kernel_test.Base.{
  ℕ, ◌+◌, ◌-◌, Bool, List, ◌++◌, Option, none, some, ◌>>=◌, take, drop, replicate, leb, ltb,
  if◌then◌else◌,
}
use kernel_test.KernelHash.Write.{memcpy_at}

-- `LEN`
abbrev pub chunk_len : ℕ
chunk_len = 30000

-- `chunk`; `content` has the bytes that are allocated, those that were not written among them.
pub record Chunk : Type 0 where
  pub end : ℕ
  pub limit : ℕ
  pub content : List ℕ

-- chunk_create(): what malloc returns is taken to be cleared, and is not read before it is written.
unfoldable pub chunk_create : Bool → Option Chunk
chunk_create room =
    if room
    then some (record { end = 0; limit = chunk_len; content = replicate chunk_len 0 })
    else none

-- chunk_clean(ck)
unfoldable pub chunk_clean : Chunk → Chunk
chunk_clean ck = record ck { end = 0 }

-- chunk_store(ck, src, begin, end): what it returns, -1 a `none`, and the chunk. A bad access is an
-- outer `none`.
unfoldable pub chunk_store : Chunk → List ℕ → ℕ → ℕ → Option (Option ℕ × Chunk)
chunk_store ck src begin end' =
    let len = end' + 1 - begin in
    if leb begin end'
    then (memcpy_at ck.content 0 (drop begin src) len >>= λ c.
        some (some len, record ck { content = c; end = len }))
    else some (none, ck)

-- realloc to `n` bytes; what is new is taken to be cleared.
unfoldable pub grow : ℕ → List ℕ → List ℕ
grow n l = take n (l ++ replicate n 0)

-- chunk_merge(ck, src, begin, end). `ck->end` is unsigned: an empty chunk makes `ck->end - 1 + len`
-- wrap to `len - 1`.
unfoldable pub chunk_merge : Bool → Chunk → List ℕ → ℕ → ℕ → Option (Option ℕ × Chunk)
unfolding grow
chunk_merge room ck src begin end' =
    let len = end' + 1 - begin in
    let old_max = ck.end in
    let need = ck.end + len - 1 in
    if leb begin end'
    then if ltb ck.limit need
      then if room
        then (memcpy_at (grow need ck.content) old_max (replicate (len + 1) 0) (len + 1) >>= λ c.
            memcpy_at c ck.end (drop begin src) len >>= λ c'.
            some (some len, record { end = ck.end + len; limit = need; content = c' }))
        else some (none, record ck { limit = need })
      else (memcpy_at ck.content ck.end (drop begin src) len >>= λ c.
          some (some len, record ck { end = ck.end + len; content = c }))
    else some (none, ck)
