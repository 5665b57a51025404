-- ===== src/KernelHash/Vfs.antt =====
-- A file of the kernel, as model/kernel_hash/file.c writes it and nf_in.c reads it. The kernel
-- implements it, so it is a parameter; writes to a regular file are taken to be complete.
use kernel_test.Base.{ℕ, ◌+◌, ◌-◌, ◌≤◌, ◌≡◌, List, Option, some, length, take, drop}

pub record Vfs : Type 1 where
  pub File : Type 0
  -- vfs_write(file, buf, count, &pos), of all of `buf`; `none` is a negative result
  pub vfs_write : File → List ℕ → ℕ → Option File
  -- kernel_read(file, pos, addr, count): the bytes read; `none` is a negative result
  pub kernel_read : File → ℕ → ℕ → Option (List ℕ)
  -- what was written is read
  pub read-write :
      (f : File) (buf : List ℕ) (pos q n : ℕ) (f' : File)
      → vfs_write f buf pos ≡ some f'
      → pos ≤ q
      → q + n ≤ pos + length buf
      → kernel_read f' q n ≡ some (take n (drop (q - pos) buf))
  -- what stands before it is untouched
  pub read-before :
      (f : File) (buf : List ℕ) (pos q n : ℕ) (f' : File)
      → vfs_write f buf pos ≡ some f'
      → q + n ≤ pos
      → kernel_read f' q n ≡ kernel_read f q n
