-- ===== src/KernelHash/Kfifo.antt =====
-- The kernel's `struct kfifo`, which model/kernel_hash uses for `int` values of four bytes: its
-- operations and their documented behaviour. The kernel implements it, so it is a parameter.
use kernel_test.Base.{
  ℕ, ◌+◌, ◌*◌, ◌^◌, ◌≡◌, ◌++◌, List, [], ◌∷◌, Option, some, length, leb, if◌then◌else◌,
}

pub record Kfifo : Type 1 where
  pub Fifo : Type 0
  -- kfifo_alloc(bytes); `none` is an error pointer
  pub alloc : ℕ → Option Fifo
  -- kfifo_put of one `int`
  pub put : Fifo → ℕ → Fifo
  -- kfifo_get of one `int`; `none` if the queue is empty
  pub get : Fifo → Option (ℕ × Fifo)
  -- kfifo_len, in bytes
  pub len : Fifo → ℕ
  -- the values in the queue, oldest first, and the room in bytes
  pub queued : Fifo → List ℕ
  pub size : Fifo → ℕ
  pub queued-alloc : (n : ℕ) (f : Fifo) → alloc n ≡ some f → queued f ≡ []
  -- the size is rounded up to a power of 2
  pub size-alloc : (j : ℕ) (f : Fifo) → alloc (2 ^ j) ≡ some f → size f ≡ 2 ^ j
  pub size-put : (f : Fifo) (x : ℕ) → size (put f x) ≡ size f
  -- a value that does not fit is dropped
  pub queued-put :
      (f : Fifo) (x : ℕ)
      → queued (put f x)
        ≡ (if leb (4 * length (queued f) + 4) (size f) then queued f ++ x ∷ [] else queued f)
  pub len-queued : (f : Fifo) → len f ≡ 4 * length (queued f)
  pub get-queued :
      (f : Fifo) (x : ℕ) (xs : List ℕ)
      → queued f ≡ x ∷ xs
      → (g : Fifo) × (get f ≡ some (x, g)) × (queued g ≡ xs)
