-- ===== src/KernelHash/Bitmap.antt =====
-- The per-processor bitmaps of model/kernel_hash, a bit for each storage unit of a file. The kernel's
-- `set_bit` and `clear_bit` are writes to a function from positions to bits.
use kernel_test.Base.{ℕ, zero, suc, ◌+◌, Bool, ◌==◌, if◌then◌else◌}

abbrev pub Bits : Type 0
Bits = ℕ → Bool

abbrev pub write_bit : ℕ → Bool → Bits → Bits
write_bit i v m j = if j == i then v else m j

-- for (i = 0; i < num; ++i) set_bit(start + i, map), or clear_bit
unfoldable pub write_bits : Bool → ℕ → ℕ → Bits → Bits
write_bits v zero start m = m
write_bits v (suc n) start m = write_bits v n (start + 1) (write_bit start v m)

-- The bitmap of one processor, changed.
abbrev pub at_cpu {ℓ} : {A : Type ℓ} → ℕ → A → (ℕ → A) → ℕ → A
at_cpu cpu a f c = if c == cpu then a else f c
