-- ===== src/Tests/Disk.antt =====
-- A file that is a function from positions to bytes, and searches that look at each bit, for the
-- parameters of the models of model/kernel_hash (file.c, bitmap.c).
use kernel_test.Base.{
  ℕ, zero, suc, ◌+◌, ◌-◌, ◌≤◌, ◌<◌, ◌≡◌, refl, sym, ap, ◌∙◌, Bool, true, false, List, [], ◌∷◌, some,
  length, take, drop, get_or, ◌==◌, ltb, if◌then◌else◌, arith, some_eq, Bool-cases, inl, inr,
}
use kernel_test.KernelHash.Bitmap.{Bits}
use kernel_test.KernelHash.Area.{BitSearch}
use kernel_test.KernelHash.Vfs.{Vfs}

abbrev pub Bytes : Type 0
Bytes = ℕ → ℕ

abbrev pub put_bytes : Bytes → List ℕ → ℕ → Bytes
put_bytes f buf pos i = if ltb i pos then f i else get_or buf (i - pos) (f i)

abbrev pub read_bytes : Bytes → ℕ → ℕ → List ℕ
read_bytes f q zero = []
read_bytes f q (suc n) = f q ∷ read_bytes f (q + 1) n

take-drop-suc :
    (l : List ℕ) (k n d : ℕ)
    → k < length l
    → take (suc n) (drop k l) ≡ get_or l k d ∷ take n (drop (suc k) l)
take-drop-suc [] k n d h = absurd (omega arith)
take-drop-suc (x ∷ l) zero n d h = refl
take-drop-suc (x ∷ l) (suc k) n d h = take-drop-suc l k n d (omega arith)

pub read_written :
    (f : Bytes) (buf : List ℕ) (pos q n : ℕ)
    → pos ≤ q
    → q + n ≤ pos + length buf
    → read_bytes (put_bytes f buf pos) q n ≡ take n (drop (q - pos) buf)
read_written f buf pos q zero h k = refl
read_written f buf pos q (suc n) h k =
    let behind : ltb q pos ≡ false = ground arith in
    let step : suc (q - pos) ≡ q + 1 - pos = omega arith in
    let rest = read_written f buf pos (q + 1) n (omega arith) (omega arith) in
    rw behind (
      ap (◌∷◌ (get_or buf (q - pos) (f q))) (rest ∙ ap (λ (t : ℕ). take n (drop t buf)) (sym step))
      ∙ sym (take-drop-suc buf (q - pos) n (f q) (omega arith)))

pub read_untouched :
    (f : Bytes) (buf : List ℕ) (pos q n : ℕ)
    → q + n ≤ pos
    → read_bytes (put_bytes f buf pos) q n ≡ read_bytes f q n
read_untouched f buf pos q zero h = refl
read_untouched f buf pos q (suc n) h =
    let ahead : ltb q pos ≡ true = ground arith in
    rw ahead (ap (◌∷◌ (f q)) (read_untouched f buf pos (q + 1) n (omega arith)))

pub read_written_some :
    (f : Bytes) (buf : List ℕ) (pos q n : ℕ) (f' : Bytes)
    → some (put_bytes f buf pos) ≡ some f'
    → pos ≤ q
    → q + n ≤ pos + length buf
    → some (read_bytes f' q n) ≡ some (take n (drop (q - pos) buf))
read_written_some f buf pos q n f' e h k =
    rw (← some_eq e) (ap some (read_written f buf pos q n h k))

pub read_untouched_some :
    (f : Bytes) (buf : List ℕ) (pos q n : ℕ) (f' : Bytes)
    → some (put_bytes f buf pos) ≡ some f'
    → q + n ≤ pos
    → some (read_bytes f' q n) ≡ some (read_bytes f q n)
read_untouched_some f buf pos q n f' e h =
    rw (← some_eq e) (ap some (read_untouched f buf pos q n h))

abbrev pub disk : Vfs
disk = record {
  File = Bytes;
  vfs_write = λ f buf pos. some (put_bytes f buf pos);
  kernel_read = λ f q n. some (read_bytes f q n);
  read-write = read_written_some;
  read-before = read_untouched_some;
}

-- The `nr` bits from `j` on are clear.
abbrev pub free_area : Bits → ℕ → ℕ → Bool
free_area map zero j = true
free_area map (suc nr) j = if map j then false else free_area map nr (j + 1)

abbrev pub seek : Bits → ℕ → ℕ → ℕ → ℕ
seek map nr zero j = j
seek map nr (suc k) j = if free_area map nr j then j else seek map nr k (j + 1)

free_area-clear :
    (map : Bits) (nr j : ℕ)
    → ((i : ℕ) → j ≤ i → i < j + nr → map i ≡ false)
    → free_area map nr j ≡ true
free_area-clear map zero j h = refl
free_area-clear map (suc nr) j h =
    rw (h j (omega arith) (omega arith))
      (free_area-clear map nr (j + 1) (λ i p q. h i (omega arith) (omega arith)))

pub seek-ge : (map : Bits) (nr k j : ℕ) → j ≤ seek map nr k j
seek-ge map nr zero j = omega arith
seek-ge map nr (suc k) j = elim (Bool-cases (free_area map nr j)) [
  | inl y ↦ rw y (omega arith)
  | inr y ↦ rw y (omega (arith, seek-ge map nr k (j + 1)))
]

pub seek-le : (map : Bits) (nr k j t : ℕ) → j ≤ t → free_area map nr t ≡ true → seek map nr k j ≤ t
seek-le map nr zero j t h f = h
seek-le map nr (suc k) j t h f = elim (Bool-cases (free_area map nr j)) [
  | inl y ↦ rw y h
  | inr y ↦ elim (Bool-cases (j == t)) [
    | inl z ↦
        let e : j ≡ t = ground arith in
        let f' : free_area map nr j ≡ true = rw e f in absurd (no_both _ f' y)
    | inr z ↦ rw y (seek-le map nr k (j + 1) t (ground arith) f)
  ]
]
  where
    no_both : (b : Bool) → b ≡ true → b ≡ false → ⊥
    no_both b p q = cc

pub seek-first :
    (map : Bits) (size start nr j : ℕ)
    → start ≤ j
    → j + nr ≤ size
    → ((i : ℕ) → j ≤ i → i < j + nr → map i ≡ false)
    → seek map nr size start ≤ j
seek-first map size start nr j h k clear =
    seek-le map nr size start j h (free_area-clear map nr j clear)

-- A search that looks at each place.
abbrev pub bit_search : BitSearch
bit_search = record {
  bitmap_find_next_zero_area = λ map size start nr mask. seek map nr size start;
  area-ge = λ map size start nr h. seek-ge map nr size start;
  area-le = seek-first;
}
