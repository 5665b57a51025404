-- ===== src/KernelHash/Write/Store.antt =====
-- The second pass of `wr_file` (model/kernel_hash/hash_table.c): each item gets the area that its
-- place in the copy calls for.
use kernel_test.Base.{
  u32, sext32, ◌%◌, ◌^◌, ℕ, ◌+◌, ◌*◌, ◌≤◌, ◌<◌, ◌≡◌, ◌⊎◌, refl, ◌∙◌, true, false, List, [], ◌∷◌,
  some, map, length, take, drop, u64, arith, Bool-cases, inl, inr, ltb,
}
use kernel_test.KernelHash.Item.{Item, units, is_marked, stored}
use kernel_test.KernelHash.Bitmap.{Bits, write_bits}
use kernel_test.KernelHash.Area.{BitSearch}
use kernel_test.KernelHash.Sweep.{is_to_write}
use kernel_test.KernelHash.Write.{to_mark, mark, Copying, store_item, store_pass}
use kernel_test.KernelHash.Write.Copy.{memcpy_at_lem, write_bits_behind}
use kernel_test.KernelHash.Write.Mark.{
  marked_units, mark1, units_bound, marked_lem, unmarked_lem, to_mark-unshared,
}

-- No item is marked by an earlier run, and the data of each item to be written has its bytes.
abbrev pub AllReady : List Item → Type 0
AllReady [] = Unit
AllReady (cp ∷ cps) =
    (is_marked cp.cpuid ≡ false)
    × (is_to_write cp.flag_cache ≡ true → cp.len ≤ length cp.contents)
    × AllReady cps

module _ (cpu first : ℕ) (mem : List ℕ) where
  -- What the second pass does to an item: one that is to be written gets a unit of the file from
  -- `first` on, and its bytes stand at the same distance in the copy.
  abbrev pub Stored : Item → Item → Type 0
  Stored cp cp' =
      ((to_mark cp ≡ true)
        × ((s : ℕ) × (cp' ≡ record (mark cp) { start = s; cpuid = stored cpu })
            × ((o : ℕ) × (o + 32 * first ≡ 32 * s)
                × (o + cp.len ≤ length mem)
                × (take cp.len (drop o mem) ≡ take cp.len cp.contents))))
      ⊎ ((to_mark cp ≡ false) × (cp' ≡ cp))

  abbrev pub AllStored : List Item → List Item → Type 0
  AllStored [] [] = Unit
  AllStored (cp ∷ cps) (cp' ∷ cps') = Stored cp cp' × AllStored cps cps'
  AllStored _ _ = ⊥

module _ (b : BitSearch) (cpu bitmap_size first : ℕ) (small : bitmap_size < 2 ^ 31) where
  -- Where the second pass stands: the next place in the copy belongs to the next unit of the file,
  -- and there is room in both for the units that are still to come.
  pub record Ready (c : Copying) (num : ℕ) : Type 0 where
    pub place : c.mem_index + 32 * first ≡ 32 * c.bitmap_index
    pub room : c.mem_index + 32 * num ≤ length c.copy_mem
    pub memory : length c.copy_mem < 2 ^ 62
    pub inside : c.bitmap_index + num ≤ bitmap_size
    pub ahead : (j : ℕ) → c.bitmap_index ≤ j → c.bitmap j ≡ false

  -- The search finds the place of `bitmap_index`, which an `int` holds.
  found_lem :
      (m : Bits) (index num : ℕ)
      → 0 < num
      → index + num ≤ bitmap_size
      → ((j : ℕ) → index ≤ j → m j ≡ false)
      → sext32 (b.bitmap_find_next_zero_area m bitmap_size index num 0 % u32) ≡ index
  found_lem m index num pos inside ahead =
      let ge = b.area-ge m bitmap_size index num (omega arith) in
      let le = b.area-le m bitmap_size index num index (omega arith) inside (λ i h k. ahead i h) in
      let same : b.bitmap_find_next_zero_area m bitmap_size index num 0 ≡ index =
        omega (arith, ge, le) in
      rw same (ground (arith, inside, small, pos))

  store_item_lem :
      (cp : Item) (c : Copying) (more : ℕ)
      → cp.len ≤ length cp.contents
      → Ready c (units cp.len + more)
      → (c' : Copying) × (store_item b cpu bitmap_size cp c
          ≡ some (record cp { start = c.bitmap_index; cpuid = stored cpu }, c'))
        × Ready c' more
        × (c'.bitmap_index ≡ c.bitmap_index + units cp.len)
        × (c'.mem_index ≡ c.mem_index + 32 * units cp.len)
        × (length c'.copy_mem ≡ length c.copy_mem)
        × (take cp.len (drop c.mem_index c'.copy_mem) ≡ take cp.len cp.contents)
        × ((q k : ℕ)
            → q + k ≤ c.mem_index
            → take k (drop q c'.copy_mem) ≡ take k (drop q c.copy_mem))
  unfolding store_item
  store_item_lem cp c more h v =
      let num = units cp.len in
      let (le, pos) = units_bound cp.len in
      let found = found_lem c.bitmap c.bitmap_index num pos (omega (arith, v.inside)) v.ahead in
      let ok : ltb bitmap_size c.bitmap_index ≡ false = ground (arith, v.inside) in
      let (r, e, k) =
        memcpy_at_lem c.copy_mem c.mem_index cp.contents cp.len h (omega (arith, v.room, le)) in
      let i : (c.bitmap_index + num) % u64 ≡ c.bitmap_index + num = omega (arith, v.inside) in
      let m : (c.mem_index + num * 32) % u64 ≡ c.mem_index + 32 * num =
        omega (arith, v.room, v.memory) in
      let c' : Copying = record {
        bitmap = write_bits true num c.bitmap_index c.bitmap;
        bitmap_index = (c.bitmap_index + num) % u64;
        copy_mem = r;
        mem_index = (c.mem_index + num * 32) % u64;
        st_all_size = (c.st_all_size + cp.len) % u64;
      } in
      (
        c',
        rw found (rw ok (rw e refl)),
        record {
          place = omega (arith, i, m, v.place);
          room = omega (arith, m, v.room, k.size);
          memory = omega (arith, k.size, v.memory);
          inside = omega (arith, i, v.inside);
          ahead = λ j g.
              write_bits_behind true num c.bitmap_index c.bitmap j (omega (arith, g, i))
              ∙ v.ahead j (omega (arith, g, i));
        },
        i,
        m,
        k.size,
        k.read,
        k.before,
      )

  -- Marking changes neither the bytes of an item nor their number.
  store_marked_lem :
      (cp : Item) (c : Copying) (more : ℕ)
      → cp.len ≤ length cp.contents
      → Ready c (units cp.len + more)
      → (c' : Copying) × (store_item b cpu bitmap_size (mark cp) c
          ≡ some (record (mark cp) { start = c.bitmap_index; cpuid = stored cpu }, c'))
        × Ready c' more
        × (c'.bitmap_index ≡ c.bitmap_index + units cp.len)
        × (c'.mem_index ≡ c.mem_index + 32 * units cp.len)
        × (length c'.copy_mem ≡ length c.copy_mem)
        × (take cp.len (drop c.mem_index c'.copy_mem) ≡ take cp.len cp.contents)
        × ((q k : ℕ)
            → q + k ≤ c.mem_index
            → take k (drop q c'.copy_mem) ≡ take k (drop q c.copy_mem))
  unfolding mark
  store_marked_lem cp c more h v = store_item_lem (mark cp) c more h v

  pub store_pass_lem :
      (cps : List Item) (c : Copying)
      → AllReady cps
      → Ready c (marked_units cps)
      → (cps' : List Item) × (c' : Copying) × (store_pass b cpu bitmap_size (map mark1 cps) c
          ≡ some (cps', c'))
        × Ready c' 0
        × (c'.bitmap_index ≡ c.bitmap_index + marked_units cps)
        × (length c'.copy_mem ≡ length c.copy_mem)
        × AllStored cpu first c'.copy_mem cps cps'
        × ((q k : ℕ)
            → q + k ≤ c.mem_index
            → take k (drop q c'.copy_mem) ≡ take k (drop q c.copy_mem))
  unfolding store_pass marked_units mark1
  store_pass_lem [] c h v = ([], c, refl, v, omega arith, refl, tt, λ q k l. refl)
  store_pass_lem (cp ∷ cps) c h v = elim (Bool-cases (to_mark cp)) [
    | inl x ↦
        let (back, go, done) = marked_lem cp x in
        let (write, one) = to_mark-unshared cp x in
        let v₀ : Ready c (units cp.len + marked_units cps) = rw x at v in
        let (c₁, e, v₁, i₁, m₁, l₁, r₁, b₁) =
          store_marked_lem cp c (marked_units cps) (h.1 write) v₀ in
        let (cps', c', f, v', i', l', s', b') = store_pass_lem cps c₁ h.2 v₁ in
        (
          record (mark cp) { start = c.bitmap_index; cpuid = stored cpu } ∷ cps',
          c',
          rw (x, back, go, e, f) refl,
          v',
          rw x (omega (arith, i', i₁)),
          l' ∙ l₁,
          (
            inl (
              x,
              (
                c.bitmap_index,
                refl,
                (
                  c.mem_index,
                  v.place,
                  omega (arith, v₀.room, l', l₁, (units_bound cp.len).0),
                  b' c.mem_index cp.len (omega (arith, m₁, (units_bound cp.len).0)) ∙ r₁,
                ),
              ),
            ),
            s',
          ),
          λ q k l. b' q k (omega (arith, m₁, l)) ∙ b₁ q k l,
        )
    | inr x ↦
        let (back, go) = unmarked_lem cp h.0 in
        let v₀ : Ready c (0 + marked_units cps) = rw x at v in
        let v₁ : Ready c (marked_units cps) = record {
          place = v₀.place;
          room = omega (arith, v₀.room);
          memory = v₀.memory;
          inside = omega (arith, v₀.inside);
          ahead = v₀.ahead;
        } in
        let (cps', c', f, v', i', l', s', b') = store_pass_lem cps c h.2 v₁ in
        (
          cp ∷ cps',
          c',
          rw (x, back, go, f) refl,
          v',
          rw x (omega (arith, i')),
          l',
          (inr (x, refl), s'),
          b',
        )
  ]
