-- ===== src/KernelHash/Table/Added.antt =====
-- What `hash_new_item` of model/kernel_hash/hash_table.c does when it adds an item.
use kernel_test.KernelHash.Memory.Laws.{
  memcpy-take, alloc_data_memory-fits, alloc_data_memory-keeps,
}
use kernel_test.Base.{
  sext32, sym, ltb, add32, false, ◌⊎◌, none, refl, take, Option, ℕ, ◌≡◌, List, ◌∷◌, some, ◌>>=◌,
  Bool-cases, inl, inr, some_eq, >>=-eq-some,
}
use kernel_test.KernelHash.Item.{Stats, is_released, unset, in_memory, Item}
use kernel_test.KernelHash.Table.{
  alloc_data_memory, blank, item_cite_add, shalen, memcpy, Answers, hash_new_item, put_bucket,
  Cache, bkt_of,
}

-- What a call that adds an item has done: `cp` stands at the head of its bucket.
pub record Added (info value : List ℕ) (len_value : ℕ) (c : Cache) (cp : Item) (c' : Cache)
    : Type 0 where
  pub tab : c'.tab ≡ put_bucket (bkt_of cp.sha1) (cp ∷ c.tab (bkt_of cp.sha1)) c.tab
  pub sha1 : cp.sha1 ≡ take shalen info
  pub refcnt : cp.refcnt ≡ 6
  pub share_ref : cp.share_ref ≡ 1
  pub flag_cache : cp.flag_cache ≡ in_memory
  pub cpuid : cp.cpuid ≡ unset
  pub len : cp.len ≡ len_value
  pub filled : take len_value cp.contents ≡ take len_value value
  pub held : is_released cp.mem_style ≡ false
  pub hash_count : c'.hash_count ≡ add32 c.hash_count 1

-- The ways that a call of `hash_new_item` that does not stop goes.
pub hash_new_item-cases :
    (hash_max_count : ℕ) (ans : Answers) (info value : List ℕ) (len_value : ℕ) (c : Cache)
    {r : Option Item × Cache}
    → hash_new_item hash_max_count ans info value len_value c ≡ some r
    → (r ≡ (none, c)) ⊎ ((cp : Item) × (r.0 ≡ some cp) × Added info value len_value c cp r.1)
unfolding hash_new_item
hash_new_item-cases hash_max_count ans info value len_value c {r} e =
    elim (Bool-cases (ltb hash_max_count (sext32 c.hash_count))) [
      | inl full ↦
          let e' : some (none, c) ≡ some r = rw (full, hash_new_item) at e in inl (sym (some_eq e'))
      | inr free ↦ elim (Bool-cases ans.item_room) [
        | inr bad ↦
            let e' : some (none, c) ≡ some r = rw (free, bad, hash_new_item) at e in
            inl (sym (some_eq e'))
        | inl good ↦
            let item : Item × Stats → List ℕ → Item = λ q filled. record (q.0) {
              contents = filled;
              sha1 = take shalen info;
              refcnt = item_cite_add;
              share_ref = 1;
            } in
            let finish : Item × Stats → List ℕ → Option (Option Item × Cache) = λ q filled.
              let cp = item q filled in
              some (
                some cp,
                record c {
                  tab = put_bucket (bkt_of cp.sha1) (cp ∷ c.tab (bkt_of cp.sha1)) c.tab;
                  hash_count = add32 c.hash_count 1;
                  stats = q.1;
                },
              ) in
            let start : Item = blank ans.address len_value in
            let e' : (alloc_data_memory ans.data_room len_value start c.stats >>= λ q.
            memcpy q.0.contents value len_value >>= finish q)
                ≡ some r =
              rw (free, good, hash_new_item) at e in
            let (q, e₁, f₁) =
              >>=-eq-some (alloc_data_memory ans.data_room len_value start c.stats) _ e' in
            let (filled, e₂, f₂) =
              >>=-eq-some (memcpy q.0.contents value len_value) (finish q) f₁ in
            let kept = alloc_data_memory-keeps ans.data_room len_value start c.stats e₁ in
            let held = alloc_data_memory-fits ans.data_room start c.stats refl e₁ in
            rw (← some_eq f₂) (
              inr (
                item q filled,
                refl,
                record {
                  tab = refl;
                  sha1 = refl;
                  refcnt = refl;
                  share_ref = refl;
                  flag_cache = kept.0;
                  cpuid = kept.1;
                  len = kept.2;
                  filled = memcpy-take len_value q.0.contents value e₂;
                  held = held.1;
                  hash_count = refl;
                },
              ))
      ]
    ]
