-- ===== src/KernelHash/Sweep/Survivors.antt =====
-- Which items a sweep of model/kernel_hash/hash_table.c keeps, and what becomes of them.
use kernel_test.Base.{
  ◌++◌, Bool-cases, inl, inr, ℕ, zero, suc, ◌-◌, ◌^◌, ◌≤◌, ◌<◌, ◌≡◌, refl, sym, ap, ◌∙◌, true,
  false, List, [], ◌∷◌, Option, some, ◌>>=◌, if◌then◌else◌, Bool-cases, inl, inr, arith,
  >>=-eq-some, some_eq, dec32, slt, leb,
}
use kernel_test.KernelHash.Item.{
  FlagCache, in_memory, to_write, always_memory, CpuId, stored, StoreFlag, initial, should_write,
  Item,
}
use kernel_test.KernelHash.Sweep.{
  Ward, expired, delete_item, promote_new, choose_write, promote_unwritten, note_store, age_item,
  sweep,
}
use kernel_test.KernelHash.Sweep.Safety.{AllSound, sweep-AllSound}

-- How often an item has been used of late, by its `refcnt`.
pub data Heat : Type 0 where
  cold warm hot : Heat

unfoldable pub heat : ℕ → Heat
heat r = if slt r 6 then cold else if slt r 12 then warm else hot

-- The state that an item moves to.
unfoldable pub next_flag : Heat → CpuId → FlagCache → FlagCache
next_flag warm c in_memory = to_write
next_flag hot c in_memory = always_memory
next_flag hot (stored n) to_write = to_write
next_flag hot c to_write = always_memory
next_flag h c f = f

unfoldable pub next_store : ℕ → StoreFlag → StoreFlag
next_store r initial = if slt 6 r then should_write else initial
next_store r s = s

-- An item a period later.
unfoldable pub aged : Item → Item
unfolding heat next_flag next_store
aged cp =
    let r = dec32 cp.refcnt in
    record cp {
      refcnt = r;
      flag_cache = next_flag (heat r) cp.cpuid cp.flag_cache;
      store_flag = next_store r cp.store_flag;
    }

-- The items that are neither in use nor of low count, a period later.
unfoldable pub survivors : List Item → List Item
survivors [] = []
survivors (cp ∷ cps) = let rest = survivors cps in if expired cp then rest else aged cp ∷ rest

pub age_item-aged : (cp : Item) (w : Ward) → (age_item cp w).0 ≡ aged cp
unfolding age_item promote_new choose_write promote_unwritten note_store aged
age_item-aged cp w = ground arith

-- A sweep that does not stop keeps, in order, the items that are not expired, each as it is a
-- period later: with a count less by one and the state that the count calls for.
pub sweep-survivors :
    (cps : List Item) (w : Ward) {r : List Item × Ward} → sweep cps w ≡ some r → r.0 ≡ survivors cps
unfolding sweep survivors
sweep-survivors [] w h = cc
sweep-survivors (cp ∷ cps) w {r} h = elim (Bool-cases (expired cp)) [
  | inl x ↦
      let h' : (delete_item cp w >>= λ w'. sweep cps w') ≡ some r = rw (x, sweep) at h in
      let (w', e, f) = >>=-eq-some (delete_item cp w) (λ w'. sweep cps w') h' in
      rw x (sweep-survivors cps w' f)
  | inr x ↦
      let (cp', w') = age_item cp w in
      let h' : (sweep cps w' >>= λ r. some (cp' ∷ r.0, r.1)) ≡ some r = rw (x, sweep) at h in
      let (q, e, f) = >>=-eq-some (sweep cps w') (λ r. some (cp' ∷ r.0, r.1)) h' in
      rw x (
        ap (λ (o : List Item × Ward). o.0) (sym (some_eq f))
        ∙ cong₂ (age_item-aged cp w) (sweep-survivors cps w' e))
]
  where
    cong₂ : {a b : Item} {x y : List Item} → a ≡ b → x ≡ y → a ∷ x ≡ b ∷ y
    cong₂ p q = cc

-- `n` sweeps in a row.
unfoldable pub sweep_times : ℕ → List Item → Ward → Option (List Item × Ward)
sweep_times zero cps w = some (cps, w)
sweep_times (suc n) cps w = sweep cps w >>= λ r. sweep_times n r.0 r.1

-- An item that nobody refers to any more.
pub record Idle (n : ℕ) (cp : Item) : Type 0 where
  pub count : cp.refcnt ≡ n
  pub unshared : cp.share_ref ≡ 1

expired-Idle : (n : ℕ) (cp : Item) → n < 2 ^ 31 → Idle n cp → expired cp ≡ leb n 1
unfolding expired
expired-Idle n cp b i = rw (i.count, i.unshared) (ground arith)

aged-Idle : (n : ℕ) (cp : Item) → suc n < 2 ^ 31 → Idle (suc n) cp → Idle n (aged cp)
unfolding aged
aged-Idle n cp b i = record { count = rw i.count (omega arith); unshared = i.unshared }

survivors_times : ℕ → List Item → List Item
survivors_times zero cps = cps
survivors_times (suc n) cps = survivors_times n (survivors cps)

times_lem :
    (n : ℕ) (cps : List Item) (w : Ward)
    → AllSound cps
    → (r : List Item × Ward) × (sweep_times n cps w ≡ some r) × (r.0 ≡ survivors_times n cps)
unfolding sweep_times survivors_times
times_lem zero cps w s = ((cps, w), refl, refl)
times_lem (suc n) cps w s =
    let (r, e, t) = sweep-AllSound cps w s in
    let (r', e', f) = times_lem n r.0 r.1 t in
    (r', rw e e', f ∙ ap (survivors_times n) (sweep-survivors cps w e))

-- Every item is idle, with a count of at most `n`.
abbrev pub AllIdle : ℕ → List Item → Type 0
AllIdle n [] = Unit
AllIdle n (cp ∷ cps) = ((m : ℕ) × (m ≤ n) × Idle m cp) × AllIdle n cps

survivors-AllIdle :
    (n : ℕ) (cps : List Item) → suc n < 2 ^ 31 → AllIdle (suc n) cps → AllIdle n (survivors cps)
unfolding survivors
survivors-AllIdle n [] b h = tt
survivors-AllIdle n (cp ∷ cps) b ((zero, le, i), h) =
    rw (expired-Idle zero cp (omega arith) i) (survivors-AllIdle n cps b h)
survivors-AllIdle n (cp ∷ cps) b ((suc m, le, i), h) = elim (Bool-cases (leb (suc m) 1)) [
  | inl x ↦ rw (expired-Idle (suc m) cp (omega arith) i ∙ x) (survivors-AllIdle n cps b h)
  | inr x ↦
      rw (expired-Idle (suc m) cp (omega arith) i ∙ x)
        ((m, omega arith, aged-Idle m cp (omega arith) i), survivors-AllIdle n cps b h)
]

AllIdle-zero : (cps : List Item) → AllIdle 1 cps → survivors cps ≡ []
unfolding survivors
AllIdle-zero [] h = refl
AllIdle-zero (cp ∷ cps) ((m, le, i), h) =
    let x : leb m 1 ≡ true = ground arith in
    rw (expired-Idle m cp (omega arith) i ∙ x) (AllIdle-zero cps h)

survivors_times-nil : (n : ℕ) → survivors_times n [] ≡ []
unfolding survivors_times survivors
survivors_times-nil zero = refl
survivors_times-nil (suc n) = survivors_times-nil n

survivors_times-AllIdle :
    (n : ℕ) (cps : List Item)
    → suc n < 2 ^ 31
    → AllIdle (suc n) cps
    → survivors_times (suc n) cps ≡ []
unfolding survivors_times
survivors_times-AllIdle zero cps b h = AllIdle-zero cps h
survivors_times-AllIdle (suc n) cps b h =
    survivors_times-AllIdle n (survivors cps) (omega arith) (survivors-AllIdle (suc n) cps b h)

-- Sound items that nobody refers to and that are not hit again, with counts of at most `n + 1`, are
-- gone after `n + 1` periods.
pub sweep_times-empties :
    (n : ℕ) (cps : List Item) (w : Ward)
    → suc n < 2 ^ 31
    → AllSound cps
    → AllIdle (suc n) cps
    → (w' : Ward) × (sweep_times (suc n) cps w ≡ some ([], w'))
sweep_times-empties n cps w b s h =
    let (r, e, f) = times_lem (suc n) cps w s in
    let g : r.0 ≡ [] = f ∙ survivors_times-AllIdle n cps b h in
    (r.1, e ∙ ap (λ (l : List Item). some (l, r.1)) g)

-- An item of a bucket, by what stands before it and behind it.
abbrev pub Among : Item → List Item → Type 0
Among cp cps = (l : List Item) × (r : List Item) × (cps ≡ l ++ cp ∷ r)

-- The same item, with the chunk that it had.
pub record SameChunk (cp cp' : Item) : Type 0 where
  pub place : cp'.addr ≡ cp.addr
  pub digest : cp'.sha1 ≡ cp.sha1
  pub bytes : cp'.contents ≡ cp.contents

aged-SameChunk : (cp : Item) → SameChunk cp (aged cp)
unfolding aged
aged-SameChunk cp = record { place = refl; digest = refl; bytes = refl }

SameChunk-trans : {a b c : Item} → SameChunk a b → SameChunk b c → SameChunk a c
SameChunk-trans x y = record {
  place = y.place ∙ x.place;
  digest = y.digest ∙ x.digest;
  bytes = y.bytes ∙ x.bytes;
}

survivors-append : (l r : List Item) → survivors (l ++ r) ≡ survivors l ++ survivors r
unfolding survivors
survivors-append [] r = refl
survivors-append (x ∷ l) r = elim (Bool-cases (expired x)) [
  | inl y ↦ rw (y, survivors) (survivors-append l r)
  | inr y ↦ rw (y, survivors) (ap (◌∷◌ (aged x)) (survivors-append l r))
]

survivors_stay :
    (cp : Item) (r : List Item) → expired cp ≡ false → survivors (cp ∷ r) ≡ aged cp ∷ survivors r
unfolding survivors
survivors_stay cp r y = rw (y, survivors) refl

survivors_times-Among :
    (k m : ℕ) (cp : Item) (cps : List Item)
    → m < 2 ^ 31
    → k < m
    → Idle m cp
    → Among cp cps
    → (cp' : Item) × Among cp' (survivors_times k cps) × SameChunk cp cp' × Idle (m - k) cp'
unfolding survivors_times
survivors_times-Among zero m cp cps b h i at = (
  cp,
  at,
  record { place = refl; digest = refl; bytes = refl },
  record { count = i.count ∙ omega arith; unshared = i.unshared },
)
survivors_times-Among (suc k) zero cp cps b h i at = absurd (omega arith)
survivors_times-Among (suc k) (suc m) cp cps b h i (l, r, e) =
    let x : leb (suc m) 1 ≡ false = ground arith in
    let stays : survivors (cp ∷ r) ≡ aged cp ∷ survivors r =
      survivors_stay cp r (expired-Idle (suc m) cp b i ∙ x) in
    let next : survivors cps ≡ survivors l ++ aged cp ∷ survivors r =
      ap survivors e ∙ survivors-append l (cp ∷ r) ∙ ap (◌++◌ (survivors l)) stays in
    let (cp', at, same, j) =
      survivors_times-Among k m (aged cp) (survivors cps) (omega arith) (omega arith)
        (aged-Idle m cp b i) (survivors l, survivors r, next) in
    (
      cp',
      at,
      SameChunk-trans (aged-SameChunk cp) same,
      record { count = j.count ∙ omega arith; unshared = j.unshared },
    )

-- In a bucket of sound items, whatever they are: an item that nobody refers to and that is not hit
-- again stays, with its digest and its bytes, for as many periods as its count says, less one, and its
-- count falls by one in each.
pub sweep_times-keeps :
    (k m : ℕ) (cp : Item) (cps : List Item) (w : Ward)
    → m < 2 ^ 31
    → k < m
    → AllSound cps
    → Among cp cps
    → Idle m cp
    → (cps' : List Item) × (w' : Ward) × (sweep_times k cps w ≡ some (cps', w'))
      × ((cp' : Item) × Among cp' cps' × SameChunk cp cp' × Idle (m - k) cp')
sweep_times-keeps k m cp cps w b h s at i =
    let (r, e, f) = times_lem k cps w s in
    let (cp', among, same, j) = survivors_times-Among k m cp cps b h i at in
    (r.0, r.1, e, (cp', rw f among, same, j))
