-- ===== src/KernelHash/Setup/Percpu.antt =====
-- The loops over the processors of alloc_file.c and bitmap.c of model/kernel_hash, and the caches of
-- slab_cache.c: what they hold when all is made, and what is released after the first that is not.
use kernel_test.Base.{
  ℕ, zero, suc, ◌+◌, ◌≡◌, refl, Bool, true, false, ◌&&◌, ◌||◌, List, [], ◌∷◌, Option, none, some,
  add64, replicate, Bool-cases, inl, inr,
}
use kernel_test.KernelHash.Setup.{
  Ptr, null, err, live, freed, Status, success, enomem, enodev, Kernel, Slabs, Setup, is_live,
  open_files, put_files, alloc_slab, free_slab, make_bitmaps, free_bitmaps, bitmap_bytes,
  destroy_cache,
}

-- The number of processors after the first one from `cpu` on, of `n`, that is refused.
unfoldable pub after_refusal : (ℕ → Bool) → ℕ → ℕ → Option ℕ
after_refusal ok cpu zero = none
after_refusal ok cpu (suc n) = elim (ok cpu) [
  | true ↦ after_refusal ok (cpu + 1) n
  | false ↦ some n
]

abbrev pub any_live : List Ptr → Bool
any_live [] = false
any_live (p ∷ ps) = is_live p || any_live ps

pub any_live-freed : (n : ℕ) → any_live (replicate n freed) ≡ false
any_live-freed zero = refl
any_live-freed (suc n) = any_live-freed n

pub any_live-null : (n : ℕ) → any_live (replicate n null) ≡ false
any_live-null zero = refl
any_live-null (suc n) = any_live-null n

pub put_files-live : (n : ℕ) → put_files (replicate n live) ≡ some (replicate n freed)
unfolding put_files
put_files-live zero = refl
put_files-live (suc n) = rw (put_files-live n, put_files) refl

pub free_bitmaps-live : (n : ℕ) → free_bitmaps (replicate n live) ≡ some (replicate n freed)
unfolding free_bitmaps
free_bitmaps-live zero = refl
free_bitmaps-live (suc n) = rw (free_bitmaps-live n, free_bitmaps) refl

free_bitmaps-null : (n : ℕ) → free_bitmaps (replicate n null) ≡ some (replicate n null)
unfolding free_bitmaps
free_bitmaps-null zero = refl
free_bitmaps-null (suc n) = rw (free_bitmaps-null n, free_bitmaps) refl

-- Released: the call gives a list that holds nothing.
abbrev pub Empties : Option (List Ptr) → Type 0
Empties o = (ps : List Ptr) × (o ≡ some ps) × (any_live ps ≡ false)

-- The files after the loop: those of all processors, or those before a refused one, which can be
-- released only if it is the last.
abbrev pub Opened : ℕ → Option ℕ → Status × List Ptr → Type 0
Opened n none r = r ≡ (success, replicate n live)
Opened n (some zero) r = (r.0 ≡ enodev) × Empties (put_files r.1)
Opened n (some (suc j)) r = (r.0 ≡ enodev) × (put_files r.1 ≡ none)

pub open_files-Opened :
    (ok : ℕ → Bool) (cpu n : ℕ)
    → Opened n (after_refusal ok cpu n) (open_files ok cpu (replicate n null))
unfolding open_files after_refusal put_files
open_files-Opened ok cpu zero = refl
open_files-Opened ok cpu (suc n) = elim (Bool-cases (ok cpu)) [
  | inl y ↦
      rw (y, open_files, after_refusal)
        (before n (after_refusal ok (cpu + 1) n) _ (open_files-Opened ok (cpu + 1) n))
  | inr y ↦ rw (y, open_files, after_refusal) (here n)
]
  where
    before :
        (n : ℕ) (o : Option ℕ) (r : Status × List Ptr)
        → Opened n o r
        → Opened (suc n) o (r.0, live ∷ r.1)
    before n none r h = rw h refl
    before n (some zero) r (e, (ps, f, g)) = (e, (freed ∷ ps, rw (f, put_files) refl, g))
    before n (some (suc j)) r (e, f) = (e, rw (f, put_files) refl)

    here : (n : ℕ) → Opened (suc n) (some n) (enodev, err ∷ replicate n null)
    here zero = (refl, (err ∷ [], refl, refl))
    here (suc n) = (refl, refl)

abbrev pub Made : ℕ → Option ℕ → Status × List Ptr × ℕ → Type 0
Made n none r = (r.0 ≡ success) × (r.1 ≡ replicate n live)
Made n (some j) r = (r.0 ≡ enomem) × Empties (free_bitmaps r.1)

pub make_bitmaps-Made :
    (ok : ℕ → Bool) (cpu n used : ℕ)
    → Made n (after_refusal ok cpu n) (make_bitmaps ok cpu (replicate n null) used)
unfolding make_bitmaps after_refusal free_bitmaps
make_bitmaps-Made ok cpu zero used = (refl, refl)
make_bitmaps-Made ok cpu (suc n) used = elim (Bool-cases (ok cpu)) [
  | inl y ↦
      rw (y, make_bitmaps, after_refusal)
        (before n (after_refusal ok (cpu + 1) n) _
          (make_bitmaps-Made ok (cpu + 1) n (add64 used bitmap_bytes)))
  | inr y ↦
      rw (y, make_bitmaps, after_refusal)
        (
          refl,
          (null ∷ replicate n null, rw (free_bitmaps-null n, free_bitmaps) refl, any_live-null n),
        )
]
  where
    before :
        (n : ℕ) (o : Option ℕ) (r : Status × List Ptr × ℕ)
        → Made n o r
        → Made (suc n) o (r.0, live ∷ r.1, r.2)
    before n none r (e, h) = (e, rw h refl)
    before n (some j) r (e, (ps, f, g)) = (e, (freed ∷ ps, rw (f, free_bitmaps) refl, g))

-- All the calls of kmem_cache_create in alloc_slab succeed.
abbrev pub caches_made : Kernel → Bool
caches_made k =
    k.sha_data_made
    && (k.slab_chunk1_made
        && (k.slab_chunk2_made
            && (k.slab_chunk3_made
                && (k.reskb_made && (k.listhead_made && (k.readskb_made && k.tasklet_made))))))

abbrev pub any_slab : Slabs → Bool
any_slab s = any_live (
    s.sha_data ∷ s.slab_chunk1 ∷ s.slab_chunk2 ∷ s.slab_chunk3 ∷ s.reskb_cachep ∷ s.listhead_cachep
    ∷ s.readskb_cachep ∷ s.tasklet_cachep ∷ [])

-- The caches that are the same pointer.
abbrev pub slabs_of : Ptr → Slabs
slabs_of p = record {
  sha_data = p;
  slab_chunk1 = p;
  slab_chunk2 = p;
  slab_chunk3 = p;
  reskb_cachep = p;
  listhead_cachep = p;
  readskb_cachep = p;
  tasklet_cachep = p;
}

abbrev pub Cached : Setup → Bool → Status × Setup → Type 0
Cached m true r = r ≡ (success, record m { slabs = slabs_of live })
Cached m false r =
    (r.0 ≡ enomem)
    × ((s : Slabs) × (free_slab r.1 ≡ some (record m { slabs = s })) × (any_slab s ≡ false))

pub alloc_slab-Cached :
    (k : Kernel) (m : Setup)
    → let m₁ : Setup = record m { slabs = slabs_of null } in
      Cached m₁ (caches_made k) (alloc_slab k m₁)
unfolding alloc_slab free_slab destroy_cache
alloc_slab-Cached k m =
    all k.sha_data_made k.slab_chunk1_made k.slab_chunk2_made k.slab_chunk3_made k.reskb_made
      k.listhead_made k.readskb_made k.tasklet_made
  where
    answers : Bool → Bool → Bool → Bool → Bool → Bool → Bool → Bool → Kernel
    answers a b c d e f g h = record k {
      sha_data_made = a;
      slab_chunk1_made = b;
      slab_chunk2_made = c;
      slab_chunk3_made = d;
      reskb_made = e;
      listhead_made = f;
      readskb_made = g;
      tasklet_made = h;
    }

    m₁ : Setup
    m₁ = record m { slabs = slabs_of null }

    all :
        (a b c d e f g h : Bool)
        → Cached m₁
            (caches_made (answers a b c d e f g h))
            (alloc_slab (answers a b c d e f g h) m₁)
    all false b c d e f g h = (refl, (_, refl, refl))
    all true false c d e f g h = (refl, (_, refl, refl))
    all true true false d e f g h = (refl, (_, refl, refl))
    all true true true false e f g h = (refl, (_, refl, refl))
    all true true true true false f g h = (refl, (_, refl, refl))
    all true true true true true false g h = (refl, (_, refl, refl))
    all true true true true true true false h = (refl, (_, refl, refl))
    all true true true true true true true false = (refl, (_, refl, refl))
    all true true true true true true true true = refl
