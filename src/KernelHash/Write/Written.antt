-- ===== src/KernelHash/Write/Written.antt =====
-- What a run of `wr_file` (model/kernel_hash/hash_table.c) does to each item.
use kernel_test.Base.{
  Bool-cases, ◌+◌, ◌-◌, ℕ, ◌*◌, ◌≡◌, ◌⊎◌, refl, ap, ◌∙◌, true, false, List, [], ◌∷◌, some, map,
  take, drop, arith, inl, inr,
}
use kernel_test.KernelHash.Item.{units, Item, is_released, stored, on_disk, released}
use kernel_test.KernelHash.Vfs.{Vfs}
use kernel_test.KernelHash.Sweep.{is_to_write}
use kernel_test.KernelHash.Sweep.Safety.{Sound, AllSound}
use kernel_test.KernelHash.Write.{to_mark, mark, to_free}
use kernel_test.KernelHash.Write.Mark.{units_bound, mark1, marked_units, freed, AllFreeable}
use kernel_test.KernelHash.Write.Store.{AllStored}

module _ (v : Vfs) (cpu : ℕ) (file' : v.File) where
  -- What a run does to an item: one that is to be written is only on disk, where its bytes can be
  -- read; another one is as it was, or its data, which was written before, is freed.
  abbrev pub Written : Item → Item → Type 0
  Written cp cp' =
      ((to_mark cp ≡ true)
        × (cp'.flag_cache ≡ on_disk)
        × (cp'.cpuid ≡ stored cpu)
        × (cp'.mem_style ≡ released)
        × (cp'.sha1 ≡ cp.sha1)
        × (v.kernel_read file' (32 * cp'.start) cp.len ≡ some (take cp.len cp.contents)))
      ⊎ ((to_mark cp ≡ false) × ((cp' ≡ cp) ⊎ (cp' ≡ freed cp)))

  abbrev pub AllWritten : List Item → List Item → Type 0
  AllWritten [] [] = Unit
  AllWritten (cp ∷ cps) (cp' ∷ cps') = Written cp cp' × AllWritten cps cps'
  AllWritten _ _ = ⊥

to_mark-to_free :
    (cp : Item) (s cpu : ℕ)
    → to_mark cp ≡ true
    → to_free (record (mark cp) { start = s; cpuid = stored cpu }) ≡ true
unfolding to_mark to_free mark
to_mark-to_free cp s cpu h = ground arith

Sound-held :
    (cp : Item) → Sound cp → is_to_write cp.flag_cache ≡ true → is_released cp.mem_style ≡ false
Sound-held cp s h = ground arith

to_free-to_write : (cp : Item) → to_free cp ≡ true → is_to_write cp.flag_cache ≡ true
unfolding to_free
to_free-to_write cp h = ground arith

marked-held :
    (cp : Item) (s cpu : ℕ)
    → Sound cp
    → to_mark cp ≡ true
    → is_released (record (mark cp) { start = s; cpuid = stored cpu }).mem_style ≡ false
unfolding to_mark mark
marked-held cp s cpu t h = ground arith

freed_marked :
    (cp : Item) (s cpu : ℕ)
    → to_mark cp ≡ true
    → ((freed (record (mark cp) { start = s; cpuid = stored cpu })).flag_cache ≡ on_disk)
      × ((freed (record (mark cp) { start = s; cpuid = stored cpu })).cpuid ≡ stored cpu)
      × ((freed (record (mark cp) { start = s; cpuid = stored cpu })).mem_style ≡ released)
      × ((freed (record (mark cp) { start = s; cpuid = stored cpu })).sha1 ≡ cp.sha1)
      × ((freed (record (mark cp) { start = s; cpuid = stored cpu })).start ≡ s)
unfolding freed mark
freed_marked cp s cpu h = rw (to_mark-to_free cp s cpu h) (refl, refl, refl, refl, refl)

pub stored-AllFreeable :
    (cpu first : ℕ) (mem : List ℕ) (cps cps' : List Item)
    → AllSound cps
    → AllStored cpu first mem cps cps'
    → AllFreeable cps'
stored-AllFreeable cpu first mem [] [] s t = tt
stored-AllFreeable cpu first mem [] (cp' ∷ cps') s t = absurd t
stored-AllFreeable cpu first mem (cp ∷ cps) [] s t = absurd t
stored-AllFreeable cpu first mem (cp ∷ cps) (cp' ∷ cps') s (inl (x, (u, e, w)), t) =
    (λ y. rw e (marked-held cp u cpu s.0 x), stored-AllFreeable cpu first mem cps cps' s.1 t)
stored-AllFreeable cpu first mem (cp ∷ cps) (cp' ∷ cps') s (inr (x, e), t) = (
  rw e (λ y. Sound-held cp s.0 (to_free-to_write cp y)),
  stored-AllFreeable cpu first mem cps cps' s.1 t,
)

module _ (v : Vfs) (cpu : ℕ) where
  -- Writing the copy at the end of the file.
  pub stored-AllWritten :
      (first loff : ℕ) (mem : List ℕ) (file file' : v.File) (cps cps' : List Item)
      → loff ≡ 32 * first
      → v.vfs_write file mem loff ≡ some file'
      → AllStored cpu first mem cps cps'
      → AllWritten v cpu file' cps (map freed cps')
  stored-AllWritten first loff mem file file' [] [] h w t = tt
  stored-AllWritten first loff mem file file' [] (cp' ∷ cps') h w t = absurd t
  stored-AllWritten first loff mem file file' (cp ∷ cps) [] h w t = absurd t
  stored-AllWritten first loff mem file file' (cp ∷ cps) (cp' ∷ cps') h w
        (inl (x, (s, e, (o, p, f, r))), t) =
      let k = freed_marked cp s cpu x in
      let at : 32 * s - loff ≡ o = omega (arith, p, h) in
      let read =
        v.read-write file mem loff (32 * s) cp.len file' w (omega (arith, p, h))
          (omega (arith, p, h, f)) in
      (
        rw e (
            inl (
              x,
              k.0,
              k.1,
              k.2,
              k.3,
              rw k.4 (read ∙ ap some (ap (λ (j : ℕ). take cp.len (drop j mem)) at ∙ r)),
            )),
        stored-AllWritten first loff mem file file' cps cps' h w t,
      )
  stored-AllWritten first loff mem file file' (cp ∷ cps) (cp' ∷ cps') h w (inr (x, e), t) =
      (inr (x, inr (ap freed e)), stored-AllWritten first loff mem file file' cps cps' h w t)

-- Nothing is to be written.
pub none-AllWritten :
    (v : Vfs) (cpu : ℕ) (file' : v.File) (cps : List Item)
    → marked_units cps ≡ 0
    → AllWritten v cpu file' cps (map mark1 cps)
unfolding marked_units mark1
none-AllWritten v cpu file' [] h = tt
none-AllWritten v cpu file' (cp ∷ cps) h = elim (Bool-cases (to_mark cp)) [
  | inl x ↦
      let h' : units cp.len + marked_units cps ≡ 0 = rw x at h in
      absurd (omega (arith, h', (units_bound cp.len).1))
  | inr x ↦
      let h' : 0 + marked_units cps ≡ 0 = rw x at h in
      (inr (x, inl (rw x)), none-AllWritten v cpu file' cps (omega arith))
]
