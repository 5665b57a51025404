-- ===== src/Skeleton/DArray.antt =====
-- model/c-skeleton/src/lcthw/darray.c and darray.h: an array of pointers that grows.
pub mod Cells
pub mod Stack
use kernel_test.Base.{
  ℕ, zero, suc, ◌+◌, ◌-◌, ◌%◌, Bool, true, false, ◌&&◌, not, List, [], ◌∷◌, ◌++◌, Option, none,
  some, ◌>>=◌, length, get_elem?, set, take, drop, replicate, leb, ltb, ◌==◌, if◌then◌else◌,
}

-- A `void *` in memory: NULL, a pointer, or what was never written.
pub data Cell {ℓ} (A : Type ℓ) : Type ℓ where
  null : Cell A
  ptr : A → Cell A
  junk : Cell A

-- `struct DArray`. `contents` has the cells that are allocated. The sizes are bounded by the memory
-- of a machine, so their arithmetic does not wrap.
pub record DArray {ℓ} (A : Type ℓ) : Type ℓ where
  pub end : ℕ
  pub max : ℕ
  pub element_size : ℕ
  pub expand_rate : ℕ
  pub contents : List (Cell A)

-- `DEFAULT_EXPAND_RATE`
abbrev pub default_expand_rate : ℕ
default_expand_rate = 300

module _ {ℓ} {A : Type ℓ} where
  -- DArray_create(element_size, initial_max); a NULL result is a `none`.
  unfoldable pub create : Bool → ℕ → ℕ → Option (DArray A)
  create room element_size initial_max =
      if ltb 0 initial_max && room
      then some (record {
        end = 0;
        max = initial_max;
        element_size = element_size;
        expand_rate = default_expand_rate;
        contents = replicate initial_max null;
      })
      else none

  -- realloc to `n` cells: what is new is not written.
  unfoldable pub realloc : ℕ → List (Cell A) → List (Cell A)
  realloc zero cs = []
  realloc (suc n) [] = junk ∷ realloc n []
  realloc (suc n) (c ∷ cs) = c ∷ realloc n cs

  -- DArray_resize(array, newsize): whether it returns 0, and the array.
  unfoldable pub resize : Bool → DArray A → ℕ → Bool × DArray A
  unfolding realloc
  resize room a newsize =
      let a' : DArray A = record a { max = newsize } in
      if ltb 0 newsize && room
      then (true, record a' { contents = realloc newsize a.contents })
      else (false, a')

  -- A cell some bytes of which are set to 0.
  abbrev pub smear : Cell A → Cell A
  smear null = null
  smear _ = junk

  -- memset(cells, 0, n) of `n` bytes; a cell has eight. Past the cells it is a `none`.
  unfoldable pub clear_bytes : ℕ → List (Cell A) → Option (List (Cell A))
  clear_bytes n [] = if n == 0 then some [] else none
  clear_bytes n (c ∷ cs) =
      let rest = clear_bytes (n - 8) cs in
      if n == 0
      then some (c ∷ cs)
      else if leb 8 n
      then (rest >>= λ r. some (null ∷ r))
      else some (smear c ∷ cs)

  -- DArray_expand(array)
  unfoldable pub expand : Bool → DArray A → Option (Bool × DArray A)
  unfolding resize clear_bytes
  expand room a =
      let old_max = a.max in
      let (ok, a') = resize room a (a.max + a.expand_rate) in
      if ok
      then (clear_bytes (a'.expand_rate + 1) (drop old_max a'.contents) >>= λ cleared.
          some (true, record a' { contents = take old_max a'.contents ++ cleared }))
      else some (false, a')

  -- DArray_contract(array)
  unfoldable pub contract : Bool → DArray A → Bool × DArray A
  unfolding resize
  contract room a =
      let new_size = if ltb a.end a.expand_rate then a.expand_rate else a.end in
      resize room a (new_size + 1)

  -- array->contents[i] = el; past the cells it is a `none`.
  unfoldable pub store : List (Cell A) → ℕ → Cell A → Option (List (Cell A))
  store cs i el = if ltb i (length cs) then some (set cs i el) else none

  -- DArray_set(array, i, el)
  unfoldable pub darray_set : DArray A → ℕ → Cell A → Option (DArray A)
  unfolding store
  darray_set a i el =
      if ltb i a.max
      then (store a.contents i el >>= λ cs.
          some (record a { end = if ltb a.end i then i else a.end; contents = cs }))
      else some a

  -- DArray_get(array, i)
  unfoldable pub darray_get : DArray A → ℕ → Option (Cell A)
  darray_get a i = if ltb i a.max then get_elem? a.contents i else some null

  -- DArray_remove(array, i)
  unfoldable pub remove : DArray A → ℕ → Option (Cell A × DArray A)
  unfolding store
  remove a i = get_elem? a.contents i >>= λ el.
      store a.contents i null >>= λ cs. some (el, record a { contents = cs })

  -- DArray_push(array, el): whether it returns 0, and the array
  unfoldable pub push : Bool → DArray A → A → Option (Bool × DArray A)
  unfolding store expand
  push room a el = store a.contents a.end (ptr el) >>= λ cs.
      let a' : DArray A = record a { contents = cs; end = a.end + 1 } in
      if leb a'.max a'.end then expand room a' else some (true, a')

  -- DArray_pop(array)
  unfoldable pub pop : Bool → DArray A → Option (Cell A × DArray A)
  unfolding remove contract
  pop room a =
      if leb 1 a.end
      then (remove a (a.end - 1) >>= λ r.
          let a' : DArray A = record (r.1) { end = a.end - 1 } in
          if ltb a'.expand_rate a'.end && not (a'.end % a'.expand_rate == 0)
          then some (r.0, (contract room a').1)
          else some (r.0, a'))
      else some (null, a)

  -- The loop of DArray_clear over the cells: what is freed. Freeing what was never written is a
  -- `none`.
  unfoldable pub free_cells : List (Cell A) → Option (List A)
  free_cells [] = some []
  free_cells (null ∷ cs) = free_cells cs
  free_cells (junk ∷ cs) = none
  free_cells (ptr x ∷ cs) = free_cells cs >>= λ r. some (x ∷ r)

  -- DArray_clear(array)
  unfoldable pub clear : DArray A → Option (List A)
  unfolding free_cells
  clear a =
      if ltb 0 a.element_size
      then if leb a.max (length a.contents) then free_cells (take a.max a.contents) else none
      else some []
