-- ===== src/Tests/Box.antt =====
-- A kernel queue of model/kernel_hash (chunk.c) that holds a list, with its capacity in bytes.
use kernel_test.KernelHash.Partition.{kfifolen}
use kernel_test.KernelHash.Kfifo.{Kfifo}
use kernel_test.Base.{
  ◌^◌, ◌++◌, ◌+◌, some_eq, length, sym, refl, ap, leb, replicate, ◌∷◌, none, arith, ◌*◌, some,
  Option, List, [], ◌≡◌, if◌then◌else◌, ℕ,
}

pub record Box : Type 0 where
  pub items : List ℕ
  pub room : ℕ

unfoldable pub box_put : Box → ℕ → Box
box_put f x =
    if leb (4 * length f.items + 4) f.room then record f { items = f.items ++ x ∷ [] } else f

unfoldable pub box_get : Box → Option (ℕ × Box)
box_get f = elim f.items [ [] ↦ none | x ∷ xs ↦ some (x, record f { items = xs }) ]

pub room-box_put : (f : Box) (x : ℕ) → (box_put f x).room ≡ f.room
unfolding box_put
room-box_put f x = ground arith

pub items-box_put :
    (f : Box) (x : ℕ)
    → (box_put f x).items
      ≡ (if leb (4 * length f.items + 4) f.room then f.items ++ x ∷ [] else f.items)
unfolding box_put
items-box_put f x = ground arith

pub get-box :
    (f : Box) (x : ℕ) (xs : List ℕ)
    → f.items ≡ x ∷ xs
    → (g : Box) × (box_get f ≡ some (x, g)) × (g.items ≡ xs)
unfolding box_get
get-box f x xs e = (record f { items = xs }, rw (e, box_get), refl)

pub items-alloc : (n : ℕ) (f : Box) → some (record { items = []; room = n }) ≡ some f → f.items ≡ []
items-alloc n f e = ap (λ (b : Box). b.items) (sym (some_eq e))

pub room-alloc : (n : ℕ) (f : Box) → some (record { items = []; room = n }) ≡ some f → f.room ≡ n
room-alloc n f e = ap (λ (b : Box). b.room) (sym (some_eq e))

abbrev pub boxes : Kfifo
boxes = record {
  Fifo = Box;
  alloc = λ n. some (record { items = []; room = n });
  put = box_put;
  get = box_get;
  len = λ f. 4 * length f.items;
  queued = λ f. f.items;
  size = λ f. f.room;
  queued-alloc = items-alloc;
  size-alloc = λ j f e. room-alloc (2 ^ j) f e;
  size-put = room-box_put;
  queued-put = items-box_put;
  len-queued = λ f. refl;
  get-queued = get-box;
}

abbrev pub empty_box : Box
empty_box = record { items = []; room = kfifolen }

-- A payload.
abbrev pub zeros : List ℕ
zeros = replicate 70 0
