-- ===== src/Skeleton/Winnow.antt =====
-- The points of model/c-skeleton/src/winn_pack.c, which takes one point from each block of 16 windows.
pub mod Blocks
pub mod Choice
pub mod Points
use kernel_test.Base.{
  ℕ, zero, suc, ◌+◌, ◌-◌, ◌^◌, Bool, true, false, ◌&&◌, List, [], ◌∷◌, Option, none, some, ◌>>=◌,
  length, drop, get_elem?, leb, ltb, ◌==◌, if◌then◌else◌,
}
use kernel_test.KernelHash.Rolling.{pack_hash}
use kernel_test.Skeleton.Pack.{pack_base, part_set, pack_power, pack_roll}

-- `WINDOW`, `THRESHOLD` and `chunk_num`
abbrev pub winn_window : ℕ
winn_window = 16

abbrev pub winn_threshold : ℕ
winn_threshold = 16

abbrev pub winn_num : ℕ
winn_num = 16

-- `part->index` up to `part->end`, `window`, `min_index` and `min_hash`.
pub record Winn : Type 0 where
  pub index : List ℕ
  pub window : ℕ
  pub min_index : ℕ
  pub min_hash : ℕ

-- `window--`, and the comparison with `min_hash`, which keeps the greatest hash.
unfoldable pub see_hash : ℕ → ℕ → Winn → Winn
see_hash i txthash s =
    if leb s.min_hash txthash
    then record s { window = s.window - 1; min_index = i; min_hash = txthash }
    else record s { window = s.window - 1 }

-- `window = WINDOW; min_index = 0; min_hash = 0;`
abbrev pub reset : List ℕ → Winn
reset index = record { index = index; window = winn_window; min_index = 0; min_hash = 0 }

-- The code before the loop, on the window that ends at `i`.
unfoldable pub winn_first : ℕ → ℕ → Winn → Option Winn
unfolding see_hash part_set
winn_first i txthash s =
    let s' = see_hash i txthash s in
    if s'.window == 0
    then (part_set s'.index s'.min_index >>= λ index. some (reset index))
    else some s'

-- What the loop does when `window` has come to 0.
unfoldable pub winn_choose : Winn → Option Winn
unfolding part_set
winn_choose s = do
  index ← (if length s.index == 2 then part_set s.index s.min_index else some s.index)
  far ←
      (if ltb 2 (length index)
        then (get_elem? index (length index - 1) >>= λ last.
            some (leb winn_threshold (s.min_index - last)))
        else some false)
  index' ← (if far then part_set index s.min_index else some index)
  some (reset index')

-- A step of the loop.
unfoldable pub winn_here : ℕ → ℕ → Winn → Option Winn
unfolding see_hash winn_choose
winn_here i txthash s =
    let s' = see_hash i txthash s in if s'.window == 0 then winn_choose s' else some s'

-- The loop from `i` on: `old` is the payload from `i - chunk_num`, `new` the payload from `i`.
unfoldable pub winn_loop : ℕ → ℕ → ℕ → List ℕ → List ℕ → Winn → Option Winn
unfolding winn_here pack_roll
winn_loop rm i txthash old [] s = some s
winn_loop rm i txthash [] (c ∷ new) s = some s
winn_loop rm i txthash (o ∷ old) (c ∷ new) s =
    let txthash' = pack_roll pack_base (2 ^ 60) rm txthash o c in
    winn_here i txthash' s >>= winn_loop rm (i + 1) txthash' old new

-- The end: what is left of a block is dropped.
unfoldable pub winn_end : Winn → Winn
winn_end s =
    if s.min_index == 0 && s.min_hash == 0 && s.window == winn_window then s else reset s.index

-- `RM`, as main computes it.
unfoldable pub winn_rm : ℕ
unfolding pack_power
winn_rm = pack_power 15 pack_base (2 ^ 60) 1

-- pack_calculate_part(playload, playload_len, Q, R, RM, zero_value, chunk_num)
unfoldable pub winn_calculate_part : ℕ → List ℕ → Winn → Option Winn
unfolding winn_first winn_loop winn_end winn_rm
winn_calculate_part count_packet playload s =
    let txthash = pack_hash playload winn_num pack_base (2 ^ 60) in
    part_set s.index count_packet >>= λ i₁. part_set i₁ (length playload) >>= λ i₂.
    winn_first (winn_num - 1) txthash (record s { index = i₂ }) >>= λ s₁.
    winn_loop winn_rm winn_num txthash playload (drop winn_num playload) s₁ >>= λ s₂.
    some (winn_end s₂)
