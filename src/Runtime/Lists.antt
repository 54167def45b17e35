-- ===== src/Runtime/Lists.antt =====
-- The list object: include/list.hpp, src/list.cpp, and `slice` of
-- src/stdlib/vy_list.cpp. Only the slots up to `m_num_entries` are represented; `none` is an access
-- past the buffer.
use bad_snap.Common.{
  ℕ, zero, suc, ◌+◌, ◌-◌, ◌*◌, ◌%◌, ◌^◌, Option, none, some, List, [], ◌∷◌, ◌++◌, ltb, leb,
  if◌then◌else◌, length, get_elem?, take, replicate,
}
use bad_snap.Runtime.PowTwo.{pow2ceil}

abbrev pub default_capacity : ℕ
default_capacity = 8

abbrev pub growth_factor : ℕ
growth_factor = 2

pub record ListObj (V : Type 0) : Type 0 where
  pub capacity : ℕ
  pub values : List V

module _ {V : Type 0} where
  unfoldable pub new_list : ListObj V
  new_list = record { capacity = default_capacity; values = [] }

  -- `List(mincap)`, which starts with `mincap` nils.
  unfoldable pub list_of : V → ℕ → Option (ListObj V)
  unfolding pow2ceil
  list_of nil mincap =
      let capacity = pow2ceil ((mincap + 1) % 2 ^ 32) in
      if leb mincap capacity
      then some (record { capacity = capacity; values = replicate mincap nil })
      else none

  abbrev pub num_entries : ListObj V → ℕ
  num_entries l = length l.values

  unfoldable pub ensure_capacity : ListObj V → ListObj V
  ensure_capacity l =
      if leb l.capacity (num_entries l + 1)
      then record l { capacity = l.capacity * growth_factor }
      else l

  unfoldable pub append : V → ListObj V → Option (ListObj V)
  unfolding ensure_capacity
  append value l =
      let l' = ensure_capacity l in
      if ltb (num_entries l') l'.capacity
      then some (record l' { values = l'.values ++ value ∷ [] })
      else none

  unfoldable pub pop : V → ListObj V → V × ListObj V
  pop nil l =
      let last = num_entries l - 1 in
      if ltb 0 (num_entries l)
      then (
        elim (get_elem? l.values last) [ none ↦ nil | some v ↦ v ],
        record l { values = take last l.values },
      )
      else (nil, l)

  -- The loop of `slice` from index `i` on, with `n` rounds left.
  unfoldable pub slice_from : ℕ → ℕ → List V → ListObj V → Option (ListObj V)
  unfolding append
  slice_from zero i values slice = some slice
  slice_from (suc n) i values slice = elim (get_elem? values i) [
    | none ↦ none
    | some v ↦ elim (append v slice) [
      | none ↦ none
      | some slice' ↦ slice_from n (i + 1) values slice'
    ]
  ]

  -- `slice` past its checks: `start` and `limit` are in range.
  unfoldable pub slice : ℕ → ℕ → ListObj V → Option (ListObj V)
  unfolding slice_from new_list
  slice start limit l = slice_from (limit + 1 - start) start l.values new_list
