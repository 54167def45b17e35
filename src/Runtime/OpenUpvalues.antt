-- ===== src/Runtime/OpenUpvalues.antt =====
-- Open upvalues: include/upvalue.hpp, and `capture_upvalue` and `close_upvalues_upto` of
-- src/runtime/vm.cpp. An upvalue's identity is its index in `cells`; the chain `m_open_upvals` is a
-- list in the order of the `next_upval` pointers.
use bad_snap.Common.{
  ℕ, ◌≤◌, ◌<◌, ◌≡◌, refl, Bool, true, ◌&&◌, Option, none, some, List, [], ◌∷◌, ◌++◌, ◌==◌, ltb, leb,
  ==_iff, ltb→lt, lt→ltb, if◌then◌else◌, length, get_or, set, arith,
}

-- Where `m_value` points: to a slot of the stack, or to the upvalue's own `closed`.
pub data Cell (V : Type 0) : Type 0 where
  at_slot : ℕ → Cell V
  closed : V → Cell V

-- A member of the chain: the slot that it captures, and its cell.
pub record OpenUpvalue : Type 0 where
  pub slot : ℕ
  pub cell : ℕ

unfoldable pub capture : ℕ → ℕ → List OpenUpvalue → ℕ × List OpenUpvalue
capture slot fresh [] = (fresh, record { slot = slot; cell = fresh } ∷ [])
capture slot fresh (current ∷ next) =
    let (found, rest) = capture slot fresh next in
    if ltb current.slot slot
    then (found, current ∷ rest)
    else if current.slot == slot
    then (current.cell, current ∷ next)
    else (fresh, record { slot = slot; cell = fresh } ∷ current ∷ next)

pub record Upvalues (V : Type 0) : Type 0 where
  pub values : List V
  pub cells : List (Cell V)
  pub open_upvals : List OpenUpvalue

module _ {V : Type 0} where
  -- `capture_upvalue`, with the upvalue that it returns.
  unfoldable pub capture_upvalue : ℕ → Upvalues V → ℕ × Upvalues V
  unfolding capture
  capture_upvalue slot s =
      let (found, chain) = capture slot (length s.cells) s.open_upvals in
      let made = record s { open_upvals = chain; cells = s.cells ++ at_slot slot ∷ [] } in
      (found, if found == length s.cells then made else record s { open_upvals = chain })

  -- `*m_value`.
  unfoldable pub read_cell : V → List V → Cell V → V
  read_cell nil values (at_slot slot) = get_or values slot nil
  read_cell nil values (closed v) = v

  unfoldable pub read_upvalue : V → Upvalues V → ℕ → V
  unfolding read_cell
  read_upvalue nil s cell = read_cell nil s.values (get_or s.cells cell (closed nil))

  -- The rounds of `close_upvalues_upto`.
  unfoldable pub close_from :
      V → ℕ → List V → List OpenUpvalue → List (Cell V) → List OpenUpvalue × List (Cell V)
  unfolding read_cell
  close_from nil last values [] cells = ([], cells)
  close_from nil last values (current ∷ next) cells =
      let value = read_cell nil values (get_or cells current.cell (closed nil)) in
      let rest = close_from nil last values next (set cells current.cell (closed value)) in
      if leb last current.slot then rest else (current ∷ next, cells)

  unfoldable pub close_upvalues_upto : V → ℕ → Upvalues V → Upvalues V
  unfolding close_from
  close_upvalues_upto nil last s =
      let (chain, cells) = close_from nil last s.values s.open_upvals s.cells in
      record s { open_upvals = chain; cells = cells }

-- The upvalue that a chain has for a slot.
unfoldable pub find_open : ℕ → List OpenUpvalue → Option ℕ
find_open slot [] = none
find_open slot (u ∷ us) = if u.slot == slot then some u.cell else find_open slot us

unfoldable pub above : ℕ → List OpenUpvalue → Bool
above low [] = true
above low (u ∷ us) = ltb low u.slot && above low us

-- Chains in the order of their slots, the lowest first, each slot once.
unfoldable pub ascending : List OpenUpvalue → Bool
unfolding above
ascending [] = true
ascending (u ∷ us) = above u.slot us && ascending us

-- A slot that is new to a chain above it has no upvalue there.
pub above-find_open :
    (slot low : ℕ) (us : List OpenUpvalue)
    → above low us ≡ true
    → slot ≤ low
    → find_open slot us ≡ none
unfolding above find_open
above-find_open slot low [] high le = refl
above-find_open slot low (u ∷ us) high le =
    ground (arith, above-find_open slot low us, ltb→lt low u.slot, ==_iff u.slot slot)

above_lower :
    (low high : ℕ) (us : List OpenUpvalue) → low ≤ high → above high us ≡ true → above low us ≡ true
unfolding above
above_lower low high [] le high_us = refl
above_lower low high (u ∷ us) le high_us =
    ground (arith, above_lower low high us le, ltb→lt high u.slot, lt→ltb low u.slot)

above-capture :
    (slot fresh low : ℕ) (us : List OpenUpvalue)
    → low < slot
    → above low us ≡ true
    → above low (capture slot fresh us).1 ≡ true
unfolding above capture
above-capture slot fresh low [] less above_us = ground (arith, lt→ltb low slot)
above-capture slot fresh low (u ∷ us) less above_us =
    ground (arith, lt→ltb low slot, above-capture slot fresh low us less)

pub ascending-capture :
    (slot fresh : ℕ) (us : List OpenUpvalue)
    → ascending us ≡ true
    → ascending (capture slot fresh us).1 ≡ true
unfolding ascending capture above
ascending-capture slot fresh [] up = refl
ascending-capture slot fresh (u ∷ us) up = ground (
  arith,
  ascending-capture slot fresh us,
  above-capture slot fresh u.slot us,
  ltb→lt u.slot slot,
  ==_iff u.slot slot,
  above_lower slot u.slot us,
  lt→ltb slot u.slot,
)

pub find_open-capture :
    (slot fresh other : ℕ) (us : List OpenUpvalue)
    → ascending us ≡ true
    → find_open other (capture slot fresh us).1
      ≡ (if other == slot then some (capture slot fresh us).0 else find_open other us)
unfolding ascending capture above find_open
find_open-capture slot fresh other [] up = ground (arith, ==_iff slot other, ==_iff other slot)
find_open-capture slot fresh other (u ∷ us) up = ground (
  arith,
  find_open-capture slot fresh other us,
  ltb→lt u.slot slot,
  ==_iff u.slot slot,
  ==_iff other slot,
  ==_iff slot other,
  ==_iff u.slot other,
)

pub find_open_missing-capture :
    (slot fresh : ℕ) (us : List OpenUpvalue)
    → find_open slot us ≡ none
    → (capture slot fresh us).0 ≡ fresh
unfolding capture find_open
find_open_missing-capture slot fresh [] missing = refl
find_open_missing-capture slot fresh (u ∷ us) missing =
    ground (arith, find_open_missing-capture slot fresh us)

-- A slot that the chain has is found again, and the chain stays as it is.
pub capture_again :
    (slot fresh c : ℕ) (us : List OpenUpvalue)
    → ascending us ≡ true
    → find_open slot us ≡ some c
    → capture slot fresh us ≡ (c, us)
unfolding capture find_open ascending
capture_again slot fresh c [] up found = ground arith
capture_again slot fresh c (u ∷ us) up found = ground (
  arith,
  capture_again slot fresh c us,
  above-find_open slot u.slot us,
  ltb→lt u.slot slot,
  ==_iff u.slot slot,
)
