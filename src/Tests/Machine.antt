-- ===== src/Tests/Machine.antt =====
-- The machine's data structures on small states: src/runtime/vm.cpp and src/list.cpp.
use bad_snap.Common.{ℕ, ◌≡◌, refl, true, false, some, List, [], ◌∷◌, arith, get_or}
use bad_snap.Runtime.OpenUpvalues.{
  at_slot, closed, Upvalues, capture_upvalue, close_upvalues_upto, read_upvalue, find_open,
  ascending, above,
}
use bad_snap.Runtime.Closing.{
  linked, points_to, starts_from, IsValid, close_upvalues_upto_all, close_upvalues_upto_none,
}
use bad_snap.Runtime.Sharing.{Captured, capture_upvalue_lem}
use bad_snap.Runtime.PowTwo.{pow2ceil}
use bad_snap.Runtime.Stack.{Stack, Roomy, ensure_slots, ensure_slots_lem, all_from}
use bad_snap.Runtime.Stack
use bad_snap.Runtime.Lists.{ListObj, list_of, num_entries, append, pop, slice}
use bad_snap.Runtime.Elements.{HasRoom, append-pop, slice_lem, list_of_total}

-- Upvalues open at slots 1 and 3, and one that is closed.
abbrev machine : Upvalues ℕ
machine = record {
  values = 10 ∷ 11 ∷ 12 ∷ 13 ∷ [];
  cells = at_slot 3 ∷ closed 99 ∷ at_slot 1 ∷ [];
  open_upvals = record { slot = 1; cell = 2 } ∷ record { slot = 3; cell = 0 } ∷ [];
}

machine-IsValid : IsValid 0 machine
unfolding ascending above linked points_to
machine-IsValid = record { in_order = refl; all_linked = refl }

capture_upvalue_lem_example :
    Captured 0 2 machine (capture_upvalue 2 machine).0 (capture_upvalue 2 machine).1
capture_upvalue_lem_example = capture_upvalue_lem 0 2 machine machine-IsValid

from_one : starts_from 1 machine.open_upvals ≡ true
unfolding starts_from
from_one = refl

close_upvalues_upto_all_example :
    let s' = close_upvalues_upto 0 1 machine in
    (s'.open_upvals ≡ [])
    × ((slot c : ℕ) (later : List ℕ)
        → find_open slot machine.open_upvals ≡ some c
        → read_upvalue 0 (record s' { values = later }) c ≡ get_or machine.values slot 0)
close_upvalues_upto_all_example = close_upvalues_upto_all 0 1 machine machine-IsValid from_one

found_three : find_open 3 machine.open_upvals ≡ some 0
unfolding find_open
found_three = refl

below_two : starts_from 2 machine.open_upvals ≡ false
unfolding starts_from
below_two = refl

close_upvalues_upto_none_example :
    read_upvalue 0 (record (close_upvalues_upto 0 2 machine) { values = 7 ∷ 7 ∷ 7 ∷ 7 ∷ [] }) 0 ≡ 7
close_upvalues_upto_none_example =
    close_upvalues_upto_none 0 2 3 0 1 machine machine-IsValid found_three (omega arith)
      (omega arith) below_two (7 ∷ 7 ∷ 7 ∷ 7 ∷ [])

abbrev small_stack : Stack
small_stack = record {
  values = 1000;
  top = 1120;
  size = 128;
  bases = 1100 ∷ 1000 ∷ [];
  upvals = 1101 ∷ [];
}

small_stack-IsValid : Stack.IsValid small_stack
unfolding all_from
small_stack-IsValid = record {
  used = omega arith;
  in_size = omega arith;
  bases_inside = refl;
  upvals_inside = refl;
}

ensure_slots_lem_example : Roomy 20 small_stack (ensure_slots 20 5000 small_stack)
ensure_slots_lem_example = ensure_slots_lem 20 5000 small_stack small_stack-IsValid (omega arith)

pow2ceil_test : pow2ceil 137 ≡ 256
unfolding pow2ceil
pow2ceil_test = refl

-- A list of seven entries in a buffer of eight.
abbrev seven : ListObj ℕ
seven = record { capacity = 8; values = 1 ∷ 2 ∷ 3 ∷ 4 ∷ 5 ∷ 6 ∷ 7 ∷ [] }

seven-HasRoom : HasRoom seven
unfolding HasRoom
seven-HasRoom = omega arith

append-pop_example :
    (l' : ListObj ℕ) × (append 8 seven ≡ some l')
    × HasRoom l'
    × ((pop 0 l').0 ≡ 8)
    × ((pop 0 l').1.values ≡ seven.values)
append-pop_example = append-pop 0 8 seven seven-HasRoom

slice_lem_example : (r : ListObj ℕ) × (slice 2 4 seven ≡ some r) × (r.values ≡ 3 ∷ 4 ∷ 5 ∷ [])
slice_lem_example = slice_lem 2 4 seven (omega arith) (omega arith)

list_of_total_example :
    (l : ListObj ℕ) × (list_of 0 100 ≡ some l) × HasRoom l × (num_entries l ≡ 100)
list_of_total_example = list_of_total 0 100 (omega arith)
