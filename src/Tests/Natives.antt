-- ===== src/Tests/Natives.antt =====
-- The list functions of src/stdlib/vy_list.cpp on a small state of the machine.
use bad_snap.Tests.Running.{with_stack, heap, env}
use bad_snap.Runtime.Objects.{object_at}
use bad_snap.Value.{has_tag, ObjType, Value, nil, num}
use bad_snap.Runtime.Filling.{Filled, fill-Filled, reduce-empty}
use bad_snap.Runtime.Run.{after_op_call, call, run}
use bad_snap.Runtime.Machine.{Outcome, Vm, fault, ok}
use bad_snap.Common.{ℕ, List, Option, [], refl, some, ◌∷◌, ◌≡◌}
use bad_snap.Runtime.ListCalls.{
  fill, reduce, list_map, call_on, check, element_at, get_arg, list_length, map_from, new_list_for,
  next_arg, next_list, or_throw, succeeded,
}

-- The list that is the first argument, with its elements; the value of the stack's top is the second.
abbrev called_with : Value ℕ → List (Value ℕ) → Vm ℕ
called_with v xs =
    record (with_stack (v ∷ object_at ObjType.list 3 ∷ object_at ObjType.c_closure 2 ∷ [])) {
      heap = record heap { lists = λ a. record { capacity = 8; values = xs } };
    }

abbrev a_function : Value ℕ
a_function = object_at ObjType.c_closure 6

-- The native function gives nil for each element.
result_of : Outcome ℕ (Option (Value ℕ)) → List (Value ℕ)
result_of (ok r vm) = (vm.heap.lists 20).values
result_of _ = []

map_runs :
    result_of (list_map env 1 3 2 (called_with a_function (num 1 ∷ num 2 ∷ []))) ≡ nil ∷ nil ∷ []
unfolding result_of list_map map_from next_list next_arg check or_throw get_arg element_at
    list_length new_list_for call_on after_op_call succeeded call run has_tag
map_runs = refl

fill-Filled_example :
    (vm' : Vm ℕ) × (fill 2 (called_with (num 9) (num 1 ∷ num 2 ∷ [])) ≡ ok (some nil) vm')
    × Filled (called_with (num 9) (num 1 ∷ num 2 ∷ [])) 3 2 (num 9) vm'
unfolding get_arg run
fill-Filled_example = fill-Filled 3 (num 9) (called_with (num 9) (num 1 ∷ num 2 ∷ [])) refl refl

reduce-empty_example : reduce env 1 3 2 (called_with a_function []) ≡ fault
unfolding get_arg run has_tag
reduce-empty_example =
    reduce-empty env 1 3 3 a_function (called_with a_function []) refl refl refl refl
