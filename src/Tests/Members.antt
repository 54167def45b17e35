-- ===== src/Tests/Members.antt =====
-- Subscripts on a small heap: src/runtime/vm.cpp.
use bad_snap.Common.{ℕ, ◌≡◌, refl, none, [], ◌∷◌}
use bad_snap.Runtime.Access.{Heap, Prototypes, done, updated}
use bad_snap.Runtime.Members.{list_at, table_at, subscript_set-list, subscript_set-table}
use bad_snap.Runtime.Subscript.{subscript_set, get_subscript_of_value}
use bad_snap.Table.Methods.{IsValid}
use bad_snap.Tests.Tables.{
  nat_floats, hash, hash-HashCongr, five_table, five_table-IsValid, five-IsKey, seven,
  seven-not_nil,
}
use bad_snap.Value.{num, nil}

abbrev heap : Heap ℕ
heap = record {
  tables = λ a. five_table;
  lists = λ a. record { capacity = 8; values = num 10 ∷ num 11 ∷ num 12 ∷ [] };
  strings = λ a. [];
  user_data = λ a. record { indexer = none; proto = none };
}

abbrev pub protos : Prototypes
protos = record { string = 1; number = 2; boolean = 3; list = 4 }

abbrev changed_heap : Heap ℕ
changed_heap = record heap {
  lists = updated heap.lists 6 (record { capacity = 8; values = num 10 ∷ nil ∷ num 12 ∷ [] });
}

set_element : subscript_set nat_floats hash heap (list_at 6) (num 1) nil ≡ done changed_heap
unfolding subscript_set
set_element = refl

subscript_set-list_example :
    get_subscript_of_value nat_floats hash 3 changed_heap protos (list_at 6) (num 1) ≡ done nil
subscript_set-list_example =
    subscript_set-list nat_floats hash 3 protos heap changed_heap 6 1 nil set_element

subscript_set-table_example :
    (heap' : Heap ℕ) × (subscript_set nat_floats hash heap (table_at 6) (num 5) seven ≡ done heap')
    × IsValid nat_floats hash (heap'.tables 6)
    × (get_subscript_of_value nat_floats hash 1 heap' protos (table_at 6) (num 5) ≡ done seven)
subscript_set-table_example =
    subscript_set-table nat_floats hash hash-HashCongr 0 protos heap 6 (num 5) seven
      five_table-IsValid five-IsKey seven-not_nil
