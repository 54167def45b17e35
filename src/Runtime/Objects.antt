-- ===== src/Runtime/Objects.antt =====
-- Actions on the objects of the machine: src/runtime/vm.cpp.
use bad_snap.Common.{ℕ, ◌+◌, true, Option, none, some, List, ◌++◌}
use bad_snap.Runtime.Access.{
  Heap, Access, Prototypes, updated, done, interned, failed, past_end, cut_off, get_proto,
  table_get,
}
use bad_snap.Runtime.Subscript.{get_subscript_of_value, get_field_of_value, table_set}
use bad_snap.Runtime.Machine.{Vm, ok, fault, no_fuel, M, ◌>>=◌, pure, gets, runtime_error}
use bad_snap.Runtime.Strings.{hash_cstring, find_string}
use bad_snap.Table.{empty_table, set_entry}
use bad_snap.Table.Hash.{Memory, hash_value}
use bad_snap.Value.{ObjType, Value, bool, nil, object, Floats}

-- What the machine is run with: the numbers, the prototypes, how many prototypes and calls are
-- followed, and what a native function does, given its identity and the number of its arguments
-- (`none` stands for an exception that it throws).
pub record Env (N : Type 0) : Type 0 where
  pub fl : Floats N
  pub protos : Prototypes
  pub depth : ℕ
  pub native : ℕ → ℕ → M N (Option (Value N))

module _ {N : Type 0} where
  abbrev pub object_at : ObjType → ℕ → Value N
  object_at tag a = object (record { tag = tag; addr = a })

  -- `get_global` and `set_global`, by the address of the name's string; `none` is undefined.
  unfoldable pub get_global : ℕ → M N (Option (Value N))
  get_global name = gets (λ vm. vm.global_vars name)

  unfoldable pub set_global : ℕ → Value N → M N (Unit {0})
  set_global name value vm =
      ok tt (record vm { global_vars = updated vm.global_vars name (some value) })

  -- The state with a new string, not interned yet.
  unfoldable pub create_new_string : List ℕ → Vm N → Vm N
  create_new_string text vm = record vm {
    heap = record vm.heap { strings = updated vm.heap.strings vm.next text };
    next = vm.next + 1;
  }

module _ {N : Type 0} (env : Env N) where
  -- An upvalue is never a value of the language, so no key leads to one.
  abbrev pub memory : Vm N → Memory N
  memory vm = record {
    string_hash = λ a. hash_cstring (vm.heap.strings a);
    upvalue_value = λ a. nil;
  }

  -- How keys are hashed in a state of the machine.
  abbrev pub hash_in : Vm N → Value N → ℕ
  hash_in vm key = hash_value env.fl (memory vm) env.depth key

  unfoldable pub make_table : M N (Value N)
  make_table vm =
      let a = vm.next in
      let h = record vm.heap { tables = updated vm.heap.tables a empty_table } in
      ok (object_at ObjType.table a) (record vm { heap = h; next = a + 1 })

  unfoldable pub intern_new : List ℕ → M N (Value N)
  intern_new text vm =
      let s = object_at ObjType.string vm.next in
      let vm' = create_new_string text vm in
      elim (set_entry env.fl (hash_in vm') vm'.interned_strings s (bool true)) [
        | none ↦ no_fuel
        | some (fresh, t) ↦ ok s (record vm' { interned_strings = t })
      ]

  -- `make_string` and `take_string`
  unfoldable pub make_string : List ℕ → M N (Value N)
  make_string text vm =
      elim (find_string vm.heap.strings vm.interned_strings text (hash_cstring text)) [
        | none ↦ no_fuel
        | some (some a) ↦ ok (object_at ObjType.string a) vm
        | some none ↦ intern_new text vm
      ]

  -- `concatenate`
  unfoldable pub concatenate : ℕ → ℕ → M N (Value N)
  concatenate l r vm = make_string (vm.heap.strings l ++ vm.heap.strings r) vm

  -- The outcome of an access as one of an action.
  unfoldable pub of_access : Access (Value N) → M N (Value N)
  of_access (done v) vm = ok v vm
  of_access (interned text) vm = make_string text vm
  of_access failed vm = runtime_error vm
  of_access past_end vm = fault
  of_access cut_off vm = no_fuel

  unfoldable pub of_heap_access : Access (Heap N) → M N (Unit {0})
  of_heap_access (done h) vm = ok tt (record vm { heap = h })
  of_heap_access (interned text) vm = fault
  of_heap_access failed vm = runtime_error vm
  of_heap_access past_end vm = fault
  of_heap_access cut_off vm = no_fuel

  unfoldable pub get_subscript : Value N → Value N → M N (Value N)
  get_subscript value index vm =
      of_access
        (get_subscript_of_value env.fl (hash_in vm) env.depth vm.heap env.protos value index) vm

  unfoldable pub get_field : Value N → Value N → M N (Value N)
  get_field value key vm =
      of_access (get_field_of_value env.fl (hash_in vm) env.depth vm.heap env.protos value key) vm

  -- `Table::get`
  unfoldable pub get_member : ℕ → Value N → M N (Value N)
  get_member a key vm = of_access (table_get env.fl (hash_in vm) env.depth vm.heap a key) vm

  unfoldable pub set_member : ℕ → Value N → Value N → M N (Unit {0})
  set_member a key value vm = of_heap_access (table_set env.fl (hash_in vm) vm.heap a key value) vm

  -- `index_proto`
  unfoldable pub index_proto : Value N → Value N → M N (Value N)
  index_proto value key = do
    proto ← gets (λ vm. get_proto vm.heap env.protos value)
    elim proto [ none ↦ pure nil | some a ↦ get_member a key ]
