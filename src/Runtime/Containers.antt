-- ===== src/Runtime/Containers.antt =====
-- The instructions on strings, lists, tables and user data in `run` of src/runtime/vm.cpp.
use bad_snap.Common.{true, none, some, [], ◌∷◌, if◌then◌else◌}
use bad_snap.Runtime.Access.{
  Heap, Access, done, interned, failed, past_end, cut_off, get_field_of_udata,
}
use bad_snap.Runtime.Calls.{fill_list}
use bad_snap.Runtime.Machine.{
  ok, fault, no_fuel, M, ◌>>=◌, ◌>>◌, gets, or_fault, runtime_error, push, pop, peek, poke,
  read_value, make_list,
}
use bad_snap.Runtime.Objects.{
  Env, hash_in, concatenate, make_table, get_subscript, get_member, set_member, index_proto,
  of_access, of_heap_access,
}
use bad_snap.Runtime.Subscript.{subscript_set, set_field_of_udata}
use bad_snap.Runtime.Variables.{addr_of}
use bad_snap.Value.{ObjType, Value, object, nil, is_nil}

module _ {N : Type 0} (env : Env N) where
  unfoldable pub concat_op : M N (Unit {0})
  concat_op = do
    a ← peek 2
    b ← pop
    elim (addr_of ObjType.string a) [
      | none ↦ runtime_error
      | some l ↦ elim (addr_of ObjType.string b) [
        | none ↦ runtime_error
        | some r ↦ do s ← concatenate env l r; poke 1 s
      ]
    ]

  unfoldable pub new_list_op : M N (Unit {0})
  new_list_op = do l ← make_list; push l

  unfoldable pub list_append_op : M N (Unit {0})
  list_append_op = do
    vlist ← peek 2
    elim (addr_of ObjType.list vlist) [
      | none ↦ runtime_error
      | some a ↦ do v ← pop; fill_list a (v ∷ [])
    ]

  unfoldable pub new_table_op : M N (Unit {0})
  new_table_op = do t ← make_table env; push t

  unfoldable pub table_add_field_op : M N (Unit {0})
  table_add_field_op = do
    value ← pop
    key ← pop
    vtable ← peek 1
    a ← or_fault (addr_of ObjType.table vtable)
    set_member env a key value

  -- What is left of an assignment: its right side, or nil after an error, which only sets the flag.
  unfoldable pub assigned : Value N → Access (Heap N) → M N (Value N)
  assigned rhs (done h) vm = ok rhs (record vm { heap = h })
  assigned rhs failed vm = ok nil (record vm { has_error = true })
  assigned rhs (interned text) vm = fault
  assigned rhs past_end vm = fault
  assigned rhs cut_off vm = no_fuel

  unfoldable pub subscript_set_op : M N (Unit {0})
  subscript_set_op = do
    rhs ← pop
    key ← pop
    lhs ← peek 1
    result ← gets (λ vm. subscript_set env.fl (hash_in env vm) vm.heap lhs key rhs)
    v ← assigned rhs result
    poke 1 v

  -- `table.key = value` on a table or on user data.
  unfoldable pub set_field : Value N → Value N → Value N → M N (Unit {0})
  set_field (object o) key value vm = elim o.tag [
    | ObjType.table ↦ set_member env o.addr key value vm
    | ObjType.user_data ↦
        of_heap_access env
          (set_field_of_udata env.fl (hash_in env vm) vm.heap (vm.heap.user_data o.addr) key value)
          vm
    | _ ↦ runtime_error vm
  ]
  set_field v key value vm = runtime_error vm

  unfoldable pub table_set_op : M N (Unit {0})
  table_set_op = do
    key ← read_value
    if is_nil key
        then runtime_error
        else (do value ← pop; lhs ← peek 1; set_field lhs key value; poke 1 value)

  -- `table.key` of a table or of user data.
  unfoldable pub get_member_of : Value N → Value N → M N (Value N)
  get_member_of (object o) key vm = elim o.tag [
    | ObjType.table ↦ get_member env o.addr key vm
    | ObjType.user_data ↦
        of_access env
          (get_field_of_udata env.fl (hash_in env vm) env.depth vm.heap (vm.heap.user_data o.addr)
            key)
          vm
    | _ ↦ runtime_error vm
  ]
  get_member_of v key vm = runtime_error vm

  unfoldable pub table_get_op : M N (Unit {0})
  table_get_op = do lhs ← peek 1; rhs ← read_value; v ← get_member_of lhs rhs; poke 1 v

  unfoldable pub table_get_no_pop_op : M N (Unit {0})
  table_get_no_pop_op = do lhs ← peek 1; rhs ← read_value; v ← get_member_of lhs rhs; push v

  unfoldable pub subscript_get_op : M N (Unit {0})
  subscript_get_op = do key ← pop; tvalue ← peek 1; v ← get_subscript env tvalue key; poke 1 v

  unfoldable pub index_no_pop_op : M N (Unit {0})
  index_no_pop_op = do value ← peek 2; key ← peek 1; v ← get_subscript env value key; push v

  -- The method of a value, by its name.
  unfoldable pub method_of : Value N → Value N → M N (Value N)
  method_of vtable vkey = elim (addr_of ObjType.table vtable) [
    | some a ↦ get_member env a vkey
    | none ↦ index_proto env vtable vkey
  ]

  unfoldable pub prep_method_call_op : M N (Unit {0})
  prep_method_call_op = do
    vtable ← peek 1
    vkey ← read_value
    _ ← or_fault (addr_of ObjType.string vkey)
    if is_nil vtable
        then runtime_error
        else (do method ← method_of vtable vkey; poke 1 method; push vtable)
