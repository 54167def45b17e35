-- ===== src/Runtime/Subscript.antt =====
-- Subscripts: `get_field_of_value`, `get_subscript_of_value`, `subscript_set` and what they call, of
-- src/runtime/vm.cpp.
use bad_snap.Common.{ℕ, ◌||◌, none, some, if◌then◌else◌, length, set, ltb}
use bad_snap.Value.{ObjType, Value, num, object, nil, Floats, is_nil}
use bad_snap.Table.{set_entry}
use bad_snap.Runtime.Lists.{ListObj}
use bad_snap.Runtime.Access.{
  UserData, Heap, Prototypes, Access, done, failed, past_end, cut_off, updated, get_proto,
  table_get, list_element, char_element, get_field_of_udata,
}

module _ {N : Type 0} (fl : Floats N) (hash_value : Value N → ℕ) where
  -- The last step of `get_subscript_of_value`, and that of `get_field_of_value`.
  unfoldable pub proto_get : ℕ → Heap N → Prototypes → Value N → Value N → Access (Value N)
  unfolding get_proto table_get
  proto_get depth heap protos value key = elim (get_proto heap protos value) [
    | none ↦ failed
    | some a ↦ table_get fl hash_value depth heap a key
  ]

  unfoldable pub get_field_of_value : ℕ → Heap N → Prototypes → Value N → Value N → Access (Value N)
  unfolding proto_get table_get
  get_field_of_value depth heap protos (object o) key = elim o.tag [
    | ObjType.table ↦ table_get fl hash_value depth heap o.addr key
    | _ ↦ proto_get depth heap protos (object o) key
  ]
  get_field_of_value depth heap protos value key = proto_get depth heap protos value key

  abbrev subscript_of_object : ℕ → Heap N → Prototypes → ObjType → ℕ → Value N → Access (Value N)
  subscript_of_object depth heap protos ObjType.table a index =
      table_get fl hash_value depth heap a index
  subscript_of_object depth heap protos ObjType.list a index =
      list_element fl hash_value (heap.lists a) index
  subscript_of_object depth heap protos ObjType.string a index =
      char_element fl hash_value (heap.strings a) index
  subscript_of_object depth heap protos ObjType.user_data a index =
      get_field_of_udata fl hash_value depth heap (heap.user_data a) index
  subscript_of_object depth heap protos tag a index =
      proto_get depth heap protos (object (record { tag = tag; addr = a })) index

  -- `get_subscript_of_value`
  unfoldable pub get_subscript_of_value :
      ℕ → Heap N → Prototypes → Value N → Value N → Access (Value N)
  unfolding proto_get table_get list_element char_element get_field_of_udata
  get_subscript_of_value depth heap protos nil index = failed
  get_subscript_of_value depth heap protos (object o) index =
      subscript_of_object depth heap protos o.tag o.addr index
  get_subscript_of_value depth heap protos value index = proto_get depth heap protos value index

  unfoldable pub list_index_set : Heap N → ℕ → Value N → Value N → Access (Heap N)
  unfolding updated
  list_index_set heap a (num idx) value =
      let l = heap.lists a in
      let i = fl.to_size idx in
      let changed : ListObj (Value N) = record l { values = set l.values i value } in
      if fl.lt idx (fl.of_nat 0) || fl.le (fl.of_nat (length l.values)) idx
      then failed
      else if ltb i (length l.values)
      then done (record heap { lists = updated heap.lists a changed })
      else past_end
  list_index_set heap a key value = failed

  -- `set` on the table at an address.
  unfoldable pub table_set : Heap N → ℕ → Value N → Value N → Access (Heap N)
  unfolding set_entry updated
  table_set heap a key value = elim (set_entry fl hash_value (heap.tables a) key value) [
    | none ↦ cut_off
    | some (fresh, t) ↦ done (record heap { tables = updated heap.tables a t })
  ]

  unfoldable pub set_field_of_udata : Heap N → UserData → Value N → Value N → Access (Heap N)
  unfolding is_nil table_set
  set_field_of_udata heap u key value = if is_nil key then failed else elim u.indexer [
    | some a ↦ table_set heap a key value
    | none ↦ elim u.proto [ some a ↦ table_set heap a key value | none ↦ done heap ]
  ]

  abbrev set_of_object : Heap N → ObjType → ℕ → Value N → Value N → Access (Heap N)
  set_of_object heap ObjType.list a key value = list_index_set heap a key value
  set_of_object heap ObjType.table a key value =
      if is_nil key then failed else table_set heap a key value
  set_of_object heap ObjType.user_data a key value =
      set_field_of_udata heap (heap.user_data a) key value
  set_of_object heap tag a key value = failed

  -- `subscript_set`
  unfoldable pub subscript_set : Heap N → Value N → Value N → Value N → Access (Heap N)
  unfolding list_index_set table_set set_field_of_udata is_nil
  subscript_set heap (object o) key value = set_of_object heap o.tag o.addr key value
  subscript_set heap lhs key value = failed
