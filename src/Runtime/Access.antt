-- ===== src/Runtime/Access.antt =====
-- Reading and writing members of values: include/vm.hpp and src/runtime/vm.cpp.
-- The heap gives the object at an address, by its kind.
use bad_snap.Common.{
  ℕ, ◌||◌, Option, none, some, List, [], ◌∷◌, ◌==◌, if◌then◌else◌, length, get_elem?, codes,
}
use bad_snap.Value.{ObjType, Value, num, bool, object, nil, undefined, misc_data, Floats, is_nil}
use bad_snap.Table.{Table, get}
use bad_snap.Runtime.Lists.{ListObj}

pub record UserData : Type 0 where
  pub indexer : Option ℕ
  pub proto : Option ℕ

pub record Heap (N : Type 0) : Type 0 where
  pub tables : ℕ → Table N
  pub lists : ℕ → ListObj (Value N)
  pub strings : ℕ → List ℕ
  pub user_data : ℕ → UserData

-- The prototypes of the machine's own types, as the addresses of tables.
pub record Prototypes : Type 0 where
  pub string : ℕ
  pub number : ℕ
  pub boolean : ℕ
  pub list : ℕ

-- The outcome of an access: a result, the text of a string that is still to be interned, a runtime
-- error, a read or write outside a buffer, or a loop that was cut off.
pub data Access (A : Type 0) : Type 0 where
  done : A → Access A
  interned : List ℕ → Access A
  failed : Access A
  past_end : Access A
  cut_off : Access A

abbrev finished : {A : Type 0} → Option A → Access A
finished none = cut_off
finished (some a) = done a

-- A map with another entry at an address.
unfoldable pub updated : {A : Type 0} → (ℕ → A) → ℕ → A → ℕ → A
updated f a v b = if b == a then v else f b

unfoldable pub otype_to_string : ObjType → List ℕ
otype_to_string ObjType.string = codes "string"
otype_to_string ObjType.table = codes "table"
otype_to_string ObjType.closure = codes "function"
otype_to_string ObjType.c_closure = codes "native function"
otype_to_string ObjType.list = codes "list"
otype_to_string ObjType.user_data = codes "userdata"
otype_to_string _ = codes "unknown"

module _ {N : Type 0} where
  unfoldable pub value_type_name : Value N → List ℕ
  unfolding otype_to_string
  value_type_name (num x) = codes "number"
  value_type_name (bool b) = codes "boolean"
  value_type_name (object o) = otype_to_string o.tag
  value_type_name nil = codes "nil"
  value_type_name undefined = codes "undefined"
  value_type_name (misc_data p) = codes "unknown"

  unfoldable proto_of_tag : Heap N → Prototypes → ℕ → ObjType → Option ℕ
  proto_of_tag heap protos addr ObjType.string = some protos.string
  proto_of_tag heap protos addr ObjType.list = some protos.list
  proto_of_tag heap protos addr ObjType.table = (heap.tables addr).proto_table
  proto_of_tag heap protos addr ObjType.user_data = (heap.user_data addr).proto
  proto_of_tag heap protos addr _ = none

  unfoldable pub get_proto : Heap N → Prototypes → Value N → Option ℕ
  unfolding proto_of_tag
  get_proto heap protos (bool b) = some protos.boolean
  get_proto heap protos (num x) = some protos.number
  get_proto heap protos (object o) = proto_of_tag heap protos o.addr o.tag
  get_proto heap protos _ = none

  module _ (fl : Floats N) (hash_value : Value N → ℕ) where
    -- `Table::get` at an address; `depth` bounds how many prototypes are followed.
    unfoldable pub table_get : ℕ → Heap N → ℕ → Value N → Access (Value N)
    unfolding get
    table_get depth heap addr key =
        finished (get fl hash_value depth (λ a. some (heap.tables a)) (heap.tables addr) key)

    -- The element at an index that was checked as the source checks it.
    unfoldable pub element : {A : Type 0} → List A → N → Access A
    element xs idx =
        if fl.lt idx (fl.of_nat 0) || fl.le (fl.of_nat (length xs)) idx
        then failed
        else elim (get_elem? xs (fl.to_size idx)) [ none ↦ past_end | some v ↦ done v ]

    unfoldable pub list_element : ListObj (Value N) → Value N → Access (Value N)
    unfolding element
    list_element l (num idx) = element l.values idx
    list_element l _ = failed

    -- The string of one character, as `char_at` asks for it.
    unfoldable pub char_element : List ℕ → Value N → Access (Value N)
    unfolding element
    char_element text (num idx) = elim (element text idx) [
      | done c ↦ interned (c ∷ [])
      | interned t ↦ interned t
      | failed ↦ failed
      | past_end ↦ past_end
      | cut_off ↦ cut_off
    ]
    char_element text _ = failed

    abbrev table_or_nil : ℕ → Heap N → Option ℕ → Value N → Access (Value N)
    table_or_nil depth heap none key = done nil
    table_or_nil depth heap (some a) key = table_get depth heap a key

    unfoldable pub get_field_of_udata : ℕ → Heap N → UserData → Value N → Access (Value N)
    unfolding is_nil table_get
    get_field_of_udata depth heap u index =
        if is_nil index then failed else elim (table_or_nil depth heap u.indexer index) [
          | done v ↦ if is_nil v then table_or_nil depth heap u.proto index else done v
          | interned t ↦ interned t
          | failed ↦ failed
          | past_end ↦ past_end
          | cut_off ↦ cut_off
        ]
