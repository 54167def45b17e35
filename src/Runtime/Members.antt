-- ===== src/Runtime/Members.antt =====
-- A member that was written is read back: `subscript_set` and `get_subscript_of_value` of
-- src/runtime/vm.cpp.
use bad_snap.Common.{
  ℕ, suc, ◌≡◌, refl, ap, ◌∙◌, false, ◌||◌, some, List, [], ◌∷◌, zero, ==_iff, length, length-set,
  get_elem?, set, ltb, ltb→lt, arith, ◌<◌, inl, inr, Bool-cases,
}
use bad_snap.Value.{ObjType, Value, num, object, Floats, is_nil}
use bad_snap.Table.{Table, get, get_here}
use bad_snap.Table.Insert.{IsKey, HashCongr}
use bad_snap.Table.Methods.{IsValid}
use bad_snap.Table.Store.{set_entry-get_here}
use bad_snap.Runtime.Lists.{ListObj}
use bad_snap.Runtime.Access.{Heap, Prototypes, done, updated, table_get, list_element, element}
use bad_snap.Runtime.Subscript.{get_subscript_of_value, subscript_set, list_index_set, table_set}

get_elem?-set :
    {A : Type 0} (xs : List A) (i : ℕ) (v : A) → i < length xs → get_elem? (set xs i v) i ≡ some v
get_elem?-set [] i v less = ground arith
get_elem?-set (x ∷ xs) zero v less = refl
get_elem?-set (x ∷ xs) (suc i) v less = get_elem?-set xs i v (ground arith)

updated_same : {A : Type 0} (f : ℕ → A) (a : ℕ) (v : A) → updated f a v a ≡ v
unfolding updated
updated_same f a v = ground (arith, ==_iff a a)

abbrev pub list_at : {N : Type 0} → ℕ → Value N
list_at a = object (record { tag = ObjType.list; addr = a })

abbrev pub table_at : {N : Type 0} → ℕ → Value N
table_at a = object (record { tag = ObjType.table; addr = a })

module _ {N : Type 0} (fl : Floats N) (hash_value : Value N → ℕ) where
  list_element-set :
      (l : ListObj (Value N)) (idx : N) (v : Value N)
      → (fl.lt idx (fl.of_nat 0) || fl.le (fl.of_nat (length l.values)) idx) ≡ false
      → fl.to_size idx < length l.values
      → list_element fl hash_value (record l { values = set l.values (fl.to_size idx) v }) (num idx)
        ≡ done v
  unfolding list_element element
  list_element-set l idx v inside less = ground (
    arith,
    inside,
    length-set l.values (fl.to_size idx) v,
    get_elem?-set l.values (fl.to_size idx) v less,
  )

  list_index_set-inv :
      (heap heap' : Heap N) (a : ℕ) (idx : N) (v : Value N)
      → list_index_set fl hash_value heap a (num idx) v ≡ done heap'
      → let l = heap.lists a in
        ((fl.lt idx (fl.of_nat 0) || fl.le (fl.of_nat (length l.values)) idx) ≡ false)
        × (fl.to_size idx < length l.values)
        × (heap'.lists a ≡ record l { values = set l.values (fl.to_size idx) v })
  unfolding list_index_set updated
  list_index_set-inv heap heap' a idx v ran =
      let l = heap.lists a in
      let i = fl.to_size idx in
      elim (Bool-cases (fl.lt idx (fl.of_nat 0) || fl.le (fl.of_nat (length l.values)) idx)) [
        | inl outside ↦ ground arith
        | inr inside ↦ elim (Bool-cases (ltb i (length l.values))) [
          | inl less ↦
              let heaps : heap' ≡ record heap {
                lists = updated heap.lists a (record l { values = set l.values i v });
              } =
                ground arith in
              (
                inside,
                ltb→lt i (length l.values) less,
                ap (λ h. h.lists a) heaps
                    ∙ updated_same heap.lists a (record l { values = set l.values i v }),
              )
          | inr past ↦ ground arith
        ]
      ]

  table_get_found :
      (depth : ℕ) (heap : Heap N) (a : ℕ) (t : Table N) (key value : Value N)
      → heap.tables a ≡ t
      → is_nil key ≡ false
      → get_here fl hash_value t key ≡ some (some value)
      → table_get fl hash_value (suc depth) heap a key ≡ done value
  unfolding table_get get
  table_get_found depth heap a t key value same key_ok found = rw (same, key_ok, found)

  -- After an element of a list is set without an error, a subscript with the same index reads it.
  pub subscript_set-list :
      (depth : ℕ) (protos : Prototypes) (heap heap' : Heap N) (a : ℕ) (idx : N) (v : Value N)
      → subscript_set fl hash_value heap (list_at a) (num idx) v ≡ done heap'
      → get_subscript_of_value fl hash_value depth heap' protos (list_at a) (num idx) ≡ done v
  unfolding subscript_set list_index_set get_subscript_of_value
  subscript_set-list depth protos heap heap' a idx v ran =
      let (inside, less, same) = list_index_set-inv heap heap' a idx v ran in
      rw same (list_element-set (heap.lists a) idx v inside less)

  -- On a well-formed table, setting a member under a key that is not nil, undefined or NaN, to a
  -- value that is not nil, ends without an error and leaves the table well-formed, and a subscript
  -- with the key reads the value.
  pub subscript_set-table :
      HashCongr fl hash_value
      → (depth : ℕ) (protos : Prototypes) (heap : Heap N) (a : ℕ) (key value : Value N)
      → IsValid fl hash_value (heap.tables a)
      → IsKey fl hash_value key
      → is_nil value ≡ false
      → (heap' : Heap N) × (subscript_set fl hash_value heap (table_at a) key value ≡ done heap')
        × IsValid fl hash_value (heap'.tables a)
        × (get_subscript_of_value fl hash_value (suc depth) heap' protos (table_at a) key
            ≡ done value)
  unfolding subscript_set table_set get_subscript_of_value table_get get
  subscript_set-table congr depth protos heap a key value valid is_key not_nil =
      let ((fresh, t), ran, valid', reads) =
        set_entry-get_here fl hash_value congr (heap.tables a) key value valid is_key not_nil in
      let same = updated_same heap.tables a t in
      (
        record heap { tables = updated heap.tables a t },
        rw (is_key.not_nil, table_set, ran),
        rw same valid',
        table_get_found depth (record heap { tables = updated heap.tables a t }) a t key value same
            is_key.not_nil reads,
      )
