-- ===== src/Table.antt =====
-- The hash table: include/table.hpp and src/table.cpp.
-- An array of entries is a list; `m_cap` is its length, a power of two, so that `x & (m_cap - 1)`
-- is `x % m_cap`. A loop over the slots takes fuel, and `none` means that the fuel ran out.
-- How a key is hashed is an argument here, and Table/Hash.antt has the source's function.
pub mod Hash
pub mod Ring
pub mod Placement
pub mod Counts
pub mod Capacity
pub mod Methods
pub mod Insert
pub mod Store
use bad_snap.Common.{
  ℕ, zero, suc, ◌+◌, ◌-◌, ◌*◌, ◌%◌, ◌^◌, Bool, true, false, not, ◌&&◌, ◌||◌, Option, none, some,
  List, [], ◌∷◌, map, ◌==◌, ltb, if◌then◌else◌, length, get_or, set, replicate,
}
use bad_snap.Value.{
  Obj, ObjType, Value, nil, undefined, object, Floats, is_nil, is_undefined, has_tag, value_eq,
}

pub record Entry (N : Type 0) : Type 0 where
  pub key : Value N
  pub value : Value N
  pub hash : ℕ
  pub probe_distance : ℕ

-- `m_proto_table` is the address of a table, `none` for a null pointer.
pub record Table (N : Type 0) : Type 0 where
  pub proto_table : Option ℕ
  pub entries : List (Entry N)
  pub num_entries : ℕ
  pub num_tombstones : ℕ

abbrev pub default_capacity : ℕ
default_capacity = 16

abbrev pub growth_factor : ℕ
growth_factor = 2

-- `LoadFactor` is the float nearest to 0.85, which is this many times 2 ^ -24.
abbrev pub load_factor : ℕ
load_factor = 14260634

module _ {N : Type 0} where
  abbrev pub empty_entry : Entry N
  empty_entry = record { key = nil; value = nil; hash = 0; probe_distance = 0 }

  abbrev pub empty_table : Table N
  empty_table = record {
    proto_table = none;
    entries = replicate default_capacity empty_entry;
    num_entries = 0;
    num_tombstones = 0;
  }

  abbrev pub entry_at : List (Entry N) → ℕ → Entry N
  entry_at es i = get_or es i empty_entry

  unfoldable pub is_entry_free : Entry N → Bool
  unfolding is_nil
  is_entry_free e = is_nil e.key

  unfoldable pub is_entry_dead : Entry N → Bool
  unfolding is_undefined
  is_entry_dead e = is_undefined e.key

  -- `TABLE_PLACE_TOMBSTONE`, less the counter
  unfoldable pub tombstone : Entry N → Entry N
  tombstone e = record e { key = undefined; value = nil }

  unfoldable pub table_length : Table N → ℕ
  table_length t = t.num_entries - t.num_tombstones

  -- `sizeof(Table)` and `sizeof(Value)` are the compiler's.
  unfoldable pub table_size : ℕ → ℕ → Table N → ℕ
  table_size sizeof_table sizeof_value t = sizeof_table + length t.entries * sizeof_value

  -- `delete_white_string_keys`: the flag says whether the string at an address is marked.
  unfoldable pub is_white_key : (ℕ → Bool) → Entry N → Bool
  unfolding has_tag is_undefined is_nil
  is_white_key marked e = elim e.key [
    | object o ↦ has_tag {N = N} ObjType.string (object o) && not (marked o.addr)
    | _ ↦ false
  ]

  unfoldable pub sweep_entries : (ℕ → Bool) → List (Entry N) → List (Entry N) × ℕ
  unfolding is_white_key tombstone
  sweep_entries marked [] = ([], 0)
  sweep_entries marked (e ∷ es) =
      let (rest, n) = sweep_entries marked es in
      if is_white_key marked e then (tombstone e ∷ rest, n + 1) else (e ∷ rest, n)

  unfoldable pub delete_white_string_keys : (ℕ → Bool) → Table N → Table N
  unfolding sweep_entries
  delete_white_string_keys marked t =
      let (es, n) = sweep_entries marked t.entries in
      record t { entries = es; num_tombstones = t.num_tombstones + n }

-- What a placement found: an unused slot, a tombstone, or the key itself.
pub data Outcome : Type 0 where
  free dead same : Outcome

module _ {N : Type 0} (fl : Floats N) where
  abbrev pub matches : Entry N → Value N → ℕ → Bool
  matches e key hash = e.hash == hash && value_eq fl e.key key

  -- The loop of `search_entry`. The reference that it returns is the slot's index.
  unfoldable pub search_entry : ℕ → List (Entry N) → Value N → ℕ → ℕ → Option ℕ → Option ℕ
  unfolding is_undefined is_nil
  search_entry zero es key hash index first = none
  search_entry (suc fuel) es key hash index first =
      let e = entry_at es index in
      let new_tombstone = is_undefined e.key && elim first [ none ↦ true | some _ ↦ false ] in
      let first' = if new_tombstone then some index else first in
      let rest = search_entry fuel es key hash ((index + 1) % length es) first' in
      if new_tombstone
      then rest
      else if matches e key hash
      then some index
      else if is_nil e.key
      then elim first [ none ↦ some index | some i ↦ some i ]
      else rest

  -- The loop of `get` in one table: `some none` is a miss.
  unfoldable pub get_loop : ℕ → List (Entry N) → Value N → ℕ → ℕ → Option (Option (Value N))
  unfolding is_entry_free
  get_loop zero es key hash index = none
  get_loop (suc fuel) es key hash index =
      let e = entry_at es index in
      let rest = get_loop fuel es key hash ((index + 1) % length es) in
      if matches e key hash
      then some (some e.value)
      else if is_entry_free e
      then some none
      else rest

  -- The loop of `set`, with the key, the value and the hash that it carries.
  unfoldable pub set_loop :
      ℕ → List (Entry N) → Value N → Value N → ℕ → ℕ → ℕ → Option (List (Entry N) × Outcome)
  unfolding is_entry_free is_entry_dead
  set_loop zero es key value hash index dist = none
  set_loop (suc fuel) es key value hash index dist =
      let e = entry_at es index in
      let next = (index + 1) % length es in
      let filled : Entry N = record {
        key = key;
        value = value;
        hash = hash;
        probe_distance = dist;
      } in
      let overwritten = record e { value = value; probe_distance = dist } in
      let swapped = record e { key = key; value = value; hash = hash } in
      let go_on = set_loop fuel es key value hash next ((dist + 1) % 2 ^ 32) in
      let carry =
        set_loop fuel (set es index swapped) e.key e.value e.hash next
          ((e.probe_distance % 2 ^ 32 + 1) % 2 ^ 32) in
      if is_entry_free e
      then some (set es index filled, free)
      else if is_entry_dead e
      then some (set es index filled, dead)
      else if value_eq fl e.key key
      then some (set es index overwritten, same)
      else if ltb e.probe_distance dist
      then carry
      else go_on

  -- The loop of `ensure_capacity` over the old entries, into the new array.
  unfoldable pub rehash : List (Entry N) → List (Entry N) → Option (List (Entry N))
  unfolding is_entry_free is_entry_dead search_entry
  rehash [] fresh = some fresh
  rehash (e ∷ old) fresh =
      let skip = rehash old fresh in
      let place = λ (i : ℕ). rehash old (set fresh i e) in
      if is_entry_free e || is_entry_dead e
      then skip
      else elim (search_entry (length fresh) fresh e.key e.hash (e.hash % length fresh) none) [
        | none ↦ none
        | some i ↦ place i
      ]

  unfoldable pub ensure_capacity : Table N → Option (Table N)
  unfolding rehash
  ensure_capacity t =
      if ltb (t.num_entries * 2 ^ 24) (length t.entries * load_factor)
      then some t
      else elim (rehash t.entries (replicate (length t.entries * growth_factor) empty_entry)) [
        | none ↦ none
        | some es ↦ some (record t {
          entries = es;
          num_entries = t.num_entries - t.num_tombstones;
          num_tombstones = 0;
        })
      ]

  module _ (hash_value : Value N → ℕ) where
    unfoldable pub get_here : Table N → Value N → Option (Option (Value N))
    unfolding get_loop
    get_here t key =
        let hash = hash_value key in
        get_loop (length t.entries) t.entries key hash (hash % length t.entries)

    -- `get` follows the prototypes, which another map gives; `depth` bounds how many.
    unfoldable pub get : ℕ → (ℕ → Option (Table N)) → Table N → Value N → Option (Value N)
    unfolding get_here is_nil
    get zero tables t key = none
    get (suc depth) tables t key = if is_nil key then some nil else elim (get_here t key) [
      | none ↦ none
      | some (some v) ↦ some v
      | some none ↦ elim t.proto_table [
        | none ↦ some nil
        | some p ↦ elim (tables p) [ none ↦ none | some q ↦ get depth tables q key ]
      ]
    ]

    unfoldable pub remove : Table N → Value N → Option (Bool × Table N)
    unfolding search_entry is_entry_free is_entry_dead tombstone
    remove t key =
        let es = t.entries in
        let hash = hash_value key in
        if t.num_entries == 0
        then some (false, t)
        else elim (search_entry (length es) es key hash (hash % length es) none) [
          | none ↦ none
          | some i ↦
              if is_entry_free (entry_at es i) || is_entry_dead (entry_at es i)
              then some (false, t)
              else some (
                true,
                record t {
                  entries = set es i (tombstone (entry_at es i));
                  num_tombstones = t.num_tombstones + 1;
                },
              )
        ]

    -- `set` past the test for a nil value and `ensure_capacity`
    unfoldable pub insert : Table N → Value N → Value N → Option (Bool × Table N)
    unfolding set_loop
    insert t key value =
        let hash = hash_value key in
        let es = t.entries in
        elim (set_loop (length es) es key value hash (hash % length es) 0) [
          | none ↦ none
          | some (es', free) ↦
              some (true, record t { entries = es'; num_entries = t.num_entries + 1 })
          | some (es', dead) ↦
              some (true, record t { entries = es'; num_tombstones = t.num_tombstones - 1 })
          | some (es', same) ↦ some (false, record t { entries = es' })
        ]

    unfoldable pub set_entry : Table N → Value N → Value N → Option (Bool × Table N)
    unfolding remove ensure_capacity insert is_nil
    set_entry t key value =
        if is_nil value
        then remove t key
        else elim (ensure_capacity t) [ none ↦ none | some t' ↦ insert t' key value ]
