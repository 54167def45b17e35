-- ===== src/Runtime/Collector.antt =====
-- The garbage collector: src/runtime/gc.cpp and include/gc.hpp, with the `trace` functions of
-- src/table.cpp, src/list.cpp, src/upvalue.cpp, src/function.cpp and src/string.cpp.
-- A pointer that may be null is an option of an address.
use bad_snap.Common.{
  ℕ, zero, suc, Bool, false, ◌||◌, Option, none, some, List, [], ◌∷◌, ◌++◌, ◌==◌, if◌then◌else◌,
}
use bad_snap.Table.{Entry, is_entry_free, is_entry_dead}
use bad_snap.Value.{Value, object}

-- The pointers and values that an object holds.
pub data Body (N : Type 0) : Type 0 where
  string_body : Body N
  codeblock_body : Option ℕ → List (Value N) → Body N
  closure_body : List (Option ℕ) → ℕ → Body N
  c_closure_body : Option ℕ → Body N
  upvalue_body : Value N → Body N
  -- `m_proto_table`, and the slots.
  table_body : Option ℕ → List (Entry N) → Body N
  list_body : List (Value N) → Body N
  -- The indexer, the prototype, and what the tracer of the host's data marks.
  user_data_body : Option ℕ → Option ℕ → List (Option ℕ) → Body N

module _ {N : Type 0} where
  -- `mark_value`: the object that it marks.
  unfoldable pub marked_by : Value N → Option ℕ
  marked_by (object o) = some o.addr
  marked_by _ = none

  unfoldable pub marked_by_all : List (Value N) → List (Option ℕ)
  unfolding marked_by
  marked_by_all [] = []
  marked_by_all (v ∷ vs) = marked_by v ∷ marked_by_all vs

  unfoldable pub trace_entries : List (Entry N) → List (Option ℕ)
  unfolding marked_by is_entry_free is_entry_dead
  trace_entries [] = []
  trace_entries (e ∷ es) =
      if is_entry_free e || is_entry_dead e
      then trace_entries es
      else marked_by e.key ∷ marked_by e.value ∷ trace_entries es

  -- What `trace` hands to `mark_object`, in order.
  unfoldable pub trace_object : Body N → List (Option ℕ)
  unfolding marked_by marked_by_all trace_entries
  trace_object string_body = []
  trace_object (codeblock_body name constants) = name ∷ marked_by_all constants
  trace_object (closure_body upvals codeblock) = upvals ++ some codeblock ∷ []
  trace_object (c_closure_body values) = values ∷ []
  trace_object (upvalue_body v) = marked_by v ∷ []
  trace_object (table_body proto_table es) = trace_entries es
  trace_object (list_body vs) = marked_by_all vs
  trace_object (user_data_body indexer proto custom) = proto ∷ custom

-- The mark bits, and the stack of gray objects.
pub record Marking : Type 0 where
  pub marked : ℕ → Bool
  pub gray : List ℕ

-- A set of addresses with one more.
unfoldable pub with_mark : (ℕ → Bool) → ℕ → ℕ → Bool
with_mark marked a b = (b == a) || marked b

unfoldable pub mark_object : Option ℕ → Marking → Marking
unfolding with_mark
mark_object none s = s
mark_object (some a) s =
    if s.marked a then s else record { marked = with_mark s.marked a; gray = a ∷ s.gray }

unfoldable pub mark_objects : List (Option ℕ) → Marking → Marking
unfolding mark_object
mark_objects [] s = s
mark_objects (r ∷ rs) s = mark_objects rs (mark_object r s)

-- An address stands in a list of pointers.
unfoldable pub listed : ℕ → List (Option ℕ) → Bool
listed a [] = false
listed a (none ∷ rs) = listed a rs
listed a (some b ∷ rs) = (a == b) || listed a rs

module _ {N : Type 0} (heap : ℕ → Body N) where
  -- The loop of `GC::trace`.
  unfoldable pub trace_gray : ℕ → Marking → Option Marking
  unfolding mark_objects trace_object
  trace_gray zero s = none
  trace_gray (suc fuel) s = elim s.gray [
    | [] ↦ some s
    | a ∷ rest ↦ trace_gray fuel (mark_objects (trace_object (heap a)) (record s { gray = rest }))
  ]
