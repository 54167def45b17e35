-- ===== src/Runtime/Held.antt =====
-- Which objects hold which, read off the objects and the roots themselves and not off what the
-- collector of src/runtime/gc.cpp marks: src/table.cpp, src/list.cpp, src/upvalue.cpp,
-- src/function.cpp and include/userdata.hpp. Two pointers are left out, which the code does not
-- trace: the prototype of a table, and the indexer of user data.
pub mod Listed
use bad_snap.Common.{
  ℕ, ◌≡◌, ◌≢◌, ◌⊎◌, inl, inr, refl, sym, ap, ◌∙◌, Bool, true, false, ◌||◌, Option, none, some, List,
  [], ◌∷◌, ◌++◌, ◌==◌, ==_iff, Bool-cases, arith,
}
use bad_snap.Runtime.Collector.{
  Body, string_body, codeblock_body, closure_body, c_closure_body, upvalue_body, table_body,
  list_body, user_data_body, marked_by, marked_by_all, trace_entries, trace_object, listed,
}
use bad_snap.Runtime.Sweep.{Roots, pointers, global_roots, root_list}
use bad_snap.Table.{Entry, is_entry_free, is_entry_dead}
use bad_snap.Value.{Obj, Value, object, nil, undefined, is_nil, is_undefined}

-- A place of a value in a list.
abbrev pub In : {A : Type 0} → A → List A → Type 0
In x [] = ⊥
In x (y ∷ ys) = (y ≡ x) ⊎ In x ys

module _ {N : Type 0} where
  -- The value is the object at an address.
  abbrev pub IsAt : ℕ → Value N → Type 0
  IsAt b v = (o : Obj) × (v ≡ object o) × (o.addr ≡ b)

  -- One of the values is the object at an address.
  abbrev pub Holds : ℕ → List (Value N) → Type 0
  Holds b [] = ⊥
  Holds b (v ∷ vs) = IsAt b v ⊎ Holds b vs

  -- One of the slots has the object as its key or its value, and its key is not nil, as in a free
  -- slot, nor undefined, as in a tombstone.
  abbrev pub HoldsEntry : ℕ → List (Entry N) → Type 0
  HoldsEntry b [] = ⊥
  HoldsEntry b (e ∷ es) =
      ((e.key ≢ nil) × (e.key ≢ undefined) × (IsAt b e.key ⊎ IsAt b e.value)) ⊎ HoldsEntry b es

  -- The object at an address is one that an object refers to.
  unfoldable pub Refers : Body N → ℕ → Type 0
  Refers string_body b = ⊥
  Refers (codeblock_body name constants) b = (name ≡ some b) ⊎ Holds b constants
  Refers (closure_body upvals codeblock) b = In (some b) upvals ⊎ (codeblock ≡ b)
  Refers (c_closure_body values) b = values ≡ some b
  Refers (upvalue_body v) b = IsAt b v
  Refers (table_body proto_table es) b = HoldsEntry b es
  Refers (list_body vs) b = Holds b vs
  Refers (user_data_body indexer proto custom) b = (proto ≡ some b) ⊎ In (some b) custom

  -- A global variable has the object as its name or its value.
  abbrev pub HoldsGlobal : ℕ → List (ℕ × Value N) → Type 0
  HoldsGlobal b [] = ⊥
  HoldsGlobal b ((name, v) ∷ rest) = ((name ≡ b) ⊎ IsAt b v) ⊎ HoldsGlobal b rest

  -- Where a script or the machine can take an object from.
  pub data Rooted (r : Roots N) (b : ℕ) : Type 0 where
    on_stack : Holds b r.stack → Rooted r b
    in_frame : In b r.frames → Rooted r b
    open_upval : In b r.open_upvals → Rooted r b
    protected : In b r.extra_roots → Rooted r b
    global : HoldsGlobal b r.global_vars → Rooted r b
    prototype :
        (r.prototypes.string ≡ b)
          ⊎ ((r.prototypes.number ≡ b) ⊎ ((r.prototypes.boolean ≡ b) ⊎ (r.prototypes.list ≡ b)))
        → Rooted r b
    compiling : In b r.compilers → Rooted r b

-- The objects that can be reached from some of the objects.
pub data Reach {N : Type 0} (heap : ℕ → Body N) (Root : ℕ → Type 0) : ℕ → Type 0 where
  root : (a : ℕ) → Root a → Reach heap Root a
  step : (a b : ℕ) → Reach heap Root a → Refers (heap a) b → Reach heap Root b
