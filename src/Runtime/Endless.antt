-- ===== src/Runtime/Endless.antt =====
use native.Mathlib.Nat.{mod-le}
use bad_snap.Runtime.Access.{done}
use bad_snap.Runtime.Effect.{length-take-drop}
use bad_snap.Runtime.Subscript.{get_field_of_value}
use bad_snap.Runtime.Strings.{find_string, hash_cstring}
use bad_snap.Runtime.Machine.{M, Vm, bind-ok, gets, no_fuel, ok, or_no_fuel}
use bad_snap.Common.{
  codes, drop, length, length-append, take, leb, ltb, Bool, List, arith, codes, drop, false,
  if◌then◌else◌, leb, length, ltb, refl, some, suc, take, true, zero, ℕ, ◌%◌, ◌++◌, ◌+◌, ◌-◌, ◌<◌,
  ◌^◌, ◌∙◌, ◌∷◌, ◌≡◌, ◌≤◌,
}
use bad_snap.Runtime.Objects.{Env, get_field, hash_in, make_string, object_at, of_access}
use bad_snap.Runtime.Calls.{
  call_object, call_value, ensure_slots, insert_below, max_call_stack, op_call,
}
use bad_snap.Value.{Value, is_nil, ObjType}

-- A `__call` member that leads back to its own table: `op_call` and `call_func_overload` of
-- src/runtime/vm.cpp.

module _ {N : Type 0} (env : Env N) where
  -- A table whose member `__call`, a name that has its string already, is the table itself.
  pub record CallsItself (a name : ℕ) (vm : Vm N) : Type 0 where
    pub key :
        find_string vm.heap.strings vm.interned_strings
          (codes "__call")
          (hash_cstring (codes "__call"))
        ≡ some (some name)
    pub member :
        get_field_of_value env.fl
          (hash_in env vm)
          env.depth
          vm.heap
          env.protos
          (object_at ObjType.table a)
          (object_at ObjType.string name)
        ≡ done (object_at ObjType.table a)

  skipped :
      (b : Bool) (m m' : M N (Unit {0})) (vm : Vm N) → b ≡ false → (if b then m else m') vm ≡ m' vm
  skipped b m m' vm e = rw e refl

  made :
      (text : List ℕ) (a : ℕ) (vm : Vm N)
      → find_string vm.heap.strings vm.interned_strings text (hash_cstring text) ≡ some (some a)
      → make_string env text vm ≡ ok (object_at ObjType.string a) vm
  unfolding make_string
  made text a vm h = ground (arith, h)

  looked :
      (a name : ℕ) (vm : Vm N)
      → CallsItself a name vm
      → get_field env (object_at ObjType.table a) (object_at ObjType.string name) vm
        ≡ ok (object_at ObjType.table a) vm
  unfolding get_field of_access
  looked a name vm h = rw (h.member) refl

  either_size :
      (b : Bool) (size : ℕ) (vm : Vm N)
      → (n : ℕ) × ((if b then ok tt vm else ok tt (record vm { size = size }))
          ≡ ok tt (record vm { size = n }))
  either_size true size vm = (vm.size, refl)
  either_size false size vm = (size, refl)

  ensured : (k : ℕ) (vm : Vm N) → (n : ℕ) × (ensure_slots k vm ≡ ok tt (record vm { size = n }))
  unfolding ensure_slots
  ensured k vm = either_size (ltb k (vm.size - length vm.stack)) _ vm

  inserted :
      (k : ℕ) (func : Value N) (vm : Vm N)
      → k ≤ length vm.stack
      → insert_below k func vm
        ≡ ok tt (record vm { stack = take k vm.stack ++ func ∷ drop k vm.stack })
  unfolding insert_below
  inserted k func vm h = ground arith

  -- Where a table's `__call` is the table itself, no fuel is enough to call it: `op_call` calls
  -- itself without end, and never reaches the limit of the call stack, since it pushes no frame.
  pub op_call-endless :
      (fuel a name argc : ℕ) (vm : Vm N)
      → CallsItself a name vm
      → length vm.frames < max_call_stack
      → argc < length vm.stack
      → op_call env fuel (object_at ObjType.table a) argc vm ≡ no_fuel
  unfolding op_call gets or_no_fuel is_nil call_value call_object
  op_call-endless zero a name argc vm h few under = refl
  op_call-endless (suc fuel) a name argc vm h few under =
      let table : Value N = object_at ObjType.table a in
      let (n, grew) = ensured 1 vm in
      let grown : Vm N = record vm { size = n } in
      let shifted : List (Value N) = take (argc + 1) vm.stack ++ table ∷ drop (argc + 1) vm.stack in
      let next : (argc + 1) % 2 ^ 8 < length shifted = ground (
        arith,
        length-append (take (argc + 1) vm.stack) (table ∷ drop (argc + 1) vm.stack),
        length-take-drop (argc + 1) vm.stack,
        mod-le (argc + 1) (2 ^ 8),
      ) in
      bind-ok (gets (λ vm. length vm.frames)) _ vm vm (length vm.frames) refl
      ∙ skipped (leb max_call_stack (length vm.frames)) _ _ vm (ground arith)
      ∙ bind-ok (make_string env (codes "__call")) _ vm vm _ (made (codes "__call") name vm (h.key))
      ∙ bind-ok (get_field env table (object_at ObjType.string name)) _ vm vm table
          (looked a name vm h)
      ∙ bind-ok (ensure_slots 1) _ vm grown tt grew
      ∙ bind-ok (insert_below (argc + 1) table) _ grown _ tt
          (inserted (argc + 1) table grown (omega (arith, under)))
      ∙ op_call-endless fuel a name ((argc + 1) % 2 ^ 8) (record grown { stack = shifted })
          (record { key = h.key; member = h.member }) few next
