-- ===== src/Runtime/Variables.antt =====
-- The instructions on variables: locals, upvalues, globals and new functions, in `run` of
-- src/runtime/vm.cpp.
use bad_snap.Common.{
  ℕ, zero, suc, ◌+◌, Option, none, some, [], ◌∷◌, ◌++◌, ◌==◌, if◌then◌else◌, get_elem?, set,
}
use bad_snap.Runtime.Access.{updated}
use bad_snap.Runtime.Calls.{reversed}
use bad_snap.Runtime.Machine.{
  Closure, ok, M, ◌>>=◌, ◌>>◌, pure, gets, or_fault, runtime_error, push, pop, read_slot,
  write_slot, next_byte, read_value, current_frame,
}
use bad_snap.Runtime.Objects.{object_at, get_global, set_global}
use bad_snap.Runtime.OpenUpvalues.{Cell, at_slot, closed, Upvalues, capture_upvalue}
use bad_snap.Value.{ObjType, Value, object, same_tag}

module _ {N : Type 0} where
  unfoldable pub get_var_op : M N (Unit {0})
  get_var_op = do idx ← next_byte; frame ← current_frame; v ← read_slot (frame.base + idx); push v

  unfoldable pub set_var_op : M N (Unit {0})
  set_var_op = do idx ← next_byte; frame ← current_frame; v ← pop; write_slot (frame.base + idx) v

  -- The address of an object with a tag.
  unfoldable pub addr_of : ObjType → Value N → Option ℕ
  addr_of tag (object o) = if same_tag o.tag tag then some o.addr else none
  addr_of tag v = none

  -- `get_upval` of the closure that runs.
  unfoldable pub upval_of_frame : ℕ → M N ℕ
  upval_of_frame idx = do
    frame ← current_frame
    a ← or_fault (addr_of ObjType.closure (object frame.func))
    upvals ← gets (λ vm. (vm.closures a).upvals)
    or_fault (get_elem? upvals idx)

  unfoldable pub read_upval : Cell (Value N) → M N (Value N)
  read_upval (at_slot slot) = read_slot slot
  read_upval (closed v) = pure v

  unfoldable pub write_upval : ℕ → Cell (Value N) → Value N → M N (Unit {0})
  write_upval cell (at_slot slot) v vm = write_slot slot v vm
  write_upval cell (closed old) v vm = ok tt (record vm { cells = set vm.cells cell (closed v) })

  unfoldable pub get_upval_op : M N (Unit {0})
  get_upval_op = do
    idx ← next_byte
    cell ← upval_of_frame idx
    found ← gets (λ vm. get_elem? vm.cells cell)
    c ← or_fault found
    v ← read_upval c
    push v

  unfoldable pub set_upval_op : M N (Unit {0})
  set_upval_op = do
    idx ← next_byte
    v ← pop
    cell ← upval_of_frame idx
    found ← gets (λ vm. get_elem? vm.cells cell)
    c ← or_fault found
    write_upval cell c v

  unfoldable pub set_global_op : M N (Unit {0})
  set_global_op = do
    vname ← read_value
    name ← or_fault (addr_of ObjType.string vname)
    v ← pop
    set_global name v

  unfoldable pub get_global_op : M N (Unit {0})
  get_global_op = do
    vname ← read_value
    name ← or_fault (addr_of ObjType.string vname)
    value ← get_global name
    elim value [ none ↦ runtime_error | some v ↦ push v ]

  -- A closure of a code block, without upvalues yet.
  unfoldable pub make_closure : ℕ → M N ℕ
  make_closure codeblock vm =
      let a = vm.next in
      let c : Closure = record { codeblock = codeblock; upvals = [] } in
      ok a (record vm { closures = updated vm.closures a c; next = a + 1 })

  -- `capture_upvalue` of a slot.
  unfoldable pub capture_slot : ℕ → M N ℕ
  capture_slot slot vm =
      let s : Upvalues (Value N) = record {
        values = reversed vm.stack [];
        cells = vm.cells;
        open_upvals = vm.open_upvals;
      } in
      let (cell, s') : ℕ × Upvalues (Value N) = capture_upvalue slot s in
      ok cell (record vm { cells = s'.cells; open_upvals = s'.open_upvals })

  -- `set_upval`, in order.
  unfoldable pub add_upval : ℕ → ℕ → M N (Unit {0})
  add_upval a cell vm =
      let c : Closure = vm.closures a in
      let c' : Closure = record c { upvals = c.upvals ++ cell ∷ [] } in
      ok tt (record vm { closures = updated vm.closures a c' })

  unfoldable pub load_upvals : ℕ → ℕ → M N (Unit {0})
  load_upvals a zero = pure tt
  load_upvals a (suc n) = do
    is_local ← next_byte
    index ← next_byte
    frame ← current_frame
    cell ← (if is_local == 0 then upval_of_frame index else capture_slot (frame.base + index))
    add_upval a cell
    load_upvals a n

  unfoldable pub make_func_op : M N (Unit {0})
  make_func_op = do
    vcode ← read_value
    codeblock ← or_fault (addr_of ObjType.codeblock vcode)
    num_upvals ← next_byte
    func ← make_closure codeblock
    push (object_at ObjType.closure func)
    load_upvals func num_upvals
