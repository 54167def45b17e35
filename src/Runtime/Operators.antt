-- ===== src/Runtime/Operators.antt =====
-- The instructions on operands: the arithmetic, comparisons and unary operators of `run`, and the
-- overloads that they fall back on, in src/runtime/vm.cpp.
use bad_snap.Common.{ℕ, not, Option, none, some, List, if◌then◌else◌, length, codes}
use bad_snap.Runtime.Calls.{ensure_slots, op_call}
use bad_snap.Runtime.Machine.{
  Vm, M, ◌>>=◌, ◌>>◌, pure, gets, runtime_error, push, pop, popn, peek, poke,
}
use bad_snap.Runtime.Objects.{Env, make_string, index_proto}
use bad_snap.Table.{table_length}
use bad_snap.Value.{ObjType, Value, num, bool, object, is_nil, is_val_falsy, value_eq}

module _ {N : Type 0} where
  -- Both operands, if they are numbers.
  unfoldable pub both_nums : Value N → Value N → Option (N × N)
  both_nums (num l) (num r) = some (l, r)
  both_nums l r = none

  unfoldable pub as_num : Value N → Option N
  as_num (num a) = some a
  as_num v = none

module _ {N : Type 0} (env : Env N) where
  -- `call_binary_overload`
  unfoldable pub call_binary_overload : List ℕ → M N (Unit {0})
  call_binary_overload method_name = do
    overload_name ← make_string env method_name
    r ← pop
    l ← pop
    of_left ← index_proto env l overload_name
    overload_fn ← (if is_nil of_left then index_proto env r overload_name else pure of_left)
    if is_nil overload_fn then runtime_error else (do
      ensure_slots 3
      push overload_fn
      push l
      push r
      op_call env env.depth overload_fn 2)

  -- `call_unary_overload`
  unfoldable pub call_unary_overload : List ℕ → M N (Unit {0})
  call_unary_overload method_name = do
    mname ← make_string env method_name
    value ← pop
    method ← index_proto env value mname
    if is_nil method
        then runtime_error
        else (do ensure_slots 2; push method; push value; op_call env env.depth method 1)

  -- `BINOP`, `CMP_OP`, `BIT_BINOP`, and the cases of `exp` and `mod`.
  unfoldable pub binop : (N → N → Value N) → List ℕ → M N (Unit {0})
  binop op method_name = do
    r ← peek 1
    l ← peek 2
    elim (both_nums l r) [
      | none ↦ call_binary_overload method_name
      | some (a, b) ↦ poke 2 (op a b) >> popn 1
    ]

  unfoldable pub div_op : M N (Unit {0})
  div_op = do
    r ← peek 1
    l ← peek 2
    elim (both_nums l r) [
      | none ↦ call_binary_overload (codes "__div")
      | some (a, b) ↦
          if env.fl.eq a (env.fl.of_nat 0)
          then runtime_error
          else (poke 2 (num (env.fl.div a b)) >> popn 1)
    ]

  unfoldable pub eq_op : M N (Unit {0})
  eq_op = do a ← pop; b ← pop; push (bool (value_eq env.fl a b))

  unfoldable pub neq_op : M N (Unit {0})
  neq_op = do a ← pop; b ← pop; push (bool (not (value_eq env.fl a b)))

  unfoldable pub negate_op : M N (Unit {0})
  negate_op = do
    operand ← peek 1
    elim (as_num operand) [
      | none ↦ call_unary_overload (codes "__negate")
      | some a ↦ poke 1 (num (env.fl.neg a))
    ]

  unfoldable pub lnot_op : M N (Unit {0})
  lnot_op = do a ← pop; push (bool (is_val_falsy a))

  -- The length of a list, a table or a string.
  unfoldable pub length_of : Vm N → Value N → Option ℕ
  length_of vm (object o) = elim o.tag [
    | ObjType.list ↦ some (length (vm.heap.lists o.addr).values)
    | ObjType.table ↦ some (table_length (vm.heap.tables o.addr))
    | ObjType.string ↦ some (length (vm.heap.strings o.addr))
    | _ ↦ none
  ]
  length_of vm v = none

  unfoldable pub len_op : M N (Unit {0})
  len_op = do
    v ← pop
    n ← gets (λ vm. length_of vm v)
    elim n [ none ↦ runtime_error | some n ↦ push (num (env.fl.of_nat n)) ]

  unfoldable pub bnot_op : M N (Unit {0})
  bnot_op = do
    operand ← peek 1
    elim (as_num operand) [ none ↦ runtime_error | some a ↦ poke 1 (num (env.fl.bnot a)) ]
