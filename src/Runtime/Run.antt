-- ===== src/Runtime/Run.antt =====
-- The dispatch of instructions: `run`, `call` and `invoke_script` of src/runtime/vm.cpp.
use bad_snap.Runtime.PowTwo.{pow2ceil}
use bad_snap.Runtime.OpenUpvalues.{capture_upvalue, close_upvalues_upto}
use bad_snap.Runtime.Strings.{find_string}
use bad_snap.Runtime.Subscript.{
  get_field_of_value, get_subscript_of_value, set_field_of_udata, subscript_set,
}
use bad_snap.Runtime.Access.{get_field_of_udata, get_proto, table_get, updated}
use bad_snap.Table.{set_entry, table_length}
use bad_snap.Runtime.Lists.{append}
use bad_snap.Common.{ℕ, zero, suc, ◌+◌, ◌-◌, false, none, some, [], ◌∷◌, length, codes, Bool}
use bad_snap.Opcode.{Opcode, decode}
use bad_snap.Runtime.Calls.{
  ensure_slots, op_call, adjust_args, append_all, call_cclosure, call_closure, fill_list,
  insert_below, native_result, ok_unless_error, pop_callframe, pop_frames, prep_vararg_call,
  push_callframe, push_nils, resume, call_object, call_value, run_native,
}
use bad_snap.Runtime.Containers.{
  concat_op, new_list_op, list_append_op, new_table_op, table_add_field_op, subscript_set_op,
  table_set_op, table_get_op, table_get_no_pop_op, subscript_get_op, index_no_pop_op,
  prep_method_call_op, assigned, get_member_of, method_of, set_field,
}
use bad_snap.Runtime.Control.{
  jump_op, jump_back_op, jump_or_pop, pop_jump, close_upval_op, return_op, for_prep_op, for_loop_op,
  call_op, close_upvals, goes_on, leave, truncate,
}
use bad_snap.Runtime.Machine.{
  raised, to_native, finished, CallFrame, Outcome, ok, finished, to_native, M, ◌>>=◌, ◌>>◌, pure,
  gets, stop, or_fault, or_no_fuel, push, pop, peek, next_byte, read_value, current_frame, jump,
  jump_back, make_list, next_short, poke, popn, read_slot, runtime_error, write_slot,
}
use bad_snap.Runtime.Objects.{
  Env, object_at, concatenate, create_new_string, get_field, get_global, get_member, get_subscript,
  index_proto, intern_new, make_string, make_table, of_access, of_heap_access, set_global,
  set_member,
}
use bad_snap.Runtime.Operators.{
  binop, div_op, eq_op, neq_op, negate_op, lnot_op, len_op, bnot_op, as_num, both_nums,
  call_binary_overload, call_unary_overload, length_of,
}
use bad_snap.Runtime.Variables.{
  get_var_op, set_var_op, get_upval_op, set_upval_op, set_global_op, get_global_op, make_func_op,
  add_upval, addr_of, capture_slot, load_upvals, make_closure, read_upval, upval_of_frame,
  write_upval,
}
use bad_snap.Value.{
  ObjType, Obj, num, bool, nil, has_tag, is_val_falsy, is_val_truthy, is_nil, same_tag, value_eq,
}

module _ {N : Type 0} (env : Env N) where
  -- What an instruction does once its byte is read; `no_op` is impossible there.
  unfoldable pub execute : Opcode → M N (Unit {0})
  execute Opcode.load_const = read_value >>= push
  execute Opcode.load_nil = push nil
  execute Opcode.pop = pop >>= λ _. pure tt
  execute Opcode.add = binop env (λ l r. num (env.fl.add l r)) (codes "__add")
  execute Opcode.sub = binop env (λ l r. num (env.fl.sub l r)) (codes "__sub")
  execute Opcode.mult = binop env (λ l r. num (env.fl.mul l r)) (codes "__mult")
  execute Opcode.gt = binop env (λ l r. bool (env.fl.lt r l)) (codes "__gt")
  execute Opcode.lt = binop env (λ l r. bool (env.fl.lt l r)) (codes "__lt")
  execute Opcode.gte = binop env (λ l r. bool (env.fl.le r l)) (codes "__gte")
  execute Opcode.lte = binop env (λ l r. bool (env.fl.le l r)) (codes "__lte")
  execute Opcode.div = div_op env
  execute Opcode.exp = binop env (λ l r. num (env.fl.pow l r)) (codes "__exp")
  execute Opcode.mod_op = binop env (λ l r. num (env.fl.fmod l r)) (codes "__mod")
  execute Opcode.lshift = binop env (λ l r. num (env.fl.shl l r)) (codes "__bsl")
  execute Opcode.rshift = binop env (λ l r. num (env.fl.shr l r)) (codes "__bsr")
  execute Opcode.band = binop env (λ l r. num (env.fl.band l r)) (codes "__band")
  execute Opcode.bxor = binop env (λ l r. num (env.fl.bxor l r)) (codes "__bxor")
  execute Opcode.bor = binop env (λ l r. num (env.fl.bor l r)) (codes "__bor")
  execute Opcode.eq = eq_op env
  execute Opcode.neq = neq_op env
  execute Opcode.negate = negate_op env
  execute Opcode.lnot = lnot_op env
  execute Opcode.len = len_op env
  execute Opcode.bnot = bnot_op env
  execute Opcode.jmp_if_true_or_pop = jump_or_pop is_val_truthy
  execute Opcode.jmp_if_false_or_pop = jump_or_pop is_val_falsy
  execute Opcode.jmp = jump_op
  execute Opcode.jmp_back = jump_back_op
  execute Opcode.for_prep = for_prep_op env
  execute Opcode.for_loop = for_loop_op env
  execute Opcode.get_var = get_var_op
  execute Opcode.set_var = set_var_op
  execute Opcode.set_upval = set_upval_op
  execute Opcode.get_upval = get_upval_op
  execute Opcode.set_global = set_global_op
  execute Opcode.get_global = get_global_op
  execute Opcode.close_upval = close_upval_op
  execute Opcode.concat = concat_op env
  execute Opcode.new_list = new_list_op env
  execute Opcode.list_append = list_append_op env
  execute Opcode.new_table = new_table_op env
  execute Opcode.table_add_field = table_add_field_op env
  execute Opcode.subscript_set = subscript_set_op env
  execute Opcode.table_set = table_set_op env
  execute Opcode.table_get = table_get_op env
  execute Opcode.table_get_no_pop = table_get_no_pop_op env
  execute Opcode.subscript_get = subscript_get_op env
  execute Opcode.index_no_pop = index_no_pop_op env
  execute Opcode.pop_jmp_if_false = pop_jump
  execute Opcode.prep_method_call = prep_method_call_op env
  execute Opcode.call_func = call_op env
  execute Opcode.return_val = return_op
  execute Opcode.make_func = make_func_op
  execute Opcode.no_op = stop

  -- One round of the loop of `run`.
  unfoldable pub step : M N (Unit {0})
  step = do byte ← next_byte; elim (decode byte) [ none ↦ stop | some op ↦ execute op ]

  unfoldable pub run : ℕ → M N (Unit {0})
  unfolding run_native call_object call_value fill_list resume native_result ok_unless_error
      pop_frames ensure_slots push_callframe pop_callframe push_nils append_all prep_vararg_call
      adjust_args call_closure call_cclosure insert_below op_call both_nums as_num
      call_binary_overload call_unary_overload binop div_op eq_op neq_op negate_op lnot_op length_of
      len_op bnot_op jump_op jump_back_op jump_or_pop pop_jump close_upvals close_upval_op truncate
      leave return_op for_prep_op goes_on for_loop_op call_op get_var_op set_var_op addr_of
      upval_of_frame read_upval write_upval get_upval_op set_upval_op set_global_op get_global_op
      make_closure capture_slot add_upval load_upvals make_func_op concat_op new_list_op
      list_append_op new_table_op table_add_field_op assigned subscript_set_op set_field
      table_set_op get_member_of table_get_op table_get_no_pop_op subscript_get_op index_no_pop_op
      method_of prep_method_call_op get_global set_global make_table create_new_string intern_new
      make_string concatenate of_access of_heap_access get_subscript get_field get_member set_member
      index_proto pure ◌>>=◌ gets stop or_fault or_no_fuel runtime_error push pop popn peek poke
      read_slot write_slot next_byte next_short read_value jump jump_back current_frame make_list
      find_string set_entry updated get_subscript_of_value get_field_of_value subscript_set
      set_field_of_udata get_field_of_udata table_get get_proto pow2ceil same_tag is_nil value_eq
      is_val_falsy is_val_truthy table_length append capture_upvalue close_upvalues_upto decode
      execute step
  run zero = or_no_fuel none
  run (suc fuel) = step >> run fuel

  -- How `call` reads the end of a run: a frame of the host, or the script's end, is a success.
  unfoldable pub back_in_host : Outcome N (Unit {0}) → Outcome N (Unit {0})
  back_in_host (to_native vm) = ok tt vm
  back_in_host (finished result vm) = ok tt vm
  back_in_host o = o

  -- What `call` does after `op_call`, of a native closure or not: whether a call of anything else
  -- failed is not looked at before `run`.
  unfoldable pub after_op_call : Bool → ℕ → Outcome N (Unit {0}) → Outcome N (Unit {0})
  after_op_call false fuel (ok _ vm) = back_in_host (run fuel vm)
  after_op_call false fuel (raised vm) = back_in_host (run fuel vm)
  after_op_call is_native fuel o = o

  -- `VM::call`
  unfoldable pub call : ℕ → ℕ → M N (Unit {0})
  call fuel argc = do
    value ← peek (argc + 1)
    (λ vm.
        after_op_call (has_tag ObjType.c_closure value) fuel (op_call env env.depth value argc vm))

module _ {N : Type 0} where
  unfoldable pub enter_script : ℕ → M N (Unit {0})
  enter_script script vm =
      let func : Obj = record { tag = ObjType.closure; addr = script } in
      let frame : CallFrame = record { func = func; ip = 0; base = length vm.stack - 1 } in
      ok tt (record vm { frames = frame ∷ []; ip = 0; block = (vm.closures script).codeblock })

  -- `invoke_script`
  unfoldable pub invoke_script : ℕ → M N (Unit {0})
  invoke_script script = do
    (λ vm. ok tt (record vm { stack = [] }))
    slots ← gets (λ vm. (vm.codeblocks (vm.closures script).codeblock).max_stack_size)
    ensure_slots (slots + 1)
    (λ vm. ok tt (record vm { has_error = false }))
    push (object_at ObjType.closure script)
    enter_script script
