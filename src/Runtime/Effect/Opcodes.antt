-- ===== src/Runtime/Effect/Opcodes.antt =====
use bad_snap.Common.{Bool, arith, false, refl, suc, true, ℕ, ◌+◌, ◌<◌, ◌≡◌, length, length, ◌⊎◌}
use bad_snap.Runtime.Effect.Natives.{HostKeeps}
use bad_snap.Runtime.Objects.{Env}
use bad_snap.Runtime.Effect.Calls.{Calls, Calls-Runs, AfterCall, base_slot}
use bad_snap.Runtime.Effect.Operators.{
  Calls-binop, Calls-div_op, Calls-negate_op, Runs-bnot_op, Runs-eq_op, Runs-len_op, Runs-lnot_op,
  Runs-neq_op,
}
use bad_snap.Runtime.Run.{execute}
use bad_snap.Runtime.Machine.{M, Vm, ok}
use bad_snap.Common.Int.{negsuc, pos, ℤ}
use bad_snap.Runtime.Effect.Variables.{
  Runs-close_upval_op, Runs-for_prep_op, Runs-get_global_op, Runs-get_upval_op, Runs-get_var_op,
  Runs-make_func_op, Runs-pop_jump, Runs-set_global_op, Runs-set_upval_op, Runs-set_var_op,
  Stays-for_loop_op, Stays-jump_back_op, Stays-jump_op,
}
use bad_snap.Runtime.Effect.{Runs, Runs-Stays, Runs-same, Stays, Stays-stop}
use bad_snap.Runtime.Effect.Steps.{runs_rules}
use bad_snap.Opcode.{Opcode, op_stack_effect}
use bad_snap.Runtime.Effect.Containers.{
  Runs-concat_op, Runs-index_no_pop_op, Runs-list_append_op, Runs-new_list_op, Runs-new_table_op,
  Runs-prep_method_call_op, Runs-subscript_get_op, Runs-subscript_set_op, Runs-table_add_field_op,
  Runs-table_get_no_pop_op, Runs-table_set_op, Stays-table_get_op,
}

-- The compiler's table of stack effects, in include/x_opcode.hpp, against the `run` of
-- src/runtime/vm.cpp.

-- How far an effect lifts the stack, and how far it lowers it.
unfoldable pub lifts : ℤ → ℕ
lifts (pos n) = n
lifts (negsuc n) = 0

unfoldable pub lowers : ℤ → ℕ
lowers (pos n) = 0
lowers (negsuc n) = suc n

-- The instructions with one effect, whatever their bytes and operands: not a call, whose effect is
-- that of its arguments, not a return, not a jump that may pop, and not the impossible one.
unfoldable pub has_fixed_effect : Opcode → Bool
has_fixed_effect Opcode.call_func = false
has_fixed_effect Opcode.return_val = false
has_fixed_effect Opcode.jmp_if_true_or_pop = false
has_fixed_effect Opcode.jmp_if_false_or_pop = false
has_fixed_effect op = true

module _ {N : Type 0} (env : Env N) (host : HostKeeps env) (low : env.depth + 2 < 256) where
  MovesAs : Opcode → Type 0
  MovesAs op = Calls 0 0 (lowers (op_stack_effect op)) (lifts (op_stack_effect op)) (execute env op)

  runs : (d u d' u' : ℕ) (m : M N (Unit {0})) → d' + u ≡ d + u' → Runs 0 0 d u m → Calls 0 0 d' u' m
  runs d u d' u' m e h = Calls-Runs 0 0 d' u' m (Runs-same d u d' u' m e h)

  stays : (m : M N (Unit {0})) → Stays m → Calls 0 0 0 0 m
  stays m h = Calls-Runs 0 0 0 0 m (Runs-Stays 0 0 m h)

  execute-moves : (op : Opcode) → has_fixed_effect op ≡ true → MovesAs op
  unfolding execute has_fixed_effect MovesAs lifts lowers op_stack_effect
  execute-moves Opcode.load_const h = runs 0 1 0 1 _ refl (search runs_rules)
  execute-moves Opcode.load_nil h = runs 0 1 0 1 _ refl (search runs_rules)
  execute-moves Opcode.pop h = runs 1 0 1 0 _ refl (search runs_rules)
  execute-moves Opcode.add h = Calls-binop env host low 0 0 _ _
  execute-moves Opcode.sub h = Calls-binop env host low 0 0 _ _
  execute-moves Opcode.mult h = Calls-binop env host low 0 0 _ _
  execute-moves Opcode.gt h = Calls-binop env host low 0 0 _ _
  execute-moves Opcode.lt h = Calls-binop env host low 0 0 _ _
  execute-moves Opcode.gte h = Calls-binop env host low 0 0 _ _
  execute-moves Opcode.lte h = Calls-binop env host low 0 0 _ _
  execute-moves Opcode.div h = Calls-div_op env host low 0 0
  execute-moves Opcode.exp h = Calls-binop env host low 0 0 _ _
  execute-moves Opcode.mod_op h = Calls-binop env host low 0 0 _ _
  execute-moves Opcode.lshift h = Calls-binop env host low 0 0 _ _
  execute-moves Opcode.rshift h = Calls-binop env host low 0 0 _ _
  execute-moves Opcode.band h = Calls-binop env host low 0 0 _ _
  execute-moves Opcode.bxor h = Calls-binop env host low 0 0 _ _
  execute-moves Opcode.bor h = Calls-binop env host low 0 0 _ _
  execute-moves Opcode.eq h = runs 2 1 1 0 _ refl (Runs-eq_op env host low 0 0)
  execute-moves Opcode.neq h = runs 2 1 1 0 _ refl (Runs-neq_op env host low 0 0)
  execute-moves Opcode.negate h = Calls-negate_op env host low 0 0
  execute-moves Opcode.lnot h = runs 1 1 0 0 _ refl (Runs-lnot_op env host low 0 0)
  execute-moves Opcode.len h = runs 1 1 0 0 _ refl (Runs-len_op env host low 0 0)
  execute-moves Opcode.bnot h = runs 0 0 0 0 _ refl (Runs-bnot_op env host low 0 0)
  execute-moves Opcode.jmp h = stays _ Stays-jump_op
  execute-moves Opcode.jmp_back h = stays _ Stays-jump_back_op
  execute-moves Opcode.for_prep h = runs 0 1 0 1 _ refl (Runs-for_prep_op env 0 0)
  execute-moves Opcode.for_loop h = stays _ (Stays-for_loop_op env)
  execute-moves Opcode.get_var h = runs 0 1 0 1 _ refl (Runs-get_var_op 0 0)
  execute-moves Opcode.set_var h = runs 1 0 1 0 _ refl (Runs-set_var_op 0 0)
  execute-moves Opcode.set_upval h = runs 1 0 1 0 _ refl (Runs-set_upval_op 0 0)
  execute-moves Opcode.get_upval h = runs 0 1 0 1 _ refl (Runs-get_upval_op 0 0)
  execute-moves Opcode.set_global h = runs 1 0 1 0 _ refl (Runs-set_global_op 0 0)
  execute-moves Opcode.get_global h = runs 0 1 0 1 _ refl (Runs-get_global_op 0 0)
  execute-moves Opcode.close_upval h = runs 1 0 1 0 _ refl (Runs-close_upval_op 0 0)
  execute-moves Opcode.concat h = runs 1 0 1 0 _ refl (Runs-concat_op env 0 0)
  execute-moves Opcode.new_list h = runs 0 1 0 1 _ refl (Runs-new_list_op env 0 0)
  execute-moves Opcode.list_append h = runs 1 0 1 0 _ refl (Runs-list_append_op env 0 0)
  execute-moves Opcode.new_table h = runs 0 1 0 1 _ refl (Runs-new_table_op env 0 0)
  execute-moves Opcode.table_add_field h = runs 2 0 2 0 _ refl (Runs-table_add_field_op env 0 0)
  execute-moves Opcode.subscript_set h = runs 2 0 2 0 _ refl (Runs-subscript_set_op env 0 0)
  execute-moves Opcode.table_set h = runs 1 0 1 0 _ refl (Runs-table_set_op env 0 0)
  execute-moves Opcode.table_get h = stays _ (Stays-table_get_op env)
  execute-moves Opcode.table_get_no_pop h = runs 0 1 0 1 _ refl (Runs-table_get_no_pop_op env 0 0)
  execute-moves Opcode.subscript_get h = runs 1 0 1 0 _ refl (Runs-subscript_get_op env 0 0)
  execute-moves Opcode.index_no_pop h = runs 0 1 0 1 _ refl (Runs-index_no_pop_op env 0 0)
  execute-moves Opcode.pop_jmp_if_false h = runs 1 0 1 0 _ refl (Runs-pop_jump 0 0)
  execute-moves Opcode.prep_method_call h = runs 0 1 0 1 _ refl (Runs-prep_method_call_op env 0 0)
  execute-moves Opcode.make_func h = runs 0 1 0 1 _ refl (Runs-make_func_op 0 0)
  execute-moves Opcode.no_op h = stays _ Stays-stop
  execute-moves Opcode.call_func h = ground arith
  execute-moves Opcode.return_val h = ground arith
  execute-moves Opcode.jmp_if_true_or_pop h = ground arith
  execute-moves Opcode.jmp_if_false_or_pop h = ground arith

  -- Where native functions leave the stack and the frames, and fewer than 254 `__call` members are
  -- followed, an instruction with one effect, in every state in which it returns, lifts the stack as
  -- the compiler's table says, within the same frames, or has called an overload: then one frame is
  -- new, and when its result takes the slot of its function, the stack is lifted as the table says.
  pub execute-op_stack_effect :
      (op : Opcode) (vm vm' : Vm N)
      → has_fixed_effect op ≡ true
      → execute env op vm ≡ ok tt vm'
      → ((length vm'.stack + lowers (op_stack_effect op)
            ≡ length vm.stack + lifts (op_stack_effect op))
          × (length vm'.frames ≡ length vm.frames))
        ⊎ ((base_slot vm'.frames + 1 + lowers (op_stack_effect op)
              ≡ length vm.stack + lifts (op_stack_effect op))
            × (length vm'.frames ≡ suc (length vm.frames)))
  unfolding AfterCall MovesAs
  execute-op_stack_effect op vm vm' fixed e =
      rw e at ((execute-moves op fixed).at vm (length vm.stack) refl)
