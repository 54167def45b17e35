-- ===== src/Runtime/Effect/Operators.antt =====
use bad_snap.Common.{List, arith, refl, suc, ℕ, ◌+◌, ◌<◌}
use bad_snap.Runtime.Calls.{ensure_slots}
use bad_snap.Value.{Value, num}
use bad_snap.Runtime.Effect.Natives.{Calls-op_call, HostKeeps}
use bad_snap.Runtime.Effect.Closures.{Stays-ensure_slots}
use bad_snap.Runtime.Operators.{
  as_num, binop, bnot_op, both_nums, call_binary_overload, call_unary_overload, div_op, eq_op,
  len_op, lnot_op, negate_op, neq_op,
}
use bad_snap.Runtime.Objects.{Env, index_proto, make_string}
use bad_snap.Runtime.Effect.Calls.{
  Calls, Calls-Runs, Calls-error, Calls-if, Calls-option, Calls-same, Calls-then, Calls-then_pop,
  Calls-then_push,
}
use bad_snap.Runtime.Machine.{gets, peek, poke, popn, ◌>>◌}
use bad_snap.Runtime.Effect.{
  Runs, Runs-Stays, Runs-error, Runs-option, Runs-same, Runs-then, Stays-gets, Stays-if, Stays-pure,
}
use bad_snap.Runtime.Effect.Steps.{
  Runs-popn, Runs-push, Runs-then_pop, Stays-peek, Stays-poke, runs_rules,
}
use bad_snap.Runtime.Effect.Objects.{Stays-index_proto, Stays-make_string}

-- How far the instructions on operands of src/runtime/vm.cpp move the top of the stack.

module _ {N : Type 0} (env : Env N) (host : HostKeeps env) (low : env.depth + 2 < 256) where
  Calls-call_binary_overload :
      (d u : ℕ) (name : List ℕ) → Calls d u (suc d) u (call_binary_overload env name)
  unfolding call_binary_overload
  Calls-call_binary_overload d u name =
      Calls-then (make_string env name) _ (Stays-make_string env name) λ key. Calls-then_pop _ λ r.
        Calls-then_pop _ λ l.
          Calls-then (index_proto env l key) _ (Stays-index_proto env l key) λ of_left.
            Calls-then _ _ (Stays-if _ _ _ (Stays-index_proto env r key) (Stays-pure of_left))
              λ overload_fn. Calls-if _ _ _ Calls-error (
                Calls-then (ensure_slots 3) _ (Stays-ensure_slots 3) λ _.
                  Calls-then_push overload_fn _ λ _. Calls-then_push l _ λ _.
                    Calls-then_push r _ λ _.
                      Calls-same _ _ _ _ (2 + suc (suc d)) (suc (suc (suc u))) (suc d) u _ refl
                        (omega arith)
                        (Calls-op_call env host env.depth _ _ 2 overload_fn (omega (arith, low))))

  Calls-call_unary_overload :
      (d u : ℕ) (name : List ℕ) → Calls d u d u (call_unary_overload env name)
  unfolding call_unary_overload
  Calls-call_unary_overload d u name =
      Calls-then (make_string env name) _ (Stays-make_string env name) λ key. Calls-then_pop _ λ v.
        Calls-then (index_proto env v key) _ (Stays-index_proto env v key) λ method.
          Calls-if _ _ _ Calls-error (
            Calls-then (ensure_slots 2) _ (Stays-ensure_slots 2) λ _. Calls-then_push method _ λ _.
              Calls-then_push v _ λ _.
                Calls-same _ _ _ _ (1 + suc d) (suc (suc u)) d u _ refl (omega arith)
                  (Calls-op_call env host env.depth _ _ 1 method (omega (arith, low))))

  -- Both operands are replaced by one value.
  Runs-replace_two : (d u : ℕ) (v : Value N) → Runs {N = N} d u (suc d) u (poke 2 v >> popn 1)
  Runs-replace_two d u v =
      Runs-same (1 + d) u (suc d) u _ (omega arith)
        (Runs-then (poke 2 v) _ (Stays-poke 2 v) λ _. Runs-popn 1)

  pub Calls-binop :
      (d u : ℕ) (op : N → N → Value N) (name : List ℕ) → Calls d u (suc d) u (binop env op name)
  unfolding binop
  Calls-binop d u op name = Calls-then (peek 1) _ (Stays-peek 1) λ r.
      Calls-then (peek 2) _ (Stays-peek 2) λ l.
        Calls-option (both_nums l r) _ _ (Calls-call_binary_overload d u name)
          λ (a, b). Calls-Runs d u (suc d) u _ (Runs-replace_two d u (op a b))

  pub Calls-div_op : (d u : ℕ) → Calls d u (suc d) u (div_op env)
  unfolding div_op
  Calls-div_op d u = Calls-then (peek 1) _ (Stays-peek 1) λ r.
      Calls-then (peek 2) _ (Stays-peek 2) λ l.
        Calls-option (both_nums l r) _ _ (Calls-call_binary_overload d u _) λ (a, b).
          Calls-if _ _ _ Calls-error
            (Calls-Runs d u (suc d) u _ (Runs-replace_two d u (num (env.fl.div a b))))

  pub Runs-eq_op : (d u : ℕ) → Runs d u (suc (suc d)) (suc u) (eq_op env)
  unfolding eq_op
  Runs-eq_op d u = search runs_rules

  pub Runs-neq_op : (d u : ℕ) → Runs d u (suc (suc d)) (suc u) (neq_op env)
  unfolding neq_op
  Runs-neq_op d u = search runs_rules

  pub Calls-negate_op : (d u : ℕ) → Calls d u d u (negate_op env)
  unfolding negate_op
  Calls-negate_op d u = Calls-then (peek 1) _ (Stays-peek 1) λ operand.
      Calls-option (as_num operand) _ _ (Calls-call_unary_overload d u _)
        λ a. Calls-Runs d u d u _ (Runs-Stays d u _ (Stays-poke 1 _))

  pub Runs-lnot_op : (d u : ℕ) → Runs d u (suc d) (suc u) (lnot_op env)
  unfolding lnot_op
  Runs-lnot_op d u = search runs_rules

  pub Runs-len_op : (d u : ℕ) → Runs d u (suc d) (suc u) (len_op env)
  unfolding len_op
  Runs-len_op d u = Runs-then_pop _ λ v.
      Runs-then (gets _) _ (Stays-gets _)
        λ n. Runs-option n _ _ (Runs-error (suc d) u (suc d) (suc u)) λ n. Runs-push _

  pub Runs-bnot_op : (d u : ℕ) → Runs d u d u (bnot_op env)
  unfolding bnot_op
  Runs-bnot_op d u = Runs-then (peek 1) _ (Stays-peek 1) λ operand.
      Runs-option (as_num operand) _ _ (Runs-error d u d u) λ a. Runs-Stays d u _ (Stays-poke 1 _)
