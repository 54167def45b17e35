-- ===== src/Runtime/Effect/Variables.antt =====
use bad_snap.Common.{arith, refl, suc, zero, ℕ, ◌+◌}
use bad_snap.Runtime.Objects.{get_global, Env}
use bad_snap.Value.{Value}
use bad_snap.Runtime.Effect.Objects.{Stays-get_global, Stays-set_global}
use bad_snap.Runtime.Operators.{as_num}
use bad_snap.Runtime.Machine.{gets, or_fault, peek, poke, read_value, current_frame, next_byte}
use bad_snap.Runtime.OpenUpvalues.{Cell, at_slot, closed}
use bad_snap.Runtime.Variables.{
  add_upval, capture_slot, get_global_op, get_upval_op, get_var_op, load_upvals, make_closure,
  make_func_op, read_upval, set_global_op, set_upval_op, set_var_op, upval_of_frame, write_upval,
}
use bad_snap.Runtime.Control.{
  close_upval_op, close_upvals, for_loop_op, for_prep_op, jump_back_op, jump_op, pop_jump,
}
use bad_snap.Runtime.Effect.{
  After, Runs, Runs-Stays, Runs-error, Runs-option, Runs-same, Runs-then, Stays, Stays-gets,
  Stays-if, Stays-or_fault, Stays-pure, Stays-bind,
}
use bad_snap.Runtime.Effect.Steps.{
  Runs-popn, Runs-push, Runs-then_push, Stays-jump, Stays-peek, Stays-poke, Stays-read_slot,
  Stays-read_value, Stays-write_slot, runs_rules, stays_rules, Stays-current_frame, Stays-next_byte,
}

-- How far the jumps and the instructions on variables of src/runtime/vm.cpp move the top of the stack.

module _ {N : Type 0} where
  pub Stays-jump_op : Stays {N = N} jump_op
  unfolding jump_op
  Stays-jump_op = search runs_rules

  pub Stays-jump_back_op : Stays {N = N} jump_back_op
  unfolding jump_back_op
  Stays-jump_back_op = search runs_rules

  pub Runs-pop_jump : (d u : ℕ) → Runs {N = N} d u (suc d) u pop_jump
  unfolding pop_jump
  Runs-pop_jump d u = Runs-same (1 + d) u (suc d) u _ (omega arith) (
      Runs-then (peek 1) _ (Stays-peek 1)
        λ top. Runs-then _ _ (Stays-if _ _ _ Stays-jump_op (Stays-jump 2)) λ _. Runs-popn 1)

  Stays-close_upvals : (last : ℕ) → Stays {N = N} (close_upvals last)
  unfolding After close_upvals
  Stays-close_upvals last = record { at = λ vm. (refl, refl) }

  pub Runs-close_upval_op : (d u : ℕ) → Runs {N = N} d u (suc d) u close_upval_op
  unfolding close_upval_op
  Runs-close_upval_op d u = Runs-same (1 + d) u (suc d) u _ (omega arith) (
      Runs-then (gets _) _ (Stays-gets _)
        λ size. Runs-then (close_upvals _) _ (Stays-close_upvals _) λ _. Runs-popn 1)

  pub Runs-get_var_op : (d u : ℕ) → Runs {N = N} d u d (suc u) get_var_op
  unfolding get_var_op
  Runs-get_var_op d u = search runs_rules depth 9

  pub Runs-set_var_op : (d u : ℕ) → Runs {N = N} d u (suc d) u set_var_op
  unfolding set_var_op
  Runs-set_var_op d u = search runs_rules depth 9

  Stays-upval_of_frame : (idx : ℕ) → Stays {N = N} (upval_of_frame idx)
  unfolding upval_of_frame
  Stays-upval_of_frame idx = search stays_rules depth 9

  Stays-read_upval : (c : Cell (Value N)) → Stays (read_upval c)
  unfolding read_upval
  Stays-read_upval (at_slot slot) = Stays-read_slot slot
  Stays-read_upval (closed v) = Stays-pure v

  Stays-write_upval : (cell : ℕ) (c : Cell (Value N)) (v : Value N) → Stays (write_upval cell c v)
  unfolding After write_upval
  Stays-write_upval cell (at_slot slot) v = record { at = λ vm. (Stays-write_slot slot v).at vm }
  Stays-write_upval cell (closed old) v = record { at = λ vm. (refl, refl) }

  ruleset upval_rules = (runs_rules, Stays-upval_of_frame, Stays-read_upval, Stays-write_upval)

  pub Runs-get_upval_op : (d u : ℕ) → Runs {N = N} d u d (suc u) get_upval_op
  unfolding get_upval_op
  Runs-get_upval_op d u = search upval_rules depth 9

  pub Runs-set_upval_op : (d u : ℕ) → Runs {N = N} d u (suc d) u set_upval_op
  unfolding set_upval_op
  Runs-set_upval_op d u = search upval_rules depth 9

  pub Runs-set_global_op : (d u : ℕ) → Runs {N = N} d u (suc d) u set_global_op
  unfolding set_global_op
  Runs-set_global_op d u = search (runs_rules, Stays-set_global) depth 9

  pub Runs-get_global_op : (d u : ℕ) → Runs {N = N} d u d (suc u) get_global_op
  unfolding get_global_op
  Runs-get_global_op d u = Runs-then read_value _ Stays-read_value λ vname.
      Runs-then (or_fault _) _ (Stays-or_fault _) λ name.
        Runs-then (get_global name) _ (Stays-get_global name)
          λ value. Runs-option value _ _ (Runs-error d u d (suc u)) λ v. Runs-push v

  Stays-make_closure : (codeblock : ℕ) → Stays {N = N} (make_closure codeblock)
  unfolding After make_closure
  Stays-make_closure codeblock = record { at = λ vm. (refl, refl) }

  Stays-capture_slot : (slot : ℕ) → Stays {N = N} (capture_slot slot)
  unfolding After capture_slot
  Stays-capture_slot slot = record { at = λ vm. (refl, refl) }

  Stays-add_upval : (a cell : ℕ) → Stays {N = N} (add_upval a cell)
  unfolding After add_upval
  Stays-add_upval a cell = record { at = λ vm. (refl, refl) }

  Stays-load_upvals : (a n : ℕ) → Stays {N = N} (load_upvals a n)
  unfolding load_upvals
  Stays-load_upvals a zero = Stays-pure tt
  Stays-load_upvals a (suc n) = Stays-bind next_byte _ Stays-next_byte λ is_local.
      Stays-bind next_byte _ Stays-next_byte λ index.
        Stays-bind current_frame _ Stays-current_frame λ frame.
          Stays-bind _ _ (Stays-if _ _ _ (Stays-upval_of_frame index) (Stays-capture_slot _))
            λ cell.
              Stays-bind (add_upval a cell) _ (Stays-add_upval a cell) λ _. Stays-load_upvals a n

  pub Runs-make_func_op : (d u : ℕ) → Runs {N = N} d u d (suc u) make_func_op
  unfolding make_func_op
  Runs-make_func_op d u = search (runs_rules, Stays-make_closure, Stays-load_upvals) depth 12

module _ {N : Type 0} (env : Env N) where
  pub Runs-for_prep_op : (d u : ℕ) → Runs d u d (suc u) (for_prep_op env)
  unfolding for_prep_op
  Runs-for_prep_op d u = Runs-then (peek 3) _ (Stays-peek 3) λ counter.
      Runs-then (peek 2) _ (Stays-peek 2) λ limit. Runs-then (peek 1) _ (Stays-peek 1) λ step.
        Runs-option (as_num counter) _ _ (Runs-error d u d (suc u)) λ c.
          Runs-option (as_num limit) _ _ (Runs-error d u d (suc u)) λ _.
            Runs-option (as_num step) _ _ (Runs-error d u d (suc u)) λ s.
              Runs-then (poke 3 _) _ (Stays-poke 3 _)
                λ _. Runs-then_push _ _ λ _. Runs-Stays d (suc u) _ Stays-jump_op

  pub Stays-for_loop_op : Stays (for_loop_op env)
  unfolding for_loop_op
  Stays-for_loop_op = search (stays_rules, Stays-jump_back_op) depth 14
