-- ===== src/Runtime/Control.antt =====
-- The instructions that move the instruction pointer: the jumps, the `for` loop, calls and returns
-- of `run` in src/runtime/vm.cpp.
use bad_snap.Common.{ℕ, ◌+◌, ◌-◌, Bool, none, some, List, [], ◌∷◌, if◌then◌else◌, length, drop, leb}
use bad_snap.Runtime.Calls.{op_call, resume, reversed}
use bad_snap.Runtime.Machine.{
  CallFrame, ok, finished, to_native, fault, M, ◌>>=◌, ◌>>◌, gets, or_fault, runtime_error, push,
  pop, popn, peek, poke, next_byte, next_short, jump, jump_back, current_frame,
}
use bad_snap.Runtime.Objects.{Env}
use bad_snap.Runtime.OpenUpvalues.{Upvalues, close_upvalues_upto}
use bad_snap.Runtime.Operators.{as_num}
use bad_snap.Value.{ObjType, Value, num, nil, same_tag, is_val_falsy}

module _ {N : Type 0} where
  -- `ip += FETCH_SHORT()` and `ip -= FETCH_SHORT()`
  unfoldable pub jump_op : M N (Unit {0})
  jump_op = do n ← next_short; jump n

  unfoldable pub jump_back_op : M N (Unit {0})
  jump_back_op = do n ← next_short; jump_back n

  unfoldable pub jump_or_pop : (Value N → Bool) → M N (Unit {0})
  jump_or_pop test = do top ← peek 1; if test top then jump_op else (jump 2 >> popn 1)

  unfoldable pub pop_jump : M N (Unit {0})
  pop_jump = do top ← peek 1; (if is_val_falsy top then jump_op else jump 2); popn 1

  -- The upvalues from a slot on are closed. One above the top takes nil, where the source takes what
  -- the memory holds.
  unfoldable pub close_upvals : ℕ → M N (Unit {0})
  close_upvals last vm =
      let slots : List (Value N) = reversed vm.stack [] in
      let u : Upvalues (Value N) =
        close_upvalues_upto nil last
          (record { values = slots; cells = vm.cells; open_upvals = vm.open_upvals }) in
      ok tt (record vm { cells = u.cells; open_upvals = u.open_upvals })

  unfoldable pub close_upval_op : M N (Unit {0})
  close_upval_op = do size ← gets (λ vm. length vm.stack); close_upvals (size - 1); popn 1

  -- The stack up to a slot, the newest values gone.
  unfoldable pub truncate : ℕ → M N (Unit {0})
  truncate base vm =
      if leb base (length vm.stack)
      then ok tt (record vm { stack = drop (length vm.stack - base) vm.stack })
      else fault

  -- What follows the return of the frame on top.
  unfoldable pub leave : Value N → List CallFrame → M N (Unit {0})
  leave result [] vm = fault
  leave result (frame ∷ []) vm = finished result (record vm { frames = [] })
  leave result (frame ∷ caller ∷ rest) vm =
      if same_tag caller.func.tag ObjType.c_closure
      then to_native (record vm { frames = caller ∷ rest })
      else resume (caller ∷ rest) vm

  unfoldable pub return_op : M N (Unit {0})
  return_op = do
    result ← pop
    frame ← current_frame
    close_upvals frame.base
    truncate frame.base
    push result
    frames ← gets (λ vm. vm.frames)
    leave result frames

module _ {N : Type 0} (env : Env N) where
  unfoldable pub for_prep_op : M N (Unit {0})
  for_prep_op = do
    counter ← peek 3
    limit ← peek 2
    step ← peek 1
    elim (as_num counter) [
      | none ↦ runtime_error
      | some c ↦ elim (as_num limit) [
        | none ↦ runtime_error
        | some _ ↦ elim (as_num step) [
          | none ↦ runtime_error
          | some s ↦ do poke 3 (num (env.fl.sub c s)); push (num (env.fl.sub c s)); jump_op
        ]
      ]
    ]

  -- Whether the loop goes on, by its counter, limit and step.
  unfoldable pub goes_on : N → N → N → Bool
  goes_on counter limit step =
      if env.fl.le (env.fl.of_nat 0) step then env.fl.lt counter limit else env.fl.le limit counter

  unfoldable pub for_loop_op : M N (Unit {0})
  for_loop_op = do
    counter ← peek 4
    limit ← peek 3
    step ← peek 2
    c ← or_fault (as_num counter)
    l ← or_fault (as_num limit)
    s ← or_fault (as_num step)
    poke 4 (num (env.fl.add c s))
    poke 1 (num (env.fl.add c s))
    if goes_on (env.fl.add c s) l s then jump_back_op else jump 2

  unfoldable pub call_op : M N (Unit {0})
  call_op = do argc ← next_byte; value ← peek (argc + 1); op_call env env.depth value argc
