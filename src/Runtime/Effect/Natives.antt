-- ===== src/Runtime/Effect/Natives.antt =====
use native.Mathlib.Nat.{mod-eq_of_lt}
use bad_snap.Common.{
  Option, arith, none, refl, some, suc, zero, ℕ, ◌+◌, ◌<◌, length, length, ◌≡◌, ◌⊎◌,
}
use bad_snap.Runtime.Effect.Closures.{
  Calls-call_closure, Runs-insert_below, Stays-ensure_slots, Runs-framed,
}
use bad_snap.Runtime.Objects.{Env, get_field, make_string}
use bad_snap.Runtime.Effect.{After, Runs, Stays, Stays-gets}
use bad_snap.Runtime.Effect.Steps.{runs_rules, stays_rules}
use bad_snap.Runtime.Machine.{M, gets, or_no_fuel, Vm, ok}
use bad_snap.Runtime.Effect.Objects.{Stays-get_field, Stays-make_string}
use bad_snap.Runtime.Calls.{
  call_cclosure, call_object, call_value, ensure_slots, insert_below, native_result,
  ok_unless_error, op_call, run_native,
}
use bad_snap.Value.{ObjType, Value, object}
use bad_snap.Runtime.Effect.Calls.{
  Calls, Calls-Runs, Calls-bind, Calls-error, Calls-if, Calls-same, Calls-then, AfterCall,
  base_slot,
}

-- What a call of any value leaves on the stack: `call_cclosure` and `op_call` of src/runtime/vm.cpp.

-- A native function leaves its arguments to `call_cclosure`, which pops them, and returns in the
-- frame that it was called in.
pub record HostKeeps {N : Type 0} (env : Env N) : Type 0 where
  pub native : (f argc : ℕ) → Stays (env.native f argc)

module _ {N : Type 0} where
  Stays-native_result : (r : Option (Value N)) → Stays (native_result r)
  unfolding After native_result
  Stays-native_result none = record { at = λ vm. (refl, refl) }
  Stays-native_result (some v) = record { at = λ vm. (refl, refl) }

  Stays-ok_unless_error : Stays {N = N} ok_unless_error
  unfolding After ok_unless_error
  Stays-ok_unless_error = record { at = λ vm. ground arith }

module _ {N : Type 0} (env : Env N) (host : HostKeeps env) where
  Stays-run_native : (a argc : ℕ) → Stays (run_native env a argc)
  unfolding run_native
  Stays-run_native a argc = search (stays_rules, host.native, Stays-native_result)

  -- The result takes the place of the native function and its arguments.
  Runs-call_cclosure : (d u a argc : ℕ) → Runs d u (argc + d) u (call_cclosure env a argc)
  unfolding call_cclosure
  Runs-call_cclosure d u a argc =
      Runs-framed d u (argc + d) u argc _ (run_native env a argc) _ (Stays-run_native a argc)
        λ ret. search (runs_rules, Stays-ok_unless_error)

  Calls-call_object :
      (d u a argc : ℕ) (tag : ObjType) (overload : M N (Unit {0}))
      → Calls d u (argc + d) u overload
      → Calls d u (argc + d) u (call_object env tag a argc overload)
  unfolding call_object
  Calls-call_object d u a argc ObjType.closure overload h = Calls-call_closure d u a argc
  Calls-call_object d u a argc ObjType.c_closure overload h =
      Calls-Runs d u (argc + d) u _ (Runs-call_cclosure d u a argc)
  Calls-call_object d u a argc tag overload h = h

  Calls-call_value :
      (d u argc : ℕ) (v : Value N) (overload : M N (Unit {0}))
      → Calls d u (argc + d) u overload
      → Calls d u (argc + d) u (call_value env v argc overload)
  unfolding call_value
  Calls-call_value d u argc (object o) overload h =
      Calls-call_object d u o.addr argc o.tag overload h
  Calls-call_value d u argc v overload h = h

  -- A call replaces the function and its arguments by the result, or leaves a frame whose result
  -- will take their place.
  pub Calls-op_call :
      (fuel d u argc : ℕ) (v : Value N)
      → argc + fuel < 256
      → Calls d u (argc + d) u (op_call env fuel v argc)
  unfolding AfterCall or_no_fuel op_call
  Calls-op_call zero d u argc v less = record { at = λ vm n e. tt }
  Calls-op_call (suc fuel) d u argc v less =
      let bound : argc + 1 < 256 = omega (arith, less) in
      Calls-then (gets _) _ (Stays-gets _) λ frame_count. Calls-if _ _ _ Calls-error (
        Calls-call_value d u argc v _ (
          Calls-then (make_string env _) _ (Stays-make_string env _) λ name.
            Calls-then (get_field env v name) _ (Stays-get_field env v name) λ func.
              Calls-then (ensure_slots 1) _ (Stays-ensure_slots 1) λ _.
                Calls-bind (insert_below (argc + 1) func) _ (Runs-insert_below d u (argc + 1) func)
                  λ _.
                    Calls-same d (suc u) d (suc u) ((argc + 1) + d) (suc u) (argc + d) u _ refl
                      (omega arith)
                      (rw (mod-eq_of_lt bound)
                        (Calls-op_call fuel d (suc u) (argc + 1) func (omega (arith, less))))))

  -- Where native functions leave the stack and the frames, a call that returns, of any value with
  -- fewer than 256 arguments and `__call` members to follow, leaves as many frames and a stack that
  -- is lower by the number of the arguments, or one new frame, whose base is so many values and one
  -- below the top before.
  pub op_call-effect :
      (fuel argc : ℕ) (v : Value N) (vm vm' : Vm N)
      → argc + fuel < 256
      → op_call env fuel v argc vm ≡ ok tt vm'
      → ((length vm'.stack + argc ≡ length vm.stack) × (length vm'.frames ≡ length vm.frames))
        ⊎ ((base_slot vm'.frames + 1 + argc ≡ length vm.stack)
            × (length vm'.frames ≡ suc (length vm.frames)))
  unfolding AfterCall
  op_call-effect fuel argc v vm vm' less e =
      let after = rw e at ((Calls-op_call fuel 0 0 argc v less).at vm (length vm.stack) refl) in
      ground arith
