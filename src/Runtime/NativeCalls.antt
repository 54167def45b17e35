-- ===== src/Runtime/NativeCalls.antt =====
-- A call of a native function: `op_call` and `call_cclosure` of src/runtime/vm.cpp.
use bad_snap.Common.{
  ℕ, suc, ◌≡◌, refl, ◌∙◌, true, false, some, List, ◌∷◌, ◌++◌, length, length-append, leb, arith,
}
use bad_snap.Value.{ObjType, Obj, Value, object, is_nil}
use bad_snap.Runtime.Machine.{CallFrame, Vm, ok, gets, popn, poke, bind-ok, ◌>>=◌}
use bad_snap.Runtime.Objects.{Env}
use bad_snap.Runtime.Calls.{
  push_callframe, pop_callframe, pop_frames, resume, block_of, native_result, ok_unless_error,
  run_native, call_cclosure, call_object, call_value, op_call, max_call_stack,
}
use bad_snap.Runtime.Returns.{drop-append, framed, block_of-closure}

module _ {N : Type 0} where
  popped :
      (vm : Vm N) (native : CallFrame) (rest : List CallFrame) (caller : CallFrame)
      → vm.frames ≡ native ∷ caller ∷ rest
      → pop_callframe vm
        ≡ ok tt
            (record vm { frames = caller ∷ rest; ip = caller.ip; block = block_of vm caller.func })
  unfolding pop_callframe pop_frames resume
  popped vm native rest caller f = rw f refl

  popn-args :
      (vm : Vm N) (args rest : List (Value N))
      → vm.stack ≡ args ++ rest
      → popn (length args) vm ≡ ok tt (record vm { stack = rest })
  unfolding popn
  popn-args vm args rest s =
      let enough : leb (length args) (length (args ++ rest)) ≡ true =
        ground (arith, length-append args rest) in
      rw s (rw enough (rw (drop-append args rest) refl))

  poke-top :
      (vm : Vm N) (v ret : Value N) (rest : List (Value N))
      → vm.stack ≡ v ∷ rest
      → poke 1 ret vm ≡ ok tt (record vm { stack = ret ∷ rest })
  unfolding poke
  poke-top vm v ret rest s = ground (arith, s)

  calm : (vm : Vm N) → vm.has_error ≡ false → ok_unless_error vm ≡ ok tt vm
  unfolding ok_unless_error
  calm vm fine = rw fine refl

module _ {N : Type 0} (env : Env N) where
  native_ran :
      (vm vm' : Vm N) (a argc : ℕ) (ret : Value N)
      → env.native (vm.c_closures a) argc vm ≡ ok (some ret) vm'
      → run_native env a argc vm ≡ ok ret vm'
  unfolding run_native native_result
  native_ran vm vm' a argc ret ran =
      bind-ok (gets (λ vm. vm.c_closures a)) _ vm vm (vm.c_closures a) (unfold gets in refl)
      ∙ bind-ok (env.native (vm.c_closures a) argc) _ vm vm' (some ret) ran

  called :
      (fuel a argc : ℕ) (vm : Vm N)
      → leb max_call_stack (length vm.frames) ≡ false
      → op_call env (suc fuel) (object (record { tag = ObjType.c_closure; addr = a })) argc vm
        ≡ call_cclosure env a argc vm
  unfolding op_call call_value call_object is_nil gets ◌>>=◌
  called fuel a argc vm room = rw room refl

  -- A script calls a native function with fewer frames than the limit: where the function returns a
  -- value, with no error set, the stack and the frames as it was entered with, and the caller's
  -- closure its code block, the value stands in place of the function and its arguments, and the
  -- caller goes on behind its call, in its own frame and code block, on the heap that the function
  -- left.
  pub op_call-native :
      (fuel a : ℕ) (vm vm₁ vm₂ : Vm N) (caller : CallFrame) (more : List CallFrame)
      (ret func : Value N) (args below : List (Value N))
      → leb max_call_stack (length vm.frames) ≡ false
      → vm.frames ≡ caller ∷ more
      → caller.func.tag ≡ ObjType.closure
      → vm.stack ≡ args ++ func ∷ below
      → push_callframe (record { tag = ObjType.c_closure; addr = a }) (length args) vm ≡ ok tt vm₁
      → env.native (vm₁.c_closures a) (length args) vm₁ ≡ ok (some ret) vm₂
      → vm₂.stack ≡ vm.stack
      → vm₂.frames ≡ vm₁.frames
      → vm₂.has_error ≡ false
      → (vm₂.closures caller.func.addr).codeblock ≡ vm.block
      → (vm' : Vm N) × (op_call env
            (suc fuel)
            (object (record { tag = ObjType.c_closure; addr = a }))
            (length args)
            vm
          ≡ ok tt vm')
        × (vm'.stack ≡ ret ∷ below)
        × (vm'.ip ≡ vm.ip)
        × (vm'.frames ≡ record caller { ip = vm.ip } ∷ more)
        × (vm'.block ≡ vm.block)
        × (vm'.heap ≡ vm₂.heap)
  unfolding call_cclosure
  op_call-native fuel a vm vm₁ vm₂ caller more ret func args below room f h s p ran stack frames
        fine own =
      let callee : Obj = record { tag = ObjType.c_closure; addr = a } in
      (
        _,
        called fuel a (length args) vm room
            ∙ bind-ok (push_callframe callee (length args)) _ vm vm₁ tt p
            ∙ bind-ok (run_native env a (length args)) _ vm₁ vm₂ ret
                (native_ran vm₁ vm₂ a (length args) ret ran)
            ∙ bind-ok pop_callframe _ vm₂ _ tt (
                popped vm₂ _ more (record caller { ip = vm.ip })
                  (frames ∙ framed vm vm₁ caller more callee (length args) f p))
            ∙ bind-ok (popn (length args)) _ _ _ tt (popn-args _ args (func ∷ below) (stack ∙ s))
            ∙ bind-ok (poke 1 ret) _ _ _ tt (poke-top _ func ret below refl)
            ∙ calm _ fine,
        refl,
        refl,
        refl,
        block_of-closure vm₂ caller.func h ∙ own,
        refl,
      )
