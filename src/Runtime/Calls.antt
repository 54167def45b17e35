-- ===== src/Runtime/Calls.antt =====
-- Calls: `ensure_slots`, the call frames, `op_call` and the overloads of src/runtime/vm.cpp.
use bad_snap.Common.{
  ℕ, zero, suc, ◌+◌, ◌-◌, ◌%◌, ◌^◌, true, ◌||◌, Option, none, some, List, [], ◌∷◌, ◌++◌, ltb, leb,
  if◌then◌else◌, length, take, drop, codes,
}
use bad_snap.Runtime.Access.{updated}
use bad_snap.Runtime.Lists.{ListObj, append}
use bad_snap.Runtime.Machine.{
  CodeBlock, CallFrame, Vm, ok, raised, fault, M, ◌>>=◌, ◌>>◌, pure, gets, or_no_fuel,
  runtime_error, push, popn, poke, make_list,
}
use bad_snap.Runtime.Objects.{Env, make_string, get_field}
use bad_snap.Runtime.PowTwo.{pow2ceil}
use bad_snap.Value.{ObjType, Obj, Value, nil, object, is_nil, same_tag}

abbrev pub max_call_stack : ℕ
max_call_stack = 1024

-- The current frame with its instruction pointer saved.
abbrev pub with_ip : ℕ → List CallFrame → List CallFrame
with_ip ip [] = []
with_ip ip (frame ∷ rest) = record frame { ip = ip } ∷ rest

module _ {N : Type 0} where
  -- `ensure_slots`; the slots keep their numbers when the stack moves.
  unfoldable pub ensure_slots : ℕ → M N (Unit {0})
  ensure_slots requested vm =
      let free = vm.size - length vm.stack in
      let size = pow2ceil ((vm.size + (requested - free) + 1) % 2 ^ 32) in
      if ltb requested free then ok tt vm else ok tt (record vm { size = size })

  -- The block that runs when an object is called.
  abbrev pub block_of : Vm N → Obj → ℕ
  block_of vm o =
      if same_tag o.tag ObjType.closure then (vm.closures o.addr).codeblock else vm.block

  unfoldable pub push_callframe : Obj → ℕ → M N (Unit {0})
  push_callframe callee argc vm =
      let frame : CallFrame = record { func = callee; ip = 0; base = length vm.stack - argc - 1 } in
      if leb (argc + 1) (length vm.stack)
      then ok tt (record vm {
        frames = frame ∷ with_ip vm.ip vm.frames;
        ip = 0;
        block = block_of vm callee;
      })
      else fault

  unfoldable pub resume : List CallFrame → M N (Unit {0})
  resume [] vm = fault
  resume (frame ∷ rest) vm =
      ok tt (record vm { frames = frame ∷ rest; ip = frame.ip; block = block_of vm frame.func })

  unfoldable pub pop_frames : List CallFrame → M N (Unit {0})
  pop_frames [] vm = fault
  pop_frames (frame ∷ rest) vm = resume rest vm

  unfoldable pub pop_callframe : M N (Unit {0})
  pop_callframe vm = pop_frames vm.frames vm

  unfoldable pub push_nils : ℕ → M N (Unit {0})
  push_nils zero = pure tt
  push_nils (suc n) = push nil >> push_nils n

  -- The arguments of a vararg list, oldest first, into the list at an address.
  unfoldable pub append_all : List (Value N) → ListObj (Value N) → Option (ListObj (Value N))
  append_all [] l = some l
  append_all (v ∷ vs) l = elim (append v l) [ none ↦ none | some l' ↦ append_all vs l' ]

  abbrev pub reversed : List (Value N) → List (Value N) → List (Value N)
  reversed [] rest = rest
  reversed (v ∷ vs) rest = reversed vs (v ∷ rest)

  unfoldable pub fill_list : ℕ → List (Value N) → M N (Unit {0})
  fill_list a vs vm = elim (append_all vs (vm.heap.lists a)) [
    | none ↦ fault
    | some l ↦ ok tt (record vm { heap = record vm.heap { lists = updated vm.heap.lists a l } })
  ]

  -- `prep_vararg_call`: the last parameter is a list of the arguments from its place on.
  unfoldable pub prep_vararg_call : ℕ → ℕ → M N (Unit {0})
  prep_vararg_call num_params num_args = do
    let num_varargs = num_args + 1 - num_params
    a ← gets (λ vm. vm.next)
    vararg_list ← make_list
    args ← gets (λ vm. take num_varargs vm.stack)
    fill_list a (reversed args [])
    popn num_varargs
    push vararg_list

  -- The arguments as many as the parameters.
  unfoldable pub adjust_args : CodeBlock N → ℕ → M N (Unit {0})
  adjust_args code num_args =
      if ltb num_args code.num_params
      then push_nils (code.num_params - num_args)
      else if code.is_variadic
      then prep_vararg_call code.num_params num_args
      else popn (num_args - code.num_params)

  unfoldable pub call_closure : ℕ → ℕ → M N (Unit {0})
  call_closure func num_args = do
    code ← gets (λ vm. vm.codeblocks (vm.closures func).codeblock)
    ensure_slots code.max_stack_size
    adjust_args code num_args
    push_callframe (record { tag = ObjType.closure; addr = func }) code.num_params

  -- What a native function returns; an exception is reported, and gives nil.
  unfoldable pub native_result : Option (Value N) → M N (Value N)
  native_result none vm = ok nil (record vm { has_error = true })
  native_result (some v) vm = ok v vm

  unfoldable pub ok_unless_error : M N (Unit {0})
  ok_unless_error vm = if vm.has_error then raised vm else ok tt vm

  -- The shift of the arguments in `call_func_overload`, with the function under them.
  unfoldable pub insert_below : ℕ → Value N → M N (Unit {0})
  insert_below n func vm =
      if leb n (length vm.stack)
      then ok tt (record vm { stack = take n vm.stack ++ func ∷ drop n vm.stack })
      else fault

  module _ (env : Env N) where
    -- The call of the native function itself.
    unfoldable pub run_native : ℕ → ℕ → M N (Value N)
    run_native cclosure argc = do
      c_func ← gets (λ vm. vm.c_closures cclosure)
      returned ← env.native c_func argc
      native_result returned

    unfoldable pub call_cclosure : ℕ → ℕ → M N (Unit {0})
    call_cclosure cclosure argc = do
      push_callframe (record { tag = ObjType.c_closure; addr = cclosure }) argc
      ret ← run_native cclosure argc
      pop_callframe
      popn argc
      poke 1 ret
      ok_unless_error

    -- The functions that `op_call` calls at once, the others being left to an overload.
    unfoldable pub call_object : ObjType → ℕ → ℕ → M N (Unit {0}) → M N (Unit {0})
    call_object ObjType.closure a argc overload = call_closure a argc
    call_object ObjType.c_closure a argc overload = call_cclosure a argc
    call_object tag a argc overload = overload

    unfoldable pub call_value : Value N → ℕ → M N (Unit {0}) → M N (Unit {0})
    call_value (object o) argc overload = call_object o.tag o.addr argc overload
    call_value v argc overload = overload

    -- `op_call` and `call_func_overload`; the fuel bounds how many `__call` members are followed.
    unfoldable pub op_call : ℕ → Value N → ℕ → M N (Unit {0})
    op_call zero value argc = or_no_fuel none
    op_call (suc fuel) value argc =
        let overload : M N (Unit {0}) = (do
          name ← make_string env (codes "__call")
          func ← get_field env value name
          ensure_slots 1
          insert_below (argc + 1) func
          op_call fuel func ((argc + 1) % 2 ^ 8)) in
        do
          frame_count ← gets (λ vm. length vm.frames)
          if is_nil value || leb max_call_stack frame_count
              then runtime_error
              else call_value value argc overload
