-- ===== src/Runtime/Returns.antt =====
use bad_snap.Value.{ObjType, Obj, Value, same_tag}
use bad_snap.Runtime.Calls.{push_callframe, resume, block_of}
use bad_snap.Runtime.Machine.{CallFrame, Vm, current_frame, gets, ok, pop, push, bind-ok}
use bad_snap.Common.{
  drop, length, length-append, List, [], arith, drop, length, refl, ℕ, ◌++◌, ◌-◌, ◌<◌, ◌∷◌, ◌≡◌,
  leb, lt→ltb, false, leb, true, sym, ◌∙◌,
}
use bad_snap.Runtime.Control.{close_upvals, leave, return_op, truncate}

-- A call and its return: `push_callframe` and the instruction `return_val` of src/runtime/vm.cpp.

module _ {V : Type 0} where
  pub drop-append : (xs ys : List V) → drop (length xs) (xs ++ ys) ≡ ys
  drop-append [] ys = refl
  drop-append (x ∷ xs) ys = drop-append xs ys

  drop_to : (xs ys : List V) → drop (length (xs ++ ys) - length ys) (xs ++ ys) ≡ ys
  drop_to xs ys =
      let e : length (xs ++ ys) - length ys ≡ length xs = omega (arith, length-append xs ys) in
      rw e (drop-append xs ys)

pub tagged :
    (caller : CallFrame)
    → caller.func.tag ≡ ObjType.closure
    → same_tag caller.func.tag ObjType.c_closure ≡ false
unfolding same_tag
tagged caller h = rw h refl

module _ {N : Type 0} where
  truncate_to :
      (vm : Vm N) (base : ℕ) (locals below : List (Value N))
      → vm.stack ≡ locals ++ below
      → base ≡ length below
      → truncate base vm ≡ ok tt (record vm { stack = below })
  unfolding truncate
  truncate_to vm base locals below s b =
      let enough : leb (length below) (length (locals ++ below)) ≡ true =
        ground (arith, length-append locals below) in
      rw b (rw s (rw enough (rw (drop_to locals below) refl)))

  current :
      (vm : Vm N) (frame : CallFrame) (rest : List CallFrame)
      → vm.frames ≡ frame ∷ rest
      → current_frame vm ≡ ok frame vm
  unfolding current_frame
  current vm frame rest f = rw f refl

  push_on :
      (vm : Vm N) (v : Value N)
      → length vm.stack < vm.size
      → push v vm ≡ ok tt (record vm { stack = v ∷ vm.stack })
  unfolding push
  push_on vm v room = rw (lt→ltb (length vm.stack) vm.size room) refl

  pop_from_top :
      (vm : Vm N) (v : Value N) (rest : List (Value N))
      → vm.stack ≡ v ∷ rest
      → pop vm ≡ ok v (record vm { stack = rest })
  unfolding pop
  pop_from_top vm v rest s = rw s refl

  looked :
      (vm : Vm N) (frames : List CallFrame)
      → vm.frames ≡ frames
      → gets (λ vm'. vm'.frames) vm ≡ ok frames vm
  unfolding gets
  looked vm frames f = rw f refl

  leave_to :
      (vm : Vm N) (frame caller : CallFrame) (more : List CallFrame) (result : Value N)
      → same_tag caller.func.tag ObjType.c_closure ≡ false
      → leave result (frame ∷ caller ∷ more) vm
        ≡ ok tt
            (record vm { frames = caller ∷ more; ip = caller.ip; block = block_of vm caller.func })
  unfolding leave resume
  leave_to vm frame caller more result h = rw h refl

  return_op-lands :
      (vm : Vm N) (frame caller : CallFrame) (more : List CallFrame) (result : Value N)
      (locals below : List (Value N))
      → vm.frames ≡ frame ∷ caller ∷ more
      → vm.stack ≡ result ∷ locals ++ below
      → same_tag caller.func.tag ObjType.c_closure ≡ false
      → frame.base ≡ length below
      → length below < vm.size
      → (vm' : Vm N) × (return_op vm ≡ ok tt vm')
        × (vm'.stack ≡ result ∷ below)
        × (vm'.ip ≡ caller.ip)
        × (vm'.frames ≡ caller ∷ more)
        × (vm'.block ≡ block_of vm caller.func)
  unfolding return_op close_upvals
  return_op-lands vm frame caller more result locals below f s h b room = (
    _,
    bind-ok pop _ vm _ result (pop_from_top vm result (locals ++ below) s)
        ∙ bind-ok current_frame _ _ _ frame (current _ frame (caller ∷ more) f)
        ∙ bind-ok (close_upvals frame.base) _ _ _ tt refl
        ∙ bind-ok (truncate frame.base) _ _ _ tt (truncate_to _ frame.base locals below refl b)
        ∙ bind-ok (push result) _ _ _ tt (push_on _ result room)
        ∙ bind-ok (gets (λ vm'. vm'.frames)) _ _ _ _ (looked _ _ f)
        ∙ leave_to _ frame caller more result h,
    refl,
    refl,
    refl,
    refl,
  )

  pub framed :
      (vm vm₁ : Vm N) (caller : CallFrame) (more : List CallFrame) (callee : Obj) (argc : ℕ)
      → vm.frames ≡ caller ∷ more
      → push_callframe callee argc vm ≡ ok tt vm₁
      → vm₁.frames
        ≡ record { func = callee; ip = 0; base = length vm.stack - argc - 1 }
          ∷ record caller { ip = vm.ip }
          ∷ more
  unfolding push_callframe
  framed vm vm₁ caller more callee argc e p = ground arith

  pub block_of-closure :
      (vm : Vm N) (o : Obj)
      → o.tag ≡ ObjType.closure
      → block_of vm o ≡ (vm.closures o.addr).codeblock
  unfolding same_tag
  block_of-closure vm o h = rw h refl

  -- A closure calls a closure: whatever the callee's code did in between, if it left the frames and
  -- the values under the base of its frame, and the caller's closure its code block, `return_val`
  -- puts its result on these values, and the caller goes on behind its call, in its own frame and in
  -- the code block that it called from.
  pub push_callframe-return_op :
      (vm vm₁ vm₂ : Vm N) (caller : CallFrame) (more : List CallFrame) (callee : Obj) (argc : ℕ)
      (result : Value N) (locals below : List (Value N))
      → vm.frames ≡ caller ∷ more
      → caller.func.tag ≡ ObjType.closure
      → push_callframe callee argc vm ≡ ok tt vm₁
      → vm₂.frames ≡ vm₁.frames
      → vm₂.stack ≡ result ∷ locals ++ below
      → length below ≡ length vm.stack - argc - 1
      → length below < vm₂.size
      → (vm₂.closures caller.func.addr).codeblock ≡ vm.block
      → (vm₃ : Vm N) × (return_op vm₂ ≡ ok tt vm₃)
        × (vm₃.stack ≡ result ∷ below)
        × (vm₃.ip ≡ vm.ip)
        × (vm₃.frames ≡ record caller { ip = vm.ip } ∷ more)
        × (vm₃.block ≡ vm.block)
  push_callframe-return_op vm vm₁ vm₂ caller more callee argc result locals below e h p f s l room
        own =
      let (vm₃, ran, stack, ip, frames, block) =
        return_op-lands vm₂ (record { func = callee; ip = 0; base = length vm.stack - argc - 1 })
          (record caller { ip = vm.ip }) more result locals below
          (f ∙ framed vm vm₁ caller more callee argc e p) s (tagged caller h) (sym l) room in
      (vm₃, ran, stack, ip, frames, block ∙ block_of-closure vm₂ caller.func h ∙ own)
