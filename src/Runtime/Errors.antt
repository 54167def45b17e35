-- ===== src/Runtime/Errors.antt =====
use bad_snap.Runtime.Variables.{capture_slot}
use bad_snap.Runtime.Calls.{ensure_slots}
use bad_snap.Runtime.OpenUpvalues.{ascending, capture_again, capture_upvalue, find_open, capture}
use bad_snap.Opcode.{Opcode}
use bad_snap.Runtime.Subscript.{subscript_set, list_index_set}
use bad_snap.Common.{
  List, arith, ◌⊎◌, inl, inr, if◌then◌else◌, true, ◌∷◌, ◌≡◌, length, Bool, false, length, refl,
  some, ℕ, ◌∙◌, [], ◌+◌,
}
use bad_snap.Runtime.Access.{failed}
use bad_snap.Runtime.Containers.{assigned, subscript_set_op}
use bad_snap.Runtime.Run.{execute, enter_script, invoke_script}
use bad_snap.Runtime.Objects.{Env, hash_in, object_at}
use bad_snap.Runtime.Operators.{both_nums, div_op}
use bad_snap.Value.{ObjType, Value, nil, num, object}
use bad_snap.Runtime.Machine.{
  bind-inv, Outcome, Vm, gets, ok, peek, poke, pop, popn, raised, runtime_error, ◌>>=◌, bind-ok,
  or_fault, push, ◌>>◌,
}

-- What instructions of src/runtime/vm.cpp do where they may fail.

module _ {N : Type 0} where
  top_of :
      (vm : Vm N) (v : Value N) (rest : List (Value N)) → vm.stack ≡ v ∷ rest → peek 1 vm ≡ ok v vm
  unfolding peek or_fault
  top_of vm v rest s = rw s refl

  second_of :
      (vm : Vm N) (v w : Value N) (rest : List (Value N))
      → vm.stack ≡ v ∷ w ∷ rest
      → peek 2 vm ≡ ok w vm
  unfolding peek or_fault
  second_of vm v w rest s = rw s refl

  poke_second :
      (vm : Vm N) (b a q : Value N) (rest : List (Value N))
      → vm.stack ≡ b ∷ a ∷ rest
      → poke 2 q vm ≡ ok tt (record vm { stack = b ∷ q ∷ rest })
  unfolding poke
  poke_second vm b a q rest s = ground (arith, s)

  popn_top :
      (vm : Vm N) (b : Value N) (rest : List (Value N))
      → vm.stack ≡ b ∷ rest
      → popn 1 vm ≡ ok tt (record vm { stack = rest })
  unfolding popn
  popn_top vm b rest s = ground (arith, s)

  divided :
      (by_zero : Bool) (vm : Vm N) (b a q : Value N) (rest : List (Value N))
      → vm.stack ≡ b ∷ a ∷ rest
      → (if by_zero then runtime_error else (poke 2 q >> popn 1)) vm ≡ (
          if by_zero
          then raised (record vm { has_error = true })
          else ok tt (record vm { stack = q ∷ rest }))
  unfolding runtime_error
  divided true vm b a q rest s = refl
  divided false vm b a q rest s =
      bind-ok (poke 2 q) _ vm _ tt (poke_second vm b a q rest s) ∙ popn_top _ b (q ∷ rest) refl

module _ {N : Type 0} (env : Env N) where
  -- What `/` does with two numbers on top of the stack: it fails where the left one is zero, and
  -- only there.
  unfoldable pub quotient : Vm N → N → N → List (Value N) → Outcome N (Unit {0})
  quotient vm a b rest =
      if env.fl.eq a (env.fl.of_nat 0)
      then raised (record vm { has_error = true })
      else ok tt (record vm { stack = num (env.fl.div a b) ∷ rest })

  -- With two numbers on top of the stack, `/` reports a division by zero if and only if the left one,
  -- the dividend, is equal to zero; else it divides, also by zero, and the quotient replaces both.
  pub div_op-quotient :
      (vm : Vm N) (a b : N) (rest : List (Value N))
      → vm.stack ≡ num b ∷ num a ∷ rest
      → execute env Opcode.div vm ≡ quotient vm a b rest
  unfolding quotient execute div_op both_nums
  div_op-quotient vm a b rest s =
      bind-ok (peek 1) _ vm vm (num b) (top_of vm (num b) (num a ∷ rest) s)
      ∙ bind-ok (peek 2) _ vm vm (num a) (second_of vm (num b) (num a) rest s)
      ∙ divided (env.fl.eq a (env.fl.of_nat 0)) vm (num b) (num a) (num (env.fl.div a b)) rest s

  subscript_set-goes_on :
      (vm : Vm N) (lhs key rhs : Value N) (rest : List (Value N))
      → vm.stack ≡ rhs ∷ key ∷ lhs ∷ rest
      → subscript_set env.fl (hash_in env (record vm { stack = lhs ∷ rest })) vm.heap lhs key rhs
        ≡ failed
      → execute env Opcode.subscript_set vm
        ≡ ok tt (record vm { stack = nil ∷ rest; has_error = true })
  unfolding execute subscript_set_op ◌>>=◌ gets pop peek poke assigned
  subscript_set-goes_on vm lhs key rhs rest s f = ground (arith, s, f)

  -- An assignment to a list at a number below zero, or not below the length of the list, does not
  -- stop the run: it sets the flag of an error, changes no object, and goes on with nil as the value
  -- of the assignment.
  pub subscript_set-out_of_range :
      (vm : Vm N) (a : ℕ) (index : N) (rhs : Value N) (rest : List (Value N))
      → vm.stack ≡ rhs ∷ num index ∷ object (record { tag = ObjType.list; addr = a }) ∷ rest
      → (env.fl.lt index (env.fl.of_nat 0) ≡ true)
        ⊎ (env.fl.le (env.fl.of_nat (length (vm.heap.lists a).values)) index ≡ true)
      → execute env Opcode.subscript_set vm
        ≡ ok tt (record vm { stack = nil ∷ rest; has_error = true })
  unfolding subscript_set list_index_set
  subscript_set-out_of_range vm a index rhs rest s out =
      subscript_set-goes_on vm (object (record { tag = ObjType.list; addr = a })) (num index) rhs
        rest s (elim out [ inl below ↦ ground (arith, below) | inr above ↦ ground (arith, above) ])

module _ {N : Type 0} where
  ensure_slots-chain :
      (k : ℕ) (t : Unit) (vm vm' : Vm N)
      → ensure_slots k vm ≡ ok t vm'
      → vm'.open_upvals ≡ vm.open_upvals
  unfolding ensure_slots
  ensure_slots-chain k t vm vm' e = ground arith

  push-chain :
      (v : Value N) (t : Unit) (vm vm' : Vm N)
      → push v vm ≡ ok t vm'
      → vm'.open_upvals ≡ vm.open_upvals
  unfolding push
  push-chain v t vm vm' e = ground arith

  enter_script-chain :
      (script : ℕ) (t : Unit) (vm vm' : Vm N)
      → enter_script script vm ≡ ok t vm'
      → vm'.open_upvals ≡ vm.open_upvals
  unfolding enter_script
  enter_script-chain script t vm vm' e = ground arith

  invoke_script-open_upvals :
      (script : ℕ) (vm vm' : Vm N)
      → invoke_script script vm ≡ ok tt vm'
      → vm'.open_upvals ≡ vm.open_upvals
  unfolding invoke_script ◌>>=◌ gets
  invoke_script-open_upvals script vm vm' e =
      let slots = (vm.codeblocks (vm.closures script).codeblock).max_stack_size in
      let (t₁, vm₁, grew, rest₁) =
        bind-inv (ensure_slots (slots + 1)) _ (record vm { stack = [] }) vm' tt e in
      let (t₂, vm₂, pushed, entered) =
        bind-inv (push (object_at ObjType.closure script)) _ (record vm₁ { has_error = false }) vm'
          tt rest₁ in
      enter_script-chain script tt vm₂ vm' entered
      ∙ push-chain _ t₂ (record vm₁ { has_error = false }) vm₂ pushed
      ∙ ensure_slots-chain _ t₁ (record vm { stack = [] }) vm₁ grew

  capture_known :
      (slot c : ℕ) (vm : Vm N)
      → capture slot (length vm.cells) vm.open_upvals ≡ (c, vm.open_upvals)
      → (vm'' : Vm N) × (capture_slot slot vm ≡ ok c vm'') × (vm''.open_upvals ≡ vm.open_upvals)
  unfolding capture_slot capture_upvalue
  capture_known slot c vm e = rw e (_, refl, ground arith)

  -- A script that starts after an error keeps the open upvalues of the script before it, though the
  -- stack is cleared: what a closure of the new script captures at a slot is the variable that a
  -- closure of the old one capture_known there.
  pub invoke_script-capture_slot :
      (script slot c : ℕ) (vm vm' : Vm N)
      → ascending vm.open_upvals ≡ true
      → find_open slot vm.open_upvals ≡ some c
      → invoke_script script vm ≡ ok tt vm'
      → (vm'' : Vm N) × (capture_slot slot vm' ≡ ok c vm'') × (vm''.open_upvals ≡ vm.open_upvals)
  invoke_script-capture_slot script slot c vm vm' up found e =
      let kept = invoke_script-open_upvals script vm vm' e in
      let again =
        capture_again slot (length vm'.cells) c vm'.open_upvals (rw kept up) (rw kept found) in
      let (vm'', ran, equal) = capture_known slot c vm' again in (vm'', ran, equal ∙ kept)
