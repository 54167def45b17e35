-- ===== src/Runtime/ListCalls.antt =====
-- The functions of lists that scripts call: src/stdlib/vy_list.cpp, with the argument checks of
-- include/util/args.hpp. A function gives `none` where it throws; the text of the exception is
-- left out. `list[i]` is a fault past the entries, as its assertion says.
use bad_snap.Runtime.Access.{updated}
use bad_snap.Runtime.Objects.{Env, object_at}
use bad_snap.Runtime.Calls.{fill_list}
use bad_snap.Runtime.Operators.{as_num}
use bad_snap.Runtime.Run.{call}
use bad_snap.Runtime.Variables.{addr_of}
use bad_snap.Value.{ObjType, Value, has_tag, is_val_truthy, nil, num}
use bad_snap.Runtime.Machine.{
  M, Outcome, Vm, current_frame, fault, finished, gets, make_list, no_fuel, ok, or_fault,
  or_no_fuel, pop, pure, push, raised, read_slot, to_native, ◌>>=◌, ◌>>◌,
}
use bad_snap.Common.{
  ℕ, zero, suc, ◌+◌, ◌||◌, ◌&&◌, get_elem?, length, set, ltb, Bool, Option, [], false, get_elem?,
  if◌then◌else◌, length, ltb, none, set, some, true, ◌==◌, ◌∷◌,
}
use bad_snap.Runtime.Lists
use bad_snap.Runtime.Lists.{ListObj, list_of}

-- `map` and `filter` also protect the new list from the collector while they run, which is left out:
-- the collector does not run between these steps.
module _ {N : Type 0} where
  unfoldable pub get_arg : ℕ → M N (Value N)
  get_arg idx = do frame ← current_frame; read_slot (frame.base + idx + 1)

  -- `if (!cond) throw`, and what follows where it does not throw.
  unfoldable pub or_throw : {A B : Type 0} → Option A → (A → M N (Option B)) → M N (Option B)
  or_throw none f = pure none
  or_throw (some a) f = f a

  -- `args.check`
  unfoldable pub check : {B : Type 0} → Bool → M N (Option B) → M N (Option B)
  check cond m = if cond then m else pure none

  -- `next_arg` where `used` arguments are taken already.
  unfoldable pub next_arg : {B : Type 0} → ℕ → ℕ → (Value N → M N (Option B)) → M N (Option B)
  next_arg used argc f = check (if used == argc then false else true) (get_arg used >>= f)

  -- `next<List>`
  unfoldable pub next_list : {B : Type 0} → ℕ → ℕ → (ℕ → M N (Option B)) → M N (Option B)
  next_list used argc f = next_arg used argc λ arg. or_throw (addr_of ObjType.list arg) f

  -- `next_number`
  unfoldable pub next_number : {B : Type 0} → ℕ → ℕ → (N → M N (Option B)) → M N (Option B)
  next_number used argc f = next_arg used argc λ arg. or_throw (as_num arg) f

  -- `cfn_error` with the return of nil behind it.
  unfoldable pub cfn_error : M N (Option (Value N))
  cfn_error vm = ok (some nil) (record vm { has_error = true })

  abbrev pub list_at : Vm N → ℕ → ListObj (Value N)
  list_at vm a = vm.heap.lists a

  abbrev pub with_list : Vm N → ℕ → ListObj (Value N) → Vm N
  with_list vm a l = record vm { heap = record vm.heap { lists = updated vm.heap.lists a l } }

  unfoldable pub list_length : ℕ → M N ℕ
  list_length a = gets λ vm. length (list_at vm a).values

  unfoldable pub element_at : ℕ → ℕ → M N (Value N)
  element_at a i vm = or_fault (get_elem? (list_at vm a).values i) vm

  unfoldable pub set_element : ℕ → ℕ → Value N → M N (Unit {0})
  set_element a i v vm =
      let l = list_at vm a in
      if ltb i (length l.values)
      then ok tt (with_list vm a (record l { values = set l.values i v }))
      else fault

  unfoldable pub fill_from : ℕ → ℕ → ℕ → Value N → M N (Unit {0})
  fill_from zero i a value = pure tt
  fill_from (suc n) i a value = set_element a i value >> fill_from n (i + 1) a value

  unfoldable pub fill_elements : ℕ → Value N → M N (Option (Value N))
  fill_elements a value = do list_len ← list_length a; fill_from list_len 0 a value; pure (some nil)

  unfoldable pub fill_at : Option ℕ → M N (Option (Value N))
  fill_at none = cfn_error
  fill_at (some a) = get_arg 1 >>= fill_elements a

  unfoldable pub fill : ℕ → M N (Option (Value N))
  fill argc =
      if argc == 2 then get_arg 0 >>= (λ list. fill_at (addr_of ObjType.list list)) else cfn_error

  -- `List.pop`
  unfoldable pub pop_element : ℕ → M N (Option (Value N))
  pop_element a vm = let (v, l) = Lists.pop nil (list_at vm a) in ok (some v) (with_list vm a l)

  unfoldable pub list_pop : ℕ → M N (Option (Value N))
  list_pop argc =
      next_list 0 argc λ a. do count ← list_length a; check (ltb 0 count) (pop_element a)

  unfoldable pub make_sized : Option (ListObj (Value N)) → M N (Option (Value N))
  make_sized none vm = fault
  make_sized (some l) vm =
      ok (some (object_at ObjType.list vm.next))
        (record (with_list vm vm.next l) { next = vm.next + 1 })

  abbrev pub is_function : Value N → Bool
  is_function v = has_tag ObjType.closure v || has_tag ObjType.c_closure v

  -- How a function reads the answer of `vm.call`.
  unfoldable pub succeeded : Outcome N (Unit {0}) → Outcome N Bool
  succeeded (ok _ vm) = ok true vm
  succeeded (raised vm) = ok false vm
  succeeded (finished v vm) = finished v vm
  succeeded (to_native vm) = to_native vm
  succeeded fault = fault
  succeeded no_fuel = no_fuel

-- `fuel` bounds what a call back into the machine runs, and `rounds` the loops whose list may grow.
module _ {N : Type 0} (env : Env N) (fuel : ℕ) where
  abbrev pub called : ℕ → M N Bool
  called argc vm = succeeded (call env fuel argc vm)

  -- `call(2)` with an element and its index; the result of a call that fails is `none`.
  abbrev pub taken : Bool → M N (Option (Value N))
  taken true = pop >>= λ res. pure (some res)
  taken false = pure none

  unfoldable pub call_on : Value N → ℕ → ℕ → M N (Option (Value N))
  call_on vfunc a i = do
    push vfunc
    v ← element_at a i
    push v
    push (num (env.fl.of_nat i))
    called 2 >>= taken

  -- A loop goes on with the result of a call, or ends the function with nil.
  abbrev pub go_on : Option (Value N) → (Value N → M N (Option (Value N))) → M N (Option (Value N))
  go_on none f = pure (some nil)
  go_on (some res) f = f res

  unfoldable pub foreach_from : ℕ → ℕ → ℕ → Value N → M N (Option (Value N))
  foreach_from zero i a vfunc = pure (some nil)
  foreach_from (suc n) i a vfunc = do
    res ← call_on vfunc a i
    go_on res λ _. foreach_from n (i + 1) a vfunc

  unfoldable pub foreach : ℕ → M N (Option (Value N))
  foreach argc =
      next_list 0 argc
        λ a. next_arg 1 argc λ vfunc. do list_len ← list_length a; foreach_from list_len 0 a vfunc

  unfoldable pub map_from : ℕ → ℕ → ℕ → ℕ → Value N → M N (Option (Value N))
  map_from zero i a ret vfunc = or_no_fuel none
  map_from (suc rounds) i a ret vfunc = do
    count ← list_length a
    if ltb i count
        then call_on vfunc a i
          >>= (λ res. go_on res λ v. fill_list ret (v ∷ []) >> map_from rounds (i + 1) a ret vfunc)
        else pure (some (object_at ObjType.list ret))

  unfoldable pub new_list_for : (ℕ → M N (Option (Value N))) → M N (Option (Value N))
  new_list_for f = make_list >>= λ ret. or_fault (addr_of ObjType.list ret) >>= f

  -- `List.map`, with a bound on its rounds.
  unfoldable pub list_map : ℕ → ℕ → M N (Option (Value N))
  list_map rounds argc = next_list 0 argc λ a.
      next_arg 1 argc
        λ vfunc. check (is_function vfunc) (new_list_for λ ret. map_from rounds 0 a ret vfunc)

  unfoldable pub filter_from : ℕ → ℕ → ℕ → ℕ → Value N → M N (Option (Value N))
  filter_from zero i a ret vfunc = or_no_fuel none
  filter_from (suc rounds) i a ret vfunc = do
    count ← list_length a
    if ltb i count
        then call_on vfunc a i >>= (λ res. go_on res λ v.
          (if is_val_truthy v
            then element_at a i >>= (λ kept. fill_list ret (kept ∷ []))
            else pure tt)
          >> filter_from rounds (i + 1) a ret vfunc)
        else pure (some (object_at ObjType.list ret))

  -- `List.filter`
  unfoldable pub list_filter : ℕ → ℕ → M N (Option (Value N))
  list_filter rounds argc = next_list 0 argc λ a.
      next_arg 1 argc
        λ vfunc. check (is_function vfunc) (new_list_for λ ret. filter_from rounds 0 a ret vfunc)

  unfoldable pub reduce_from : ℕ → ℕ → ℕ → Value N → Value N → M N (Option (Value N))
  reduce_from zero i a init vfunc = or_no_fuel none
  reduce_from (suc rounds) i a init vfunc = do
    count ← list_length a
    if ltb i count
        then push vfunc
          >> push init
          >> element_at a i
          >>= (λ v. push v)
          >> push (num (env.fl.of_nat i))
          >> called 3
          >>= taken
          >>= (λ res. go_on res λ v. reduce_from rounds (i + 1) a v vfunc)
        else pure (some init)

  unfoldable pub reduce_at : ℕ → ℕ → Value N → Option ℕ → M N (Option (Value N))
  reduce_at rounds argc vfunc none = cfn_error
  reduce_at rounds argc vfunc (some a) =
      if is_function vfunc
      then (if argc == 3
          then get_arg 2 >>= (λ init. reduce_from rounds 0 a init vfunc)
          else element_at a 0 >>= (λ init. reduce_from rounds 1 a init vfunc))
      else cfn_error

  -- `List.reduce`
  unfoldable pub reduce : ℕ → ℕ → M N (Option (Value N))
  reduce rounds argc =
      if argc == 3 || argc == 2
      then get_arg 0
        >>= (λ list. get_arg 1 >>= λ vfunc. reduce_at rounds argc vfunc (addr_of ObjType.list list))
      else cfn_error

  -- `List.make`
  unfoldable pub list_make : ℕ → M N (Option (Value N))
  list_make argc =
      next_number 0 argc
        λ size. check (ltb 0 (env.fl.to_size size)) (make_sized (list_of nil (env.fl.to_size size)))

  abbrev pub in_range : ℕ → N → Bool
  in_range count index = env.fl.le (env.fl.of_nat 0) index && env.fl.lt index (env.fl.of_nat count)

  abbrev pub slice_of : ℕ → N → N → M N (Option (Value N))
  slice_of a start limit vm =
      make_sized (Lists.slice (env.fl.to_size start) (env.fl.to_size limit) (list_at vm a)) vm

  -- `List.slice`
  unfoldable pub list_slice : ℕ → M N (Option (Value N))
  list_slice argc = next_list 0 argc λ a. next_number 1 argc λ start. next_number 2 argc λ limit. do
    count ← list_length a
    check (in_range count start) (check (in_range count limit) (slice_of a start limit))
