-- ===== src/Runtime/Filling.antt =====
-- What `fill` and `reduce` of src/stdlib/vy_list.cpp do to a list.
use bad_snap.Runtime.Variables.{addr_of}
use bad_snap.Runtime.Objects.{Env, object_at}
use bad_snap.Runtime.Lists.{ListObj}
use bad_snap.Common.{
  ℕ, zero, suc, ◌+◌, ◌≡◌, ◌≢◌, refl, arith, List, [], ◌∷◌, ◌++◌, replicate, length, set, ap, ◌∙◌,
  ltb, true, ==_iff, some,
}
use bad_snap.Runtime.Machine.{Vm, ok, pure, bind-ok, fault, gets, or_fault, ◌>>=◌}
use bad_snap.Runtime.Access.{updated}
use bad_snap.Runtime.ListCalls.{
  fill_from, set_element, list_at, with_list, element_at, fill, fill_at, fill_elements, get_arg,
  is_function, list_length, reduce, reduce_at,
}
use bad_snap.Value.{Value, ObjType, nil, same_tag}

set_behind :
    {A : Type 0} (i : ℕ) (v y : A) (ys : List A)
    → set (replicate i v ++ y ∷ ys) i v ≡ replicate i v ++ v ∷ ys
set_behind zero v y ys = refl
set_behind (suc i) v y ys = ap (λ zs. v ∷ zs) (set_behind i v y ys)

replicate_one_more :
    {A : Type 0} (i : ℕ) (v : A) (ys : List A) → replicate i v ++ v ∷ ys ≡ replicate (i + 1) v ++ ys
replicate_one_more i v ys = pushed i ∙ ap (λ k. replicate k v ++ ys) (one_more i)
  where
    pushed : (i : ℕ) → replicate i v ++ v ∷ ys ≡ replicate (suc i) v ++ ys
    pushed zero = refl
    pushed (suc i) = ap (λ zs. v ∷ zs) (pushed i)

    one_more : (i : ℕ) → suc i ≡ i + 1
    one_more i = omega arith

replicate_end : {A : Type 0} (i : ℕ) (v : A) → replicate i v ++ [] ≡ replicate i v
replicate_end zero v = refl
replicate_end (suc i) v = ap (λ zs. v ∷ zs) (replicate_end i v)

length_behind :
    {A : Type 0} (i : ℕ) (v y : A) (ys : List A) → ltb i (length (replicate i v ++ y ∷ ys)) ≡ true
length_behind zero v y ys = ground arith
length_behind (suc i) v y ys = ground (arith, length_behind i v y ys)

updated_same : {A : Type 0} (f : ℕ → A) (a : ℕ) (v : A) → updated f a v a ≡ v
unfolding updated
updated_same f a v = ground (arith, ==_iff a a)

updated_other : {A : Type 0} (f : ℕ → A) (a b : ℕ) (v : A) → b ≢ a → updated f a v b ≡ f b
unfolding updated
updated_other f a b v other = ground (arith, ==_iff b a, other)

module _ {N : Type 0} where
  -- Every element of a list is `v`, which has as many as before; the other lists and the stack are
  -- as they were.
  pub record Filled (vm : Vm N) (a n : ℕ) (v : Value N) (vm' : Vm N) : Type 0 where
    pub values : (list_at vm' a).values ≡ replicate n v
    pub others : (b : ℕ) → b ≢ a → list_at vm' b ≡ list_at vm b
    pub stack : vm'.stack ≡ vm.stack
    pub frames : vm'.frames ≡ vm.frames

  set_element-with_list :
      (a i : ℕ) (v : Value N) (vm : Vm N)
      → ltb i (length (list_at vm a).values) ≡ true
      → set_element a i v vm
        ≡ ok tt (with_list vm a (record (list_at vm a) { values = set (list_at vm a).values i v }))
  unfolding set_element
  set_element-with_list a i v vm less = ground (arith, less)

  Filled-after :
      (a n : ℕ) (v : Value N) (l : ListObj (Value N)) (vm vm' : Vm N)
      → Filled (with_list vm a l) a n v vm'
      → Filled vm a n v vm'
  Filled-after a n v l vm vm' filled = record {
    values = filled.values;
    others = λ b other. filled.others b other ∙ updated_other vm.heap.lists a b l other;
    stack = filled.stack;
    frames = filled.frames;
  }

  fill_from-Filled :
      (n i a : ℕ) (v : Value N) (ys : List (Value N)) (vm : Vm N)
      → (list_at vm a).values ≡ replicate i v ++ ys
      → length ys ≡ n
      → (vm' : Vm N) × (fill_from n i a v vm ≡ ok tt vm') × Filled vm a (i + n) v vm'
  unfolding fill_from pure
  fill_from-Filled zero i a v [] vm e el = (
    vm,
    refl,
    record {
      values = e ∙ replicate_end i v ∙ ap (λ k. replicate k v) (the_sum i);
      others = λ b other. refl;
      stack = refl;
      frames = refl;
    },
  )
    where
      the_sum : (i : ℕ) → i ≡ i + 0
      the_sum i = omega arith
  fill_from-Filled zero i a v (y ∷ ys) vm e el = absurd (ground arith)
  fill_from-Filled (suc n) i a v [] vm e el = absurd (ground arith)
  fill_from-Filled (suc n) i a v (y ∷ ys) vm e el =
      let inside : ltb i (length (list_at vm a).values) ≡ true =
        ap (λ xs. ltb i (length xs)) e ∙ length_behind i v y ys in
      let l = record (list_at vm a) { values = set (list_at vm a).values i v } in
      let vm1 = with_list vm a l in
      let written : (list_at vm1 a).values ≡ replicate (i + 1) v ++ ys =
        ap (λ l. l.values) (updated_same vm.heap.lists a l)
        ∙ ap (λ xs. set xs i v) e
        ∙ set_behind i v y ys
        ∙ replicate_one_more i v ys in
      let (vm', run, filled) = fill_from-Filled n (i + 1) a v ys vm1 written (omega (arith, el)) in
      (
        vm',
        bind-ok (set_element a i v) _ vm vm1 tt (set_element-with_list a i v vm inside) ∙ run,
        rw (the_sum i n) (Filled-after a (i + 1 + n) v l vm vm' filled),
      )
    where
      the_sum : (i n : ℕ) → i + suc n ≡ i + 1 + n
      the_sum i n = omega arith

  -- `fill` with a list and a value gives every place of the list the value and returns nil; the list
  -- keeps its length, and the other lists, the stack and the frames stay as they were.
  pub fill-Filled :
      (a : ℕ) (v : Value N) (vm : Vm N)
      → get_arg 0 vm ≡ ok (object_at ObjType.list a) vm
      → get_arg 1 vm ≡ ok v vm
      → (vm' : Vm N) × (fill 2 vm ≡ ok (some nil) vm')
        × Filled vm a (length (list_at vm a).values) v vm'
  unfolding fill fill_at fill_elements list_length gets addr_of same_tag pure
  fill-Filled a v vm first second =
      let n = length (list_at vm a).values in
      let (vm', run, filled) = fill_from-Filled n 0 a v (list_at vm a).values vm refl refl in
      (
        vm',
        bind-ok (get_arg 0) _ vm vm (object_at ObjType.list a) first
            ∙ bind-ok (get_arg 1) _ vm vm v second
            ∙ bind-ok (list_length a) _ vm vm n refl
            ∙ bind-ok (fill_from n 0 a v) _ vm vm' tt run,
        rw (the_sum n) filled,
      )
    where
      the_sum : (n : ℕ) → n ≡ 0 + n
      the_sum n = omega arith

module _ {N : Type 0} (env : Env N) (fuel : ℕ) where
  -- `reduce` of an empty list, with a function and no first value, reads past the list's entries.
  pub reduce-empty :
      (rounds a : ℕ) (f : Value N) (vm : Vm N)
      → get_arg 0 vm ≡ ok (object_at ObjType.list a) vm
      → get_arg 1 vm ≡ ok f vm
      → is_function f ≡ true
      → (list_at vm a).values ≡ []
      → reduce env fuel rounds 2 vm ≡ fault
  unfolding reduce reduce_at element_at addr_of same_tag ◌>>=◌ or_fault
  reduce-empty rounds a f vm first second function empty =
      bind-ok (get_arg 0) _ vm vm (object_at ObjType.list a) first
      ∙ bind-ok (get_arg 1) _ vm vm f second
      ∙ ground (arith, function, empty)
