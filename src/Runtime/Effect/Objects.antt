-- ===== src/Runtime/Effect/Objects.antt =====
-- The actions on objects of src/runtime/vm.cpp leave the stack and the frames.
use bad_snap.Value.{Value, nil}
use bad_snap.Runtime.Access.{Access, Heap, cut_off, done, failed, interned, past_end}
use bad_snap.Runtime.Objects.{
  Env, concatenate, create_new_string, get_field, get_global, get_member, get_subscript,
  index_proto, intern_new, make_string, make_table, of_access, of_heap_access, set_global,
  set_member,
}
use bad_snap.Runtime.Machine.{M, Vm, pure, runtime_error, gets}
use bad_snap.Common.{ℕ, Option, none, some, List, refl, arith, ◌++◌}
use bad_snap.Runtime.Effect.{After, Stays, Stays-pure, Stays-bind, Stays-gets}
use bad_snap.Runtime.Effect.Steps.{stays_rules}

module _ {N : Type 0} where
  pub Stays-set_global : (name : ℕ) (v : Value N) → Stays (set_global name v)
  unfolding After set_global
  Stays-set_global name v = record { at = λ vm. (refl, refl) }

  pub Stays-get_global : (name : ℕ) → Stays {N = N} (get_global name)
  unfolding get_global
  Stays-get_global name = search stays_rules

module _ {N : Type 0} (env : Env N) where
  pub Stays-make_table : Stays (make_table env)
  unfolding After make_table
  Stays-make_table = record { at = λ vm. (refl, refl) }

  Stays-intern_new : (text : List ℕ) → Stays (intern_new env text)
  unfolding After intern_new create_new_string
  Stays-intern_new text = record { at = λ vm. ground arith }

  pub Stays-make_string : (text : List ℕ) → Stays (make_string env text)
  unfolding After make_string
  Stays-make_string text = record { at = λ vm. ground (arith, (Stays-intern_new text).at vm) }

  pub Stays-concatenate : (l r : ℕ) → Stays (concatenate env l r)
  unfolding concatenate
  Stays-concatenate l r = record {
    at = λ vm. (Stays-make_string (vm.heap.strings l ++ vm.heap.strings r)).at vm;
  }

  pub Stays-of_access : (a : Access (Value N)) → Stays (of_access env a)
  unfolding After of_access runtime_error
  Stays-of_access (done v) = record { at = λ vm. (refl, refl) }
  Stays-of_access (interned text) = record { at = λ vm. (Stays-make_string text).at vm }
  Stays-of_access failed = record { at = λ vm. tt }
  Stays-of_access past_end = record { at = λ vm. tt }
  Stays-of_access cut_off = record { at = λ vm. tt }

  pub Stays-of_heap_access : (a : Access (Heap N)) → Stays (of_heap_access env a)
  unfolding After of_heap_access runtime_error
  Stays-of_heap_access (done h) = record { at = λ vm. (refl, refl) }
  Stays-of_heap_access (interned text) = record { at = λ vm. tt }
  Stays-of_heap_access failed = record { at = λ vm. tt }
  Stays-of_heap_access past_end = record { at = λ vm. tt }
  Stays-of_heap_access cut_off = record { at = λ vm. tt }

  -- An action that looks at the state first.
  pub Stays-look :
      {A B : Type 0} (f : Vm N → A) (m : A → M N B)
      → ((a : A) → Stays (m a))
      → Stays (λ vm. m (f vm) vm)
  Stays-look f m h = record { at = λ vm. (h (f vm)).at vm }

  pub Stays-get_subscript : (v i : Value N) → Stays (get_subscript env v i)
  unfolding get_subscript
  Stays-get_subscript v i = Stays-look _ (of_access env) Stays-of_access

  pub Stays-get_field : (v k : Value N) → Stays (get_field env v k)
  unfolding get_field
  Stays-get_field v k = Stays-look _ (of_access env) Stays-of_access

  pub Stays-get_member : (a : ℕ) (k : Value N) → Stays (get_member env a k)
  unfolding get_member
  Stays-get_member a k = Stays-look _ (of_access env) Stays-of_access

  pub Stays-set_member : (a : ℕ) (k v : Value N) → Stays (set_member env a k v)
  unfolding set_member
  Stays-set_member a k v = Stays-look _ (of_heap_access env) Stays-of_heap_access

  proto_member :
      (o : Option ℕ) (key : Value N)
      → Stays {N = N} {A = Value N} (elim o [ none ↦ pure nil | some a ↦ get_member env a key ])
  proto_member none key = Stays-pure nil
  proto_member (some a) key = Stays-get_member a key

  pub Stays-index_proto : (v k : Value N) → Stays (index_proto env v k)
  unfolding index_proto
  Stays-index_proto v k = Stays-bind (gets _) _ (Stays-gets _) λ proto. proto_member proto k

  pub ruleset object_rules = (
    Stays-set_global, Stays-get_global, Stays-make_table, Stays-make_string, Stays-concatenate,
    Stays-get_subscript, Stays-get_field, Stays-get_member, Stays-set_member, Stays-index_proto,
  )
