-- ===== src/Runtime/Effect/Containers.antt =====
use bad_snap.Common.{Option, [], arith, none, refl, some, suc, ℕ, ◌∷◌}
use bad_snap.Runtime.Effect.Closures.{Stays-fill_list}
use bad_snap.Value.{ObjType, Value, object}
use bad_snap.Runtime.Subscript.{set_field_of_udata}
use bad_snap.Runtime.Variables.{addr_of}
use bad_snap.Runtime.Machine.{peek, runtime_error}
use bad_snap.Runtime.Effect.Objects.{
  Stays-concatenate, Stays-get_member, Stays-get_subscript, Stays-index_proto, Stays-make_table,
  Stays-of_access, Stays-of_heap_access, Stays-set_member,
}
use bad_snap.Runtime.Containers.{
  assigned, concat_op, get_member_of, index_no_pop_op, list_append_op, method_of, new_list_op,
  new_table_op, prep_method_call_op, set_field, subscript_get_op, subscript_set_op,
  table_add_field_op, table_get_no_pop_op, table_get_op, table_set_op,
}
use bad_snap.Runtime.Effect.{After, Runs, Runs-Stays, Runs-error, Runs-option, Runs-then, Stays}
use bad_snap.Runtime.Effect.Steps.{Runs-then_pop, Stays-peek, Stays-poke, runs_rules}
use bad_snap.Runtime.Objects.{Env, concatenate, get_member, hash_in, index_proto}
use bad_snap.Runtime.Access.{
  done, Access, Heap, cut_off, failed, get_field_of_udata, interned, past_end,
}

-- How far the instructions on strings, lists, tables and user data of src/runtime/vm.cpp move the top
-- of the stack.

module _ {N : Type 0} (env : Env N) where
  pub Runs-concat_op : (d u : ℕ) → Runs d u (suc d) u (concat_op env)
  unfolding concat_op
  Runs-concat_op d u = Runs-then (peek 2) _ (Stays-peek 2) λ a. Runs-then_pop _ λ b.
      Runs-option (addr_of ObjType.string a) _ _ (Runs-error (suc d) u (suc d) u) λ l.
        Runs-option (addr_of ObjType.string b) _ _ (Runs-error (suc d) u (suc d) u) λ r.
          Runs-then (concatenate env l r) _ (Stays-concatenate env l r)
            λ s. Runs-Stays (suc d) u _ (Stays-poke 1 s)

  pub Runs-new_list_op : (d u : ℕ) → Runs d u d (suc u) (new_list_op env)
  unfolding new_list_op
  Runs-new_list_op d u = search runs_rules

  pub Runs-list_append_op : (d u : ℕ) → Runs d u (suc d) u (list_append_op env)
  unfolding list_append_op
  Runs-list_append_op d u = Runs-then (peek 2) _ (Stays-peek 2) λ vlist.
      Runs-option (addr_of ObjType.list vlist) _ _ (Runs-error d u (suc d) u)
        λ a. Runs-then_pop _ λ v. Runs-Stays (suc d) u _ (Stays-fill_list a (v ∷ []))

  pub Runs-new_table_op : (d u : ℕ) → Runs d u d (suc u) (new_table_op env)
  unfolding new_table_op
  Runs-new_table_op d u = search (runs_rules, Stays-make_table)

  pub Runs-table_add_field_op : (d u : ℕ) → Runs d u (suc (suc d)) u (table_add_field_op env)
  unfolding table_add_field_op
  Runs-table_add_field_op d u = search (runs_rules, Stays-set_member) depth 9

  Stays-assigned : (rhs : Value N) (a : Access (Heap N)) → Stays (assigned env rhs a)
  unfolding After assigned
  Stays-assigned rhs (done h) = record { at = λ vm. (refl, refl) }
  Stays-assigned rhs failed = record { at = λ vm. (refl, refl) }
  Stays-assigned rhs (interned text) = record { at = λ vm. tt }
  Stays-assigned rhs past_end = record { at = λ vm. tt }
  Stays-assigned rhs cut_off = record { at = λ vm. tt }

  pub Runs-subscript_set_op : (d u : ℕ) → Runs d u (suc (suc d)) u (subscript_set_op env)
  unfolding subscript_set_op
  Runs-subscript_set_op d u = search (runs_rules, Stays-assigned) depth 9

  Stays-set_field : (v key value : Value N) → Stays (set_field env v key value)
  unfolding After set_field runtime_error
  Stays-set_field (object o) key value = record {
    at = λ vm. ground (
      arith,
      (Stays-set_member env o.addr key value).at vm,
      (Stays-of_heap_access env (
            set_field_of_udata env.fl (hash_in env vm) vm.heap (vm.heap.user_data o.addr) key
              value)).at
          vm,
    );
  }
  Stays-set_field v key value = record { at = λ vm. tt }

  pub Runs-table_set_op : (d u : ℕ) → Runs d u (suc d) u (table_set_op env)
  unfolding table_set_op
  Runs-table_set_op d u = search (runs_rules, Stays-set_field) depth 12

  Stays-get_member_of : (v key : Value N) → Stays (get_member_of env v key)
  unfolding After get_member_of runtime_error
  Stays-get_member_of (object o) key = record {
    at = λ vm. ground (
      arith,
      (Stays-get_member env o.addr key).at vm,
      (Stays-of_access env (
            get_field_of_udata env.fl (hash_in env vm) env.depth vm.heap (vm.heap.user_data o.addr)
              key)).at
          vm,
    );
  }
  Stays-get_member_of v key = record { at = λ vm. tt }

  pub Stays-table_get_op : Stays (table_get_op env)
  unfolding table_get_op
  Stays-table_get_op = search (runs_rules, Stays-get_member_of) depth 9

  pub Runs-table_get_no_pop_op : (d u : ℕ) → Runs d u d (suc u) (table_get_no_pop_op env)
  unfolding table_get_no_pop_op
  Runs-table_get_no_pop_op d u = search (runs_rules, Stays-get_member_of) depth 9

  pub Runs-subscript_get_op : (d u : ℕ) → Runs d u (suc d) u (subscript_get_op env)
  unfolding subscript_get_op
  Runs-subscript_get_op d u = search (runs_rules, Stays-get_subscript) depth 9

  pub Runs-index_no_pop_op : (d u : ℕ) → Runs d u d (suc u) (index_no_pop_op env)
  unfolding index_no_pop_op
  Runs-index_no_pop_op d u = search (runs_rules, Stays-get_subscript) depth 9

  method_found :
      (o : Option ℕ) (v key : Value N)
      → Stays {N = N} {A = Value N}
          (elim o [ some a ↦ get_member env a key | none ↦ index_proto env v key ])
  method_found none v key = Stays-index_proto env v key
  method_found (some a) v key = Stays-get_member env a key

  Stays-method_of : (v key : Value N) → Stays (method_of env v key)
  unfolding method_of
  Stays-method_of v key = method_found (addr_of ObjType.table v) v key

  pub Runs-prep_method_call_op : (d u : ℕ) → Runs d u d (suc u) (prep_method_call_op env)
  unfolding prep_method_call_op
  Runs-prep_method_call_op d u = search (runs_rules, Stays-method_of) depth 12
