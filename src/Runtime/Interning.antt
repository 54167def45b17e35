-- ===== src/Runtime/Interning.antt =====
-- One string for each text: `make_string` of src/runtime/vm.cpp.
use bad_snap.Runtime.Access.{updated}
use bad_snap.Table.Methods.{IsValid}
use bad_snap.Table.Insert.{IsKey}
use bad_snap.Table.Store.{set_entry-get_here}
use bad_snap.Table.{set_entry}
use bad_snap.Table.Hash.{hash_value_congr}
use bad_snap.Runtime.Objects.{intern_new}
use bad_snap.Runtime.Machine.{Vm, ok}
use bad_snap.Table.Hash.{hash_value}
use bad_snap.Runtime.Objects.{object_at, Env, create_new_string, hash_in, make_string, memory}
use bad_snap.Table.{Table}
use bad_snap.Value.{ObjType, Value, same_tag, value_eq, FloatLaws, bool, is_nil, is_undefined}
use bad_snap.Runtime.Strings.{find_string, hash_cstring}
use bad_snap.Common.{
  ==_iff, List, arith, none, refl, some, suc, true, zero, ℕ, ◌≡◌, Option, ◌≢◌, Bool, ap, ◌∙◌,
}
-- One string for each text: `find_string` of src/table.cpp and `make_string` of src/runtime/vm.cpp.
use bad_snap.Runtime.TextSearch.{find_string_sound, find_string_total, found_again}

module _ {N : Type 0} (env : Env N) where
  -- The string at an address with a text, in the state after it was made; it is found again.
  pub record Interned (text : List ℕ) (vm vm' : Vm N) (a : ℕ) : Type 0 where
    pub ran : make_string env text vm ≡ ok (object_at ObjType.string a) vm'
    pub bytes : vm'.heap.strings a ≡ text
    pub others : (c : ℕ) → c ≢ vm.next → vm'.heap.strings c ≡ vm.heap.strings c
    pub once :
        (b : ℕ) × (make_string env text vm' ≡ ok (object_at ObjType.string b) vm')
        × (vm'.heap.strings b ≡ text)

  found_string :
      (text : List ℕ) (vm : Vm N) (a : ℕ)
      → find_string vm.heap.strings vm.interned_strings text (hash_cstring text) ≡ some (some a)
      → make_string env text vm ≡ ok (object_at ObjType.string a) vm
  unfolding make_string
  found_string text vm a h = ground (arith, h)

  hash_string :
      (vm : Vm N) (a depth : ℕ)
      → hash_value env.fl (memory env vm) depth (object_at ObjType.string a)
        ≡ hash_cstring (vm.heap.strings a)
  unfolding hash_value
  hash_string vm a zero = refl
  hash_string vm a (suc depth) = refl

  intern_new_string :
      (text : List ℕ) (vm : Vm N) (r : Bool × Table N)
      → find_string vm.heap.strings vm.interned_strings text (hash_cstring text) ≡ some none
      → set_entry env.fl
          (hash_in env (create_new_string text vm))
          (create_new_string text vm).interned_strings
          (object_at ObjType.string vm.next)
          (bool true)
        ≡ some r
      → make_string env text vm
        ≡ ok
            (object_at ObjType.string vm.next)
            (record (create_new_string text vm) { interned_strings = r.1 })
  unfolding make_string intern_new
  intern_new_string text vm r missing stored = ground (arith, missing, stored)

  new_bytes : (text : List ℕ) (vm : Vm N) → (create_new_string text vm).heap.strings vm.next ≡ text
  unfolding create_new_string updated
  new_bytes text vm = ground (arith, ==_iff vm.next vm.next)

  old_bytes :
      (text : List ℕ) (vm : Vm N) (c : ℕ)
      → c ≢ vm.next
      → (create_new_string text vm).heap.strings c ≡ vm.heap.strings c
  unfolding create_new_string updated
  old_bytes text vm c other = ground (arith, ==_iff c vm.next)

  string-IsKey :
      (hash_value : Value N → ℕ) (a : ℕ) → IsKey env.fl hash_value (object_at ObjType.string a)
  unfolding is_nil is_undefined value_eq same_tag
  string-IsKey hash_value a = record {
    not_nil = refl;
    not_undefined = refl;
    reflexive = ground (arith, ==_iff a a);
  }

  kept_or_made :
      (r : Option ℕ) (text : List ℕ) (vm : Vm N)
      → find_string vm.heap.strings vm.interned_strings text (hash_cstring text) ≡ some r
      → FloatLaws env.fl
      → IsValid env.fl (hash_in env (create_new_string text vm)) vm.interned_strings
      → (a : ℕ) × (vm' : Vm N) × Interned text vm vm' a
  unfolding create_new_string is_nil
  kept_or_made (some a) text vm found laws v =
      let bytes =
        find_string_sound env.fl vm.heap.strings vm.interned_strings text (hash_cstring text) a
          found in
      let ran = found_string text vm a found in
      (a, vm, record { ran = ran; bytes = bytes; others = λ c _. refl; once = (a, ran, bytes) })
  kept_or_made none text vm missing laws v =
      let vm₁ : Vm N = create_new_string text vm in
      let strings : ℕ → List ℕ = vm₁.heap.strings in
      let key : Value N = object_at ObjType.string vm.next in
      let (r, stored, _, reads) =
        set_entry-get_here env.fl (hash_in env vm₁)
          (hash_value_congr env.fl laws (memory env vm₁) env.depth) vm.interned_strings key
          (bool true) v (string-IsKey (hash_in env vm₁) vm.next) refl in
      let vm' : Vm N = record vm₁ { interned_strings = r.1 } in
      let bytes = new_bytes text vm in
      let (b, again) =
        found_again env.fl strings (hash_in env vm₁) r.1 vm.next text (bool true) bytes
          (hash_string vm₁ vm.next env.depth ∙ ap hash_cstring bytes) reads in
      (
        vm.next,
        vm',
        record {
          ran = intern_new_string text vm r missing stored;
          bytes = bytes;
          others = old_bytes text vm;
          once = (
            b,
            found_string text vm' b again,
            find_string_sound env.fl strings r.1 text (hash_cstring text) b again,
          );
        },
      )

  -- Where the interned strings are a well-formed table, `make_string` ends with a string of the
  -- text, changes the bytes of no other string, and when it is called again for the text, finds a
  -- string with it and changes nothing.
  pub make_string-Interned :
      (text : List ℕ) (vm : Vm N)
      → FloatLaws env.fl
      → IsValid env.fl (hash_in env (create_new_string text vm)) vm.interned_strings
      → (a : ℕ) × (vm' : Vm N) × Interned text vm vm' a
  make_string-Interned text vm laws v =
      let (r, found) =
        find_string_total env.fl vm.heap.strings (hash_in env (create_new_string text vm))
          vm.interned_strings text (hash_cstring text) v in
      kept_or_made r text vm found laws v
