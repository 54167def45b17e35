-- ===== src/Tests/Running.antt =====
-- Instructions and calls on small states of the machine: src/runtime/vm.cpp.
use bad_snap.Runtime.Interning.{Interned, make_string-Interned}
use bad_snap.Runtime.Effect.{Stays-pure}
use bad_snap.Runtime.NativeCalls.{op_call-native}
use bad_snap.Runtime.Returns.{push_callframe-return_op}
use bad_snap.Runtime.Subscript.{get_field_of_value}
use bad_snap.Runtime.Effect.Natives.{HostKeeps, op_call-effect}
use bad_snap.Runtime.Endless.{CallsItself, op_call-endless}
use bad_snap.Opcode.{Opcode, op_stack_effect}
use bad_snap.Runtime.Run.{enter_script, execute, invoke_script, run}
use bad_snap.Runtime.Objects.{Env, hash_in, object_at, create_new_string}
use bad_snap.Runtime.Control.{return_op}
use bad_snap.Runtime.OpenUpvalues.{ascending, at_slot, find_open}
use bad_snap.Runtime.Effect.Calls.{base_slot}
use bad_snap.Runtime.Strings.{find_string, hash_cstring}
use bad_snap.Table.Hash.{hash_value}
use bad_snap.Runtime.Machine.{CallFrame, Vm, no_fuel, ok, pure}
use bad_snap.Runtime.Errors.{
  div_op-quotient, invoke_script-capture_slot, quotient, subscript_set-out_of_range,
}
use bad_snap.Common.{
  inr, codes, List, [], arith, codes, false, none, refl, some, true, ℕ, ◌+◌, ◌∷◌, ◌≡◌, ◌⊎◌, length,
  length,
}
use bad_snap.Runtime.Variables.{capture_slot}
use bad_snap.Runtime.Effect.Opcodes.{execute-op_stack_effect, lifts, lowers, has_fixed_effect}
use bad_snap.Runtime.Calls.{op_call, push_callframe}
use bad_snap.Value.{Obj, ObjType, Value, bool, nil, num, object, same_tag, value_eq}
use bad_snap.Table.{Entry, Table, empty_table}
use bad_snap.Runtime.Access.{Heap}
use bad_snap.Tests.Members.{protos}
use bad_snap.Tests.Tables.{nat_floats, nat_floats-FloatLaws}
use bad_snap.Runtime.Machine.{finished}
use bad_snap.Table.Methods.{empty_table-IsValid}

abbrev pub env : Env ℕ
env = record { fl = nat_floats; protos = protos; depth = 8; native = λ f argc. pure (some nil) }

env-HostKeeps : HostKeeps env
env-HostKeeps = record { native = λ f argc. Stays-pure (some nil) }

-- The name of the member `__call` is the string at 5, and the table at 7 calls itself.
abbrev call_entry : Value ℕ → Entry ℕ
call_entry v = record {
  key = object_at ObjType.string 5;
  value = v;
  hash = hash_cstring (codes "__call");
  probe_distance = 0;
}

abbrev one_entry : Value ℕ → Table ℕ
one_entry v = record {
  proto_table = none;
  entries = call_entry v ∷ [];
  num_entries = 1;
  num_tombstones = 0;
}

abbrev pub heap : Heap ℕ
heap = record {
  tables = λ a. one_entry (object_at ObjType.table 7);
  lists = λ a. record { capacity = 8; values = [] };
  strings = λ a. codes "__call";
  user_data = λ a. record { indexer = none; proto = none };
}

abbrev script_frame : CallFrame
script_frame = record { func = record { tag = ObjType.closure; addr = 1 }; ip = 0; base = 0 }

abbrev pub with_stack : List (Value ℕ) → Vm ℕ
with_stack values = record {
  stack = values;
  size = 16;
  frames = script_frame ∷ [];
  ip = 4;
  block = 0;
  cells = at_slot 1 ∷ [];
  open_upvals = record { slot = 1; cell = 0 } ∷ [];
  heap = heap;
  closures = λ a. record { codeblock = 0; upvals = [] };
  codeblocks = λ a. record {
    code = [];
    constant_pool = [];
    num_params = 1;
    is_variadic = false;
    max_stack_size = 4;
  };
  c_closures = λ a. a;
  next = 20;
  interned_strings = one_entry (bool true);
  global_vars = λ name. none;
  has_error = false;
}

abbrev two_numbers : Vm ℕ
two_numbers = with_stack (num 2 ∷ num 6 ∷ [])

add_runs : execute env Opcode.add two_numbers ≡ ok tt (with_stack (num 8 ∷ []))
unfolding run
add_runs = refl

execute-op_stack_effect_example :
    ((1 + lowers (op_stack_effect Opcode.add) ≡ 2 + lifts (op_stack_effect Opcode.add))
      × (length two_numbers.frames ≡ 1))
    ⊎ ((0 + 1 + lowers (op_stack_effect Opcode.add) ≡ 2 + lifts (op_stack_effect Opcode.add))
        × (length two_numbers.frames ≡ 2))
unfolding base_slot has_fixed_effect
execute-op_stack_effect_example =
    execute-op_stack_effect env env-HostKeeps (omega arith) Opcode.add two_numbers
      (with_stack (num 8 ∷ [])) refl add_runs

-- The frame of the closure at 9, called with one argument from the script.
abbrev callee : Obj
callee = record { tag = ObjType.closure; addr = 9 }

abbrev calling : Vm ℕ
calling = with_stack (num 3 ∷ object callee ∷ num 1 ∷ [])

abbrev called : Vm ℕ
called = record calling {
  size = 16;
  frames = record { func = callee; ip = 0; base = 1 } ∷ record script_frame { ip = 4 } ∷ [];
  ip = 0;
}

pushed : push_callframe callee 1 calling ≡ ok tt called
unfolding push_callframe same_tag
pushed = refl

op_called : op_call env 8 (object callee) 1 calling ≡ ok tt called
unfolding run
op_called = refl

op_call-effect_example :
    ((3 + 1 ≡ 3) × (length called.frames ≡ 1)) ⊎ ((1 + 1 + 1 ≡ 3) × (length called.frames ≡ 2))
unfolding base_slot has_fixed_effect
op_call-effect_example =
    op_call-effect env env-HostKeeps 8 1 (object callee) calling called (omega arith) op_called

abbrev returning : Vm ℕ
returning = record called { stack = num 5 ∷ num 3 ∷ object callee ∷ num 1 ∷ [] }

push_callframe-return_op_example :
    (vm₃ : Vm ℕ) × (return_op returning ≡ ok tt vm₃)
    × (vm₃.stack ≡ num 5 ∷ num 1 ∷ [])
    × (vm₃.ip ≡ 4)
    × (vm₃.frames ≡ record script_frame { ip = 4 } ∷ [])
    × (vm₃.block ≡ calling.block)
push_callframe-return_op_example =
    push_callframe-return_op calling called returning script_frame [] callee 1 (num 5)
      (num 3 ∷ object callee ∷ []) (num 1 ∷ []) refl refl pushed refl refl refl (omega arith) refl

div_op-quotient_example :
    execute env Opcode.div (with_stack (num 2 ∷ num 6 ∷ []))
    ≡ quotient env (with_stack (num 2 ∷ num 6 ∷ [])) 6 2 []
div_op-quotient_example = div_op-quotient env (with_stack (num 2 ∷ num 6 ∷ [])) 6 2 [] refl

abbrev assigning : Vm ℕ
assigning = with_stack (num 1 ∷ num 2 ∷ object (record { tag = ObjType.list; addr = 1 }) ∷ [])

subscript_set-out_of_range_example :
    execute env Opcode.subscript_set assigning
    ≡ ok tt (record assigning { stack = nil ∷ []; has_error = true })
subscript_set-out_of_range_example =
    subscript_set-out_of_range env assigning 1 2 (num 1) [] refl (inr refl)

abbrev restarted : Vm ℕ
restarted = record two_numbers {
  stack = object_at ObjType.closure 1 ∷ [];
  frames = script_frame ∷ [];
  ip = 0;
}

restarts : invoke_script 1 two_numbers ≡ ok tt restarted
unfolding run invoke_script enter_script
restarts = refl

invoke_script-capture_slot_example :
    (vm'' : Vm ℕ) × (capture_slot 1 restarted ≡ ok 0 vm'')
    × (vm''.open_upvals ≡ record { slot = 1; cell = 0 } ∷ [])
unfolding ascending find_open
invoke_script-capture_slot_example =
    invoke_script-capture_slot 1 1 0 two_numbers restarted refl refl restarts

seven-CallsItself : CallsItself env 7 5 (with_stack (object_at ObjType.table 7 ∷ []))
unfolding find_string hash_cstring get_field_of_value hash_value value_eq
seven-CallsItself = record { key = refl; member = refl }

op_call-endless_example :
    op_call env 1000 (object_at ObjType.table 7) 0 (with_stack (object_at ObjType.table 7 ∷ []))
    ≡ no_fuel
op_call-endless_example =
    op_call-endless env 1000 7 5 0 (with_stack (object_at ObjType.table 7 ∷ [])) seven-CallsItself
      (omega arith) (omega arith)

-- The script `3 + 4`, its result left on the stack.
abbrev adding : Vm ℕ
adding = record (with_stack (object_at ObjType.closure 1 ∷ [])) {
  ip = 0;
  open_upvals = [];
  codeblocks = λ a. record {
    code = 0 ∷ 0 ∷ 0 ∷ 1 ∷ 14 ∷ 39 ∷ [];
    constant_pool = num 3 ∷ num 4 ∷ [];
    num_params = 0;
    is_variadic = false;
    max_stack_size = 4;
  };
}

script_finishes :
    run env 4 adding ≡ finished (num 7) (record adding { stack = num 7 ∷ []; frames = []; ip = 6 })
unfolding run
script_finishes = refl

abbrev no_strings : Vm ℕ
no_strings = record two_numbers { interned_strings = empty_table }

make_string-Interned_example : (a : ℕ) × (vm' : Vm ℕ) × Interned env (codes "ab") no_strings vm' a
make_string-Interned_example =
    make_string-Interned env (codes "ab") no_strings nat_floats-FloatLaws
      (empty_table-IsValid nat_floats (hash_in env (create_new_string (codes "ab") no_strings)))

-- The script calls a native function, the object at 9, with one argument.
abbrev native : Obj
native = record { tag = ObjType.c_closure; addr = 9 }

abbrev calling_native : Vm ℕ
calling_native = with_stack (num 3 ∷ object native ∷ num 1 ∷ [])

abbrev in_native : Vm ℕ
in_native = record calling_native {
  frames = record { func = native; ip = 0; base = 1 } ∷ record script_frame { ip = 4 } ∷ [];
  ip = 0;
}

native_pushed : push_callframe native 1 calling_native ≡ ok tt in_native
unfolding push_callframe same_tag
native_pushed = refl

native_ran : env.native 9 1 in_native ≡ ok (some nil) in_native
unfolding run
native_ran = refl

op_call-native_example :
    (vm' : Vm ℕ) × (op_call env 8 (object native) 1 calling_native ≡ ok tt vm')
    × (vm'.stack ≡ nil ∷ num 1 ∷ [])
    × (vm'.ip ≡ 4)
    × (vm'.frames ≡ record script_frame { ip = 4 } ∷ [])
    × (vm'.block ≡ 0)
    × (vm'.heap ≡ heap)
op_call-native_example =
    op_call-native env 7 9 calling_native in_native in_native script_frame [] nil (object native)
      (num 3 ∷ []) (num 1 ∷ []) refl refl refl refl native_pushed native_ran refl refl refl refl
