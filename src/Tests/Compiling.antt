-- ===== src/Tests/Compiling.antt =====
-- The compiler's back end on small functions: src/syntax/compiler.cpp.
use bad_snap.Common.{
  ◌↔◌, ◌+◌, ◌<◌, ℕ, ◌≡◌, ◌≢◌, ◌++◌, refl, Bool, true, false, Option, some, List, [], ◌∷◌, arith,
  codes, replicate, length-replicate,
}
use bad_snap.Common.Int.{pos, ◌+ℤ◌}
use bad_snap.Opcode.{make_func}
use bad_snap.Compiler.Emit.{op_count, Emitter, op_arity, patch_jump, patch_backwards_jump}
use bad_snap.Compiler.Jumps.{
  jump_target, jump_back_target, PatchedAt, patch_jump-jump_target, patch_jump-has_error,
  patch_backwards_jump-jump_back_target,
}
use bad_snap.Compiler.Arity.{bytes, op_arity-make_func}
use bad_snap.Compiler.Names.{Declared, new_variable_lem}
use bad_snap.Compiler.Symbols.{
  LocalVar, SymbolTable, find_upvalue, find, find_in, names_equal, add_upvalue, find_upval,
  capture_at, symbol_at, with_parents, new_variable,
}
use bad_snap.Compiler.Upvalues.{
  resolved, binding, find_upvalue-binding, find_upvalue_total, HaveRoom,
}
use bad_snap.Compiler.Scope.{
  exit_block, discard_loop_locals, drop_code, AtDepth, HeadBelow, Deeper, exit_block_lem,
  discard_loop_locals_lem,
}

-- A block of one forward jump over four bytes.
abbrev block : List ℕ → Emitter ℕ
block code = record {
  code = code;
  constant_pool = [];
  lines = [];
  stack_size = pos 3;
  max_stack_size = pos 3;
  has_error = false;
  line = 1;
}

abbrev jump_over : Emitter ℕ
jump_over = block (50 ∷ 255 ∷ 255 ∷ 7 ∷ 7 ∷ 7 ∷ 7 ∷ [])

patch_jump-jump_target_example :
    (jump_target (patch_jump 1 jump_over).code 1 ≡ 7)
    × PatchedAt 1 jump_over (patch_jump 1 jump_over)
patch_jump-jump_target_example =
    patch_jump-jump_target 1 jump_over (omega arith) (omega arith) (omega arith)

patch_backwards_jump-jump_back_target_example :
    (jump_back_target (patch_backwards_jump 5 2 jump_over).code 5 ≡ 2)
    × PatchedAt 5 jump_over (patch_backwards_jump 5 2 jump_over)
patch_backwards_jump-jump_back_target_example =
    patch_backwards_jump-jump_back_target 5 2 jump_over (omega arith) (omega arith) (omega arith)

abbrev far : Emitter ℕ
far = block (replicate 65540 0)

patch_jump-has_error_example :
    (((patch_jump 1 far).has_error ≡ true) ↔ (1 + 2 + 65535 < op_count far))
    × (((patch_jump 1 far).has_error ≡ true) → (patch_jump 1 far).code ≡ far.code)
    × (((patch_jump 1 far).has_error ≡ false)
        → jump_target (patch_jump 1 far).code 1 ≡ op_count far)
patch_jump-has_error_example =
    patch_jump-has_error 1 far (omega (arith, length-replicate {A = ℕ} 65540 0))
      (omega (arith, length-replicate {A = ℕ} 65540 0)) refl

op_arity-make_func_example :
    op_arity ([] ++ bytes (record { op = make_func; operands = 3 ∷ 0 ∷ [] }) ++ (7 ∷ [])) 0 ≢ 2
op_arity-make_func_example = op_arity-make_func [] (7 ∷ []) (3 ∷ 0 ∷ []) 0 refl

abbrev local : List ℕ → ℕ → Bool → LocalVar
local name depth is_captured = record {
  name = name;
  depth = depth;
  is_const = false;
  is_captured = is_captured;
}

abbrev table : List LocalVar → SymbolTable
table symbols = record { scope_depth = 1; symbols = symbols; upvals = [] }

-- `fn () { let x; fn () { fn () { x } } }`
abbrev outermost : SymbolTable
outermost = table (local (codes "x") 1 false ∷ local (codes "f") 0 false ∷ [])

abbrev middle : SymbolTable
middle = table (local (codes "g") 0 false ∷ [])

abbrev innermost : SymbolTable
innermost = table []

abbrev captured_outermost : SymbolTable
captured_outermost = table (local (codes "x") 1 true ∷ local (codes "f") 0 false ∷ [])

abbrev with_upval : SymbolTable → ℕ → Bool → SymbolTable
with_upval t index is_local = record t {
  upvals = record { index = index; is_const = false; is_local = is_local } ∷ [];
}

find_upvalue-binding_example :
    resolved
      (some 0)
      (with_upval innermost 0 false)
      (with_upval middle 1 true ∷ captured_outermost ∷ [])
    ≡ binding (codes "x") (middle ∷ outermost ∷ [])
unfolding find_upvalue find find_in names_equal add_upvalue find_upval capture_at symbol_at
    with_parents
find_upvalue-binding_example =
    find_upvalue-binding (codes "x") innermost (with_upval innermost 0 false)
      (middle ∷ outermost ∷ []) (with_upval middle 1 true ∷ captured_outermost ∷ []) (some 0) refl

binding_test : binding (codes "x") (middle ∷ outermost ∷ []) ≡ some (1, 1)
unfolding binding find find_in names_equal
binding_test = refl

have_room : HaveRoom (innermost ∷ middle ∷ outermost ∷ [])
unfolding HaveRoom
have_room = (omega arith, (omega arith, (omega arith, tt)))

find_upvalue_total_example :
    (r : Option ℕ × SymbolTable × List SymbolTable) × (find_upvalue
        (codes "x")
        innermost
        (middle ∷ outermost ∷ [])
      ≡ some r)
find_upvalue_total_example =
    find_upvalue_total (codes "x") innermost (middle ∷ outermost ∷ []) have_room

-- A block at depth 2 with a plain local and a captured one, over a local of depth 1.
abbrev two_locals : List LocalVar
two_locals = local (codes "b") 2 false ∷ local (codes "a") 2 true ∷ []

abbrev one_outer : List LocalVar
one_outer = local (codes "x") 1 false ∷ []

abbrev nested : SymbolTable
nested = record { scope_depth = 2; symbols = two_locals ++ one_outer; upvals = [] }

two_locals-AtDepth : AtDepth 2 two_locals
unfolding AtDepth
two_locals-AtDepth = (refl, (refl, tt))

one_outer-HeadBelow : HeadBelow 2 one_outer
unfolding HeadBelow
one_outer-HeadBelow = omega arith

two_locals-Deeper : Deeper 1 two_locals
unfolding Deeper
two_locals-Deeper = (omega arith, (omega arith, tt))

exit_block_lem_example :
    let (t', b') = exit_block nested jump_over in
    (t'.symbols ≡ one_outer)
    × (b'.code ≡ jump_over.code ++ drop_code two_locals)
    × (b'.stack_size +ℤ pos 3 ≡ pos 3 +ℤ pos 1)
exit_block_lem_example =
    exit_block_lem nested two_locals one_outer jump_over refl two_locals-AtDepth one_outer-HeadBelow

discard_loop_locals_lem_example :
    (discard_loop_locals 1 nested jump_over).code ≡ jump_over.code ++ drop_code two_locals
discard_loop_locals_lem_example =
    discard_loop_locals_lem 1 nested two_locals one_outer jump_over refl two_locals-Deeper
      one_outer-HeadBelow

abbrev with_y : SymbolTable
with_y = table (local (codes "y") 1 false ∷ outermost.symbols)

declare_y : new_variable (codes "y") false outermost ≡ some (some 2, with_y)
unfolding new_variable
declare_y = refl

new_variable_lem_example : Declared (codes "y") 2 outermost with_y
new_variable_lem_example =
    new_variable_lem (codes "y") false outermost with_y 2 (omega arith) declare_y
