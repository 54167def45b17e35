-- ===== src/Compiler/Emit.antt =====
-- Emitting and patching bytecode: src/syntax/block.cpp and src/syntax/compiler.cpp.
-- A block's code is a list of bytes, since operands are stored as opcodes.
use bad_snap.Common.{
  ℕ, zero, suc, ◌+◌, ◌-◌, ◌*◌, ◌/◌, ◌%◌, ◌^◌, Bool, true, List, [], ◌∷◌, ◌++◌, ◌==◌, ltb, leb,
  if◌then◌else◌, length, get_or, set,
}
use bad_snap.Common.Int.{ℤ, ◌+ℤ◌, ltb_ℤ}
use bad_snap.Opcode.{
  Opcode, op_num, op_stack_effect, between, pop, index_no_pop, load_const, table_get_no_pop,
  set_var, call_func, make_func, jmp, jmp_back, for_loop, no_op,
}

-- A `Block`, with what the compiler keeps beside it: the running and the largest stack size, the
-- error flag, and the line of the current token. The constants are of any type.
pub record Emitter (V : Type 0) : Type 0 where
  pub code : List ℕ
  pub constant_pool : List V
  pub lines : List ℕ
  pub stack_size : ℤ
  pub max_stack_size : ℤ
  pub has_error : Bool
  pub line : ℕ

abbrev pub max_local_vars : ℕ
max_local_vars = 255

abbrev pub uint16_max : ℕ
uint16_max = 65535

module _ {V : Type 0} where
  abbrev pub op_count : Emitter V → ℕ
  op_count b = length b.code

  unfoldable pub add_instruction : ℕ → ℕ → Emitter V → Emitter V
  add_instruction op line b = record b { code = b.code ++ op ∷ []; lines = b.lines ++ line ∷ [] }

  -- `add_value` with the index that it returns.
  unfoldable pub add_value : V → Emitter V → ℕ × Emitter V
  add_value v b = (length b.constant_pool, record b { constant_pool = b.constant_pool ++ v ∷ [] })

  -- `error`: only the flag is kept of the report.
  unfoldable pub error : Emitter V → Emitter V
  error b = record b { has_error = true }

  -- `emit(op, token)`, which leaves the stack size as it is
  unfoldable pub emit_at : Opcode → ℕ → Emitter V → Emitter V
  unfolding add_instruction op_num
  emit_at op line b = add_instruction (op_num op) line b

  -- `emit(op)`
  unfoldable pub emit : Opcode → Emitter V → Emitter V
  unfolding emit_at op_stack_effect ◌+ℤ◌
  emit op b =
      let size = b.stack_size +ℤ op_stack_effect op in
      let most = if ltb_ℤ b.max_stack_size size then size else b.max_stack_size in
      emit_at op b.line (record b { stack_size = size; max_stack_size = most })

  unfoldable pub emit_arg : ℕ → Emitter V → Emitter V
  unfolding add_instruction
  emit_arg operand b = add_instruction (operand % 256) b.line b

  unfoldable pub emit_with_arg : Opcode → ℕ → Emitter V → Emitter V
  unfolding emit emit_arg
  emit_with_arg op arg b = emit_arg arg (emit op b)

  -- `emit(a, b)`
  unfoldable pub emit_two : Opcode → Opcode → Emitter V → Emitter V
  unfolding emit_at
  emit_two a b e = emit_at b e.line (emit_at a e.line e)

  unfoldable pub emit_value : V → Emitter V → ℕ × Emitter V
  unfolding add_value error
  emit_value v b =
      let (index, b') = add_value v b in (index, if leb max_local_vars index then error b' else b')

  unfoldable pub emit_jump : Opcode → Emitter V → ℕ × Emitter V
  unfolding emit emit_arg
  emit_jump op b = (op_count b + 1, emit_arg 255 (emit_arg 255 (emit op b)))

  abbrev pub set_code : ℕ → ℕ → Emitter V → Emitter V
  set_code i byte b = record b { code = set b.code i byte }

  -- The two bytes of a jump's distance, the high one first.
  unfoldable pub patch_short : ℕ → ℕ → Emitter V → Emitter V
  patch_short index dist b =
      set_code (index + 1) (dist % 256) (set_code index (dist / 2 ^ 8 % 256) b)

  -- The distances are `u32`.
  unfoldable pub patch_jump : ℕ → Emitter V → Emitter V
  unfolding patch_short error
  patch_jump index b =
      let jump_dist = (op_count b + 2 ^ 64 - index - 2) % 2 ^ 32 in
      if ltb uint16_max jump_dist then error b else patch_short index jump_dist b

  unfoldable pub patch_backwards_jump : ℕ → ℕ → Emitter V → Emitter V
  unfolding patch_short error
  patch_backwards_jump index dst_index b =
      let distance = (index + 2 ^ 64 - dst_index + 2) % 2 ^ 32 in
      if ltb uint16_max distance then error b else patch_short index distance b

-- How many operand bytes `op_arity` takes the instruction at an index to have.
unfoldable pub op_arity : List ℕ → ℕ → ℕ
unfolding op_num
op_arity code op_index =
    let op = get_or code op_index 0 in
    if op == op_num make_func
    then 1 + get_or code (op_index + 1) 0 * 2
    else if between pop index_no_pop op
    then 0
    else if between set_var call_func op
    then 1
    else if between load_const table_get_no_pop op
    then 1
    else 2

pub data LoopType : Type 0 where
  for_type while_type : LoopType

pub record Loop : Type 0 where
  pub loop_type : LoopType
  pub start : ℕ
  pub scope_depth : ℕ

abbrev pub continue_op : LoopType → Opcode
continue_op while_type = jmp_back
continue_op for_type = for_loop

module _ {V : Type 0} where
  -- The rounds of `exit_loop` from index `i` on. A placeholder followed by a zero is a `break`.
  unfoldable pub patch_placeholders : ℕ → Loop → ℕ → ℕ → Emitter V → Emitter V
  unfolding op_num op_arity patch_jump patch_backwards_jump
  patch_placeholders zero loop n_ops i b = b
  patch_placeholders (suc fuel) loop n_ops i b =
      let patched =
        if get_or b.code i 0 == op_num no_op
        then (if get_or b.code (i + 1) 0 == 0
            then patch_jump (i + 1) (set_code i (op_num jmp) b)
            else patch_backwards_jump (i + 1) loop.start
                (set_code i (op_num (continue_op loop.loop_type)) b))
        else b in
      let rest = patch_placeholders fuel loop n_ops (i + (op_arity patched.code i + 1)) patched in
      if ltb i n_ops then rest else b

  unfoldable pub exit_loop : Opcode → Loop → Emitter V → Emitter V
  unfolding emit_jump patch_backwards_jump patch_placeholders
  exit_loop op_loop loop b =
      let n_ops = op_count b in
      let (back_jmp, b₁) = emit_jump op_loop b in
      let b₂ = patch_backwards_jump back_jmp loop.start b₁ in
      patch_placeholders (suc n_ops) loop n_ops loop.start b₂
