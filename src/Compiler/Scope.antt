-- ===== src/Compiler/Scope.antt =====
-- Blocks and the locals that they leave behind: src/syntax/compiler.cpp.
use bad_snap.Common.{
  ℕ, zero, suc, ◌+◌, ◌-◌, ◌<◌, ◌≡◌, refl, sym, ap, ◌∙◌, inl, inr, List, [], ◌∷◌, ◌++◌, ◌==◌, leb,
  ==_iff, Bool-cases, if◌then◌else◌, length, arith, append_nil, leb→le, append_assoc,
}
use bad_snap.Common.Int.{ℤ, pos, negsuc, ◌+ℤ◌}
use bad_snap.Opcode.{Opcode, pop, close_upval, no_op, op_num, op_stack_effect}
use bad_snap.Compiler.Emit.{Emitter, emit, emit_at, add_instruction, emit_jump, set_code}
use bad_snap.Compiler.Symbols.{LocalVar, SymbolTable}

unfoldable pub enter_block : SymbolTable → SymbolTable
enter_block t = record t { scope_depth = t.scope_depth + 1 }

-- The instruction that drops a local.
unfoldable pub drop_op : LocalVar → Opcode
drop_op v = if v.is_captured then close_upval else pop

module _ {V : Type 0} where
  -- The loop of `exit_block`.
  unfoldable pub exit_locals : ℕ → List LocalVar → Emitter V → List LocalVar × Emitter V
  unfolding drop_op
  exit_locals depth [] b = ([], b)
  exit_locals depth (v ∷ vs) b =
      let rest = exit_locals depth vs (emit (drop_op v) b) in
      if v.depth == depth then rest else (v ∷ vs, b)

  unfoldable pub exit_block : SymbolTable → Emitter V → SymbolTable × Emitter V
  unfolding exit_locals
  exit_block t b =
      let (symbols, b') = exit_locals t.scope_depth t.symbols b in
      (record t { symbols = symbols; scope_depth = t.scope_depth - 1 }, b')

  -- The loop of `discard_loop_locals`, which keeps the symbols.
  unfoldable pub discard_locals : ℕ → List LocalVar → Emitter V → Emitter V
  unfolding drop_op
  discard_locals depth [] b = b
  discard_locals depth (v ∷ vs) b =
      let rest = discard_locals depth vs (emit (drop_op v) b) in
      if leb v.depth depth then b else rest

  unfoldable pub discard_loop_locals : ℕ → SymbolTable → Emitter V → Emitter V
  unfolding discard_locals
  discard_loop_locals depth t b = discard_locals depth t.symbols b

  -- The jumps of `break` and `continue`.
  unfoldable pub break_jump : ℕ → SymbolTable → Emitter V → Emitter V
  unfolding discard_loop_locals emit_jump
  break_jump depth t b =
      let (jmp, b') = emit_jump no_op (discard_loop_locals depth t b) in set_code jmp 0 b'

  unfoldable pub continue_jump : ℕ → SymbolTable → Emitter V → Emitter V
  unfolding discard_loop_locals emit_jump
  continue_jump depth t b = let (jmp, b') = emit_jump no_op (discard_loop_locals depth t b) in b'

-- The code that drops locals, the newest first.
-- A captured one is closed, and any other popped.
unfoldable pub drop_code : List LocalVar → List ℕ
drop_code [] = []
drop_code (v ∷ vs) = (if v.is_captured then op_num close_upval else op_num pop) ∷ drop_code vs

num-drop_op :
    (v : LocalVar) → op_num (drop_op v) ≡ (if v.is_captured then op_num close_upval else op_num pop)
unfolding drop_op
num-drop_op v = elim (Bool-cases v.is_captured) [ inl c ↦ rw c refl | inr c ↦ rw c refl ]

-- Locals that all stand at a depth, and a symbol list whose newest symbol stands below it.
unfoldable pub AtDepth : ℕ → List LocalVar → Type 0
AtDepth depth [] = Unit
AtDepth depth (v ∷ vs) = (v.depth ≡ depth) × AtDepth depth vs

unfoldable pub Deeper : ℕ → List LocalVar → Type 0
Deeper depth [] = Unit
Deeper depth (v ∷ vs) = (depth < v.depth) × Deeper depth vs

unfoldable pub HeadBelow : ℕ → List LocalVar → Type 0
HeadBelow depth [] = Unit
HeadBelow depth (v ∷ vs) = v.depth < depth

-- One value off an integer, and one more back.
back_again : (a : ℤ) (n : ℕ) → (a +ℤ negsuc 0) +ℤ pos (suc n) ≡ a +ℤ pos n
unfolding ◌+ℤ◌
back_again (pos zero) n = ground arith
back_again (pos (suc m)) n = ground arith
back_again (negsuc m) n = ground arith

add_suc : (a : ℤ) (n : ℕ) → a +ℤ pos (suc n) ≡ (a +ℤ pos n) +ℤ pos 1
unfolding ◌+ℤ◌
add_suc (pos m) n = ground arith
add_suc (negsuc m) n = ground arith

module _ {V : Type 0} where
  code-emit : (op : Opcode) (b : Emitter V) → (emit op b).code ≡ b.code ++ op_num op ∷ []
  unfolding emit emit_at add_instruction
  code-emit op b = refl

  exit_locals_lem :
      (depth : ℕ) (locals outer : List LocalVar) (b : Emitter V)
      → AtDepth depth locals
      → HeadBelow depth outer
      → ((exit_locals depth (locals ++ outer) b).0 ≡ outer)
        × ((exit_locals depth (locals ++ outer) b).1.code ≡ b.code ++ drop_code locals)
  unfolding exit_locals drop_code AtDepth HeadBelow
  exit_locals_lem depth [] [] b locals_at below = (refl, sym (append_nil b.code))
  exit_locals_lem depth [] (v ∷ vs) b locals_at below = (
    ground (arith, ==_iff v.depth depth),
    ground (arith, ==_iff v.depth depth, append_nil b.code),
  )
  exit_locals_lem depth (v ∷ vs) outer b (here, rest) below =
      let (left, code) = exit_locals_lem depth vs outer (emit (drop_op v) b) rest below in
      let e = code-emit (drop_op v) b in
      (
        ground (arith, left, ==_iff v.depth depth),
        ground (
          arith,
          ==_iff v.depth depth,
          code,
          e,
          num-drop_op v,
          append_assoc b.code (op_num (drop_op v) ∷ []) (drop_code vs),
        ),
      )

  -- Each of the two instructions takes one value off the stack.
  size-emit-drop :
      (v : LocalVar) (b : Emitter V) → (emit (drop_op v) b).stack_size ≡ b.stack_size +ℤ negsuc 0
  unfolding emit emit_at add_instruction op_stack_effect drop_op
  size-emit-drop v b = elim (Bool-cases v.is_captured) [
    | inl captured ↦ ground arith
    | inr free ↦ ground arith
  ]

  exit_locals-size :
      (depth : ℕ) (symbols : List LocalVar) (b : Emitter V)
      → let (left, b') = exit_locals depth symbols b in
        b'.stack_size +ℤ pos (length symbols) ≡ b.stack_size +ℤ pos (length left)
  unfolding exit_locals
  exit_locals-size depth [] b = refl
  exit_locals-size depth (v ∷ vs) b = elim (Bool-cases (v.depth == depth)) [
    | inr other ↦ ground (arith, other)
    | inl here ↦
        let rest = exit_locals depth vs (emit (drop_op v) b) in
        let more = ap (◌+ℤ pos 1) (exit_locals-size depth vs (emit (drop_op v) b)) in
        ground (
          arith,
          here,
          more,
          size-emit-drop v b,
          add_suc rest.1.stack_size (length vs),
          add_suc (emit (drop_op v) b).stack_size (length rest.0),
          back_again b.stack_size (length rest.0),
        )
  ]

  discard_locals_lem :
      (depth : ℕ) (locals outer : List LocalVar) (b : Emitter V)
      → Deeper depth locals
      → HeadBelow (depth + 1) outer
      → (discard_locals depth (locals ++ outer) b).code ≡ b.code ++ drop_code locals
  unfolding discard_locals drop_code Deeper HeadBelow
  discard_locals_lem depth [] [] b deeper below = sym (append_nil b.code)
  discard_locals_lem depth [] (v ∷ vs) b deeper below =
      ground (arith, leb→le v.depth depth, append_nil b.code)
  discard_locals_lem depth (v ∷ vs) outer b (here, rest) below =
      let code = discard_locals_lem depth vs outer (emit (drop_op v) b) rest below in
      let e = code-emit (drop_op v) b in
      ground (
        arith,
        code,
        e,
        num-drop_op v,
        append_assoc b.code (op_num (drop_op v) ∷ []) (drop_code vs),
      )

  -- Where the newest locals all stand at the current depth and the symbols under them below it,
  -- leaving the block keeps just the symbols under them, appends one instruction for each of these
  -- locals, the newest first, `close_upval` for a captured one and `pop` for any other, and takes as
  -- many values off the compiler's stack size.
  pub exit_block_lem :
      (t : SymbolTable) (locals outer : List LocalVar) (b : Emitter V)
      → t.symbols ≡ locals ++ outer
      → AtDepth t.scope_depth locals
      → HeadBelow t.scope_depth outer
      → let (t', b') = exit_block t b in
        (t'.symbols ≡ outer)
        × (b'.code ≡ b.code ++ drop_code locals)
        × (b'.stack_size +ℤ pos (length t.symbols) ≡ b.stack_size +ℤ pos (length outer))
  unfolding exit_block
  exit_block_lem t locals outer b e locals_at below =
      let (left, code) = exit_locals_lem t.scope_depth locals outer b locals_at below in
      let same = ap (λ symbols. exit_locals t.scope_depth symbols b) e in
      let size = exit_locals-size t.scope_depth t.symbols b in
      (ground (arith, left, same), ground (arith, code, same), ground (arith, size, left, same))

  -- Where the newest locals stand deeper than a loop and the symbols under them do not, what stands
  -- before a jump out of it is one instruction for each of these locals, the newest first,
  -- `close_upval` for a captured one and `pop` for any other.
  pub discard_loop_locals_lem :
      (depth : ℕ) (t : SymbolTable) (locals outer : List LocalVar) (b : Emitter V)
      → t.symbols ≡ locals ++ outer
      → Deeper depth locals
      → HeadBelow (depth + 1) outer
      → (discard_loop_locals depth t b).code ≡ b.code ++ drop_code locals
  unfolding discard_loop_locals
  discard_loop_locals_lem depth t locals outer b e deeper below =
      ap (λ symbols. (discard_locals depth symbols b).code) e
      ∙ discard_locals_lem depth locals outer b deeper below
