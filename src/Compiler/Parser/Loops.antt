-- ===== src/Compiler/Parser/Loops.antt =====
-- The loops that a function is inside of, with `goto_eof`, `break` and `continue`, of
-- src/syntax/compiler.cpp.
use bad_snap.Common.{ℕ, zero, suc, ◌+◌, ◌*◌, Bool, ◌||◌, none, List, [], ◌∷◌, if◌then◌else◌, length}
use bad_snap.Opcode.{Opcode}
use bad_snap.Token.{TokenType, is_literal, is_unary_op}
use bad_snap.Compiler.Emit.{Emitter, Loop, error, exit_loop, op_count, LoopType}
use bad_snap.Compiler.Scope.{break_jump, continue_jump}
use bad_snap.Compiler.Symbols.{SymbolTable}
use bad_snap.Compiler.Parser.{
  Parser, P, ◌>>=◌, ◌>>◌, pure, gets, or_fault, out_of_fuel, edit, set_loops, at_eof, is_next,
  advance,
}

module _ {V : Type 0} where
  unfoldable pub enter_loop : Loop → P V (Unit {0})
  enter_loop loop = do loops ← gets λ s. s.self.loops; set_loops (loop ∷ loops)

  -- The loop that a `while` or `for` begins at the next instruction.
  unfoldable pub new_loop : LoopType → P V Loop
  new_loop type = gets λ s. record {
    loop_type = type;
    start = op_count s.self.emitter;
    scope_depth = s.self.symtable.scope_depth;
  }

  -- The innermost loop with those around it, which are there yet.
  unfoldable pub innermost : List Loop → P V (Loop × List Loop)
  innermost [] = or_fault none
  innermost (loop ∷ enclosing) = pure (loop, enclosing)

  unfoldable pub leave_loop : Opcode → P V (Unit {0})
  leave_loop op_loop = do
    loops ← gets λ s. s.self.loops
    (loop, enclosing) ← innermost loops
    edit (exit_loop op_loop loop)
    set_loops enclosing

  -- A jump out of the innermost loop, which is an error where there is none.
  unfoldable pub jump_out : (ℕ → SymbolTable → Emitter V → Emitter V) → P V (Unit {0})
  jump_out jump = do
    loops ← gets λ s. s.self.loops
    t ← gets λ s. s.self.symtable
    elim loops [ [] ↦ edit error | loop ∷ enclosing ↦ edit (jump loop.scope_depth t) ]

  abbrev pub starts_expr : Parser V → Bool
  starts_expr s =
      is_literal s.peek.type
      || is_next TokenType.id s
      || is_unary_op s.peek.type
      || is_next TokenType.lparen s
      || is_next TokenType.fn_kw s
      || is_next TokenType.lcurl_brace s
      || is_next TokenType.lsq_brace s

  abbrev pub failed : Parser V → Bool
  failed s = s.self.emitter.has_error

module _ {V : Type 0} (source : List ℕ) where
  -- Each round passes a token, so that the length of the source bounds the rounds.
  unfoldable pub skip_tokens : ℕ → P V (Unit {0})
  skip_tokens zero = out_of_fuel
  skip_tokens (suc rounds) = do
    end ← gets at_eof
    if end then pure tt else advance source >> skip_tokens rounds

  unfoldable pub goto_eof : P V (Unit {0})
  goto_eof = skip_tokens (2 * length source + 4)

  unfoldable pub break_stmt : P V (Unit {0})
  break_stmt = advance source >> jump_out break_jump

  unfoldable pub continue_stmt : P V (Unit {0})
  continue_stmt = advance source >> jump_out continue_jump
