-- ===== src/Compiler/Parser/Statements.antt =====
-- Statements: src/syntax/compiler.cpp, from `toplevel` to `ret_stmt`.
use bad_snap.Common.{ℕ, ◌%◌, Bool, false, List, codes, if◌then◌else◌}
use bad_snap.Opcode.{Opcode}
use bad_snap.Token.{TokenType, same_type, raw}
use bad_snap.Compiler.Emit.{
  emit_value, emit, emit_at, emit_with_arg, emit_jump, patch_jump, for_type, while_type,
}
use bad_snap.Compiler.Parser.{
  Literals, P, ◌>>=◌, ◌>>◌, pure, gets, edit, with_index, peek_type, token_type, at_eof, declare,
  advance, match_token, expect, token_text,
}
use bad_snap.Compiler.Parser.Functions.{
  Rule, func_expr, block_stmt, block_rest, open_block, close_block, expr_rule, toplevel_rule,
  declarators_rule, program_rule,
}
use bad_snap.Compiler.Parser.Loops.{
  enter_loop, new_loop, leave_loop, starts_expr, failed, goto_eof, break_stmt, continue_stmt,
}
use bad_snap.Compiler.Parser.Targets.{expr_stmt}

module _ {V : Type 0} (source : List ℕ) (lit : Literals V) (rec : Rule → P V (Unit {0})) where
  unfoldable pub declarator : Bool → P V (Unit {0})
  declarator is_const = do
    expect source TokenType.id
    name ← gets λ s. s.token
    given ← match_token source TokenType.eq
    if given then rec expr_rule else edit (emit_at Opcode.load_nil name.line)
    declare (raw source name) is_const

  unfoldable pub declarators : Bool → P V (Unit {0})
  declarators is_const = do
    declarator is_const
    more ← match_token source TokenType.comma
    if more then rec (declarators_rule is_const) else pure tt

  unfoldable pub var_decl : P V (Unit {0})
  var_decl = do advance source; type ← token_type; declarators (same_type type TokenType.const_kw)

  unfoldable pub else_part : ℕ → P V (Unit {0})
  else_part jmp = do
    else_jmp ← with_index (emit_jump Opcode.jmp)
    edit (patch_jump jmp)
    rec toplevel_rule
    edit (patch_jump else_jmp)

  unfoldable pub if_stmt : P V (Unit {0})
  if_stmt = do
    advance source
    rec expr_rule
    jmp ← with_index (emit_jump Opcode.pop_jmp_if_false)
    rec toplevel_rule
    other ← match_token source TokenType.else_kw
    if other then else_part jmp else edit (patch_jump jmp)

  unfoldable pub while_body : P V (Unit {0})
  while_body = do
    rec expr_rule
    jmp ← with_index (emit_jump Opcode.pop_jmp_if_false)
    rec toplevel_rule
    leave_loop Opcode.jmp_back
    edit (patch_jump jmp)

  unfoldable pub while_stmt : P V (Unit {0})
  while_stmt = do advance source; loop ← new_loop while_type; enter_loop loop; while_body

  unfoldable pub for_step : P V (Unit {0})
  for_step = do
    given ← match_token source TokenType.comma
    if given then rec expr_rule else (do
      idx ← with_index (emit_value lit.one)
      edit (emit_with_arg Opcode.load_const (idx % 256)))

  unfoldable pub for_header : P V ℕ
  for_header = do
    name ← token_text source
    declare (codes "<for-start>") false
    expect source TokenType.eq
    rec expr_rule
    expect source TokenType.comma
    declare (codes "<for-limit>") false
    rec expr_rule
    declare (codes "<for-step>") false
    for_step
    declare name false
    with_index (emit_jump Opcode.for_prep)

  unfoldable pub for_body : ℕ → P V (Unit {0})
  for_body prep_jump = do rec toplevel_rule; edit (patch_jump prep_jump); leave_loop Opcode.for_loop

  unfoldable pub for_rounds : ℕ → P V (Unit {0})
  for_rounds prep_jump = do loop ← new_loop for_type; enter_loop loop; for_body prep_jump

  unfoldable pub for_stmt : P V (Unit {0})
  for_stmt = do
    advance source
    expect source TokenType.id
    open_block
    prep_jump ← for_header
    for_rounds prep_jump
    close_block

  unfoldable pub fn_decl : P V (Unit {0})
  fn_decl = do
    advance source
    expect source TokenType.id
    name ← token_text source
    func_expr source lit rec name false false
    declare name false

  unfoldable pub ret_stmt : P V (Unit {0})
  ret_stmt = do
    advance source
    given ← gets starts_expr
    if given then rec expr_rule else edit (emit Opcode.load_nil)
    edit (emit Opcode.return_val)

  unfoldable pub statement : TokenType → P V (Unit {0})
  statement TokenType.const_kw = var_decl
  statement TokenType.let_kw = var_decl
  statement TokenType.lcurl_brace = block_stmt source lit rec
  statement TokenType.if_kw = if_stmt
  statement TokenType.while_kw = while_stmt
  statement TokenType.for_kw = for_stmt
  statement TokenType.fn_kw = fn_decl
  statement TokenType.return_kw = ret_stmt
  statement TokenType.break_kw = break_stmt source
  statement TokenType.continue_kw = continue_stmt source
  statement _ = expr_stmt source lit rec

  unfoldable pub toplevel : P V (Unit {0})
  toplevel = do
    error_seen ← gets failed
    if error_seen then goto_eof source else pure tt
    end ← gets at_eof
    if end then pure tt else (do
      type ← peek_type
      statement type
      semi ← match_token source TokenType.semi
      pure tt)

  -- A statement with the rest of its block, and one with the rest of the script.
  unfoldable pub statements : P V (Unit {0})
  statements = toplevel >> block_rest source lit rec

  unfoldable pub program_rest : P V (Unit {0})
  program_rest = do end ← gets at_eof; if end then pure tt else rec program_rule

  unfoldable pub program : P V (Unit {0})
  program = toplevel >> program_rest
