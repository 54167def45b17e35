-- ===== src/Compiler/Parser/Targets.antt =====
-- Expression statements: calls and assignments, of src/syntax/compiler.cpp.
use bad_snap.Common.{ℕ, true, false, not, none, some, List, if◌then◌else◌}
use bad_snap.Opcode.{Opcode}
use bad_snap.Token.{TokenType, same_type, is_literal, is_assign_tok}
use bad_snap.Compiler.Emit.{error, emit, emit_with_arg}
use bad_snap.Compiler.Parser.{
  Literals, P, ◌>>=◌, ◌>>◌, pure, edit, peek_type, check_token, advance, match_token,
}
use bad_snap.Compiler.Parser.Functions.{
  Rule, ExpKind, logic_or_rule, complete_rule, literal_value, prefix_exp, call_exp, append_exp,
  nothing,
}
use bad_snap.Compiler.Parser.Names.{literal}
use bad_snap.Compiler.Parser.Suffixes.{
  variable, compile_args, table_assign, grouping, subscript_suffix, field_suffix, method_suffix,
}

module _ {V : Type 0} (source : List ℕ) (lit : Literals V) (rec : Rule → P V (Unit {0})) where
  unfoldable pub subscript_target : P V (Unit {0})
  subscript_target = do
    subscript_suffix source lit rec
    type ← peek_type
    if is_assign_tok type
        then table_assign source lit rec Opcode.index_no_pop none
          >> edit (emit Opcode.subscript_set)
        else edit (emit Opcode.subscript_get) >> rec (complete_rule prefix_exp)

  unfoldable pub field_target : P V (Unit {0})
  field_target = do
    index ← field_suffix source lit rec
    type ← peek_type
    if is_assign_tok type
        then (table_assign source lit rec Opcode.table_get_no_pop (some index)
            >> edit (emit_with_arg Opcode.table_set index))
        else (edit (emit_with_arg Opcode.table_get index) >> rec (complete_rule prefix_exp))

  -- A call of a literal is an error.
  unfoldable pub call_target : ExpKind → P V (Unit {0})
  call_target literal_value = edit error
  call_target exp_kind = compile_args source lit rec false >> rec (complete_rule call_exp)

  -- Only a call or an append may stand as a statement.
  unfoldable pub end_of_stmt : ExpKind → P V (Unit {0})
  end_of_stmt call_exp = pure tt
  end_of_stmt append_exp = pure tt
  end_of_stmt exp_kind = edit error

  unfoldable pub complete_at : ExpKind → TokenType → P V (Unit {0})
  complete_at exp_kind TokenType.lsq_brace = subscript_target
  complete_at exp_kind TokenType.lparen = call_target exp_kind
  complete_at exp_kind TokenType.dot = field_target
  complete_at exp_kind TokenType.colon =
      method_suffix source lit rec >> rec (complete_rule call_exp)
  complete_at exp_kind TokenType.append =
      advance source
      >> rec logic_or_rule
      >> edit (emit Opcode.list_append)
      >> rec (complete_rule append_exp)
  complete_at exp_kind _ = end_of_stmt exp_kind

  unfoldable pub complete_expr_stmt : ExpKind → P V (Unit {0})
  complete_expr_stmt exp_kind = peek_type >>= complete_at exp_kind

  unfoldable pub prefix_name : P V ExpKind
  prefix_name = do
    type ← peek_type
    if is_assign_tok type
        then variable source lit rec true >> pure nothing
        else variable source lit rec false >> pure prefix_exp

  unfoldable pub prefix_literal : P V ExpKind
  prefix_literal = do
    type ← peek_type
    if not (is_literal type)
        then edit error >> pure literal_value
        else if same_type type TokenType.nil_kw
        then edit error >> pure nothing
        else literal source lit >> pure literal_value

  unfoldable pub prefix : P V ExpKind
  prefix = do
    paren ← check_token TokenType.lparen
    if paren then grouping source lit rec >> pure prefix_exp else (do
      name ← match_token source TokenType.id
      if name then prefix_name else prefix_literal)

  -- A statement that `prefix` has compiled whole ends here; any other leaves a value to drop.
  unfoldable pub expr_stmt_from : ExpKind → P V (Unit {0})
  expr_stmt_from nothing = pure tt
  expr_stmt_from prefix_type = complete_expr_stmt prefix_type >> edit (emit Opcode.pop)

  unfoldable pub expr_stmt : P V (Unit {0})
  expr_stmt = prefix >>= expr_stmt_from
