-- ===== src/Compiler/Parser/Suffixes.antt =====
-- Arguments, assignments, primary expressions and suffixes: src/syntax/compiler.cpp.
use bad_snap.Common.{
  ℕ, ◌%◌, Bool, true, false, Option, none, some, List, [], ◌∷◌, codes, if◌then◌else◌, ltb,
}
use bad_snap.Opcode.{Opcode}
use bad_snap.Token.{TokenType, same_type, is_literal}
use bad_snap.Compiler.Emit.{error, emit, emit_arg, emit_with_arg}
use bad_snap.Compiler.Operators.{toktype_to_op}
use bad_snap.Compiler.Parser.{
  Literals, P, ◌>>=◌, ◌>>◌, pure, edit, peek_type, token_type, check_token, advance, match_token,
  expect,
}
use bad_snap.Compiler.Parser.Functions.{
  Rule, func_expr, expr_rule, suffix_rule, array_rule, table_rule, args_rule,
}
use bad_snap.Compiler.Parser.Names.{emit_id_string, literal, resolve}

module _ {V : Type 0} (source : List ℕ) (lit : Literals V) (rec : Rule → P V (Unit {0})) where
  -- `argc` arguments are compiled, and the call follows.
  unfoldable pub finish_args : ℕ → P V (Unit {0})
  finish_args argc = do
    expect source TokenType.rparen
    edit (emit_with_arg Opcode.call_func (argc % 256))

  unfoldable pub compile_args : Bool → P V (Unit {0})
  compile_args is_method = do
    advance source
    let argc = if is_method then 1 else 0
    empty ← check_token TokenType.rparen
    if empty then finish_args argc else rec (args_rule argc)

  -- The right side of an assignment whose token is next. A plain one is an expression, and another
  -- one loads the old value first.
  unfoldable pub assign_rhs : P V (Unit {0}) → P V (Unit {0})
  assign_rhs load_old = do
    advance source
    type ← token_type
    if same_type type TokenType.eq
        then rec expr_rule
        else load_old >> rec expr_rule >> edit (emit (toktype_to_op type))

  -- A field's index 0 is left out, where the code tests `idx > 0`.
  unfoldable pub table_assign : Opcode → Option ℕ → P V (Unit {0})
  table_assign get_op none = assign_rhs (edit (emit get_op))
  table_assign get_op (some idx) =
      assign_rhs (edit (emit get_op) >> (if ltb 0 idx then edit (emit_arg idx) else pure tt))

  unfoldable pub var_assign : Opcode → ℕ → P V (Unit {0})
  var_assign get_op index = assign_rhs (edit (emit_with_arg get_op (index % 256)))

  unfoldable pub variable : Bool → P V (Unit {0})
  variable can_assign = do
    (get_op, set_op, index, is_const) ← resolve source lit
    if can_assign
        then ((if is_const then edit error else pure tt)
            >> var_assign get_op index
            >> edit (emit_with_arg set_op (index % 256)))
        else edit (emit_with_arg get_op (index % 256))

  unfoldable pub named_func : P V (Unit {0})
  named_func = do
    paren ← check_token TokenType.lparen
    if paren then pure tt else expect source TokenType.id
    func_expr source lit rec (codes "<anonymous>") false false

  unfoldable pub table : P V (Unit {0})
  table = do
    edit (emit Opcode.new_table)
    empty ← match_token source TokenType.rcurl_brace
    if empty then pure tt else rec table_rule

  unfoldable pub array : P V (Unit {0})
  array = do
    edit (emit Opcode.new_list)
    empty ← match_token source TokenType.rsq_brace
    if empty then pure tt else rec array_rule

  unfoldable pub unexpected : P V (Unit {0})
  unexpected = edit error >> advance source

  -- `primary` behind the test for a literal, one `match` after the other.
  unfoldable pub primary_from : List (TokenType × P V (Unit {0})) → P V (Unit {0})
  primary_from [] = unexpected
  primary_from ((type, parse_it) ∷ others) = do
    found ← match_token source type
    if found then parse_it else primary_from others

  unfoldable pub primary : P V (Unit {0})
  primary = do
    type ← peek_type
    if is_literal type
        then literal source lit
        else primary_from (
            (TokenType.fn_kw, named_func)
            ∷ (TokenType.id, variable false)
            ∷ (TokenType.lcurl_brace, table)
            ∷ (TokenType.lsq_brace, array)
            ∷ (TokenType.div, func_expr source lit rec (codes "<arrow-fn>") false true)
            ∷ [])

  unfoldable pub grouping : P V (Unit {0})
  grouping = do
    paren ← match_token source TokenType.lparen
    if paren then rec expr_rule >> expect source TokenType.rparen else primary

  -- The suffixes that reading an expression and a statement share.
  unfoldable pub subscript_suffix : P V (Unit {0})
  subscript_suffix = do advance source; rec expr_rule; expect source TokenType.rsq_brace

  unfoldable pub field_suffix : P V ℕ
  field_suffix = do
    advance source
    expect source TokenType.id
    index ← emit_id_string source lit
    pure (index % 256)

  unfoldable pub method_suffix : P V (Unit {0})
  method_suffix = do
    index ← field_suffix
    edit (emit_with_arg Opcode.prep_method_call index)
    compile_args true

  unfoldable pub suffix_of : TokenType → P V (Unit {0})
  suffix_of TokenType.lsq_brace =
      subscript_suffix >> edit (emit Opcode.subscript_get) >> rec suffix_rule
  suffix_of TokenType.lparen = compile_args false >> rec suffix_rule
  suffix_of TokenType.dot = do
    index ← field_suffix
    edit (emit_with_arg Opcode.table_get index)
    rec suffix_rule
  suffix_of TokenType.colon = method_suffix >> rec suffix_rule
  suffix_of _ = pure tt

  unfoldable pub suffix_expr : P V (Unit {0})
  suffix_expr = peek_type >>= suffix_of
