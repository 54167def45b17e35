-- ===== src/Compiler/Parser/Levels.antt =====
-- The levels of operators, from `append` down to `unary`, and the rounds of lists, tables and
-- arguments: src/syntax/compiler.cpp.
use bad_snap.Common.{ℕ, ◌+◌, ◌%◌, Bool, true, false, ◌||◌, List, [], ◌∷◌, if◌then◌else◌, ltb}
use bad_snap.Opcode.{Opcode}
use bad_snap.Token.{TokenType, is_unary_op}
use bad_snap.Compiler.Emit.{error, emit_value, emit, emit_at, emit_with_arg, emit_jump, patch_jump}
use bad_snap.Compiler.Operators.{toktype_to_op}
use bad_snap.Compiler.Parser.{
  Literals, P, ◌>>=◌, ◌>>◌, pure, gets, edit, with_index, peek_type, at_eof, check_token, advance,
  match_token, expect, token_text,
}
use bad_snap.Compiler.Parser.Functions.{
  Rule, Level, max_func_params, func_expr, bit_or_level, bit_xor_level, bit_and_level,
  equality_level, comparison_level, b_shift_level, sum_level, mult_level, exp_level, expr_rule,
  logic_or_rule, logic_and_rule, unary_rule, append_rule, array_rule, table_rule, binary_rule,
  args_rule,
}
use bad_snap.Compiler.Parser.Suffixes.{finish_args, grouping, suffix_expr}

-- The tokens that a level's loop goes on at, in the order of its tests.
unfoldable pub operators : Level → List TokenType
operators bit_or_level = TokenType.bit_or ∷ []
operators bit_xor_level = TokenType.bit_xor ∷ []
operators bit_and_level = TokenType.bit_and ∷ []
operators equality_level = TokenType.eq_eq ∷ TokenType.bang_eq ∷ []
operators comparison_level = TokenType.gt ∷ TokenType.lt ∷ TokenType.gt_eq ∷ TokenType.lt_eq ∷ []
operators b_shift_level = TokenType.bit_lshift ∷ TokenType.bit_rshift ∷ []
operators sum_level = TokenType.plus ∷ TokenType.minus ∷ TokenType.concat ∷ []
operators mult_level = TokenType.mult ∷ TokenType.mod_tok ∷ TokenType.div ∷ []
operators exp_level = TokenType.exp ∷ []

-- The opcode of a unary operator; `no_op` for a token that the code takes to be impossible here.
unfoldable pub unary_op : TokenType → Opcode
unary_op TokenType.bang = Opcode.lnot
unary_op TokenType.minus = Opcode.negate
unary_op TokenType.len = Opcode.len
unary_op TokenType.bit_not = Opcode.bnot
unary_op _ = Opcode.no_op

module _ {V : Type 0} (source : List ℕ) (lit : Literals V) (rec : Rule → P V (Unit {0})) where
  unfoldable pub atomic : P V (Unit {0})
  atomic = grouping source lit rec >> suffix_expr source lit rec

  unfoldable pub unary : P V (Unit {0})
  unary = do
    type ← peek_type
    if is_unary_op type
        then (do
          advance source
          op_token ← gets λ s. s.token
          rec unary_rule
          edit (emit_at (unary_op op_token.type) op_token.line))
        else atomic

  unfoldable pub match_any : List TokenType → P V Bool
  match_any [] = pure false
  match_any (t ∷ ts) = do found ← match_token source t; if found then pure true else match_any ts

  -- The loop that `DEFINE_PARSE_FN` makes, for a level with the function of its operands.
  unfoldable pub binary_rest : Level → P V (Unit {0}) → P V (Unit {0})
  binary_rest level next_fn = do
    found ← match_any (operators level)
    if found
        then (do
          op_token ← gets λ s. s.token
          next_fn
          edit (emit_at (toktype_to_op op_token.type) op_token.line)
          rec (binary_rule level))
        else pure tt

  unfoldable pub parse_level : Level → P V (Unit {0}) → P V (Unit {0})
  parse_level level next_fn = next_fn >> binary_rest level next_fn

  unfoldable pub exp : P V (Unit {0})
  exp = parse_level exp_level unary

  unfoldable pub mult : P V (Unit {0})
  mult = parse_level mult_level exp

  unfoldable pub sum : P V (Unit {0})
  sum = parse_level sum_level mult

  unfoldable pub b_shift : P V (Unit {0})
  b_shift = parse_level b_shift_level sum

  unfoldable pub comparison : P V (Unit {0})
  comparison = parse_level comparison_level b_shift

  unfoldable pub equality : P V (Unit {0})
  equality = parse_level equality_level comparison

  unfoldable pub bit_and : P V (Unit {0})
  bit_and = parse_level bit_and_level equality

  unfoldable pub bit_xor : P V (Unit {0})
  bit_xor = parse_level bit_xor_level bit_and

  unfoldable pub bit_or : P V (Unit {0})
  bit_or = parse_level bit_or_level bit_xor

  unfoldable pub operand : Level → P V (Unit {0})
  operand exp_level = unary
  operand mult_level = exp
  operand sum_level = mult
  operand b_shift_level = sum
  operand comparison_level = b_shift
  operand equality_level = comparison
  operand bit_and_level = equality
  operand bit_xor_level = bit_and
  operand bit_or_level = bit_xor

  -- `logic_and` and `logic_or`: the right side is parsed by the function itself.
  unfoldable pub short_circuit : TokenType → Opcode → Rule → P V (Unit {0})
  short_circuit type op right = do
    found ← match_token source type
    if found
        then (do jump ← with_index (emit_jump op); rec right; edit (patch_jump jump))
        else pure tt

  unfoldable pub logic_and : P V (Unit {0})
  logic_and = bit_or >> short_circuit TokenType.and_tok Opcode.jmp_if_false_or_pop logic_and_rule

  unfoldable pub logic_or : P V (Unit {0})
  logic_or = logic_and >> short_circuit TokenType.or_tok Opcode.jmp_if_true_or_pop logic_or_rule

  -- The loop of `append`.
  unfoldable pub append_rest : P V (Unit {0})
  append_rest = do
    found ← match_token source TokenType.append
    if found
        then (rec logic_or_rule >> edit (emit Opcode.list_append) >> rec append_rule)
        else pure tt

  unfoldable pub append : P V (Unit {0})
  append = logic_or >> append_rest

  unfoldable pub expr : P V (Unit {0})
  expr = append

  -- A round of the loop of `compile_args`, which `argc` arguments precede.
  unfoldable pub args_rest : ℕ → P V (Unit {0})
  args_rest argc = do
    if ltb max_func_params (argc + 1) then edit error else pure tt
    expr
    more ← match_token source TokenType.comma
    if more then rec (args_rule (argc + 1)) else finish_args source lit rec (argc + 1)

  unfoldable pub finish_array : P V (Unit {0})
  finish_array = expect source TokenType.rsq_brace

  -- A round of the loop of `array`, and what follows it.
  unfoldable pub array_rest : P V (Unit {0})
  array_rest = do
    expr
    edit (emit Opcode.list_append)
    closed ← check_token TokenType.rsq_brace
    if closed then finish_array else (do
      expect source TokenType.comma
      end ← gets at_eof
      if end then finish_array else rec array_rule)

  unfoldable pub finish_table : P V (Unit {0})
  finish_table = do
    end ← gets at_eof
    if end then edit error else expect source TokenType.rcurl_brace

  unfoldable pub field_value : P V (Unit {0})
  field_value = do expect source TokenType.colon; expr; edit (emit Opcode.table_add_field)

  -- A field whose key is a name: a method, or a value behind a colon.
  unfoldable pub named_field : P V (Unit {0})
  named_field = do
    expect source TokenType.id
    key ← token_text source
    index ← with_index (emit_value (lit.string key))
    edit (emit_with_arg Opcode.load_const (index % 256))
    method ← check_token TokenType.lparen
    if method
        then (func_expr source lit rec key true false >> edit (emit Opcode.table_add_field))
        else field_value

  unfoldable pub computed_field : P V (Unit {0})
  computed_field = do rec expr_rule; expect source TokenType.rsq_brace; field_value

  unfoldable pub table_rest : P V (Unit {0})
  table_rest = do
    computed ← match_token source TokenType.lsq_brace
    if computed then computed_field else named_field
    closed ← check_token TokenType.rcurl_brace
    end ← gets at_eof
    more ← if closed || end then pure false else match_token source TokenType.comma
    if more then rec table_rule else finish_table
