-- ===== src/Compiler/Parser/Balance/Levels.antt =====
-- The levels of operators, and the rounds of lists, tables and arguments, keep the balance.
use bad_snap.Common.{ℕ, true, List, [], ◌∷◌}
use bad_snap.Opcode.{Opcode}
use bad_snap.Token.{TokenType}
use bad_snap.Compiler.Parser.{Literals, P}
use bad_snap.Compiler.Parser.Balance.{Keeps, Keeps-bind, Keeps-pure, Keeps-if}
use bad_snap.Compiler.Parser.Balance.Steps.{keeps_rules, Keeps-match_token}
use bad_snap.Compiler.Parser.Functions.{
  Rule, Level, bit_or_level, bit_xor_level, bit_and_level, equality_level, comparison_level,
  b_shift_level, sum_level, mult_level, exp_level,
}
use bad_snap.Compiler.Parser.Balance.Functions.{Keeps-func_expr}
use bad_snap.Compiler.Parser.Balance.Suffixes.{Keeps-finish_args, Keeps-grouping, Keeps-suffix_expr}
use bad_snap.Compiler.Parser.Levels.{
  operand, atomic, unary, match_any, binary_rest, parse_level, exp, mult, sum, b_shift, comparison,
  equality, bit_and, bit_xor, bit_or, operand, short_circuit, logic_and, logic_or, append_rest,
  append, expr, args_rest, finish_array, array_rest, finish_table, field_value, named_field,
  computed_field, table_rest,
}

module _ {V : Type 0} (source : List ℕ) (lit : Literals V) (rec : Rule → P V (Unit {0}))
    (h : (r : Rule) → Keeps (rec r)) where
  pub Keeps-atomic : Keeps (atomic source lit rec)
  unfolding atomic
  Keeps-atomic = search (keeps_rules, Keeps-grouping, Keeps-suffix_expr) depth 14

  pub Keeps-unary : Keeps (unary source lit rec)
  unfolding unary
  Keeps-unary = search (keeps_rules, Keeps-atomic) depth 14

  pub Keeps-match_any : (ts : List TokenType) → Keeps (match_any source lit rec ts)
  unfolding match_any
  Keeps-match_any [] = search keeps_rules
  Keeps-match_any (t ∷ ts) =
      Keeps-bind _ _ (Keeps-match_token source t)
        λ found. Keeps-if found _ _ (Keeps-pure true) (Keeps-match_any ts)

  pub Keeps-binary_rest :
      (level : Level) (m : P V (Unit {0})) → Keeps m → Keeps (binary_rest source lit rec level m)
  unfolding binary_rest
  Keeps-binary_rest level m k = search (keeps_rules, Keeps-match_any) depth 14

  pub Keeps-parse_level :
      (level : Level) (m : P V (Unit {0})) → Keeps m → Keeps (parse_level source lit rec level m)
  unfolding parse_level
  Keeps-parse_level level m k = search (keeps_rules, Keeps-binary_rest) depth 14

  pub Keeps-exp : Keeps (exp source lit rec)
  unfolding exp
  Keeps-exp = search (keeps_rules, Keeps-unary, Keeps-parse_level) depth 14

  pub Keeps-mult : Keeps (mult source lit rec)
  unfolding mult
  Keeps-mult = search (keeps_rules, Keeps-parse_level, Keeps-exp) depth 14

  pub Keeps-sum : Keeps (sum source lit rec)
  unfolding sum
  Keeps-sum = search (keeps_rules, Keeps-parse_level, Keeps-mult) depth 14

  pub Keeps-b_shift : Keeps (b_shift source lit rec)
  unfolding b_shift
  Keeps-b_shift = search (keeps_rules, Keeps-parse_level, Keeps-sum) depth 14

  pub Keeps-comparison : Keeps (comparison source lit rec)
  unfolding comparison
  Keeps-comparison = search (keeps_rules, Keeps-parse_level, Keeps-b_shift) depth 14

  pub Keeps-equality : Keeps (equality source lit rec)
  unfolding equality
  Keeps-equality = search (keeps_rules, Keeps-parse_level, Keeps-comparison) depth 14

  pub Keeps-bit_and : Keeps (bit_and source lit rec)
  unfolding bit_and
  Keeps-bit_and = search (keeps_rules, Keeps-parse_level, Keeps-equality) depth 14

  pub Keeps-bit_xor : Keeps (bit_xor source lit rec)
  unfolding bit_xor
  Keeps-bit_xor = search (keeps_rules, Keeps-parse_level, Keeps-bit_and) depth 14

  pub Keeps-bit_or : Keeps (bit_or source lit rec)
  unfolding bit_or
  Keeps-bit_or = search (keeps_rules, Keeps-parse_level, Keeps-bit_xor) depth 14

  pub Keeps-operand : (level : Level) → Keeps (operand source lit rec level)
  unfolding operand
  Keeps-operand bit_or_level = Keeps-bit_xor
  Keeps-operand bit_xor_level = Keeps-bit_and
  Keeps-operand bit_and_level = Keeps-equality
  Keeps-operand equality_level = Keeps-comparison
  Keeps-operand comparison_level = Keeps-b_shift
  Keeps-operand b_shift_level = Keeps-sum
  Keeps-operand sum_level = Keeps-mult
  Keeps-operand mult_level = Keeps-exp
  Keeps-operand exp_level = Keeps-unary

  pub Keeps-short_circuit :
      (type : TokenType) (op : Opcode) (r : Rule) → Keeps (short_circuit source lit rec type op r)
  unfolding short_circuit
  Keeps-short_circuit type op r = search keeps_rules depth 14

  pub Keeps-logic_and : Keeps (logic_and source lit rec)
  unfolding logic_and
  Keeps-logic_and = search (keeps_rules, Keeps-bit_or, Keeps-short_circuit) depth 14

  pub Keeps-logic_or : Keeps (logic_or source lit rec)
  unfolding logic_or
  Keeps-logic_or = search (keeps_rules, Keeps-short_circuit, Keeps-logic_and) depth 14

  pub Keeps-append_rest : Keeps (append_rest source lit rec)
  unfolding append_rest
  Keeps-append_rest = search keeps_rules depth 14

  pub Keeps-append : Keeps (append source lit rec)
  unfolding append
  Keeps-append = search (keeps_rules, Keeps-logic_or, Keeps-append_rest) depth 14

  pub Keeps-expr : Keeps (expr source lit rec)
  unfolding expr
  Keeps-expr = search (keeps_rules, Keeps-append) depth 14

  pub Keeps-args_rest : (n : ℕ) → Keeps (args_rest source lit rec n)
  unfolding args_rest
  Keeps-args_rest n = search (keeps_rules, Keeps-finish_args, Keeps-expr) depth 14

  pub Keeps-finish_array : Keeps (finish_array source lit rec)
  unfolding finish_array
  Keeps-finish_array = search keeps_rules depth 14

  pub Keeps-array_rest : Keeps (array_rest source lit rec)
  unfolding array_rest
  Keeps-array_rest = search (keeps_rules, Keeps-expr, Keeps-finish_array) depth 14

  pub Keeps-finish_table : Keeps (finish_table source lit rec)
  unfolding finish_table
  Keeps-finish_table = search keeps_rules depth 14

  pub Keeps-field_value : Keeps (field_value source lit rec)
  unfolding field_value
  Keeps-field_value = search (keeps_rules, Keeps-expr) depth 14

  pub Keeps-named_field : Keeps (named_field source lit rec)
  unfolding named_field
  Keeps-named_field = search (keeps_rules, Keeps-func_expr, Keeps-field_value) depth 14

  pub Keeps-computed_field : Keeps (computed_field source lit rec)
  unfolding computed_field
  Keeps-computed_field = search (keeps_rules, Keeps-field_value) depth 14

  pub Keeps-table_rest : Keeps (table_rest source lit rec)
  unfolding table_rest
  Keeps-table_rest =
      search (keeps_rules, Keeps-finish_table, Keeps-named_field, Keeps-computed_field) depth 14
