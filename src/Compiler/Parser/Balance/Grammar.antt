-- ===== src/Compiler/Parser/Balance/Grammar.antt =====
-- Every parse function keeps the balance, whatever the script: src/syntax/compiler.cpp.
use mathlib.Core.Path.{subst}
use bad_snap.Common.{ℕ, zero, suc, List, ◌≡◌}
use bad_snap.Compiler.Parser.{Literals, Parser, P, ok}
use bad_snap.Compiler.Parser.Functions.{
  Rule, expr_rule, logic_or_rule, logic_and_rule, unary_rule, append_rule, suffix_rule, array_rule,
  table_rule, statements_rule, toplevel_rule, program_rule, binary_rule, args_rule,
  declarators_rule, complete_rule,
}
use bad_snap.Compiler.Parser.Grammar.{apply_rule, parse}
use bad_snap.Compiler.Parser.Balance.{Keeps, Balanced, Leaves}
use bad_snap.Compiler.Parser.Balance.Steps.{Keeps-out_of_fuel}
use bad_snap.Compiler.Parser.Balance.Suffixes.{Keeps-suffix_expr}
use bad_snap.Compiler.Parser.Balance.Levels.{
  Keeps-expr, Keeps-logic_or, Keeps-logic_and, Keeps-unary, Keeps-append_rest, Keeps-array_rest,
  Keeps-table_rest, Keeps-binary_rest, Keeps-operand, Keeps-args_rest,
}
use bad_snap.Compiler.Parser.Balance.Statements.{
  Keeps-statements, Keeps-toplevel, Keeps-program, Keeps-declarators, Keeps-complete_expr_stmt,
}

module _ {V : Type 0} (source : List ℕ) (lit : Literals V) where
  Keeps-apply_rule :
      (rec : Rule → P V (Unit {0}))
      → ((r : Rule) → Keeps (rec r))
      → (r : Rule) → Keeps (apply_rule source lit rec r)
  unfolding apply_rule
  Keeps-apply_rule rec h expr_rule = Keeps-expr source lit rec h
  Keeps-apply_rule rec h logic_or_rule = Keeps-logic_or source lit rec h
  Keeps-apply_rule rec h logic_and_rule = Keeps-logic_and source lit rec h
  Keeps-apply_rule rec h unary_rule = Keeps-unary source lit rec h
  Keeps-apply_rule rec h append_rule = Keeps-append_rest source lit rec h
  Keeps-apply_rule rec h suffix_rule = Keeps-suffix_expr source lit rec h
  Keeps-apply_rule rec h array_rule = Keeps-array_rest source lit rec h
  Keeps-apply_rule rec h table_rule = Keeps-table_rest source lit rec h
  Keeps-apply_rule rec h statements_rule = Keeps-statements source lit rec h
  Keeps-apply_rule rec h toplevel_rule = Keeps-toplevel source lit rec h
  Keeps-apply_rule rec h program_rule = Keeps-program source lit rec h
  Keeps-apply_rule rec h (binary_rule level) =
      Keeps-binary_rest source lit rec h level _ (Keeps-operand source lit rec h level)
  Keeps-apply_rule rec h (args_rule argc) = Keeps-args_rest source lit rec h argc
  Keeps-apply_rule rec h (declarators_rule is_const) = Keeps-declarators source lit rec h is_const
  Keeps-apply_rule rec h (complete_rule exp_kind) =
      Keeps-complete_expr_stmt source lit rec h exp_kind

  Keeps-parse : (fuel : ℕ) (rule : Rule) → Keeps (parse source lit fuel rule)
  unfolding parse
  Keeps-parse zero rule = Keeps-out_of_fuel
  Keeps-parse (suc fuel) rule = Keeps-apply_rule (parse source lit fuel) (Keeps-parse fuel) rule

  -- Wherever a parse function returns, for an expression, a statement or the rest of one, with an
  -- error or without: the depth of the scope, the chain of loops, and the code, depth, loops and
  -- parameters of the enclosing functions are as before, finished functions stay, and in the block
  -- that is filled the code is not shorter, each byte keeps having its line, and the constants keep
  -- their places.
  pub parse-Balanced :
      (fuel : ℕ) (rule : Rule) (s s' : Parser V)
      → parse source lit fuel rule s ≡ ok tt s'
      → Balanced s s'
  unfolding Leaves
  parse-Balanced fuel rule s s' e = subst (Leaves (Balanced s)) e ((Keeps-parse fuel rule).at s)
