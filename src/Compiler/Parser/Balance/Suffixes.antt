-- ===== src/Compiler/Parser/Balance/Suffixes.antt =====
-- Arguments, assignments and suffixes keep the balance.
use bad_snap.Common.{ℕ, Bool, Option, none, some, List, [], ◌∷◌}
use bad_snap.Opcode.{Opcode}
use bad_snap.Token.{TokenType}
use bad_snap.Compiler.Parser.{Literals, P}
use bad_snap.Compiler.Parser.Balance.{Keeps}
use bad_snap.Compiler.Parser.Balance.Steps.{keeps_rules}
use bad_snap.Compiler.Parser.Functions.{Rule}
use bad_snap.Compiler.Parser.Balance.Functions.{Keeps-func_expr}
use bad_snap.Compiler.Parser.Balance.Literals.{Keeps-emit_id_string, Keeps-literal, Keeps-resolve}
use bad_snap.Compiler.Parser.Suffixes.{
  finish_args, compile_args, assign_rhs, table_assign, var_assign, variable, named_func, table,
  array, unexpected, primary_from, primary, grouping, subscript_suffix, field_suffix, method_suffix,
  suffix_of, suffix_expr,
}

module _ {V : Type 0} (source : List ℕ) (lit : Literals V) (rec : Rule → P V (Unit {0}))
    (h : (r : Rule) → Keeps (rec r)) where
  pub Keeps-finish_args : (n : ℕ) → Keeps (finish_args source lit rec n)
  unfolding finish_args
  Keeps-finish_args n = search keeps_rules depth 14

  pub Keeps-compile_args : (b : Bool) → Keeps (compile_args source lit rec b)
  unfolding compile_args
  Keeps-compile_args b = search (keeps_rules, Keeps-finish_args) depth 14

  pub Keeps-assign_rhs : (m : P V (Unit {0})) → Keeps m → Keeps (assign_rhs source lit rec m)
  unfolding assign_rhs
  Keeps-assign_rhs m k = search keeps_rules depth 14

  pub Keeps-table_assign : (op : Opcode) (o : Option ℕ) → Keeps (table_assign source lit rec op o)
  unfolding table_assign
  Keeps-table_assign get_op none = search (keeps_rules, Keeps-assign_rhs) depth 14
  Keeps-table_assign get_op (some idx) = search (keeps_rules, Keeps-assign_rhs) depth 14

  pub Keeps-var_assign : (op : Opcode) (n : ℕ) → Keeps (var_assign source lit rec op n)
  unfolding var_assign
  Keeps-var_assign op n = search (keeps_rules, Keeps-assign_rhs) depth 14

  pub Keeps-variable : (b : Bool) → Keeps (variable source lit rec b)
  unfolding variable
  Keeps-variable b = search (keeps_rules, Keeps-resolve, Keeps-var_assign) depth 14

  pub Keeps-named_func : Keeps (named_func source lit rec)
  unfolding named_func
  Keeps-named_func = search (keeps_rules, Keeps-func_expr) depth 14

  pub Keeps-table : Keeps (table source lit rec)
  unfolding table
  Keeps-table = search keeps_rules depth 14

  pub Keeps-array : Keeps (array source lit rec)
  unfolding array
  Keeps-array = search keeps_rules depth 14

  pub Keeps-unexpected : Keeps (unexpected source lit rec)
  unfolding unexpected
  Keeps-unexpected = search keeps_rules depth 14

  pub Keeps-primary_from :
      (type : TokenType) (m : P V (Unit {0})) (others : List (TokenType × P V (Unit {0})))
      → Keeps m
      → Keeps (primary_from source lit rec others)
      → Keeps (primary_from source lit rec ((type, m) ∷ others))
  unfolding primary_from
  Keeps-primary_from type m others k l = search keeps_rules depth 14

  pub Keeps-primary_end : Keeps (primary_from source lit rec [])
  unfolding primary_from
  Keeps-primary_end = search (keeps_rules, Keeps-unexpected) depth 14

  pub Keeps-primary : Keeps (primary source lit rec)
  unfolding primary
  Keeps-primary =
      search
        (
          keeps_rules, Keeps-literal, Keeps-primary_from, Keeps-primary_end, Keeps-named_func,
          Keeps-variable, Keeps-table, Keeps-array, Keeps-func_expr,
        )
        depth 20

  pub Keeps-grouping : Keeps (grouping source lit rec)
  unfolding grouping
  Keeps-grouping = search (keeps_rules, Keeps-primary) depth 14

  pub Keeps-subscript_suffix : Keeps (subscript_suffix source lit rec)
  unfolding subscript_suffix
  Keeps-subscript_suffix = search keeps_rules depth 14

  pub Keeps-field_suffix : Keeps (field_suffix source lit rec)
  unfolding field_suffix
  Keeps-field_suffix = search (keeps_rules, Keeps-emit_id_string) depth 14

  pub Keeps-method_suffix : Keeps (method_suffix source lit rec)
  unfolding method_suffix
  Keeps-method_suffix = search (keeps_rules, Keeps-compile_args, Keeps-field_suffix) depth 14

  pub Keeps-suffix_of : (type : TokenType) → Keeps (suffix_of source lit rec type)
  unfolding suffix_of
  Keeps-suffix_of TokenType.lsq_brace = search (keeps_rules, Keeps-subscript_suffix) depth 14
  Keeps-suffix_of TokenType.lparen = search (keeps_rules, Keeps-compile_args) depth 14
  Keeps-suffix_of TokenType.dot = search (keeps_rules, Keeps-field_suffix) depth 14
  Keeps-suffix_of TokenType.colon = search (keeps_rules, Keeps-method_suffix) depth 14
  Keeps-suffix_of _ = search keeps_rules depth 14

  pub Keeps-suffix_expr : Keeps (suffix_expr source lit rec)
  unfolding suffix_expr
  Keeps-suffix_expr = search (keeps_rules, Keeps-suffix_of) depth 14
