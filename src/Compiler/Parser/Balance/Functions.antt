-- ===== src/Compiler/Parser/Balance/Functions.antt =====
-- The functions of a block and of a function keep the balance.
use bad_snap.Common.{ℕ, zero, suc, Bool, List}
use bad_snap.Token.{Token}
use bad_snap.Compiler.Parser.{Literals, Function, P}
use bad_snap.Compiler.Parser.Balance.{Keeps, Closes, Closes-then, Closes-if, function}
use bad_snap.Compiler.Parser.Balance.Steps.{keeps_rules}
use bad_snap.Compiler.Parser.Balance.Nesting.{
  Keeps-push_function, Closes-pop_function, Keeps-open_block, Closes-close_block,
}
use bad_snap.Compiler.Parser.Functions.{
  Rule, block_rest, block_stmt, func_body, arrow_body, compile_func, params, open_params,
  self_param, rest_of_func, make_function, leave_function, give_up, func_expr,
}

module _ {V : Type 0} (source : List ℕ) (lit : Literals V) (rec : Rule → P V (Unit {0}))
    (h : (r : Rule) → Keeps (rec r)) where
  pub Keeps-block_rest : Keeps (block_rest source lit rec)
  unfolding block_rest
  Keeps-block_rest = search keeps_rules depth 14

  pub Keeps-block_stmt : Keeps (block_stmt source lit rec)
  unfolding block_stmt
  Keeps-block_stmt =
      search (keeps_rules, Keeps-block_rest, Keeps-open_block, Closes-then, Closes-close_block)
        depth 14

  pub Keeps-func_body : Keeps (func_body source lit rec)
  unfolding func_body
  Keeps-func_body = search (keeps_rules, Keeps-block_stmt) depth 14

  pub Keeps-arrow_body : Keeps (arrow_body source lit rec)
  unfolding arrow_body
  Keeps-arrow_body = search (keeps_rules, Keeps-block_stmt) depth 14

  pub Keeps-compile_func : (b : Bool) → Keeps (compile_func source lit rec b)
  unfolding compile_func
  Keeps-compile_func b = search (keeps_rules, Keeps-func_body, Keeps-arrow_body) depth 14

  pub Keeps-params : (rounds count : ℕ) → Keeps (params source lit rec rounds count)
  unfolding params
  Keeps-params zero count = search keeps_rules
  Keeps-params (suc rounds) count = search (keeps_rules, Keeps-params rounds) depth 20

  pub Keeps-open_params : (b : Bool) → Keeps (open_params source lit rec b)
  unfolding open_params
  Keeps-open_params b = search keeps_rules depth 14

  pub Keeps-self_param : (b : Bool) → Keeps (self_param source lit rec b)
  unfolding self_param
  Keeps-self_param b = search keeps_rules depth 14

  pub Keeps-rest_of_func : (b₁ : Bool) (b₂ : Bool) → Keeps (rest_of_func source lit rec b₁ b₂)
  unfolding rest_of_func
  Keeps-rest_of_func b₁ b₂ = search (keeps_rules, Keeps-compile_func) depth 14

  pub Keeps-make_function : (f : Function V) → Keeps (make_function source lit rec f)
  unfolding make_function
  Keeps-make_function f = search keeps_rules depth 14

  pub Closes-leave_function :
      (token : Token) (open_paren is_arrow variadic : Bool)
      → Closes function (leave_function source lit rec token open_paren is_arrow variadic)
  unfolding leave_function
  Closes-leave_function token open_paren is_arrow variadic =
      search
        (keeps_rules, Keeps-rest_of_func, Keeps-make_function, Closes-then, Closes-pop_function)
        depth 14

  pub Closes-give_up :
      (prev token peek : Token) → Closes function (give_up source lit rec prev token peek)
  unfolding give_up
  Closes-give_up prev token peek = search (keeps_rules, Closes-then, Closes-pop_function) depth 14

  pub Keeps-func_expr :
      (name : List ℕ) (is_method is_arrow : Bool)
      → Keeps (func_expr source lit rec name is_method is_arrow)
  unfolding func_expr
  Keeps-func_expr name is_method is_arrow =
      search
        (
          keeps_rules, Keeps-open_params, Keeps-self_param, Keeps-params, Keeps-push_function,
          Closes-then, Closes-if, Closes-leave_function, Closes-give_up,
        )
        depth 20
