-- ===== src/Compiler/Parser/Progress/Statements.antt =====
-- Statements come to an end, and a script with them: src/syntax/compiler.cpp.
use bad_snap.Common.{ℕ, suc, ◌<◌, ◌^◌, Bool, List, length}
use bad_snap.Scanner.Total.{EndsWell}
use bad_snap.Token.{TokenType}
use bad_snap.Compiler.Parser.{Literals, P}
use bad_snap.Compiler.Parser.Functions.{Rule}
use bad_snap.Compiler.Parser.Loops.{break_stmt, continue_stmt, new_loop}
use bad_snap.Compiler.Parser.Statements.{
  declarator, declarators, var_decl, else_part, if_stmt, while_body, while_stmt, for_step,
  for_header, for_body, for_rounds, for_stmt, fn_decl, ret_stmt, statement,
}
use bad_snap.Compiler.Parser.Progress.{Runs, Eats, Eats-bind}
use bad_snap.Compiler.Parser.Progress.Rules.{Fuelled}
use bad_snap.Compiler.Parser.Progress.Tokens.{Eats-advance, progress_rules}
use bad_snap.Compiler.Parser.Progress.Functions.{Eats-block_stmt, Runs-func_expr}
use bad_snap.Compiler.Parser.Progress.Targets.{Settles, Settles-Eats, Settles-expr_stmt}

module _ {V : Type 0} (source : List ℕ) (small : length source < 2 ^ 32)
    (well : EndsWell source small) (lit : Literals V) (rec : Rule → P V (Unit {0})) {n : ℕ}
    (h : Fuelled source n rec) where
  Runs-declarator : {w : ℕ} (c : Bool) → Runs source w n (declarator source lit rec c)
  unfolding declarator
  Runs-declarator c = search (progress_rules, h.at) depth 20

  pub Runs-declarators : {w : ℕ} (c : Bool) → Runs source w n (declarators source lit rec c)
  unfolding declarators
  Runs-declarators c = search (progress_rules, h.at, Runs-declarator) depth 14

  Eats-var_decl : Eats source n (var_decl source lit rec)
  unfolding var_decl
  Eats-var_decl =
      Eats-bind source _ _ (Eats-advance source small well)
        λ _. search (progress_rules, Runs-declarators) depth 14

  Runs-else_part : {w : ℕ} (j : ℕ) → Runs source (suc (suc (suc w))) n (else_part source lit rec j)
  unfolding else_part
  Runs-else_part j = search (progress_rules, h.at) depth 14

  Eats-if_stmt : Eats source n (if_stmt source lit rec)
  unfolding if_stmt
  Eats-if_stmt =
      Eats-bind source _ _ (Eats-advance source small well)
        λ _. search (progress_rules, h.at, Runs-else_part) depth 20

  Runs-while_body : {w : ℕ} → Runs source (suc (suc (suc w))) n (while_body source lit rec)
  unfolding while_body
  Runs-while_body = search (progress_rules, h.at) depth 20

  Eats-while_stmt : Eats source n (while_stmt source lit rec)
  unfolding while_stmt new_loop
  Eats-while_stmt =
      Eats-bind source _ _ (Eats-advance source small well)
        λ _. search (progress_rules, Runs-while_body) depth 20

  Runs-for_step : {w : ℕ} → Runs source w n (for_step source lit rec)
  unfolding for_step
  Runs-for_step = search (progress_rules, h.at) depth 20

  Runs-for_header : {w : ℕ} → Runs source (suc (suc (suc w))) n (for_header source lit rec)
  unfolding for_header
  Runs-for_header = search (progress_rules, h.at, Runs-for_step) depth 30

  Runs-for_rounds :
      {w : ℕ} (j : ℕ) → Runs source (suc (suc (suc w))) n (for_rounds source lit rec j)
  unfolding for_rounds for_body new_loop
  Runs-for_rounds j = search (progress_rules, h.at) depth 20

  Eats-for_stmt : Eats source n (for_stmt source lit rec)
  unfolding for_stmt
  Eats-for_stmt =
      Eats-bind source _ _ (Eats-advance source small well)
        λ _. search (progress_rules, Runs-for_header, Runs-for_rounds) depth 20

  Eats-fn_decl : Eats source n (fn_decl source lit rec)
  unfolding fn_decl
  Eats-fn_decl =
      Eats-bind source _ _ (Eats-advance source small well)
        λ _. search (progress_rules, Runs-func_expr) depth 20

  Eats-ret_stmt : Eats source n (ret_stmt source lit rec)
  unfolding ret_stmt
  Eats-ret_stmt =
      Eats-bind source _ _ (Eats-advance source small well)
        λ _. search (progress_rules, h.at) depth 20

  Eats-break_stmt : Eats source n (break_stmt {V = V} source)
  unfolding break_stmt
  Eats-break_stmt = Eats-bind source _ _ (Eats-advance source small well) λ _. search progress_rules

  Eats-continue_stmt : Eats source n (continue_stmt {V = V} source)
  unfolding continue_stmt
  Eats-continue_stmt =
      Eats-bind source _ _ (Eats-advance source small well) λ _. search progress_rules

  pub Settles-statement : (t : TokenType) → Settles source n (statement source lit rec t)
  unfolding statement
  Settles-statement TokenType.const_kw = Settles-Eats source _ Eats-var_decl
  Settles-statement TokenType.let_kw = Settles-Eats source _ Eats-var_decl
  Settles-statement TokenType.lcurl_brace =
      Settles-Eats source _ (Eats-block_stmt source small well lit rec h)
  Settles-statement TokenType.if_kw = Settles-Eats source _ Eats-if_stmt
  Settles-statement TokenType.while_kw = Settles-Eats source _ Eats-while_stmt
  Settles-statement TokenType.for_kw = Settles-Eats source _ Eats-for_stmt
  Settles-statement TokenType.fn_kw = Settles-Eats source _ Eats-fn_decl
  Settles-statement TokenType.return_kw = Settles-Eats source _ Eats-ret_stmt
  Settles-statement TokenType.break_kw = Settles-Eats source _ Eats-break_stmt
  Settles-statement TokenType.continue_kw = Settles-Eats source _ Eats-continue_stmt
  Settles-statement _ = Settles-expr_stmt source small well lit rec h
