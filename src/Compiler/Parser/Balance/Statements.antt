-- ===== src/Compiler/Parser/Balance/Statements.antt =====
-- Statements keep the balance.
use bad_snap.Common.{ℕ, zero, suc, Bool, List}
use bad_snap.Token.{TokenType}
use bad_snap.Compiler.Emit.{Loop}
use bad_snap.Compiler.Parser.{Literals, P}
use bad_snap.Compiler.Parser.Balance.{
  Keeps, Closes, Keeps-bind, Closes-then, Closes-bind, Keeps-pure, Keeps-gets, Keeps-if, loop,
}
use bad_snap.Compiler.Parser.Balance.Steps.{keeps_rules, Keeps-jump_out, Keeps-advance}
use bad_snap.Compiler.Parser.Balance.Nesting.{
  Keeps-open_block, Closes-close_block, Keeps-enter_loop, Closes-leave_loop,
}
use bad_snap.Compiler.Emit.{LoopType}
use bad_snap.Compiler.Parser.Growth.{Grows-break_jump, Grows-continue_jump}
use bad_snap.Compiler.Parser.Functions.{Rule, ExpKind, literal_value, call_exp, append_exp, nothing}
use bad_snap.Compiler.Parser.Balance.Functions.{Keeps-func_expr, Keeps-block_stmt, Keeps-block_rest}
use bad_snap.Compiler.Parser.Balance.Literals.{Keeps-literal}
use bad_snap.Compiler.Parser.Balance.Suffixes.{
  Keeps-compile_args, Keeps-table_assign, Keeps-variable, Keeps-grouping, Keeps-subscript_suffix,
  Keeps-field_suffix, Keeps-method_suffix,
}
use bad_snap.Compiler.Parser.Loops.{new_loop, skip_tokens, goto_eof, break_stmt, continue_stmt}
use bad_snap.Compiler.Parser.Statements.{
  declarator, declarators, var_decl, else_part, if_stmt, while_body, while_stmt, for_step,
  for_header, for_body, for_rounds, for_stmt, fn_decl, ret_stmt, statement, toplevel, statements,
  program_rest, program,
}
use bad_snap.Compiler.Parser.Targets.{
  subscript_target, field_target, call_target, end_of_stmt, complete_at, complete_expr_stmt,
  prefix_name, prefix_literal, prefix, expr_stmt_from, expr_stmt,
}

module _ {V : Type 0} where
  pub Keeps-new_loop : (type : LoopType) → Keeps (new_loop {V = V} type)
  unfolding new_loop
  Keeps-new_loop type = search keeps_rules depth 14

module _ {V : Type 0} (source : List ℕ) where
  pub Keeps-skip_tokens : (rounds : ℕ) → Keeps (skip_tokens {V = V} source rounds)
  unfolding skip_tokens
  Keeps-skip_tokens zero = search keeps_rules
  Keeps-skip_tokens (suc rounds) = Keeps-bind _ _ (Keeps-gets _) λ end.
      Keeps-if end _ _ (Keeps-pure tt)
        (Keeps-bind _ _ (Keeps-advance source) λ _. Keeps-skip_tokens rounds)

  pub Keeps-goto_eof : Keeps (goto_eof {V = V} source)
  unfolding goto_eof
  Keeps-goto_eof = search (keeps_rules, Keeps-skip_tokens) depth 14

  pub Keeps-break_stmt : Keeps (break_stmt {V = V} source)
  unfolding break_stmt
  Keeps-break_stmt = Keeps-bind _ _ (Keeps-advance source) λ _. Keeps-jump_out _ Grows-break_jump

  pub Keeps-continue_stmt : Keeps (continue_stmt {V = V} source)
  unfolding continue_stmt
  Keeps-continue_stmt =
      Keeps-bind _ _ (Keeps-advance source) λ _. Keeps-jump_out _ Grows-continue_jump

module _ {V : Type 0} (source : List ℕ) (lit : Literals V) (rec : Rule → P V (Unit {0}))
    (h : (r : Rule) → Keeps (rec r)) where
  pub Keeps-declarator : (b : Bool) → Keeps (declarator source lit rec b)
  unfolding declarator
  Keeps-declarator b = search keeps_rules depth 14

  pub Keeps-declarators : (b : Bool) → Keeps (declarators source lit rec b)
  unfolding declarators
  Keeps-declarators b = search (keeps_rules, Keeps-declarator) depth 14

  pub Keeps-var_decl : Keeps (var_decl source lit rec)
  unfolding var_decl
  Keeps-var_decl = search (keeps_rules, Keeps-declarators) depth 14

  pub Keeps-else_part : (n : ℕ) → Keeps (else_part source lit rec n)
  unfolding else_part
  Keeps-else_part n = search keeps_rules depth 14

  pub Keeps-if_stmt : Keeps (if_stmt source lit rec)
  unfolding if_stmt
  Keeps-if_stmt = search (keeps_rules, Keeps-else_part) depth 14

  pub Closes-while_body : (l : Loop) → Closes (loop l) (while_body source lit rec)
  unfolding while_body
  Closes-while_body l = search (keeps_rules, Closes-then, Closes-bind, Closes-leave_loop) depth 14

  pub Keeps-while_stmt : Keeps (while_stmt source lit rec)
  unfolding while_stmt
  Keeps-while_stmt =
      search (keeps_rules, Keeps-new_loop, Keeps-enter_loop, Closes-while_body) depth 14

  pub Keeps-for_step : Keeps (for_step source lit rec)
  unfolding for_step
  Keeps-for_step = search keeps_rules depth 14

  pub Keeps-for_header : Keeps (for_header source lit rec)
  unfolding for_header
  Keeps-for_header = search (keeps_rules, Keeps-for_step) depth 14

  pub Closes-for_body : (l : Loop) (n : ℕ) → Closes (loop l) (for_body source lit rec n)
  unfolding for_body
  Closes-for_body l n = search (keeps_rules, Closes-then, Closes-leave_loop) depth 14

  pub Keeps-for_rounds : (n : ℕ) → Keeps (for_rounds source lit rec n)
  unfolding for_rounds
  Keeps-for_rounds n =
      search (keeps_rules, Keeps-new_loop, Keeps-enter_loop, Closes-for_body) depth 14

  pub Keeps-for_stmt : Keeps (for_stmt source lit rec)
  unfolding for_stmt
  Keeps-for_stmt =
      search
        (
          keeps_rules, Keeps-for_header, Keeps-for_rounds, Keeps-open_block, Closes-then,
          Closes-close_block,
        )
        depth 14

  pub Keeps-fn_decl : Keeps (fn_decl source lit rec)
  unfolding fn_decl
  Keeps-fn_decl = search (keeps_rules, Keeps-func_expr) depth 14

  pub Keeps-ret_stmt : Keeps (ret_stmt source lit rec)
  unfolding ret_stmt
  Keeps-ret_stmt = search keeps_rules depth 14

  pub Keeps-subscript_target : Keeps (subscript_target source lit rec)
  unfolding subscript_target
  Keeps-subscript_target = search (keeps_rules, Keeps-table_assign, Keeps-subscript_suffix) depth 14

  pub Keeps-field_target : Keeps (field_target source lit rec)
  unfolding field_target
  Keeps-field_target = search (keeps_rules, Keeps-table_assign, Keeps-field_suffix) depth 14

  pub Keeps-call_target : (exp_kind : ExpKind) → Keeps (call_target source lit rec exp_kind)
  unfolding call_target
  Keeps-call_target literal_value = search keeps_rules depth 14
  Keeps-call_target exp_kind = search (keeps_rules, Keeps-compile_args) depth 14

  pub Keeps-end_of_stmt : (exp_kind : ExpKind) → Keeps (end_of_stmt source lit rec exp_kind)
  unfolding end_of_stmt
  Keeps-end_of_stmt call_exp = search keeps_rules depth 14
  Keeps-end_of_stmt append_exp = search keeps_rules depth 14
  Keeps-end_of_stmt exp_kind = search keeps_rules depth 14

  pub Keeps-complete_at :
      (exp_kind : ExpKind) (type : TokenType) → Keeps (complete_at source lit rec exp_kind type)
  unfolding complete_at
  Keeps-complete_at exp_kind TokenType.lsq_brace =
      search (keeps_rules, Keeps-subscript_target) depth 14
  Keeps-complete_at exp_kind TokenType.lparen = search (keeps_rules, Keeps-call_target) depth 14
  Keeps-complete_at exp_kind TokenType.dot = search (keeps_rules, Keeps-field_target) depth 14
  Keeps-complete_at exp_kind TokenType.colon = search (keeps_rules, Keeps-method_suffix) depth 14
  Keeps-complete_at exp_kind TokenType.append = search keeps_rules depth 14
  Keeps-complete_at exp_kind _ = search (keeps_rules, Keeps-end_of_stmt) depth 14

  pub Keeps-complete_expr_stmt :
      (exp_kind : ExpKind) → Keeps (complete_expr_stmt source lit rec exp_kind)
  unfolding complete_expr_stmt
  Keeps-complete_expr_stmt exp_kind = search (keeps_rules, Keeps-complete_at) depth 14

  pub Keeps-prefix_name : Keeps (prefix_name source lit rec)
  unfolding prefix_name
  Keeps-prefix_name = search (keeps_rules, Keeps-variable) depth 14

  pub Keeps-prefix_literal : Keeps (prefix_literal source lit rec)
  unfolding prefix_literal
  Keeps-prefix_literal = search (keeps_rules, Keeps-literal) depth 14

  pub Keeps-prefix : Keeps (prefix source lit rec)
  unfolding prefix
  Keeps-prefix =
      search (keeps_rules, Keeps-grouping, Keeps-prefix_name, Keeps-prefix_literal) depth 14

  pub Keeps-expr_stmt_from : (exp_kind : ExpKind) → Keeps (expr_stmt_from source lit rec exp_kind)
  unfolding expr_stmt_from
  Keeps-expr_stmt_from nothing = search keeps_rules depth 14
  Keeps-expr_stmt_from prefix_type = search (keeps_rules, Keeps-complete_expr_stmt) depth 14

  pub Keeps-expr_stmt : Keeps (expr_stmt source lit rec)
  unfolding expr_stmt
  Keeps-expr_stmt = search (keeps_rules, Keeps-prefix, Keeps-expr_stmt_from) depth 14

  pub Keeps-statement : (type : TokenType) → Keeps (statement source lit rec type)
  unfolding statement
  Keeps-statement TokenType.const_kw = search (keeps_rules, Keeps-var_decl) depth 14
  Keeps-statement TokenType.let_kw = search (keeps_rules, Keeps-var_decl) depth 14
  Keeps-statement TokenType.lcurl_brace = search (keeps_rules, Keeps-block_stmt) depth 14
  Keeps-statement TokenType.if_kw = search (keeps_rules, Keeps-if_stmt) depth 14
  Keeps-statement TokenType.while_kw = search (keeps_rules, Keeps-while_stmt) depth 14
  Keeps-statement TokenType.for_kw = search (keeps_rules, Keeps-for_stmt) depth 14
  Keeps-statement TokenType.fn_kw = search (keeps_rules, Keeps-fn_decl) depth 14
  Keeps-statement TokenType.return_kw = search (keeps_rules, Keeps-ret_stmt) depth 14
  Keeps-statement TokenType.break_kw = search (keeps_rules, Keeps-break_stmt) depth 14
  Keeps-statement TokenType.continue_kw = search (keeps_rules, Keeps-continue_stmt) depth 14
  Keeps-statement _ = search (keeps_rules, Keeps-expr_stmt) depth 14

  pub Keeps-toplevel : Keeps (toplevel source lit rec)
  unfolding toplevel
  Keeps-toplevel = search (keeps_rules, Keeps-goto_eof, Keeps-statement) depth 14

  pub Keeps-statements : Keeps (statements source lit rec)
  unfolding statements
  Keeps-statements = search (keeps_rules, Keeps-block_rest, Keeps-toplevel) depth 14

  pub Keeps-program_rest : Keeps (program_rest source lit rec)
  unfolding program_rest
  Keeps-program_rest = search keeps_rules depth 14

  pub Keeps-program : Keeps (program source lit rec)
  unfolding program
  Keeps-program = search (keeps_rules, Keeps-toplevel, Keeps-program_rest) depth 14
