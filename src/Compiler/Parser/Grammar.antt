-- ===== src/Compiler/Parser/Grammar.antt =====
-- The parse functions tied together, and `Compiler::compile` of src/syntax/compiler.cpp. A call of
-- one from another takes a unit of fuel, as does a round of a loop that parses.
use bad_snap.Compiler.Symbols.{
  add, find, find_upvalue, new_variable, symbol_at, find_in, names_equal,
}
use bad_snap.Compiler.Scope.{enter_block, exit_block, break_jump, continue_jump}
use bad_snap.Compiler.Operators.{toktype_to_op}
use bad_snap.Scanner.Lexeme.{skip_irrelevant}
use bad_snap.Scanner.{next_token, scan_from}
use bad_snap.Common.{ℕ, zero, suc, true, List, [], codes}
use bad_snap.Opcode.{Opcode, op_num, op_stack_effect}
use bad_snap.Token.{TokenType, Token, same_type, raw, is_literal, is_unary_op, is_assign_tok}
use bad_snap.Scanner.Cursor.{new_scanner}
use bad_snap.Compiler.Emit.{
  emit_two, emit, emit_at, emit_arg, emit_with_arg, emit_value, emit_jump, patch_jump,
  patch_backwards_jump, exit_loop, error, op_arity,
}
use bad_snap.Compiler.Parser.{
  Literals, Function, Parser, Parsed, P, ◌>>=◌, ◌>>◌, out_of_fuel, edit, advance, gets, pure,
  or_fault, or_throw, with_index, set_loops, check_token, test, tables, with_tables, declare,
  find_upval_index, match_token, expect, token_text, escape, unescape, on_symtable,
}
use bad_snap.Compiler.Parser.Functions.{
  Rule, new_function, expr_rule, logic_or_rule, logic_and_rule, unary_rule, append_rule,
  suffix_rule, array_rule, table_rule, statements_rule, toplevel_rule, program_rule, binary_rule,
  args_rule, declarators_rule, complete_rule, push_function, pop_function, add_param,
  add_self_param, open_block, close_block, emit_upvals, finish_function, take_error, put_tokens,
  put_token, block_rest, block_stmt, func_body, arrow_body, compile_func, params, open_params,
  self_param, rest_of_func, set_variadic, make_function, leave_function, give_up, func_expr,
  count_param,
}
use bad_snap.Compiler.Parser.Levels.{
  expr, logic_or, logic_and, unary, append_rest, array_rest, table_rest, binary_rest, operand,
  args_rest, operators, unary_op, atomic, match_any, parse_level, exp, mult, sum, b_shift,
  comparison, equality, bit_and, bit_xor, bit_or, short_circuit, append, finish_array, finish_table,
  field_value, named_field, computed_field,
}
use bad_snap.Compiler.Parser.Suffixes.{
  suffix_expr, finish_args, compile_args, assign_rhs, table_assign, var_assign, variable,
  named_func, table, array, unexpected, primary_from, primary, grouping, subscript_suffix,
  field_suffix, method_suffix, suffix_of,
}
use bad_snap.Compiler.Parser.Names.{
  emit_id_string, emit_string, load_constant, number, literal_of, literal, resolve_global,
  resolve_outer, resolve,
}
use bad_snap.Compiler.Parser.Statements.{
  statements, toplevel, program, program_rest, declarators, declarator, var_decl, else_part,
  if_stmt, while_body, while_stmt, for_step, for_header, for_body, for_stmt, fn_decl, ret_stmt,
  statement, for_rounds,
}
use bad_snap.Compiler.Parser.Targets.{
  complete_expr_stmt, subscript_target, field_target, call_target, end_of_stmt, complete_at,
  prefix_name, prefix_literal, prefix, expr_stmt_from, expr_stmt,
}
use bad_snap.Compiler.Parser.Loops.{
  enter_loop, new_loop, leave_loop, jump_out, skip_tokens, goto_eof, break_stmt, continue_stmt,
  innermost,
}

module _ {V : Type 0} where
  -- The state before the first token: `token` and `prev` are tokens of type `Error` without text.
  unfoldable pub start : Parser V
  start =
      let no_token : Token = record { type = TokenType.error; start = 0; length = 0; line = 1 } in
      record {
        scanner = new_scanner;
        prev = no_token;
        token = no_token;
        peek = no_token;
        self = new_function (codes "<script>") true;
        parents = [];
        finished = [];
      }

module _ {V : Type 0} (source : List ℕ) (lit : Literals V) where
  unfoldable pub apply_rule : (Rule → P V (Unit {0})) → Rule → P V (Unit {0})
  apply_rule rec expr_rule = expr source lit rec
  apply_rule rec logic_or_rule = logic_or source lit rec
  apply_rule rec logic_and_rule = logic_and source lit rec
  apply_rule rec unary_rule = unary source lit rec
  apply_rule rec append_rule = append_rest source lit rec
  apply_rule rec suffix_rule = suffix_expr source lit rec
  apply_rule rec array_rule = array_rest source lit rec
  apply_rule rec table_rule = table_rest source lit rec
  apply_rule rec statements_rule = statements source lit rec
  apply_rule rec toplevel_rule = toplevel source lit rec
  apply_rule rec program_rule = program source lit rec
  apply_rule rec (binary_rule level) =
      binary_rest source lit rec level (operand source lit rec level)
  apply_rule rec (args_rule argc) = args_rest source lit rec argc
  apply_rule rec (declarators_rule is_const) = declarators source lit rec is_const
  apply_rule rec (complete_rule exp_kind) = complete_expr_stmt source lit rec exp_kind

  unfoldable pub parse : ℕ → Rule → P V (Unit {0})
  unfolding pure ◌>>=◌ gets or_fault or_throw edit with_index on_symtable set_loops check_token test
      tables with_tables declare find_upval_index advance match_token expect token_text escape
      unescape new_function push_function pop_function count_param add_param add_self_param
      open_block close_block emit_upvals finish_function take_error put_tokens put_token block_rest
      block_stmt func_body arrow_body compile_func params open_params self_param rest_of_func
      set_variadic make_function leave_function give_up func_expr operators unary_op emit_id_string
      emit_string load_constant number literal_of literal resolve_global resolve_outer resolve
      finish_args compile_args assign_rhs table_assign var_assign variable named_func table array
      unexpected primary_from primary grouping subscript_suffix field_suffix method_suffix suffix_of
      suffix_expr atomic unary match_any binary_rest parse_level exp mult sum b_shift comparison
      equality bit_and bit_xor bit_or operand short_circuit logic_and logic_or append_rest append
      expr args_rest finish_array array_rest finish_table field_value named_field computed_field
      table_rest enter_loop new_loop innermost leave_loop jump_out skip_tokens goto_eof break_stmt
      continue_stmt declarator declarators var_decl else_part if_stmt while_body while_stmt for_step
      for_header for_body for_rounds for_stmt fn_decl ret_stmt subscript_target field_target
      call_target end_of_stmt complete_at complete_expr_stmt prefix_name prefix_literal prefix
      expr_stmt_from expr_stmt statement toplevel statements program_rest program next_token
      scan_from skip_irrelevant toktype_to_op emit emit_at emit_arg emit_with_arg emit_two
      emit_value emit_jump patch_jump patch_backwards_jump exit_loop error op_arity enter_block
      exit_block break_jump continue_jump add find find_upvalue new_variable symbol_at find_in
      names_equal same_type raw is_literal is_unary_op is_assign_tok op_num op_stack_effect
      apply_rule
  parse zero rule = out_of_fuel
  parse (suc fuel) rule = apply_rule (parse fuel) rule

  unfoldable pub compile_with : ℕ → P V (Function V)
  compile_with fuel = do
    advance source
    program_rest source lit (parse fuel)
    edit (emit_two Opcode.load_nil Opcode.return_val)
    gets λ s. s.self

  -- `compile`, with the code of the script and of the functions in it.
  unfoldable pub compile : ℕ → Parsed V (Function V)
  unfolding compile_with parse start
  compile fuel = compile_with fuel start
