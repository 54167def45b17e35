-- ===== src/Compiler/Parser/Functions.antt =====
-- Functions and blocks: `block_stmt`, `compile_func` and `func_expr` of src/syntax/compiler.cpp.
use bad_snap.Common.{
  ℕ, zero, suc, ◌+◌, ◌*◌, Bool, true, false, not, ◌&&◌, ◌||◌, none, List, [], ◌∷◌, ◌++◌, codes,
  if◌then◌else◌, length, ◌==◌, ltb,
}
use bad_snap.Common.Int.{pos}
use bad_snap.Opcode.{Opcode}
use bad_snap.Token.{TokenType, Token}
use bad_snap.Compiler.Emit.{error, emit_value, emit, emit_arg, emit_two}
use bad_snap.Compiler.Scope.{enter_block, exit_block}
use bad_snap.Compiler.Symbols.{UpvalDesc, add}
use bad_snap.Compiler.Parser.{
  Literals, Function, Parser, P, ◌>>=◌, ◌>>◌, pure, gets, out_of_fuel, edit, with_index,
  on_symtable, at_eof, is_next, check_token, test, declare, ok, fault, advance, match_token, expect,
  token_text, at_line,
}

pub data ExpKind : Type 0 where
  literal_value identifier prefix_exp call_exp index_exp append_exp member_access nothing : ExpKind

-- The operators that `DEFINE_PARSE_FN` is used for, the loosest first.
pub data Level : Type 0 where
  bit_or_level bit_xor_level bit_and_level equality_level comparison_level : Level
  b_shift_level sum_level mult_level exp_level : Level

-- The calls of a parse function that come behind a token, and the rounds of its loops.
pub data Rule : Type 0 where
  expr_rule logic_or_rule logic_and_rule unary_rule append_rule suffix_rule array_rule : Rule
  table_rule statements_rule toplevel_rule program_rule : Rule
  binary_rule : Level → Rule
  args_rule : ℕ → Rule
  declarators_rule : Bool → Rule
  complete_rule : ExpKind → Rule

abbrev pub max_func_params : ℕ
max_func_params = 200

module _ {V : Type 0} where
  -- A new `Compiler` inside the current one: its first slot is the function's own.
  unfoldable pub new_function : List ℕ → Bool → Function V
  new_function name is_const = record {
    emitter = record {
      code = [];
      constant_pool = [];
      lines = [];
      stack_size = pos 0;
      max_stack_size = pos 0;
      has_error = false;
      line = 0;
    };
    symtable = record {
      scope_depth = 0;
      symbols = record { name = name; depth = 0; is_const = is_const; is_captured = false } ∷ [];
      upvals = [];
    };
    loops = [];
    num_params = 0;
    is_variadic = false;
  }

  unfoldable pub push_function : List ℕ → P V (Unit {0})
  push_function name s =
      ok tt (record s { self = new_function name false; parents = s.self ∷ s.parents })

  -- Back to the compiler around it, with the one that was left.
  unfoldable pub pop_function : P V (Function V)
  pop_function s = elim s.parents [
    | [] ↦ fault
    | parent ∷ rest ↦ ok s.self (record s { self = parent; parents = rest })
  ]

  unfoldable pub count_param : P V (Unit {0})
  count_param s = ok tt (record s { self = record s.self { num_params = s.self.num_params + 1 } })

  -- `add_param`: the count goes up also where the name is there already.
  unfoldable pub add_param : List ℕ → P V (Unit {0})
  add_param name = declare name false >> count_param

  unfoldable pub add_self_param : P V (Unit {0})
  add_self_param = do
    count_param
    index ← on_symtable λ t. if length t.symbols == 1 then add (codes "self") true t else none
    pure tt

  unfoldable pub open_block : P V (Unit {0})
  open_block s =
      ok tt (record s { self = record s.self { symtable = enter_block s.self.symtable } })

  unfoldable pub close_block : P V (Unit {0})
  close_block s =
      let (t, b) = exit_block s.self.symtable (at_line s) in
      ok tt (record s { self = record s.self { symtable = t; emitter = b } })

  -- The operands of `make_func` for the upvalues.
  unfoldable pub emit_upvals : List UpvalDesc → P V (Unit {0})
  emit_upvals [] = pure tt
  emit_upvals (u ∷ us) =
      edit (emit_arg (if u.is_local then 1 else 0)) >> edit (emit_arg u.index) >> emit_upvals us

  -- A compiled function joins the finished ones, at the place that is returned.
  unfoldable pub finish_function : Function V → P V ℕ
  finish_function f s = ok (length s.finished) (record s { finished = s.finished ++ f ∷ [] })

  -- The error flag that the inner compiler hands back.
  unfoldable pub take_error : Bool → P V (Unit {0})
  take_error flag = edit λ b. record b { has_error = flag }

  unfoldable pub set_variadic : Bool → P V (Unit {0})
  set_variadic variadic s = ok tt (record s { self = record s.self { is_variadic = variadic } })

  -- The token of the enclosing compiler, which it needs only for its line until the inner one's is
  -- handed over; `prev` and `peek` are handed over unread.
  unfoldable pub put_token : Token → P V (Unit {0})
  put_token token s = ok tt (record s { token = token })

  unfoldable pub put_tokens : Token → Token → Token → P V (Unit {0})
  put_tokens prev token peek s = ok tt (record s { prev = prev; token = token; peek = peek })

module _ {V : Type 0} (source : List ℕ) (lit : Literals V) (rec : Rule → P V (Unit {0})) where
  -- The loop of `block_stmt`, and of a block's statements after the first.
  unfoldable pub block_rest : P V (Unit {0})
  block_rest = do
    done ← gets λ s. at_eof s || is_next TokenType.rcurl_brace s
    if done then pure tt else rec statements_rule

  unfoldable pub block_stmt : P V (Unit {0})
  block_stmt = do
    advance source
    open_block
    block_rest
    expect source TokenType.rcurl_brace
    close_block

  unfoldable pub func_body : P V (Unit {0})
  func_body = do
    test TokenType.lcurl_brace
    block_stmt
    edit (emit_two Opcode.load_nil Opcode.return_val)

  unfoldable pub arrow_body : P V (Unit {0})
  arrow_body = do
    block ← check_token TokenType.lcurl_brace
    if block then block_stmt >> edit (emit Opcode.load_nil) else rec expr_rule
    edit (emit Opcode.return_val)

  unfoldable pub compile_func : Bool → P V (Unit {0})
  compile_func is_arrow = if is_arrow then arrow_body else func_body

  -- The loop of the parameters, with the count and whether the last is variadic. A round eats a
  -- comma, so that the length of the source bounds the rounds.
  unfoldable pub params : ℕ → ℕ → P V (ℕ × Bool)
  params zero count = out_of_fuel
  params (suc rounds) count = do
    expect source TokenType.id
    name ← token_text source
    add_param name
    variadic ← match_token source TokenType.dot_dot_dot
    more ← if variadic then pure false else match_token source TokenType.comma
    if more then params rounds (count + 1) else pure (count + 1, variadic)

  unfoldable pub open_params : Bool → P V Bool
  open_params is_arrow =
      if is_arrow
      then match_token source TokenType.lparen
      else (expect source TokenType.lparen >> pure true)

  abbrev pub has_params : Bool → Bool → Parser V → Bool
  has_params open_paren is_arrow s =
      (open_paren && not (is_next TokenType.rparen s))
      || (is_arrow && (not (is_next TokenType.arrow s) && not (is_next TokenType.rparen s)))

  unfoldable pub self_param : Bool → P V ℕ
  self_param is_method = if is_method then add_self_param >> pure 1 else pure 0

  -- What follows the parameters inside the new compiler.
  unfoldable pub rest_of_func : Bool → Bool → P V (Unit {0})
  rest_of_func open_paren is_arrow = do
    if open_paren then expect source TokenType.rparen else pure tt
    if is_arrow then expect source TokenType.arrow else pure tt
    compile_func is_arrow

  -- `make_func` in the enclosing function.
  unfoldable pub make_function : Function V → P V (Unit {0})
  make_function inner = do
    place ← finish_function inner
    (if inner.emitter.has_error then edit error else pure tt)
    index ← with_index (emit_value (lit.codeblock place))
    edit (emit Opcode.make_func)
    edit (emit_arg index)
    edit (emit_arg (length inner.symtable.upvals))
    emit_upvals inner.symtable.upvals
    take_error inner.emitter.has_error

  -- `make_func` stands at the line where the inner function begins, as the tokens are handed over
  -- behind it.
  unfoldable pub leave_function : Token → Bool → Bool → Bool → P V (Unit {0})
  leave_function token open_paren is_arrow variadic = do
    rest_of_func open_paren is_arrow
    set_variadic variadic
    inner_token ← gets λ s. s.token
    inner ← pop_function
    put_token token
    make_function inner
    put_token inner_token

  -- The enclosing compiler goes on from its own tokens where there are too many parameters; the
  -- scanner, which both share, stays where it is.
  unfoldable pub give_up : Token → Token → Token → P V (Unit {0})
  give_up prev token peek = do edit error; inner ← pop_function; put_tokens prev token peek

  unfoldable pub func_expr : List ℕ → Bool → Bool → P V (Unit {0})
  func_expr name is_method is_arrow = do
    prev ← gets λ s. s.prev
    token ← gets λ s. s.token
    peek ← gets λ s. s.peek
    push_function name
    open_paren ← open_params is_arrow
    implicit ← self_param is_method
    some_params ← gets (has_params open_paren is_arrow)
    (count, variadic) ←
        if some_params then params (2 * length source + 4) implicit else pure (implicit, false)
    if ltb max_func_params count
        then give_up prev token peek
        else leave_function token open_paren is_arrow variadic
