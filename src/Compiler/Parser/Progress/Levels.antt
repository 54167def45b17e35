-- ===== src/Compiler/Parser/Progress/Levels.antt =====
-- The levels of operators come to an end, and an expression takes a token: src/syntax/compiler.cpp.
use bad_snap.Common.{
  ℕ, suc, ◌<◌, ◌^◌, ◌||◌, Bool, true, false, List, [], ◌∷◌, length, if◌then◌else◌,
}
use bad_snap.Opcode.{Opcode}
use bad_snap.Scanner.Total.{EndsWell}
use bad_snap.Token.{TokenType, same_type, token_num, is_unary_op}
use bad_snap.Compiler.Parser.{Literals, P, ◌>>=◌, pure, match_token}
use bad_snap.Compiler.Parser.Functions.{
  Rule, Level, bit_or_level, bit_xor_level, bit_and_level, equality_level, comparison_level,
  b_shift_level, sum_level, mult_level, exp_level, table_rule,
}
use bad_snap.Compiler.Parser.Levels.{
  atomic, unary, match_any, operators, binary_rest, parse_level, exp, mult, sum, b_shift,
  comparison, equality, bit_and, bit_xor, bit_or, operand, short_circuit, logic_and, logic_or,
  append_rest, append, expr, args_rest, finish_array, finish_table, field_value, named_field,
  computed_field, table_rest,
}
use bad_snap.Compiler.Parser.Progress.{Runs, RunsAwake, Eats, Runs-bind, Eats-bind, RunsAwake-bind}
use bad_snap.Compiler.Parser.Progress.Rules.{
  Fuelled, Eats-gets, Eats-if, Runs-peek, Runs-choice, Runs-nested, Runs-known, RunsAwake-Runs,
}
use bad_snap.Compiler.Parser.Progress.Steps.{Runs-pure}
use bad_snap.Compiler.Parser.Progress.Tokens.{Eats-advance, Runs-match, progress_rules}
use bad_snap.Compiler.Parser.Progress.Functions.{Runs-func_expr}
use bad_snap.Compiler.Parser.Progress.Suffixes.{
  Eats-grouping, Runs-grouping, Runs-suffix_expr, Runs-finish_args,
}

module _ {V : Type 0} (source : List ℕ) (small : length source < 2 ^ 32)
    (well : EndsWell source small) (lit : Literals V) (rec : Rule → P V (Unit {0})) {n : ℕ}
    (h : Fuelled source n rec) where
  Runs-atomic : {w : ℕ} → Runs source w n (atomic source lit rec)
  unfolding atomic
  Runs-atomic = search (progress_rules, Runs-grouping, Runs-suffix_expr)

  Eats-atomic : Eats source n (atomic source lit rec)
  unfolding atomic
  Eats-atomic = search (Eats-bind, Eats-grouping, Runs-suffix_expr)

  RunsAwake-if :
      {w : ℕ} (b : Bool) (m m' : P V (Unit {0}))
      → RunsAwake source w n m
      → RunsAwake source w n m'
      → RunsAwake source w n (if b then m else m')
  RunsAwake-if true m m' k k' = k
  RunsAwake-if false m m' k k' = k'

  pub Runs-unary : {w : ℕ} → Runs source w n (unary source lit rec)
  unfolding unary is_unary_op same_type token_num
  Runs-unary {w} = Runs-peek source w _ Runs-atomic λ type.
      RunsAwake-if _ _ _
        (RunsAwake-bind source w _ _ (Eats-advance source small well)
          λ _. search (progress_rules, h.at) depth 14)
        (RunsAwake-Runs source w _ Runs-atomic)

  pub Eats-unary : Eats source n (unary source lit rec)
  unfolding unary
  Eats-unary = Eats-gets source _ _ λ type.
      Eats-if source _ _ _
        (Eats-bind source _ _ (Eats-advance source small well)
          λ _. search (progress_rules, h.at) depth 14)
        Eats-atomic

  -- What follows the first of the tokens that is next is behind it.
  Runs-match_any :
      {w : ℕ} (ts : List TokenType) (f : Bool → P V (Unit {0}))
      → Runs source (suc (suc (suc w))) n (f true)
      → Runs source w n (f false)
      → Runs source w n (match_any source lit rec ts >>= f)
  unfolding match_any
  Runs-match_any {w} [] f k k' = Runs-known source w false f k'
  Runs-match_any {w} (t ∷ ts) f k k' =
      Runs-nested source w _ _ f (
        Runs-match source small well w t _ (Runs-known source _ true f k)
          (Runs-match_any ts f k k'))

  pub Runs-binary_rest :
      {w : ℕ} (level : Level) (m : P V (Unit {0}))
      → ((w : ℕ) → Runs source w n m)
      → Runs source w n (binary_rest source lit rec level m)
  unfolding binary_rest
  Runs-binary_rest level m k =
      Runs-match_any (operators level) _ (search (progress_rules, h.at, k) depth 14)
        (Runs-pure source _)

  Runs-parse_level :
      {w : ℕ} (level : Level) (m : P V (Unit {0}))
      → ((w : ℕ) → Runs source w n m)
      → Runs source w n (parse_level source lit rec level m)
  unfolding parse_level
  Runs-parse_level {w} level m k = Runs-bind source w _ _ (k w) λ _. Runs-binary_rest level m k

  Eats-parse_level :
      (level : Level) (m : P V (Unit {0}))
      → Eats source n m
      → ((w : ℕ) → Runs source w n m)
      → Eats source n (parse_level source lit rec level m)
  unfolding parse_level
  Eats-parse_level level m k k' = Eats-bind source _ _ k λ _. Runs-binary_rest level m k'

  Runs-exp : {w : ℕ} → Runs source w n (exp source lit rec)
  unfolding exp
  Runs-exp = Runs-parse_level exp_level _ (λ w. Runs-unary)

  Eats-exp : Eats source n (exp source lit rec)
  unfolding exp
  Eats-exp = Eats-parse_level exp_level _ Eats-unary (λ w. Runs-unary)

  Runs-mult : {w : ℕ} → Runs source w n (mult source lit rec)
  unfolding mult
  Runs-mult = Runs-parse_level mult_level _ (λ w. Runs-exp)

  Eats-mult : Eats source n (mult source lit rec)
  unfolding mult
  Eats-mult = Eats-parse_level mult_level _ Eats-exp (λ w. Runs-exp)

  Runs-sum : {w : ℕ} → Runs source w n (sum source lit rec)
  unfolding sum
  Runs-sum = Runs-parse_level sum_level _ (λ w. Runs-mult)

  Eats-sum : Eats source n (sum source lit rec)
  unfolding sum
  Eats-sum = Eats-parse_level sum_level _ Eats-mult (λ w. Runs-mult)

  Runs-b_shift : {w : ℕ} → Runs source w n (b_shift source lit rec)
  unfolding b_shift
  Runs-b_shift = Runs-parse_level b_shift_level _ (λ w. Runs-sum)

  Eats-b_shift : Eats source n (b_shift source lit rec)
  unfolding b_shift
  Eats-b_shift = Eats-parse_level b_shift_level _ Eats-sum (λ w. Runs-sum)

  Runs-comparison : {w : ℕ} → Runs source w n (comparison source lit rec)
  unfolding comparison
  Runs-comparison = Runs-parse_level comparison_level _ (λ w. Runs-b_shift)

  Eats-comparison : Eats source n (comparison source lit rec)
  unfolding comparison
  Eats-comparison = Eats-parse_level comparison_level _ Eats-b_shift (λ w. Runs-b_shift)

  Runs-equality : {w : ℕ} → Runs source w n (equality source lit rec)
  unfolding equality
  Runs-equality = Runs-parse_level equality_level _ (λ w. Runs-comparison)

  Eats-equality : Eats source n (equality source lit rec)
  unfolding equality
  Eats-equality = Eats-parse_level equality_level _ Eats-comparison (λ w. Runs-comparison)

  Runs-bit_and : {w : ℕ} → Runs source w n (bit_and source lit rec)
  unfolding bit_and
  Runs-bit_and = Runs-parse_level bit_and_level _ (λ w. Runs-equality)

  Eats-bit_and : Eats source n (bit_and source lit rec)
  unfolding bit_and
  Eats-bit_and = Eats-parse_level bit_and_level _ Eats-equality (λ w. Runs-equality)

  Runs-bit_xor : {w : ℕ} → Runs source w n (bit_xor source lit rec)
  unfolding bit_xor
  Runs-bit_xor = Runs-parse_level bit_xor_level _ (λ w. Runs-bit_and)

  Eats-bit_xor : Eats source n (bit_xor source lit rec)
  unfolding bit_xor
  Eats-bit_xor = Eats-parse_level bit_xor_level _ Eats-bit_and (λ w. Runs-bit_and)

  Runs-bit_or : {w : ℕ} → Runs source w n (bit_or source lit rec)
  unfolding bit_or
  Runs-bit_or = Runs-parse_level bit_or_level _ (λ w. Runs-bit_xor)

  Eats-bit_or : Eats source n (bit_or source lit rec)
  unfolding bit_or
  Eats-bit_or = Eats-parse_level bit_or_level _ Eats-bit_xor (λ w. Runs-bit_xor)

  pub Runs-operand : {w : ℕ} (level : Level) → Runs source w n (operand source lit rec level)
  unfolding operand
  Runs-operand exp_level = Runs-unary
  Runs-operand mult_level = Runs-exp
  Runs-operand sum_level = Runs-mult
  Runs-operand b_shift_level = Runs-sum
  Runs-operand comparison_level = Runs-b_shift
  Runs-operand equality_level = Runs-comparison
  Runs-operand bit_and_level = Runs-equality
  Runs-operand bit_xor_level = Runs-bit_and
  Runs-operand bit_or_level = Runs-bit_xor

  Runs-short_circuit :
      {w : ℕ} (t : TokenType) (op : Opcode) (rule : Rule)
      → Runs source w n (short_circuit source lit rec t op rule)
  unfolding short_circuit
  Runs-short_circuit {w} t op rule =
      Runs-match source small well w t _ (search (progress_rules, h.at) depth 14)
        (Runs-pure source _)

  pub Runs-logic_and : {w : ℕ} → Runs source w n (logic_and source lit rec)
  unfolding logic_and
  Runs-logic_and {w} = Runs-bind source w _ _ Runs-bit_or λ _. Runs-short_circuit _ _ _

  Eats-logic_and : Eats source n (logic_and source lit rec)
  unfolding logic_and
  Eats-logic_and = Eats-bind source _ _ Eats-bit_or λ _. Runs-short_circuit _ _ _

  pub Runs-logic_or : {w : ℕ} → Runs source w n (logic_or source lit rec)
  unfolding logic_or
  Runs-logic_or {w} = Runs-bind source w _ _ Runs-logic_and λ _. Runs-short_circuit _ _ _

  Eats-logic_or : Eats source n (logic_or source lit rec)
  unfolding logic_or
  Eats-logic_or = Eats-bind source _ _ Eats-logic_and λ _. Runs-short_circuit _ _ _

  pub Runs-append_rest : {w : ℕ} → Runs source w n (append_rest source lit rec)
  unfolding append_rest
  Runs-append_rest {w} =
      Runs-match source small well w _ _ (search (progress_rules, h.at) depth 14)
        (Runs-pure source _)

  pub Runs-expr : {w : ℕ} → Runs source w n (expr source lit rec)
  unfolding expr append
  Runs-expr {w} = Runs-bind source w _ _ Runs-logic_or λ _. Runs-append_rest

  pub Eats-expr : Eats source n (expr source lit rec)
  unfolding expr append
  Eats-expr = Eats-bind source _ _ Eats-logic_or λ _. Runs-append_rest

  pub Runs-args_rest : {w : ℕ} (argc : ℕ) → Runs source w n (args_rest source lit rec argc)
  unfolding args_rest
  Runs-args_rest argc = search (progress_rules, h.at, Runs-expr, Runs-finish_args) depth 14

  pub Runs-finish_array : {w : ℕ} → Runs source w n (finish_array source lit rec)
  unfolding finish_array
  Runs-finish_array = search progress_rules

  Runs-finish_table : {w : ℕ} → Runs source w n (finish_table source lit rec)
  unfolding finish_table
  Runs-finish_table = search progress_rules

  Runs-field_value : {w : ℕ} → Runs source w n (field_value source lit rec)
  unfolding field_value
  Runs-field_value = search (progress_rules, Runs-expr) depth 14

  Runs-named_field : {w : ℕ} → Runs source (suc w) n (named_field source lit rec)
  unfolding named_field
  Runs-named_field = search (progress_rules, Runs-func_expr, Runs-field_value) depth 20

  Runs-computed_field : {w : ℕ} → Runs source (suc (suc (suc w))) n (computed_field source lit rec)
  unfolding computed_field
  Runs-computed_field = search (progress_rules, h.at, Runs-field_value) depth 14

  pub Runs-table_rest : {w : ℕ} → Runs source (suc w) n (table_rest source lit rec)
  unfolding table_rest
  Runs-table_rest {w} =
      let rest : (w : ℕ) (closed end : Bool)
          → Runs source (suc w) n (
              (if closed || end then pure false else match_token source TokenType.comma) >>= λ more.
              if more then rec table_rule else finish_table source lit rec) =
        λ w closed end.
          Runs-choice source (suc w) _ _ _ _ (Runs-known source _ false _ Runs-finish_table)
            (Runs-match source small well _ _ _ (h.at table_rule _) Runs-finish_table) in
      Runs-match source small well (suc w) _ _
        (Runs-bind source _ _ _ Runs-computed_field λ _. search (progress_rules, rest))
        (Runs-bind source _ _ _ Runs-named_field λ _. search (progress_rules, rest))
