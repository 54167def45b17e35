-- ===== src/Compiler/Parser/Progress/Script.antt =====
-- With enough fuel no script is cut off: `Compiler::compile` of src/syntax/compiler.cpp.
use mathlib.Core.Path.{subst}
use bad_snap.Common.{ℕ, zero, suc, ◌+◌, ◌*◌, ◌<◌, ◌^◌, ◌≡◌, List, length, arith}
use bad_snap.Scanner.Total.{EndsWell}
use bad_snap.Compiler.Parser.{Literals, P, no_fuel}
use bad_snap.Compiler.Parser.Functions.{
  Rule, expr_rule, logic_or_rule, logic_and_rule, unary_rule, append_rule, suffix_rule, array_rule,
  table_rule, statements_rule, toplevel_rule, program_rule, binary_rule, args_rule,
  declarators_rule, complete_rule,
}
use bad_snap.Compiler.Parser.Statements.{program_rest}
use bad_snap.Compiler.Parser.Grammar.{apply_rule, parse, compile_with, compile, start}
use bad_snap.Compiler.Parser.Progress.{bounds, Ends, Nearer, Runs, Runs-bind}
use bad_snap.Compiler.Parser.Progress.Rules.{Runs-if, Runs-weaken, Runs-call, Runs-none, Fuelled}
use bad_snap.Compiler.Parser.Progress.Steps.{Runs-pure, Runs-edit, Runs-gets}
use bad_snap.Compiler.Parser.Progress.Tokens.{Runs-advance}
use bad_snap.Compiler.Parser.Progress.Suffixes.{Runs-suffix_expr}
use bad_snap.Compiler.Parser.Progress.Levels.{
  Runs-expr, Runs-logic_or, Runs-logic_and, Runs-unary, Runs-append_rest, Runs-table_rest,
  Runs-binary_rest, Runs-operand, Runs-args_rest,
}
use bad_snap.Compiler.Parser.Progress.Arrays.{Runs-array_rest}
use bad_snap.Compiler.Parser.Progress.Statements.{Runs-declarators}
use bad_snap.Compiler.Parser.Progress.Targets.{Runs-complete_expr_stmt}
use bad_snap.Compiler.Parser.Progress.Grammar.{
  Lasts, Lasts-statements, Lasts-program, Lasts-none, Runs-Lasts, Runs-toplevel,
}

module _ {V : Type 0} (source : List ℕ) (small : length source < 2 ^ 32)
    (well : EndsWell source small) (lit : Literals V) where
  -- The fuel that each function is to be called with.
  abbrev Enough : ℕ → (Rule → P V (Unit {0})) → Rule → Type 0
  Enough n rec table_rule = Runs source 2 n (rec table_rule)
  Enough n rec statements_rule = Lasts source small well n (rec statements_rule)
  Enough n rec program_rule = Lasts source small well n (rec program_rule)
  Enough n rec rule = Runs source 1 n (rec rule)

  Fuelled-Enough :
      (n : ℕ) (rec : Rule → P V (Unit {0}))
      → ((rule : Rule) → Enough n rec rule)
      → Fuelled source n rec
  Fuelled-Enough n rec k = record {
    at = called;
    statements = λ w. Runs-Lasts source small well _ (k statements_rule);
    expr = λ w. Runs-weaken source (rec expr_rule) (omega arith) (k expr_rule);
  }
    where
      called : (rule : Rule) (w : ℕ) → Runs source (suc (suc (suc w))) n (rec rule)
      called table_rule w = Runs-weaken source _ (omega arith) (k table_rule)
      called statements_rule w = Runs-Lasts source small well _ (k statements_rule)
      called program_rule w = Runs-Lasts source small well _ (k program_rule)
      called expr_rule w = Runs-weaken source _ (omega arith) (k expr_rule)
      called logic_or_rule w = Runs-weaken source _ (omega arith) (k logic_or_rule)
      called logic_and_rule w = Runs-weaken source _ (omega arith) (k logic_and_rule)
      called unary_rule w = Runs-weaken source _ (omega arith) (k unary_rule)
      called append_rule w = Runs-weaken source _ (omega arith) (k append_rule)
      called suffix_rule w = Runs-weaken source _ (omega arith) (k suffix_rule)
      called array_rule w = Runs-weaken source _ (omega arith) (k array_rule)
      called toplevel_rule w = Runs-weaken source _ (omega arith) (k toplevel_rule)
      called (binary_rule level) w = Runs-weaken source _ (omega arith) (k (binary_rule level))
      called (args_rule argc) w = Runs-weaken source _ (omega arith) (k (args_rule argc))
      called (declarators_rule c) w = Runs-weaken source _ (omega arith) (k (declarators_rule c))
      called (complete_rule e) w = Runs-weaken source _ (omega arith) (k (complete_rule e))

  Enough-apply_rule :
      (n : ℕ) (rec : Rule → P V (Unit {0}))
      → ((rule : Rule) → Enough n rec rule)
      → (rule : Rule) → Enough (suc n) (apply_rule source lit rec) rule
  unfolding apply_rule
  Enough-apply_rule n rec k expr_rule =
      Runs-call source _ (Runs-expr source small well lit rec (Fuelled-Enough n rec k))
  Enough-apply_rule n rec k logic_or_rule =
      Runs-call source _ (Runs-logic_or source small well lit rec (Fuelled-Enough n rec k))
  Enough-apply_rule n rec k logic_and_rule =
      Runs-call source _ (Runs-logic_and source small well lit rec (Fuelled-Enough n rec k))
  Enough-apply_rule n rec k unary_rule =
      Runs-call source _ (Runs-unary source small well lit rec (Fuelled-Enough n rec k))
  Enough-apply_rule n rec k append_rule =
      Runs-call source _ (Runs-append_rest source small well lit rec (Fuelled-Enough n rec k))
  Enough-apply_rule n rec k suffix_rule =
      Runs-call source _ (Runs-suffix_expr source small well lit rec (Fuelled-Enough n rec k))
  Enough-apply_rule n rec k array_rule =
      Runs-call source _ (Runs-array_rest source small well lit rec (Fuelled-Enough n rec k))
  Enough-apply_rule n rec k table_rule =
      Runs-call source _ (Runs-table_rest source small well lit rec (Fuelled-Enough n rec k))
  Enough-apply_rule n rec k statements_rule =
      Lasts-statements source small well lit rec (Fuelled-Enough n rec k) (k statements_rule)
  Enough-apply_rule n rec k program_rule =
      Lasts-program source small well lit rec (Fuelled-Enough n rec k) (k program_rule)
  Enough-apply_rule n rec k toplevel_rule =
      Runs-toplevel source small well lit rec (Fuelled-Enough n rec k)
  Enough-apply_rule n rec k (binary_rule level) = Runs-call source _ (
      Runs-binary_rest source small well lit rec (Fuelled-Enough n rec k) level _
        λ w. Runs-operand source small well lit rec (Fuelled-Enough n rec k) level)
  Enough-apply_rule n rec k (args_rule argc) =
      Runs-call source _ (Runs-args_rest source small well lit rec (Fuelled-Enough n rec k) argc)
  Enough-apply_rule n rec k (declarators_rule c) =
      Runs-call source _ (Runs-declarators source small well lit rec (Fuelled-Enough n rec k) c)
  Enough-apply_rule n rec k (complete_rule e) =
      Runs-call source _
        (Runs-complete_expr_stmt source small well lit rec (Fuelled-Enough n rec k) e)

  Enough-parse : (fuel : ℕ) (rule : Rule) → Enough fuel (parse source lit fuel) rule
  unfolding parse
  Enough-parse (suc fuel) rule =
      Enough-apply_rule fuel (parse source lit fuel) (Enough-parse fuel) rule
  Enough-parse zero expr_rule = Runs-none source _
  Enough-parse zero logic_or_rule = Runs-none source _
  Enough-parse zero logic_and_rule = Runs-none source _
  Enough-parse zero unary_rule = Runs-none source _
  Enough-parse zero append_rule = Runs-none source _
  Enough-parse zero suffix_rule = Runs-none source _
  Enough-parse zero array_rule = Runs-none source _
  Enough-parse zero table_rule = Runs-none source _
  Enough-parse zero toplevel_rule = Runs-none source _
  Enough-parse zero (binary_rule level) = Runs-none source _
  Enough-parse zero (args_rule argc) = Runs-none source _
  Enough-parse zero (declarators_rule c) = Runs-none source _
  Enough-parse zero (complete_rule e) = Runs-none source _
  Enough-parse zero statements_rule = Lasts-none source small well _
  Enough-parse zero program_rule = Lasts-none source small well _

  Ends-compile_with :
      (fuel : ℕ)
      → 6 * length source + 4 < fuel
      → Ends source (Nearer source start) (compile_with source lit fuel start)
  unfolding compile_with program_rest start
  Ends-compile_with fuel enough =
      let runs = Enough-parse fuel program_rule in
      (Runs-bind source 1 _ _ (Runs-advance source small well) λ _.
          Runs-bind source 1 _ _
            (Runs-bind source 1 _ _ (Runs-gets source _) λ end.
              Runs-if source 1 end _ _ (Runs-pure source _) (Runs-Lasts source small well _ runs))
            λ _. Runs-bind source 1 _ _ (Runs-edit source _) λ _. Runs-gets source _).at
        start (omega arith) (let b = bounds {V = V} source start in omega (arith, b.0, enough))

  -- On a source of less than 2 ^ 32 bytes whose last byte is no backslash, compiling is not cut off
  -- where the fuel is more than six times the length of the source and four: it returns the script's
  -- code, or ends in an exception or a failed assertion.
  pub compile_ends :
      (fuel : ℕ) → 6 * length source + 4 < fuel → ¬ (compile source lit fuel ≡ no_fuel)
  unfolding compile Ends
  compile_ends fuel enough e =
      subst (Ends source (Nearer source start)) e (Ends-compile_with fuel enough)
