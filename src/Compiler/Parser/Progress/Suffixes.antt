-- ===== src/Compiler/Parser/Progress/Suffixes.antt =====
-- Primary expressions and suffixes come to an end: src/syntax/compiler.cpp.
use bad_snap.Common.{ℕ, suc, ◌<◌, ◌^◌, Bool, false, Option, none, some, List, [], ◌∷◌, length}
use bad_snap.Opcode.{Opcode}
use bad_snap.Scanner.Total.{EndsWell}
use bad_snap.Token.{TokenType}
use bad_snap.Compiler.Symbols.{find}
use bad_snap.Compiler.Parser.{Literals, P}
use bad_snap.Compiler.Parser.Functions.{Rule}
use bad_snap.Compiler.Parser.Names.{
  emit_id_string, emit_string, load_constant, number, literal_of, literal, resolve_global,
  resolve_outer, resolve,
}
use bad_snap.Compiler.Parser.Suffixes.{
  finish_args, compile_args, assign_rhs, table_assign, var_assign, variable, named_func, table,
  array, unexpected, primary_from, primary, grouping, subscript_suffix, field_suffix, method_suffix,
  suffix_of, suffix_expr,
}
use bad_snap.Compiler.Parser.Progress.{
  Runs, RunsAwake, Eats, Runs-bind, Eats-bind, Eats-later, RunsAwake-bind,
}
use bad_snap.Compiler.Parser.Progress.Rules.{
  Fuelled, Runs-option, Runs-if, Eats-gets, Eats-if, Runs-peek, RunsAwake-Runs,
}
use bad_snap.Compiler.Parser.Progress.Steps.{Runs-pure, Runs-edit, Runs-gets}
use bad_snap.Compiler.Parser.Progress.Tokens.{Eats-advance, Eats-match, Runs-match, progress_rules}
use bad_snap.Compiler.Parser.Progress.Functions.{Runs-func_expr}

module _ {V : Type 0} (source : List ℕ) (small : length source < 2 ^ 32)
    (well : EndsWell source small) (lit : Literals V) (rec : Rule → P V (Unit {0})) {n : ℕ}
    (h : Fuelled source n rec) where
  pub Runs-emit_id_string : {w : ℕ} → Runs source w n (emit_id_string source lit)
  unfolding emit_id_string
  Runs-emit_id_string = search progress_rules depth 14

  Runs-emit_string : {w : ℕ} → Runs source w n (emit_string source lit)
  unfolding emit_string
  Runs-emit_string = search progress_rules depth 14

  Runs-load_constant : {w : ℕ} (i : ℕ) → Runs source w n (load_constant source lit i)
  unfolding load_constant
  Runs-load_constant i = search progress_rules depth 14

  Runs-number : {w : ℕ} → Runs source w n (number source lit)
  unfolding number
  Runs-number = search progress_rules depth 14

  Runs-literal_of : {w : ℕ} (t : TokenType) → Runs source w n (literal_of source lit t)
  unfolding literal_of
  Runs-literal_of TokenType.integer = search (progress_rules, Runs-number, Runs-load_constant)
  Runs-literal_of TokenType.float = search (progress_rules, Runs-number, Runs-load_constant)
  Runs-literal_of TokenType.string = search (progress_rules, Runs-emit_string, Runs-load_constant)
  Runs-literal_of TokenType.true_kw = search (progress_rules, Runs-load_constant)
  Runs-literal_of TokenType.false_kw = search (progress_rules, Runs-load_constant)
  Runs-literal_of TokenType.nil_kw = search progress_rules
  Runs-literal_of _ = search progress_rules

  pub Runs-literal : {w : ℕ} → Runs source w n (literal source lit)
  unfolding literal
  Runs-literal = search (progress_rules, Runs-literal_of) depth 14

  pub Eats-literal : Eats source n (literal source lit)
  unfolding literal
  Eats-literal = search (progress_rules, Eats-bind, Eats-advance, Runs-literal_of) depth 14

  Runs-resolve_global : {w : ℕ} → Runs source w n (resolve_global source lit)
  unfolding resolve_global
  Runs-resolve_global = search (progress_rules, Runs-emit_id_string) depth 14

  Runs-resolve_outer : {w : ℕ} (name : List ℕ) → Runs source w n (resolve_outer source lit name)
  unfolding resolve_outer
  Runs-resolve_outer {w} name = Runs-bind source w _ _ (search progress_rules) λ found.
      Runs-bind source w _ _ (search progress_rules)
        λ t. Runs-option source w found _ _ Runs-resolve_global λ i. search progress_rules

  Runs-resolve : {w : ℕ} → Runs source w n (resolve source lit)
  unfolding resolve
  Runs-resolve {w} = Runs-bind source w _ _ (search progress_rules) λ name.
      Runs-bind source w _ _ (search progress_rules) λ t.
        Runs-option source w (find name t) _ _ (Runs-resolve_outer name) λ i. Runs-pure source _

  pub Runs-finish_args : {w : ℕ} (i : ℕ) → Runs source w n (finish_args source lit rec i)
  unfolding finish_args
  Runs-finish_args i = search progress_rules depth 14

  pub Eats-compile_args : (b : Bool) → Eats source n (compile_args source lit rec b)
  unfolding compile_args
  Eats-compile_args b =
      search (progress_rules, h.at, Eats-bind, Eats-advance, Runs-finish_args) depth 14

  pub Runs-compile_args :
      {w : ℕ} (b : Bool) → Runs source (suc (suc (suc w))) n (compile_args source lit rec b)
  unfolding compile_args
  Runs-compile_args b = search (progress_rules, h.at, Runs-finish_args) depth 14

  Runs-assign_rhs :
      {w : ℕ} (m : P V (Unit {0}))
      → Runs source (suc (suc (suc w))) n m
      → Runs source (suc (suc (suc w))) n (assign_rhs source lit rec m)
  unfolding assign_rhs
  Runs-assign_rhs m k = search (progress_rules, h.at) depth 14

  pub Runs-table_assign :
      {w : ℕ} (op : Opcode) (o : Option ℕ)
      → Runs source (suc (suc (suc w))) n (table_assign source lit rec op o)
  unfolding table_assign
  Runs-table_assign get_op none = Runs-assign_rhs _ (search progress_rules)
  Runs-table_assign get_op (some idx) = Runs-assign_rhs _ (search progress_rules)

  Runs-var_assign :
      {w : ℕ} (op : Opcode) (i : ℕ)
      → Runs source (suc (suc (suc w))) n (var_assign source lit rec op i)
  unfolding var_assign
  Runs-var_assign op i = Runs-assign_rhs _ (search progress_rules)

  pub Runs-variable :
      {w : ℕ} (b : Bool) → Runs source (suc (suc (suc w))) n (variable source lit rec b)
  unfolding variable
  Runs-variable b = search (progress_rules, Runs-resolve, Runs-var_assign) depth 14

  Runs-named_func : {w : ℕ} → Runs source (suc w) n (named_func source lit rec)
  unfolding named_func
  Runs-named_func = search (progress_rules, Runs-func_expr) depth 14

  Runs-table : {w : ℕ} → Runs source (suc (suc (suc w))) n (table source lit rec)
  unfolding table
  Runs-table = search (progress_rules, h.at) depth 14

  Runs-array : {w : ℕ} → Runs source (suc (suc (suc w))) n (array source lit rec)
  unfolding array
  Runs-array = search (progress_rules, h.at) depth 14

  Runs-unexpected : {w : ℕ} → Runs source w n (unexpected source lit rec)
  unfolding unexpected
  Runs-unexpected = search progress_rules

  Eats-unexpected : Eats source n (unexpected source lit rec)
  unfolding unexpected
  Eats-unexpected = search (progress_rules, Eats-later, Eats-advance)

  -- The alternatives of `primary`.
  abbrev Alternative : P V (Unit {0}) → Type 0
  Alternative m = (w : ℕ) → Runs source (suc (suc (suc w))) n m

  Eats-primary_from :
      (type : TokenType) (m : P V (Unit {0})) (others : List (TokenType × P V (Unit {0})))
      → Alternative m
      → Eats source n (primary_from source lit rec others)
      → Eats source n (primary_from source lit rec ((type, m) ∷ others))
  unfolding primary_from
  Eats-primary_from type m others k l = Eats-match source small well type _ (k 0) l

  Runs-primary_from :
      {w : ℕ} (type : TokenType) (m : P V (Unit {0})) (others : List (TokenType × P V (Unit {0})))
      → Alternative m
      → Runs source w n (primary_from source lit rec others)
      → Runs source w n (primary_from source lit rec ((type, m) ∷ others))
  unfolding primary_from
  Runs-primary_from {w} type m others k l = Runs-match source small well w type _ (k w) l

  Eats-primary_end : Eats source n (primary_from source lit rec [])
  unfolding primary_from
  Eats-primary_end = Eats-unexpected

  Runs-primary_end : {w : ℕ} → Runs source w n (primary_from source lit rec [])
  unfolding primary_from
  Runs-primary_end = Runs-unexpected

  Eats-primary : Eats source n (primary source lit rec)
  unfolding primary
  Eats-primary = Eats-gets source _ _ λ type. Eats-if source _ _ _ Eats-literal (
      Eats-primary_from _ _ _ (λ w. Runs-named_func)
        (Eats-primary_from _ _ _ (λ w. Runs-variable false)
          (Eats-primary_from _ _ _ (λ w. Runs-table)
            (Eats-primary_from _ _ _ (λ w. Runs-array)
              (Eats-primary_from _ _ _ (λ w. Runs-func_expr source small well lit rec h _ _ _)
                Eats-primary_end)))))

  Runs-primary : {w : ℕ} → Runs source w n (primary source lit rec)
  unfolding primary
  Runs-primary {w} = Runs-bind source w _ _ (Runs-gets source _) λ type.
      Runs-if source w _ _ _ Runs-literal (
        Runs-primary_from _ _ _ (λ w. Runs-named_func)
          (Runs-primary_from _ _ _ (λ w. Runs-variable false)
            (Runs-primary_from _ _ _ (λ w. Runs-table)
              (Runs-primary_from _ _ _ (λ w. Runs-array)
                (Runs-primary_from _ _ _ (λ w. Runs-func_expr source small well lit rec h _ _ _)
                  Runs-primary_end)))))

  pub Eats-grouping : Eats source n (grouping source lit rec)
  unfolding grouping
  Eats-grouping = Eats-match source small well _ _ (search (progress_rules, h.at)) Eats-primary

  pub Runs-grouping : {w : ℕ} → Runs source w n (grouping source lit rec)
  unfolding grouping
  Runs-grouping {w} =
      Runs-match source small well w _ _ (search (progress_rules, h.at)) Runs-primary

  pub Eats-subscript_suffix : Eats source n (subscript_suffix source lit rec)
  unfolding subscript_suffix
  Eats-subscript_suffix = search (progress_rules, h.at, Eats-bind, Eats-advance) depth 14

  pub Eats-field_suffix : Eats source n (field_suffix source lit rec)
  unfolding field_suffix
  Eats-field_suffix = search (progress_rules, Eats-bind, Eats-advance, Runs-emit_id_string) depth 14

  pub Eats-method_suffix : Eats source n (method_suffix source lit rec)
  unfolding method_suffix
  Eats-method_suffix =
      search (progress_rules, Eats-bind, Eats-field_suffix, Runs-compile_args) depth 14

  RunsAwake-suffix_of :
      {w : ℕ} (type : TokenType) → RunsAwake source w n (suffix_of source lit rec type)
  unfolding suffix_of
  RunsAwake-suffix_of {w} TokenType.lsq_brace =
      RunsAwake-bind source w _ _
        (Eats-bind source _ _ Eats-subscript_suffix λ _. Runs-edit source _)
        λ _. search (progress_rules, h.at)
  RunsAwake-suffix_of {w} TokenType.lparen =
      RunsAwake-bind source w _ _ (Eats-compile_args false) λ _. search (progress_rules, h.at)
  RunsAwake-suffix_of {w} TokenType.dot =
      RunsAwake-bind source w _ _ Eats-field_suffix λ _. search (progress_rules, h.at)
  RunsAwake-suffix_of {w} TokenType.colon =
      RunsAwake-bind source w _ _ Eats-method_suffix λ _. search (progress_rules, h.at)
  RunsAwake-suffix_of {w} _ = RunsAwake-Runs source w _ (Runs-pure source _)

  pub Runs-suffix_expr : {w : ℕ} → Runs source w n (suffix_expr source lit rec)
  unfolding suffix_expr suffix_of
  Runs-suffix_expr {w} = Runs-peek source w _ (Runs-pure source _) RunsAwake-suffix_of
