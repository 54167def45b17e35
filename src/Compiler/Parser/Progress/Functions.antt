-- ===== src/Compiler/Parser/Progress/Functions.antt =====
-- Blocks and functions come to an end: `block_stmt`, `compile_func` and `func_expr` of
-- src/syntax/compiler.cpp.
use bad_snap.Common.{ℕ, zero, suc, ◌*◌, ◌+◌, ◌^◌, ◌<◌, Bool, false, List, length, arith}
use bad_snap.Scanner.Total.{EndsWell}
use bad_snap.Token.{Token}
use bad_snap.Compiler.Parser.{Function, Literals, Parser, P}
use bad_snap.Compiler.Parser.Functions.{
  Rule, block_rest, block_stmt, func_body, arrow_body, compile_func, params, open_params,
  self_param, rest_of_func, make_function, leave_function, give_up, func_expr,
}
use bad_snap.Compiler.Parser.Progress.{Runs, Runs-bind, Eats, Eats-bind}
use bad_snap.Compiler.Parser.Progress.Rules.{
  Runs-if, Runs-choice, Runs-known, Runs-round, Runs-rounds, thrice, Fuelled,
}
use bad_snap.Compiler.Parser.Progress.Resuming.{
  Resumes, Resumes-Runs, Resumes-bind, Resumes-if, Runs-Resumes, Resumes-put_tokens,
}
use bad_snap.Compiler.Parser.Progress.Steps.{
  Runs-gets, Runs-token_text, Runs-add_param, Runs-pure, Runs-edit, Runs-pop_function,
}
use bad_snap.Compiler.Parser.Progress.Tokens.{
  Eats-advance, Runs-expect, Runs-match_token, Runs-match, progress_rules,
}

module _ {V : Type 0} (source : List ℕ) (small : length source < 2 ^ 32)
    (well : EndsWell source small) (lit : Literals V) (rec : Rule → P V (Unit {0})) {n : ℕ}
    (h : Fuelled source n rec) where
  pub Runs-block_rest : {w : ℕ} → Runs source (suc w) n (block_rest source lit rec)
  unfolding block_rest
  Runs-block_rest = search (progress_rules, h.statements)

  pub Runs-block_stmt : {w : ℕ} → Runs source (suc w) n (block_stmt source lit rec)
  unfolding block_stmt
  Runs-block_stmt = search (progress_rules, Runs-block_rest) depth 14

  pub Eats-block_stmt : Eats source n (block_stmt source lit rec)
  unfolding block_stmt
  Eats-block_stmt =
      Eats-bind source _ _ (Eats-advance source small well)
        λ _. search (progress_rules, Runs-block_rest) depth 14

  Runs-func_body : {w : ℕ} → Runs source (suc w) n (func_body source lit rec)
  unfolding func_body
  Runs-func_body = search (progress_rules, Runs-block_stmt) depth 14

  Runs-arrow_body : {w : ℕ} → Runs source (suc w) n (arrow_body source lit rec)
  unfolding arrow_body
  Runs-arrow_body = search (progress_rules, Runs-block_stmt, h.expr) depth 14

  Runs-compile_func : {w : ℕ} (b : Bool) → Runs source (suc w) n (compile_func source lit rec b)
  unfolding compile_func
  Runs-compile_func b = search (progress_rules, Runs-func_body, Runs-arrow_body) depth 14

  Runs-open_params : {w : ℕ} (b : Bool) → Runs source w n (open_params source lit rec b)
  unfolding open_params
  Runs-open_params b = search progress_rules depth 14

  Runs-self_param : {w : ℕ} (b : Bool) → Runs source w n (self_param source lit rec b)
  unfolding self_param
  Runs-self_param b = search progress_rules depth 14

  Runs-rest_of_func : {w : ℕ} (b c : Bool) → Runs source (suc w) n (rest_of_func source lit rec b c)
  unfolding rest_of_func
  Runs-rest_of_func b c = search (progress_rules, Runs-compile_func) depth 14

  Runs-make_function : {w : ℕ} (f : Function V) → Runs source w n (make_function source lit rec f)
  unfolding make_function
  Runs-make_function f = search progress_rules depth 20

  Runs-leave_function :
      {w : ℕ} (t : Token) (b c d : Bool)
      → Runs source (suc w) n (leave_function source lit rec t b c d)
  unfolding leave_function
  Runs-leave_function t b c d =
      search (progress_rules, Runs-rest_of_func, Runs-make_function) depth 20

  Runs-params :
      (rounds count : ℕ) → Runs source 0 (thrice rounds) (params source lit rec rounds count)
  unfolding params
  Runs-params zero count = record { at = λ s inside enough. absurd (omega (arith, enough)) }
  Runs-params (suc rounds) count = Runs-bind source 0 _ _ (Runs-expect source small well _) λ _.
      Runs-bind source 0 _ _ (Runs-token_text source) λ name.
        Runs-bind source 0 _ _ (Runs-add_param source name) λ _.
          Runs-bind source 0 _ _ (Runs-match_token source small well _) λ variadic.
            Runs-choice source 0 variadic _ _ _ (Runs-known source 0 false _ (Runs-pure source _)) (
              Runs-match source small well 0 _ _
                (Runs-round source 0 _ (Runs-params rounds (count + 1))) (Runs-pure source _))

  Resumes-give_up :
      (s₀ : Parser V) {w : ℕ} (prev token : Token)
      → Resumes source s₀ w n (give_up source lit rec prev token s₀.peek)
  unfolding give_up
  Resumes-give_up s₀ {w} prev token = Resumes-bind source s₀ w _ _ (Runs-edit source _) λ _.
      Resumes-bind source s₀ w _ _ (Runs-pop_function source)
        λ inner. Resumes-put_tokens source s₀ prev token

  pub Runs-func_expr :
      {w : ℕ} (name : List ℕ) (b c : Bool)
      → Runs source (suc w) n (func_expr source lit rec name b c)
  unfolding func_expr
  Runs-func_expr {w} name is_method is_arrow =
      let params_end : (count : ℕ)
          → Runs source (suc w) n (params source lit rec (2 * length source + 4) count) =
        λ count.
          Runs-rounds source {w = suc w} {n = n} _ (Runs-params (2 * length source + 4) count) in
      Runs-bind source (suc w) _ _ (Runs-gets source _) λ prev.
        Runs-bind source (suc w) _ _ (Runs-gets source _) λ token.
          Runs-Resumes source (suc w) _ λ s₀.
            Resumes-bind source s₀ (suc w) _ _ (search progress_rules) λ _.
              Resumes-bind source s₀ (suc w) _ _ (Runs-open_params is_arrow) λ open_paren.
                Resumes-bind source s₀ (suc w) _ _ (Runs-self_param is_method) λ implicit.
                  Resumes-bind source s₀ (suc w) _ _ (Runs-gets source _) λ some_params.
                    Resumes-bind source s₀ (suc w) _ _
                      (Runs-if source (suc w) some_params _ _ (params_end implicit)
                        (Runs-pure source _))
                      λ (count, variadic).
                        Resumes-if source s₀ (suc w) _ _ _ (Resumes-give_up s₀ prev token) (
                          Resumes-Runs source s₀ (suc w) _
                            (Runs-leave_function token open_paren is_arrow variadic))
