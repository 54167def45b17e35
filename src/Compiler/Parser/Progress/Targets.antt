-- ===== src/Compiler/Parser/Progress/Targets.antt =====
-- Expression statements take a token or report an error: src/syntax/compiler.cpp.
use mathlib.Core.Path.{subst}
use bad_snap.Common.{
  ℕ, ◌*◌, ◌<◌, ◌≤◌, ◌^◌, ◌≡◌, ◌⊎◌, inl, inr, refl, Bool, true, false, List, length, Bool-cases,
  if◌then◌else◌, sym,
}
use bad_snap.Opcode.{Opcode}
use bad_snap.Scanner.Total.{EndsWell}
use bad_snap.Token.{TokenType}
use bad_snap.Compiler.Emit.{emit, emit_at, add_instruction, error}
use bad_snap.Compiler.Parser.{
  Literals, Parser, P, at_eof, at_line, with_emitter, ◌>>=◌, ◌>>◌, edit, pure, gets, check_token,
  advance, match_token, is_next,
}
use bad_snap.Compiler.Parser.Functions.{
  Rule, ExpKind, literal_value, call_exp, append_exp, nothing, logic_or_rule,
}
use bad_snap.Compiler.Parser.Loops.{failed}
use bad_snap.Compiler.Parser.Suffixes.{compile_args, method_suffix}
use bad_snap.Compiler.Parser.Targets.{
  subscript_target, field_target, call_target, end_of_stmt, complete_at, complete_expr_stmt,
  prefix_name, prefix_literal, prefix, expr_stmt_from, expr_stmt,
}
use bad_snap.Compiler.Parser.Progress.Rules.{
  bind_assoc, Fuelled, Runs-peek, RunsAwake-Runs, RunsAwake-Eats,
}
use bad_snap.Compiler.Parser.Progress.{
  remaining, Nearer, Shorter, Shorter-Nearer, Ends, Ends-bind, Ends-weaken, Runs, RunsAwake, Eats,
  Runs-bind, Eats-bind,
}
use bad_snap.Compiler.Parser.Progress.Steps.{Runs-pure, Runs-edit}
use bad_snap.Compiler.Parser.Progress.Tokens.{Eats-advance, match-true, match-false, progress_rules}
use bad_snap.Compiler.Parser.Progress.Suffixes.{
  Eats-grouping, Eats-literal, Runs-variable, Runs-table_assign, Eats-subscript_suffix,
  Eats-field_suffix, Eats-method_suffix, Eats-compile_args,
}

module _ {V : Type 0} (source : List ℕ) where
  -- Less is left than before, or an error is set and the tokens stay.
  pub record Settled (s s' : Parser V) : Type 0 where
    pub near : Nearer source s s'
    pub either : (remaining source s' < remaining source s) ⊎ (failed s' ≡ true)

  pub record Settles (n : ℕ) {A : Type 0} (m : P V A) : Type 0 where
    pub at :
        (s : Parser V)
        → s.scanner.current ≤ length source
        → at_eof s ≡ false
        → 3 * remaining source s < n
        → Ends source (Settled s) (m s)

  module _ {n : ℕ} {A : Type 0} where
    pub Settles-Eats : (m : P V A) → Eats source n m → Settles n m
    Settles-Eats m h = record {
      at = λ s inside awake enough.
          Ends-weaken source (Shorter source s) (Settled s) (m s)
            (λ s' k. record { near = Shorter-Nearer source s s' k; either = inl k.less })
            (h.at s inside awake enough);
    }

    Settles-if :
        (b : Bool) (m m' : P V A) → Settles n m → Settles n m' → Settles n (if b then m else m')
    Settles-if true m m' h h' = h
    Settles-if false m m' h h' = h'

    Settles-gets :
        {B : Type 0} (g : Parser V → B) (f : B → P V A)
        → ((b : B) → Settles n (f b))
        → Settles n (gets g >>= f)
    unfolding ◌>>=◌ gets
    Settles-gets g f h = record { at = λ s inside awake enough. (h (g s)).at s inside awake enough }

    -- An error is set, and then tokens are taken or it stays.
    Settles-error : (f : Unit → P V A) → Settles n (f tt) → Settles n (edit error >>= f)
    unfolding ◌>>=◌ edit remaining
    Settles-error f h = record {
      at = λ s inside awake enough.
          let s₁ = with_emitter (error (at_line s)) s in
          Ends-weaken source (Settled s₁) (Settled s) (f tt s₁)
            (λ s' k. record {
              near = record { inside = k.near.inside; less = k.near.less };
              either = k.either;
            })
            (h.at s₁ inside awake enough);
    }

  module _ {n : ℕ} {A B : Type 0} where
    Settles-choice :
        (b : Bool) (m m' : P V A) (f : A → P V B)
        → Settles n (m >>= f)
        → Settles n (m' >>= f)
        → Settles n ((if b then m else m') >>= f)
    Settles-choice true m m' f h h' = h
    Settles-choice false m m' f h h' = h'

    Settles-nested :
        {C : Type 0} (m : P V C) (g : C → P V A) (f : A → P V B)
        → Settles n (m >>= λ c. g c >>= f)
        → Settles n ((m >>= g) >>= f)
    Settles-nested m g f h = record {
      at = λ s inside awake enough.
          subst (Ends source (Settled s)) (sym (bind_assoc m g f s)) (h.at s inside awake enough);
    }

    Settles-known : (a : A) (f : A → P V B) → Settles n (f a) → Settles n (pure a >>= f)
    unfolding ◌>>=◌ pure
    Settles-known a f h = record { at = λ s. h.at s }

  Settles-set_error : {n : ℕ} → Settles n (edit {V = V} error)
  unfolding edit error Ends remaining
  Settles-set_error = record {
    at = λ s inside awake enough. record {
      near = record { inside = inside; less = inr (refl, refl) };
      either = inr refl;
    };
  }

  Settles-emit :
      {n : ℕ} (m : P V (Unit {0})) (op : Opcode) → Settles n m → Settles n (m >> edit (emit op))
  unfolding edit emit emit_at add_instruction Ends remaining
  Settles-emit m op h = record {
    at = λ s inside awake enough.
        Ends-bind source (Settled s) (Settled s) m _ s (h.at s inside awake enough) λ a s₁ k.
          record {
            near = record { inside = k.near.inside; less = k.near.less };
            either = k.either;
          };
  }

  -- An error is set, and no more is done.
  Settles-error_only :
      {n : ℕ} {A B : Type 0} (a : A) (b : B) (f : A → P V B)
      → f a ≡ pure b
      → Settles n (edit {V = V} error >>= λ _. pure a >>= f)
  unfolding edit error Ends remaining ◌>>=◌ pure
  Settles-error_only {B = B} a b f e = record {
    at = λ s inside awake enough.
        let s₁ = with_emitter (error (at_line s)) s in
        subst (λ (m : P V B). Ends source (Settled s) (m s₁)) (sym e)
          (record {
            near = record { inside = inside; less = inr (refl, refl) };
            either = inr refl;
          });
  }

module _ {V : Type 0} (source : List ℕ) (small : length source < 2 ^ 32)
    (well : EndsWell source small) where
  Settles-match :
      {A : Type 0} {n : ℕ} (t : TokenType) (f : Bool → P V A)
      → Runs source 3 n (f true)
      → Settles source n (f false)
      → Settles source n (match_token source t >>= f)
  Settles-match t f h h' = record {
    at = λ s inside awake enough. elim (Bool-cases (is_next t s)) [
      | inl found ↦
          subst (Ends source (Settled source s)) (sym (match-true source small well t f s found)) (
            (Settles-Eats source _
                (Eats-bind source _ (λ _. f true) (Eats-advance source small well) (λ _. h))).at
              s inside awake enough)
      | inr other ↦
          subst (Ends source (Settled source s)) (sym (match-false source small well t f s other))
            (h'.at s inside awake enough)
    ];
  }

module _ {V : Type 0} (source : List ℕ) (small : length source < 2 ^ 32)
    (well : EndsWell source small) (lit : Literals V) (rec : Rule → P V (Unit {0})) {n : ℕ}
    (h : Fuelled source n rec) where
  Eats-subscript_target : Eats source n (subscript_target source lit rec)
  unfolding subscript_target
  Eats-subscript_target =
      Eats-bind source _ _ (Eats-subscript_suffix source small well lit rec h)
        λ _. search (progress_rules, h.at, Runs-table_assign) depth 14

  Eats-field_target : Eats source n (field_target source lit rec)
  unfolding field_target
  Eats-field_target =
      Eats-bind source _ _ (Eats-field_suffix source small well lit rec h)
        λ _. search (progress_rules, h.at, Runs-table_assign) depth 14

  Eats-call : (b : Bool) (rule : Rule) → Eats source n (compile_args source lit rec b >> rec rule)
  Eats-call b rule =
      Eats-bind source _ _ (Eats-compile_args source small well lit rec h b) λ _. h.at rule 0

  Eats-method_call : (rule : Rule) → Eats source n (method_suffix source lit rec >> rec rule)
  Eats-method_call rule =
      Eats-bind source _ _ (Eats-method_suffix source small well lit rec h) λ _. h.at rule 0

  Eats-append_target :
      (rule : Rule)
      → Eats source n
          (advance source >> rec logic_or_rule >> edit (emit Opcode.list_append) >> rec rule)
  Eats-append_target rule =
      Eats-bind source _ _
        (Eats-bind source _ _
          (Eats-bind source _ _ (Eats-advance source small well) λ _. h.at logic_or_rule 0)
          λ _. Runs-edit source _)
        λ _. h.at rule 0

  RunsAwake-call_target :
      {w : ℕ} (k : ExpKind) → RunsAwake source w n (call_target source lit rec k)
  unfolding call_target
  RunsAwake-call_target {w} literal_value = RunsAwake-Runs source w _ (Runs-edit source _)
  RunsAwake-call_target {w} _ = RunsAwake-Eats source w _ (Eats-call _ _)

  Runs-end_of_stmt : {w : ℕ} (k : ExpKind) → Runs source w n (end_of_stmt source lit rec k)
  unfolding end_of_stmt
  Runs-end_of_stmt call_exp = Runs-pure source _
  Runs-end_of_stmt append_exp = Runs-pure source _
  Runs-end_of_stmt _ = Runs-edit source _

  RunsAwake-complete_at :
      {w : ℕ} (k : ExpKind) (t : TokenType) → RunsAwake source w n (complete_at source lit rec k t)
  unfolding complete_at
  RunsAwake-complete_at {w} k TokenType.lsq_brace = RunsAwake-Eats source w _ Eats-subscript_target
  RunsAwake-complete_at {w} k TokenType.lparen = RunsAwake-call_target k
  RunsAwake-complete_at {w} k TokenType.dot = RunsAwake-Eats source w _ Eats-field_target
  RunsAwake-complete_at {w} k TokenType.colon = RunsAwake-Eats source w _ (Eats-method_call _)
  RunsAwake-complete_at {w} k TokenType.append = RunsAwake-Eats source w _ (Eats-append_target _)
  RunsAwake-complete_at {w} k _ = RunsAwake-Runs source w _ (Runs-end_of_stmt k)

  pub Runs-complete_expr_stmt :
      {w : ℕ} (k : ExpKind) → Runs source w n (complete_expr_stmt source lit rec k)
  unfolding complete_expr_stmt complete_at
  Runs-complete_expr_stmt {w} k =
      Runs-peek source w _ (Runs-end_of_stmt k) (RunsAwake-complete_at k)

  Settles-complete_literal :
      (t : TokenType) → Settles source n (complete_at source lit rec literal_value t)
  unfolding complete_at call_target end_of_stmt
  Settles-complete_literal TokenType.lsq_brace = Settles-Eats source _ Eats-subscript_target
  Settles-complete_literal TokenType.lparen = Settles-set_error source
  Settles-complete_literal TokenType.dot = Settles-Eats source _ Eats-field_target
  Settles-complete_literal TokenType.colon = Settles-Eats source _ (Eats-method_call _)
  Settles-complete_literal TokenType.append = Settles-Eats source _ (Eats-append_target _)
  Settles-complete_literal _ = Settles-set_error source

  Settles-literal_stmt : Settles source n (complete_expr_stmt source lit rec literal_value)
  unfolding complete_expr_stmt
  Settles-literal_stmt = Settles-gets source _ _ Settles-complete_literal

  Runs-expr_stmt_from : {w : ℕ} (k : ExpKind) → Runs source w n (expr_stmt_from source lit rec k)
  unfolding expr_stmt_from
  Runs-expr_stmt_from nothing = Runs-pure source _
  Runs-expr_stmt_from {w} _ = search (progress_rules, Runs-complete_expr_stmt)

  -- `prefix` behind a name.
  Runs-prefix_name : Runs source 3 n (prefix_name source lit rec)
  unfolding prefix_name
  Runs-prefix_name = search (progress_rules, Runs-variable) depth 14

  Settles-prefix_literal :
      Settles source n (prefix_literal source lit rec >>= expr_stmt_from source lit rec)
  unfolding prefix_literal expr_stmt_from
  Settles-prefix_literal = Settles-nested source _ _ _ (
      Settles-gets source _ _ λ type.
        Settles-choice source _ _ _ (expr_stmt_from source lit rec)
          (Settles-nested source _ _ _ (
            Settles-error source _
              (Settles-known source _ _ (Settles-emit source _ _ Settles-literal_stmt))))
          (Settles-choice source _ _ _ (expr_stmt_from source lit rec)
            (Settles-nested source _ _ _
              (Settles-error_only source nothing tt (expr_stmt_from source lit rec) refl))
            (Settles-Eats source _ (
              Eats-bind source _ _
                (Eats-bind source _ _ (Eats-literal source small well lit rec h)
                  λ _. Runs-pure source _)
                λ k. Runs-expr_stmt_from k))))

  pub Settles-expr_stmt : Settles source n (expr_stmt source lit rec)
  unfolding expr_stmt prefix check_token
  Settles-expr_stmt = Settles-nested source _ _ _ (
      Settles-gets source _ _ λ paren.
        Settles-choice source _ _ _ _
          (Settles-Eats source _ (
            Eats-bind source _ _
              (Eats-bind source _ _ (Eats-grouping source small well lit rec h)
                λ _. Runs-pure source _)
              λ k. Runs-expr_stmt_from k))
          (Settles-nested source _ _ _ (
            Settles-match source small well _ _
              (Runs-bind source 3 _ _ Runs-prefix_name λ k. Runs-expr_stmt_from k)
              Settles-prefix_literal)))
