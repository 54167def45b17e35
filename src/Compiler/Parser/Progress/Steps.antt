-- ===== src/Compiler/Parser/Progress/Steps.antt =====
-- The steps of src/syntax/compiler.cpp that take no token.
use bad_snap.Common.{ℕ, ◌≡◌, inr, refl, ap, Bool, Option, none, some, List, [], ◌∷◌, arith}
use bad_snap.Token.{TokenType, Token}
use bad_snap.Opcode.{Opcode}
use bad_snap.Compiler.Emit.{Emitter, Loop, error}
use bad_snap.Compiler.Symbols.{SymbolTable, UpvalDesc, find_upvalue}
use bad_snap.Compiler.Parser.{
  Function, Parser, Parsed, P, pure, gets, or_fault, or_throw, edit, with_index, on_symtable,
  set_loops, declare, find_upval_index, check_token, test, token_text, tables, with_tables, ok,
  fault,
}
use bad_snap.Compiler.Parser.Functions.{
  push_function, pop_function, open_block, close_block, count_param, add_param, add_self_param,
  emit_upvals, finish_function, put_token, take_error, set_variadic,
}
use bad_snap.Compiler.Parser.Loops.{enter_loop, innermost, leave_loop, jump_out}
use bad_snap.Compiler.Parser.Progress.{
  remaining, Nearer, Nearer-refl, Ends, Ends-weaken, Runs, Runs-bind,
}
use bad_snap.Compiler.Parser.Progress.Rules.{Runs-if, Runs-option}

module _ {V : Type 0} where
  -- The scanner and the next token stay.
  abbrev pub Still : Parser V → Parser V → Type 0
  Still s s' = (s'.scanner ≡ s.scanner) × (s'.peek ≡ s.peek)

  module _ {A : Type 0} where
    pub Runs-Still :
        (source : List ℕ) (w n : ℕ) (m : P V A)
        → ((s : Parser V) → Ends source (Still s) (m s))
        → Runs source w n m
    unfolding remaining
    Runs-Still source w n m h = record {
      at = λ s inside enough.
          Ends-weaken source (Still s) (Nearer source s) (m s)
            (λ s' (scanner, peek). record {
              inside = omega (arith, inside, ap (λ c. c.current) scanner);
              less = inr (cc, cc);
            })
            (h s);
    }

module _ {V : Type 0} (source : List ℕ) {w n : ℕ} where
  module _ {A : Type 0} where
    pub Runs-pure : (a : A) → Runs source w n (pure {V = V} a)
    unfolding Ends pure
    Runs-pure a = Runs-Still source w n _ λ s. (refl, refl)

    pub Runs-gets : (f : Parser V → A) → Runs source w n (gets f)
    unfolding Ends gets
    Runs-gets f = Runs-Still source w n _ λ s. (refl, refl)

    pub Runs-or_fault : (o : Option A) → Runs source w n (or_fault {V = V} o)
    unfolding Ends or_fault
    Runs-or_fault none = Runs-Still source w n _ λ s. tt
    Runs-or_fault (some a) = Runs-Still source w n _ λ s. (refl, refl)

    pub Runs-or_throw : (o : Option A) → Runs source w n (or_throw {V = V} o)
    unfolding Ends or_throw
    Runs-or_throw none = Runs-Still source w n _ λ s. tt
    Runs-or_throw (some a) = Runs-Still source w n _ λ s. (refl, refl)

    pub Runs-on_symtable :
        (f : SymbolTable → Option (A × SymbolTable)) → Runs source w n (on_symtable {V = V} f)
    unfolding Ends on_symtable
    Runs-on_symtable f = Runs-Still source w n _ λ s. go s (f s.self.symtable)
      where
        go :
            (s : Parser V) (r : Option (A × SymbolTable))
            → Ends source (Still s) (elim r as (λ _. Parsed V A) [
              | none ↦ fault
              | some (a, t) ↦ ok a (record s { self = record s.self { symtable = t } })
            ])
        go s none = tt
        go s (some (a, t)) = (refl, refl)

  pub Runs-edit : (f : Emitter V → Emitter V) → Runs source w n (edit f)
  unfolding Ends edit
  Runs-edit f = Runs-Still source w n _ λ s. (refl, refl)

  pub Runs-with_index : (f : Emitter V → ℕ × Emitter V) → Runs source w n (with_index f)
  unfolding Ends with_index
  Runs-with_index f = Runs-Still source w n _ λ s. (refl, refl)

  pub Runs-set_loops : (loops : List Loop) → Runs source w n (set_loops {V = V} loops)
  unfolding Ends set_loops
  Runs-set_loops loops = Runs-Still source w n _ λ s. (refl, refl)

  pub Runs-find_upval_index : (name : List ℕ) → Runs source w n (find_upval_index {V = V} name)
  unfolding Ends find_upval_index
  Runs-find_upval_index name =
      Runs-Still source w n _ λ s. go s (find_upvalue name s.self.symtable (tables s.parents))
    where
      go :
          (s : Parser V) (r : Option (Option ℕ × SymbolTable × List SymbolTable))
          → Ends source (Still s) (elim r as (λ _. Parsed V (Option ℕ)) [
            | none ↦ fault
            | some (index, t, ts) ↦ ok index (record s {
              self = record s.self { symtable = t };
              parents = with_tables s.parents ts;
            })
          ])
      go s none = tt
      go s (some (index, t, ts)) = (refl, refl)

  pub Runs-push_function : (name : List ℕ) → Runs source w n (push_function {V = V} name)
  unfolding Ends push_function
  Runs-push_function name = Runs-Still source w n _ λ s. (refl, refl)

  pub Runs-pop_function : Runs source w n (pop_function {V = V})
  unfolding Ends pop_function
  Runs-pop_function = Runs-Still source w n _ λ s. go s s.parents
    where
      go :
          (s : Parser V) (ps : List (Function V))
          → Ends source (Still s) (elim ps as (λ _. Parsed V (Function V)) [
            | [] ↦ fault
            | parent ∷ rest ↦ ok s.self (record s { self = parent; parents = rest })
          ])
      go s [] = tt
      go s (p ∷ ps) = (refl, refl)

  pub Runs-open_block : Runs source w n (open_block {V = V})
  unfolding Ends open_block
  Runs-open_block = Runs-Still source w n _ λ s. (refl, refl)

  pub Runs-close_block : Runs source w n (close_block {V = V})
  unfolding Ends close_block
  Runs-close_block = Runs-Still source w n _ λ s. (refl, refl)

  pub Runs-count_param : Runs source w n (count_param {V = V})
  unfolding Ends count_param
  Runs-count_param = Runs-Still source w n _ λ s. (refl, refl)

  pub Runs-set_variadic : (b : Bool) → Runs source w n (set_variadic {V = V} b)
  unfolding Ends set_variadic
  Runs-set_variadic b = Runs-Still source w n _ λ s. (refl, refl)

  pub Runs-finish_function : (f : Function V) → Runs source w n (finish_function f)
  unfolding Ends finish_function
  Runs-finish_function f = Runs-Still source w n _ λ s. (refl, refl)

  pub Runs-put_token : (t : Token) → Runs source w n (put_token {V = V} t)
  unfolding Ends put_token
  Runs-put_token t = Runs-Still source w n _ λ s. (refl, refl)

pub ruleset still_rules = (
  Runs-bind, Runs-if, Runs-option, Runs-pure, Runs-gets, Runs-or_fault, Runs-or_throw,
  Runs-on_symtable, Runs-edit, Runs-with_index, Runs-set_loops, Runs-find_upval_index,
  Runs-push_function, Runs-pop_function, Runs-open_block, Runs-close_block, Runs-count_param,
  Runs-set_variadic, Runs-finish_function, Runs-put_token,
)

module _ {V : Type 0} (source : List ℕ) {w n : ℕ} where
  pub Runs-take_error : (flag : Bool) → Runs source w n (take_error {V = V} flag)
  unfolding take_error
  Runs-take_error flag = search still_rules

  pub Runs-check_token : (t : TokenType) → Runs source w n (check_token {V = V} t)
  unfolding check_token
  Runs-check_token t = search still_rules

  pub Runs-test : (t : TokenType) → Runs source w n (test {V = V} t)
  unfolding test check_token
  Runs-test t = search still_rules

  pub Runs-declare : (name : List ℕ) (c : Bool) → Runs source w n (declare {V = V} name c)
  unfolding declare
  Runs-declare name c =
      Runs-bind source w _ _ (Runs-on_symtable source _)
        λ index. Runs-option source w index _ _ (search still_rules) λ i. search still_rules

  pub Runs-add_param : (name : List ℕ) → Runs source w n (add_param {V = V} name)
  unfolding add_param
  Runs-add_param name = search (still_rules, Runs-declare)

  pub Runs-add_self_param : Runs source w n (add_self_param {V = V})
  unfolding add_self_param
  Runs-add_self_param = search still_rules

  pub Runs-emit_upvals : (us : List UpvalDesc) → Runs source w n (emit_upvals {V = V} us)
  unfolding emit_upvals
  Runs-emit_upvals [] = search still_rules
  Runs-emit_upvals (u ∷ us) = Runs-bind source w _ _ (search still_rules) λ _. Runs-emit_upvals us

  pub Runs-token_text : Runs source w n (token_text {V = V} source)
  unfolding token_text
  Runs-token_text = search still_rules

  pub Runs-enter_loop : (l : Loop) → Runs source w n (enter_loop {V = V} l)
  unfolding enter_loop
  Runs-enter_loop l = search still_rules

  Runs-innermost : (ls : List Loop) → Runs source w n (innermost {V = V} ls)
  unfolding innermost
  Runs-innermost [] = search still_rules
  Runs-innermost (l ∷ ls) = search still_rules

  pub Runs-leave_loop : (op : Opcode) → Runs source w n (leave_loop {V = V} op)
  unfolding leave_loop
  Runs-leave_loop op = search (still_rules, Runs-innermost)

  pub Runs-jump_out :
      (jump : ℕ → SymbolTable → Emitter V → Emitter V) → Runs source w n (jump_out jump)
  unfolding jump_out
  Runs-jump_out jump =
      Runs-bind source w _ _ (Runs-gets source _)
        λ loops. Runs-bind source w _ _ (Runs-gets source _) λ t. jumped loops t
    where
      jumped :
          (loops : List Loop) (t : SymbolTable)
          → Runs source w n (elim loops as (λ _. P V (Unit {0})) [
            | [] ↦ edit error
            | l ∷ enclosing ↦ edit (jump l.scope_depth t)
          ])
      jumped [] t = Runs-edit source _
      jumped (l ∷ enclosing) t = Runs-edit source _
