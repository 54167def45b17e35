-- ===== src/Compiler/Parser/Balance/Steps.antt =====
-- The steps of the parser keep the balance: src/syntax/compiler.cpp.
use bad_snap.Common.{
  ℕ, length, ◌≡◌, refl, sym, ap, ◌∙◌, Bool, Option, none, some, List, [], ◌∷◌, map, append_nil,
}
use bad_snap.Token.{TokenType, Token}
use bad_snap.Scanner.{next_token}
use bad_snap.Scanner.Cursor
use bad_snap.Scanner.Cursor.{Scan, Scanner}
use bad_snap.Compiler.Emit.{Emitter, Loop, error}
use bad_snap.Compiler.Symbols.{SymbolTable, UpvalDesc, find_upvalue}
use bad_snap.Compiler.Parser.{
  Function, Parser, Parsed, P, edit, out_of_fuel, ok, thrown, fault, no_fuel, on_symtable, declare,
  find_upval_index, advance, check_token, match_token, expect, test, token_text, tables,
  with_tables,
}
use bad_snap.Compiler.Parser.Functions.{
  count_param, add_param, add_self_param, emit_upvals, finish_function, put_tokens, put_token,
  take_error, set_variadic,
}
use bad_snap.Compiler.Parser.Loops.{jump_out}
use bad_snap.Compiler.Parser.Growth.{
  Grown, Grown-trans, Grown-patched, Grown-exit_block, Grows, GrowsIndex, Grows-error,
  Grows-exit_loop, grows_rules,
}
use bad_snap.Compiler.Parser.Balance.{
  fixed, Balanced, Balanced-trans, Balanced-edited, Leaves, Keeps, Opened, block, function, loop,
  Within, Closes, Keeps-bind, Closes-then, Closes-bind, Keeps-pure, Keeps-gets, Keeps-or_fault,
  Keeps-or_throw, Keeps-if, Closes-if, Keeps-option, Keeps-edit, Keeps-with_index,
}
use bad_snap.Compiler.Parser.Balance.Tables.{
  SameDepth, KeepsDepth, KeepsDepth-new_variable, KeepsDepth-add_self, SameDepths,
  SameDepths-find_upvalue, with_tables-fixed,
}

module _ {V : Type 0} where
  -- What the parser has beside the blocks and tables changes nothing of the balance.
  Balanced-moved :
      (s s' : Parser V)
      → s'.self ≡ s.self
      → s'.parents ≡ s.parents
      → s'.finished ≡ s.finished
      → Balanced s s'
  Balanced-moved s s' self parents finished = record {
    depth = ap (λ f. f.symtable.scope_depth) self;
    loops = ap (λ f. f.loops) self;
    outer = ap (map fixed) parents;
    grown =
        Grown-patched s.self.emitter s'.self.emitter (ap (λ f. length f.emitter.code) self)
          (ap (λ f. f.emitter.lines) self) (ap (λ f. f.emitter.constant_pool) self);
    finished = ([], finished ∙ sym (append_nil s.finished));
  }

  pub Keeps-on_symtable :
      {A : Type 0} (f : SymbolTable → Option (A × SymbolTable))
      → KeepsDepth f
      → Keeps (on_symtable {V = V} f)
  unfolding Leaves on_symtable
  Keeps-on_symtable {A = A} f h = record {
    at = λ s. stepped s (f s.self.symtable) (h.at s.self.symtable);
  }
    where
      stepped :
          (s : Parser V) (r : Option (A × SymbolTable))
          → SameDepth s.self.symtable r
          → Leaves (Balanced s) (elim r as (λ _. Parsed V A) [
            | none ↦ fault
            | some (a, t) ↦ ok a (record s { self = record s.self { symtable = t } })
          ])
      stepped s none e = tt
      stepped s (some (a, t)) e = record {
        depth = e;
        loops = refl;
        outer = refl;
        grown = Grown-patched s.self.emitter s.self.emitter refl refl refl;
        finished = ([], sym (append_nil s.finished));
      }

  pub Keeps-find_upval_index : (name : List ℕ) → Keeps (find_upval_index {V = V} name)
  unfolding Leaves find_upval_index
  Keeps-find_upval_index name = record {
    at = λ s.
        found s (find_upvalue name s.self.symtable (tables s.parents))
          (SameDepths-find_upvalue name s.self.symtable (tables s.parents));
  }
    where
      found :
          (s : Parser V) (r : Option (Option ℕ × SymbolTable × List SymbolTable))
          → SameDepths s.self.symtable (tables s.parents) r
          → Leaves (Balanced s) (elim r as (λ _. Parsed V (Option ℕ)) [
            | none ↦ fault
            | some (index, t, ts) ↦ ok index (record s {
              self = record s.self { symtable = t };
              parents = with_tables s.parents ts;
            })
          ])
      found s none h = tt
      found s (some (index, t, ts)) (d, e) = record {
        depth = d;
        loops = refl;
        outer = with_tables-fixed s.parents ts e;
        grown = Grown-patched s.self.emitter s.self.emitter refl refl refl;
        finished = ([], sym (append_nil s.finished));
      }

  pub Keeps-count_param : Keeps (count_param {V = V})
  unfolding Leaves count_param
  Keeps-count_param = record {
    at = λ s. record {
      depth = refl;
      loops = refl;
      outer = refl;
      grown = Grown-patched s.self.emitter s.self.emitter refl refl refl;
      finished = ([], sym (append_nil s.finished));
    };
  }

  pub Keeps-set_variadic : (variadic : Bool) → Keeps (set_variadic {V = V} variadic)
  unfolding Leaves set_variadic
  Keeps-set_variadic variadic = record {
    at = λ s. record {
      depth = refl;
      loops = refl;
      outer = refl;
      grown = Grown-patched s.self.emitter s.self.emitter refl refl refl;
      finished = ([], sym (append_nil s.finished));
    };
  }

  pub Keeps-finish_function : (f : Function V) → Keeps (finish_function f)
  unfolding Leaves finish_function
  Keeps-finish_function f = record {
    at = λ s. record {
      depth = refl;
      loops = refl;
      outer = refl;
      grown = Grown-patched s.self.emitter s.self.emitter refl refl refl;
      finished = (f ∷ [], refl);
    };
  }

  pub Keeps-put_tokens : (prev token peek : Token) → Keeps (put_tokens {V = V} prev token peek)
  unfolding Leaves put_tokens
  Keeps-put_tokens prev token peek = record { at = λ s. Balanced-moved s _ refl refl refl }

  pub Keeps-put_token : (token : Token) → Keeps (put_token {V = V} token)
  unfolding Leaves put_token
  Keeps-put_token token = record { at = λ s. Balanced-moved s _ refl refl refl }

  pub Keeps-take_error : (flag : Bool) → Keeps (take_error {V = V} flag)
  unfolding take_error
  Keeps-take_error flag =
      Keeps-edit _
        (record { at = λ b. Grown-patched b (record b { has_error = flag }) refl refl refl })

  pub Keeps-out_of_fuel : {A : Type 0} → Keeps (out_of_fuel {V = V} {A = A})
  unfolding Leaves
  Keeps-out_of_fuel = record { at = λ s. tt }

module _ {V : Type 0} (source : List ℕ) where
  pub Keeps-advance : Keeps (advance {V = V} source)
  unfolding Leaves advance
  Keeps-advance = record { at = λ s. scanned s (next_token source s.scanner) }
    where
      scanned :
          (s : Parser V) (r : Scan (Token × Scanner))
          → Leaves (Balanced s) (elim r as (λ _. Parsed V (Unit {0})) [
            | Cursor.ok (t, scanner) ↦
                ok tt (record s { prev = s.token; token = s.peek; peek = t; scanner = scanner })
            | Cursor.out_of_range ↦ thrown
            | Cursor.no_fuel ↦ no_fuel
          ])
      scanned s (Cursor.ok (t, scanner)) = Balanced-moved s _ refl refl refl
      scanned s Cursor.out_of_range = tt
      scanned s Cursor.no_fuel = tt

pub ruleset basic_rules = (
  grows_rules, Keeps-bind, Keeps-pure, Keeps-gets, Keeps-or_fault, Keeps-or_throw, Keeps-if,
  Keeps-option, Keeps-edit, Keeps-with_index, Keeps-on_symtable, Keeps-find_upval_index,
  Keeps-count_param, Keeps-set_variadic, Keeps-finish_function, Keeps-put_tokens, Keeps-put_token,
  Keeps-take_error, Keeps-out_of_fuel, Keeps-advance,
)

module _ {V : Type 0} where
  pub Keeps-check_token : (t : TokenType) → Keeps (check_token {V = V} t)
  unfolding check_token
  Keeps-check_token t = search basic_rules

  pub Keeps-test : (t : TokenType) → Keeps (test {V = V} t)
  unfolding test
  Keeps-test t = search basic_rules

  pub Keeps-declare : (name : List ℕ) (is_const : Bool) → Keeps (declare {V = V} name is_const)
  unfolding declare
  Keeps-declare name is_const =
      Keeps-bind _ _ (Keeps-on_symtable _ (KeepsDepth-new_variable name is_const))
        λ index. Keeps-option index _ _ (search basic_rules) λ i. search basic_rules

  pub Keeps-add_param : (name : List ℕ) → Keeps (add_param {V = V} name)
  unfolding add_param
  Keeps-add_param name = search (basic_rules, Keeps-declare)

  pub Keeps-add_self_param : Keeps (add_self_param {V = V})
  unfolding add_self_param
  Keeps-add_self_param = search (basic_rules, KeepsDepth-add_self)

  pub Keeps-emit_upvals : (us : List UpvalDesc) → Keeps (emit_upvals {V = V} us)
  unfolding emit_upvals
  Keeps-emit_upvals [] = Keeps-pure tt
  Keeps-emit_upvals (u ∷ us) = Keeps-bind _ _ (search basic_rules) λ _. Keeps-emit_upvals us

  pub Keeps-jump_out :
      (jump : ℕ → SymbolTable → Emitter V → Emitter V)
      → ((depth : ℕ) (t : SymbolTable) → Grows (jump depth t))
      → Keeps (jump_out jump)
  unfolding jump_out
  Keeps-jump_out jump h =
      Keeps-bind _ _ (Keeps-gets _) λ loops. Keeps-bind _ _ (Keeps-gets _) λ t. jumped loops t
    where
      jumped :
          (loops : List Loop) (t : SymbolTable)
          → Keeps (elim loops as (λ _. P V (Unit {0})) [
            | [] ↦ edit error
            | l ∷ enclosing ↦ edit (jump l.scope_depth t)
          ])
      jumped [] t = search basic_rules
      jumped (l ∷ enclosing) t = Keeps-edit _ (h l.scope_depth t)

module _ {V : Type 0} (source : List ℕ) where
  pub Keeps-match_token : (t : TokenType) → Keeps (match_token {V = V} source t)
  unfolding match_token
  Keeps-match_token t = search (basic_rules, Keeps-check_token)

  pub Keeps-expect : (t : TokenType) → Keeps (expect {V = V} source t)
  unfolding expect
  Keeps-expect t = search (basic_rules, Keeps-check_token)

  pub Keeps-token_text : Keeps (token_text {V = V} source)
  unfolding token_text
  Keeps-token_text = search basic_rules

pub ruleset keeps_rules = (
  basic_rules, Keeps-check_token, Keeps-test, Keeps-declare, Keeps-add_param, Keeps-add_self_param,
  Keeps-emit_upvals, Keeps-match_token, Keeps-expect, Keeps-token_text,
)
