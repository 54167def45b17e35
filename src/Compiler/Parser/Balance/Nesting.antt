-- ===== src/Compiler/Parser/Balance/Nesting.antt =====
-- What opens a block, a loop or a function, and what closes it, of src/syntax/compiler.cpp.
use bad_snap.Common.{
  ℕ, length, ◌-◌, ◌≡◌, refl, sym, ap, ◌∙◌, List, [], ◌∷◌, ◌++◌, map, append_nil, arith,
}
use bad_snap.Opcode.{Opcode}
use bad_snap.Compiler.Emit.{Emitter, Loop, exit_loop}
use bad_snap.Compiler.Scope.{enter_block, exit_block}
use bad_snap.Compiler.Symbols.{SymbolTable}
use bad_snap.Compiler.Parser.{
  Function, Parser, Parsed, P, ◌>>=◌, gets, or_fault, edit, at_line, ok, fault, set_loops,
}
use bad_snap.Compiler.Parser.Functions.{push_function, pop_function, open_block, close_block}
use bad_snap.Compiler.Parser.Loops.{enter_loop, leave_loop, innermost}
use bad_snap.Compiler.Parser.Growth.{
  Grown, Grown-trans, Grown-patched, Grown-exit_block, Grows-exit_loop,
}
use bad_snap.Compiler.Parser.Balance.{
  fixed, Balanced, Leaves, Keeps, block, function, loop, Within, Closes, Closes-bind,
}

uncons_head : {A : Type 0} (x y : A) (xs ys : List A) → x ∷ xs ≡ y ∷ ys → x ≡ y
uncons_head x y xs ys e = cc

uncons_tail : {A : Type 0} (x y : A) (xs ys : List A) → x ∷ xs ≡ y ∷ ys → xs ≡ ys
uncons_tail x y xs ys e = cc

module _ {V : Type 0} where
  -- What a function opens, `pop_function` closes, and so for blocks and loops.
  pub Keeps-push_function :
      {A : Type 0} (name : List ℕ) (f : Unit → P V A)
      → ((t : Unit {0}) → Closes function (f t))
      → Keeps (push_function name >>= f)
  unfolding Leaves Within ◌>>=◌ push_function
  Keeps-push_function name f h = record {
    at = λ s. (h tt).at s _ (refl, [], sym (append_nil s.finished));
  }

  Closes-pop : Closes function (pop_function {V = V})
  unfolding Leaves Within pop_function
  Closes-pop = record { at = λ s₀ s (outer, fs, e). popped s₀ s s.parents outer fs e }
    where
      popped :
          (s₀ s : Parser V) (ps : List (Function V))
          → map fixed ps ≡ fixed s₀.self ∷ map fixed s₀.parents
          → (fs : List (Function V)) → s.finished ≡ s₀.finished ++ fs
          → Leaves (Balanced s₀) (elim ps as (λ _. Parsed V (Function V)) [
            | [] ↦ fault
            | parent ∷ rest ↦ ok s.self (record s { self = parent; parents = rest })
          ])
      popped s₀ s [] outer fs e = tt
      popped s₀ s (p ∷ ps) outer fs e =
          let same =
            uncons_head (fixed p) (fixed s₀.self) (map fixed ps) (map fixed s₀.parents) outer in
          record {
            depth = ap (λ (b, d, l, n). d) same;
            loops = ap (λ (b, d, l, n). l) same;
            outer =
                uncons_tail (fixed p) (fixed s₀.self) (map fixed ps) (map fixed s₀.parents) outer;
            grown =
                Grown-patched s₀.self.emitter p.emitter (ap (λ (b, d, l, n). length b.code) same)
                  (ap (λ (b, d, l, n). b.lines) same) (ap (λ (b, d, l, n). b.constant_pool) same);
            finished = (fs, e);
          }

  pub Closes-pop_function :
      {A : Type 0} (f : Function V → P V A)
      → ((inner : Function V) → Keeps (f inner))
      → Closes function (pop_function >>= f)
  Closes-pop_function f h = Closes-bind pop_function f Closes-pop h

  pub Keeps-open_block :
      {A : Type 0} (f : Unit → P V A)
      → ((t : Unit {0}) → Closes block (f t))
      → Keeps (open_block >>= f)
  unfolding Leaves Within ◌>>=◌ open_block enter_block
  Keeps-open_block f h = record {
    at = λ s. (h tt).at s _ (
      refl,
      refl,
      refl,
      Grown-patched s.self.emitter s.self.emitter refl refl refl,
      [],
      sym (append_nil s.finished),
    );
  }

  depth-exit_block :
      (t : SymbolTable) (b : Emitter V) → (exit_block t b).0.scope_depth ≡ t.scope_depth - 1
  unfolding exit_block
  depth-exit_block t b = refl

  pub Closes-close_block : Closes block (close_block {V = V})
  unfolding Leaves Within close_block
  Closes-close_block = record {
    at = λ s₀ s (d, l, p, g, fs, e).
        let b = at_line s in
        record {
          depth = depth-exit_block s.self.symtable b ∙ omega (arith, d);
          loops = l;
          outer = p;
          grown = Grown-trans s₀.self.emitter s.self.emitter _ g (
              Grown-trans s.self.emitter b _ (Grown-patched s.self.emitter b refl refl refl)
                (Grown-exit_block s.self.symtable b));
          finished = (fs, e);
        };
  }

  pub Keeps-enter_loop :
      {A : Type 0} (l : Loop) (f : Unit → P V A)
      → ((t : Unit {0}) → Closes (loop l) (f t))
      → Keeps (enter_loop l >>= f)
  unfolding Leaves Within ◌>>=◌ enter_loop gets set_loops
  Keeps-enter_loop l f h = record {
    at = λ s. (h tt).at s _ (
      refl,
      refl,
      refl,
      Grown-patched s.self.emitter s.self.emitter refl refl refl,
      [],
      sym (append_nil s.finished),
    );
  }

  pub Closes-leave_loop : (l : Loop) (op : Opcode) → Closes (loop l) (leave_loop {V = V} op)
  unfolding Leaves Within ◌>>=◌ leave_loop gets innermost or_fault edit set_loops
  Closes-leave_loop l op = record {
    at = λ s₀ s (d, ls, p, g, fs, e). left s₀ s s.self.loops ls (d, p, g, fs, e);
  }
    where
      left :
          (s₀ s : Parser V) (ls : List Loop)
          → ls ≡ l ∷ s₀.self.loops
          → (s.self.symtable.scope_depth ≡ s₀.self.symtable.scope_depth)
            × (map fixed s.parents ≡ map fixed s₀.parents)
            × Grown s₀.self.emitter s.self.emitter
            × (fs : List (Function V)) × (s.finished ≡ s₀.finished ++ fs)
          → Leaves (Balanced s₀) (
              (innermost ls >>= λ (k, enclosing).
              edit (exit_loop op k) >>= λ _. set_loops enclosing)
                s)
      left s₀ s [] ls w = tt
      left s₀ s (k ∷ enclosing) ls (d, p, g, fs, e) =
          let b = at_line s in
          record {
            depth = d;
            loops = uncons_tail k l enclosing s₀.self.loops ls;
            outer = p;
            grown = Grown-trans s₀.self.emitter s.self.emitter _ g (
                Grown-trans s.self.emitter b _ (Grown-patched s.self.emitter b refl refl refl)
                  ((Grows-exit_loop op k).at b));
            finished = (fs, e);
          }
