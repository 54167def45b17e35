-- ===== src/Compiler/Parser/Balance/Tables.antt =====
-- The functions on symbol tables in src/syntax/compiler.cpp leave the depth of the scope.
use bad_snap.Common.{
  ◌++◌, ◌%◌, ℕ, ◌≡◌, refl, Bool, true, false, Option, none, some, List, [], ◌∷◌, map, arith,
  if◌then◌else◌, length, ltb, ◌==◌,
}
use bad_snap.Compiler.Symbols.{
  SymbolTable, LocalVar, UpvalDesc, add, new_variable, find_in_current_scope, add_upvalue,
  find_upval, find_upvalue, find, with_parents, captured, symbol_is_const, upval_is_const,
}
use bad_snap.Compiler.Parser.{Function, tables, with_tables}
use bad_snap.Compiler.Parser.Balance.{fixed}

abbrev pub SameDepth : {A : Type 0} → SymbolTable → Option (A × SymbolTable) → Type 0
SameDepth t none = Unit
SameDepth t (some (a, t')) = t'.scope_depth ≡ t.scope_depth

-- A step of a symbol table that leaves the depth.
pub record KeepsDepth {A : Type 0} (f : SymbolTable → Option (A × SymbolTable)) : Type 0 where
  pub at : (t : SymbolTable) → SameDepth t (f t)

SameDepth-if :
    {A : Type 0} (c : Bool) (t : SymbolTable) (x y : Option (A × SymbolTable))
    → SameDepth t x
    → SameDepth t y
    → SameDepth t (if c then x else y)
SameDepth-if true t x y h k = h
SameDepth-if false t x y h k = k

SameDepth-add :
    (name : List ℕ) (is_const : Bool) (t : SymbolTable) → SameDepth t (add name is_const t)
unfolding add
SameDepth-add name is_const t =
    let var : LocalVar = record {
      name = name;
      depth = t.scope_depth % 256;
      is_const = is_const;
      is_captured = false;
    } in
    SameDepth-if (ltb (length t.symbols) 256) t
      (some (length t.symbols, record t { symbols = var ∷ t.symbols })) none refl tt

pub KeepsDepth-new_variable :
    (name : List ℕ) (is_const : Bool) → KeepsDepth (new_variable name is_const)
unfolding new_variable
KeepsDepth-new_variable name is_const = record {
  at = λ t.
      declared t (find_in_current_scope name t) (add name is_const t)
        (SameDepth-add name is_const t);
}
  where
    renamed :
        (t : SymbolTable) (r : Option (ℕ × SymbolTable))
        → SameDepth t r
        → SameDepth t (elim r as (λ _. Option (Option ℕ × SymbolTable)) [
          | none ↦ none
          | some (i, t') ↦ some (some i, t')
        ])
    renamed t none h = tt
    renamed t (some (i, t')) h = h

    declared :
        (t : SymbolTable) (o : Option ℕ) (r : Option (ℕ × SymbolTable))
        → SameDepth t r
        → SameDepth t (elim o as (λ _. Option (Option ℕ × SymbolTable)) [
          | some _ ↦ some (none, t)
          | none ↦ elim r as (λ _. Option (Option ℕ × SymbolTable)) [
            | none ↦ none
            | some (i, t') ↦ some (some i, t')
          ]
        ])
    declared t (some i) r h = refl
    declared t none r h = renamed t r h

pub KeepsDepth-add_self :
    (name : List ℕ) → KeepsDepth (λ t. if length t.symbols == 1 then add name true t else none)
KeepsDepth-add_self name = record {
  at = λ t.
      SameDepth-if (length t.symbols == 1) t (add name true t) none (SameDepth-add name true t) tt;
}

SameDepth-add_upvalue :
    (index : ℕ) (is_local is_const : Bool) (t : SymbolTable)
    → SameDepth t (add_upvalue index is_local is_const t)
unfolding add_upvalue
SameDepth-add_upvalue index is_local is_const t = added (find_upval t.upvals 0 index is_local)
  where
    added :
        (o : Option ℕ)
        → SameDepth t (elim o as (λ _. Option (ℕ × SymbolTable)) [
          | some i ↦ some (i, t)
          | none ↦
              if ltb (length t.upvals) 256
              then some (
                length t.upvals,
                record t {
                  upvals =
                      t.upvals
                      ++ record { index = index; is_const = is_const; is_local = is_local } ∷ [];
                },
              )
              else none
        ])
    added (some i) = refl
    added none =
        let upval : UpvalDesc = record {
          index = index;
          is_const = is_const;
          is_local = is_local;
        } in
        SameDepth-if (ltb (length t.upvals) 256) t
          (some (length t.upvals, record t { upvals = t.upvals ++ upval ∷ [] })) none refl tt

abbrev depths : List SymbolTable → List ℕ
depths ts = map (λ t. t.scope_depth) ts

abbrev pub SameDepths :
    SymbolTable → List SymbolTable → Option (Option ℕ × SymbolTable × List SymbolTable) → Type 0
SameDepths t ts none = Unit
SameDepths t ts (some (index, t', ts')) =
    (t'.scope_depth ≡ t.scope_depth) × (depths ts' ≡ depths ts)

SameDepths-with_parents :
    (t : SymbolTable) (ts ts' : List SymbolTable) (r : Option (ℕ × SymbolTable))
    → depths ts' ≡ depths ts
    → SameDepth t r
    → SameDepths t ts (with_parents ts' r)
unfolding with_parents
SameDepths-with_parents t ts ts' none e h = tt
SameDepths-with_parents t ts ts' (some (i, t')) e h = (h, e)

pub SameDepths-find_upvalue :
    (name : List ℕ) (t : SymbolTable) (ts : List SymbolTable)
    → SameDepths t ts (find_upvalue name t ts)
unfolding find_upvalue
SameDepths-find_upvalue name t [] = (refl, refl)
SameDepths-find_upvalue name t (parent ∷ rest) =
    found (find name parent) (find_upvalue name parent rest)
      (SameDepths-find_upvalue name parent rest)
  where
    from_outer :
        (r : Option (Option ℕ × SymbolTable × List SymbolTable))
        → SameDepths parent rest r
        → SameDepths t
            (parent ∷ rest)
            (elim r as (λ _. Option (Option ℕ × SymbolTable × List SymbolTable)) [
              | none ↦ none
              | some (none, parent', rest') ↦ some (none, t, parent' ∷ rest')
              | some (some index, parent', rest') ↦
                  with_parents
                    (parent' ∷ rest')
                    (add_upvalue index false (upval_is_const parent' index) t)
            ])
    from_outer none h = tt
    from_outer (some (none, parent', rest')) (d, e) = (refl, ground (arith, d, e))
    from_outer (some (some index, parent', rest')) (d, e) =
        SameDepths-with_parents t (parent ∷ rest) (parent' ∷ rest') _ (ground (arith, d, e))
          (SameDepth-add_upvalue index false (upval_is_const parent' index) t)

    found :
        (o : Option ℕ) (r : Option (Option ℕ × SymbolTable × List SymbolTable))
        → SameDepths parent rest r
        → SameDepths t
            (parent ∷ rest)
            (elim o as (λ _. Option (Option ℕ × SymbolTable × List SymbolTable)) [
              | some index ↦
                  with_parents
                    (captured index parent ∷ rest)
                    (add_upvalue index true (symbol_is_const parent index) t)
              | none ↦ elim r as (λ _. Option (Option ℕ × SymbolTable × List SymbolTable)) [
                | none ↦ none
                | some (none, parent', rest') ↦ some (none, t, parent' ∷ rest')
                | some (some index, parent', rest') ↦
                    with_parents
                      (parent' ∷ rest')
                      (add_upvalue index false (upval_is_const parent' index) t)
              ]
            ])
    found (some index) r h =
        SameDepths-with_parents t (parent ∷ rest) (captured index parent ∷ rest) _ refl
          (SameDepth-add_upvalue index true (symbol_is_const parent index) t)
    found none r h = from_outer r h

-- Tables of the same depths, put back, leave what is fixed of the compilers.
pub with_tables-fixed :
    {V : Type 0} (fs : List (Function V)) (ts : List SymbolTable)
    → depths ts ≡ depths (tables fs)
    → map fixed (with_tables fs ts) ≡ map fixed fs
unfolding with_tables tables
with_tables-fixed [] ts e = refl
with_tables-fixed (f ∷ fs) [] e = refl
with_tables-fixed (f ∷ fs) (t ∷ ts) e = ground (arith, with_tables-fixed fs ts (ground arith))
