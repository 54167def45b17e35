-- ===== src/Compiler/Names.antt =====
-- Declaring a name and finding it again: `new_variable` of src/syntax/compiler.cpp.
use bad_snap.Common.{
  ℕ, ◌%◌, ◌<◌, ◌≡◌, inl, inr, refl, sym, ap, ◌∙◌, Bool, true, false, none, some, List, [], ◌∷◌,
  ==_iff, ltb, not_ltb, Bool-cases, Option-cases, length, arith,
}
use bad_snap.Compiler.Symbols.{
  SymbolTable, LocalVar, names_equal, add, find, find_in, find_above, find_in_current_scope,
  new_variable, max_symbols,
}

pub names_equal_self : (name : List ℕ) → names_equal name name ≡ true
unfolding names_equal
names_equal_self [] = refl
names_equal_self (c ∷ name) = ground (arith, ==_iff c c, names_equal_self name)

-- What a declaration that gives the index `i` leaves.
pub record Declared (name : List ℕ) (i : ℕ) (t t' : SymbolTable) : Type 0 where
  pub slot : i ≡ length t.symbols
  pub found : find name t' ≡ some i
  pub others : (other : List ℕ) → names_equal other name ≡ false → find other t' ≡ find other t
  pub again : (is_const : Bool) → new_variable name is_const t' ≡ some (none, t')

abbrev declared_var : List ℕ → Bool → ℕ → LocalVar
declared_var name is_const depth = record {
  name = name;
  depth = depth;
  is_const = is_const;
  is_captured = false;
}

new_variable-inv :
    (name : List ℕ) (is_const : Bool) (t t' : SymbolTable) (i : ℕ)
    → new_variable name is_const t ≡ some (some i, t')
    → (i ≡ length t.symbols)
      × (t' ≡ record t { symbols = declared_var name is_const (t.scope_depth % 256) ∷ t.symbols })
unfolding new_variable add
new_variable-inv name is_const t t' i ran = elim (Option-cases (find_in_current_scope name t)) [
  | inr (j, taken) ↦ ground arith
  | inl fresh ↦ elim (Bool-cases (ltb (length t.symbols) max_symbols)) [
    | inl room ↦ (ground arith, ground arith)
    | inr full ↦ ground arith
  ]
]

with_var : List ℕ → Bool → SymbolTable → SymbolTable
with_var name is_const t = record t {
  symbols = declared_var name is_const (t.scope_depth % 256) ∷ t.symbols;
}

find_declared :
    (name : List ℕ) (is_const : Bool) (t : SymbolTable)
    → find name (with_var name is_const t) ≡ some (length t.symbols)
unfolding find find_in with_var
find_declared name is_const t = ground (arith, names_equal_self name)

find_other :
    (other name : List ℕ) (is_const : Bool) (t : SymbolTable)
    → names_equal other name ≡ false
    → find other (with_var name is_const t) ≡ find other t
unfolding find find_in with_var
find_other other name is_const t differs = ground (arith, differs)

declared_again :
    (name : List ℕ) (is_const c : Bool) (t : SymbolTable)
    → t.scope_depth < 256
    → new_variable name c (with_var name is_const t) ≡ some (none, with_var name is_const t)
unfolding new_variable find_above with_var
declared_again name is_const c t shallow =
    let same_depth : t.scope_depth % 256 ≡ t.scope_depth = omega arith in
    ground (
      arith,
      names_equal_self name,
      same_depth,
      not_ltb (t.scope_depth % 256) t.scope_depth (omega arith),
    )

-- A declaration that gives an index, at a depth below 256, gives the next slot; the name is then
-- found there, each other name where it was before, and a second declaration of the name in the
-- same scope is refused.
pub new_variable_lem :
    (name : List ℕ) (is_const : Bool) (t t' : SymbolTable) (i : ℕ)
    → t.scope_depth < 256
    → new_variable name is_const t ≡ some (some i, t')
    → Declared name i t t'
unfolding with_var
new_variable_lem name is_const t t' i shallow ran =
    let (slot, same) = new_variable-inv name is_const t t' i ran in
    rw same (record {
      slot = slot;
      found = find_declared name is_const t ∙ ap some (sym slot);
      others = λ other differs. find_other other name is_const t differs;
      again = λ c. declared_again name is_const c t shallow;
    })
