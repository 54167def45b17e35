-- ===== src/Compiler/Symbols.antt =====
-- The symbol table of a function: include/compiler.hpp and src/syntax/compiler.cpp.
-- `m_symbols` up to `m_num_symbols` is a list with the newest symbol first, so that a symbol's index
-- is the number of symbols behind it. A write past the 256 slots of an array is `none`.
use bad_snap.Common.{
  ℕ, ◌+◌, ◌%◌, Bool, true, false, ◌&&◌, Option, none, some, List, [], ◌∷◌, ◌++◌, ◌==◌, ltb,
  if◌then◌else◌, length, get_elem?,
}

-- `names_equal`: the lengths, then the bytes.
unfoldable pub names_equal : List ℕ → List ℕ → Bool
names_equal [] [] = true
names_equal (a ∷ xs) (b ∷ ys) = a == b && names_equal xs ys
names_equal _ _ = false

pub record LocalVar : Type 0 where
  pub name : List ℕ
  pub depth : ℕ
  pub is_const : Bool
  pub is_captured : Bool

pub record UpvalDesc : Type 0 where
  pub index : ℕ
  pub is_const : Bool
  pub is_local : Bool

pub record SymbolTable : Type 0 where
  pub scope_depth : ℕ
  pub symbols : List LocalVar
  pub upvals : List UpvalDesc

abbrev pub max_symbols : ℕ
max_symbols = 256

-- `add`, with the index of the new symbol.
unfoldable pub add : List ℕ → Bool → SymbolTable → Option (ℕ × SymbolTable)
add name is_const t =
    let var : LocalVar = record {
      name = name;
      depth = t.scope_depth % 256;
      is_const = is_const;
      is_captured = false;
    } in
    if ltb (length t.symbols) max_symbols
    then some (length t.symbols, record t { symbols = var ∷ t.symbols })
    else none

unfoldable pub find_in : List ℕ → List LocalVar → Option ℕ
unfolding names_equal
find_in name [] = none
find_in name (v ∷ vs) = if names_equal name v.name then some (length vs) else find_in name vs

unfoldable pub find : List ℕ → SymbolTable → Option ℕ
unfolding find_in
find name t = find_in name t.symbols

unfoldable pub find_above : ℕ → List ℕ → List LocalVar → Option ℕ
unfolding names_equal
find_above depth name [] = none
find_above depth name (v ∷ vs) =
    let rest = find_above depth name vs in
    if ltb v.depth depth then none else if names_equal name v.name then some (length vs) else rest

unfoldable pub find_in_current_scope : List ℕ → SymbolTable → Option ℕ
unfolding find_above
find_in_current_scope name t = find_above t.scope_depth name t.symbols

-- The symbol at an index.
unfoldable pub symbol_at : List LocalVar → ℕ → Option LocalVar
symbol_at [] i = none
symbol_at (v ∷ vs) i = if i == length vs then some v else symbol_at vs i

unfoldable pub capture_at : List LocalVar → ℕ → List LocalVar
capture_at [] i = []
capture_at (v ∷ vs) i =
    if i == length vs then record v { is_captured = true } ∷ vs else v ∷ capture_at vs i

-- `new_variable`: `none` in the first part is the code's -1, for a name that the scope has already.
unfoldable pub new_variable : List ℕ → Bool → SymbolTable → Option (Option ℕ × SymbolTable)
unfolding find_in_current_scope add
new_variable name is_const t = elim (find_in_current_scope name t) [
  | some _ ↦ some (none, t)
  | none ↦ elim (add name is_const t) [ none ↦ none | some (i, t') ↦ some (some i, t') ]
]

abbrev pub same_flag : Bool → Bool → Bool
same_flag true b = b
same_flag false true = false
same_flag false false = true

-- The loop of `add_upvalue` from index `i` on.
unfoldable pub find_upval : List UpvalDesc → ℕ → ℕ → Bool → Option ℕ
find_upval [] i index is_local = none
find_upval (u ∷ us) i index is_local =
    if u.index == index && same_flag u.is_local is_local
    then some i
    else find_upval us (i + 1) index is_local

-- `add_upvalue`, with the index that it returns; `none` is a write past the array.
unfoldable pub add_upvalue : ℕ → Bool → Bool → SymbolTable → Option (ℕ × SymbolTable)
unfolding find_upval
add_upvalue index is_local is_const t = elim (find_upval t.upvals 0 index is_local) [
  | some i ↦ some (i, t)
  | none ↦
      if ltb (length t.upvals) max_symbols
      then some (
        length t.upvals,
        record t {
          upvals =
              t.upvals ++ record { index = index; is_const = is_const; is_local = is_local } ∷ [];
        },
      )
      else none
]

-- The result of `add_upvalue` as one of `find_upvalue`.
unfoldable pub with_parents :
    List SymbolTable → Option (ℕ × SymbolTable) → Option (Option ℕ × SymbolTable × List SymbolTable)
with_parents parents none = none
with_parents parents (some (i, self)) = some (some i, self, parents)

abbrev pub symbol_is_const : SymbolTable → ℕ → Bool
symbol_is_const t index = elim (symbol_at t.symbols index) [ none ↦ false | some v ↦ v.is_const ]

abbrev pub upval_is_const : SymbolTable → ℕ → Bool
upval_is_const t index = elim (get_elem? t.upvals index) [ none ↦ false | some u ↦ u.is_const ]

-- The symbol at an index marked as captured.
abbrev pub captured : ℕ → SymbolTable → SymbolTable
captured index t = record t { symbols = capture_at t.symbols index }

-- `find_upvalue` over the chain of compilers, the innermost function first. The first `Option` is a
-- write past an array, and `none` inside is the code's -1.
unfoldable pub find_upvalue :
    List ℕ → SymbolTable → List SymbolTable → Option (Option ℕ × SymbolTable × List SymbolTable)
unfolding find symbol_at capture_at add_upvalue with_parents
find_upvalue name self [] = some (none, self, [])
find_upvalue name self (parent ∷ rest) =
    let outer = find_upvalue name parent rest in
    elim (find name parent) [
      | some index ↦
          with_parents (captured index parent ∷ rest)
            (add_upvalue index true (symbol_is_const parent index) self)
      | none ↦ elim outer [
        | none ↦ none
        | some (none, parent', rest') ↦ some (none, self, parent' ∷ rest')
        | some (some index, parent', rest') ↦
            with_parents (parent' ∷ rest')
              (add_upvalue index false (upval_is_const parent' index) self)
      ]
    ]
