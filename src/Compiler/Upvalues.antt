-- ===== src/Compiler/Upvalues.antt =====
-- What the upvalue indices of src/syntax/compiler.cpp (`find_upvalue`) stand for at run time, when
-- `make_func` captures a slot of the enclosing frame or an upvalue of the enclosing closure.
use bad_snap.Common.{
  ℕ, suc, ◌+◌, ◌<◌, ◌≡◌, inl, inr, refl, sym, ap, ◌∙◌, Bool, true, false, ◌&&◌, Option, none, some,
  List, [], ◌∷◌, ◌++◌, ◌==◌, ==_iff, Bool-cases, Option-cases, if◌then◌else◌, length, get_elem?,
  arith, lt→ltb,
}
use bad_snap.Compiler.Symbols.{
  UpvalDesc, SymbolTable, find, find_upval, add_upvalue, with_parents, find_upvalue, captured,
  symbol_is_const, upval_is_const, same_flag, max_symbols,
}

-- A variable of an enclosing function: how many functions out, and its slot.
abbrev pub Place : Type 0
Place = Option (ℕ × ℕ)

unfoldable outwards : Place → Place
outwards none = none
outwards (some (depth, slot)) = some (depth + 1, slot)

-- The variable that an upvalue of the innermost function reaches.
unfoldable pub resolve : ℕ → SymbolTable → List SymbolTable → Place
unfolding outwards
resolve i self [] = none
resolve i self (parent ∷ rest) = elim (get_elem? self.upvals i) [
  | none ↦ none
  | some u ↦ if u.is_local then some (0, u.index) else outwards (resolve u.index parent rest)
]

-- The variable that a name means by static scope: the newest of the innermost enclosing function
-- that declares it.
unfoldable pub binding : List ℕ → List SymbolTable → Place
unfolding outwards
binding name [] = none
binding name (parent ∷ rest) = elim (find name parent) [
  | some slot ↦ some (0, slot)
  | none ↦ outwards (binding name rest)
]

-- The place of an index that may be missing.
unfoldable pub resolved : Option ℕ → SymbolTable → List SymbolTable → Place
unfolding resolve
resolved none self parents = none
resolved (some i) self parents = resolve i self parents

-- The descriptor at an index, by its two fields that choose a variable.
abbrev descr : List UpvalDesc → ℕ → Option (ℕ × Bool)
descr us i = elim (get_elem? us i) [ none ↦ none | some u ↦ some (u.index, u.is_local) ]

same_flag-true : (a b : Bool) → same_flag a b ≡ true → a ≡ b
same_flag-true true true e = refl
same_flag-true true false e = ground arith
same_flag-true false true e = ground arith
same_flag-true false false e = refl

find_upval-descr :
    (us : List UpvalDesc) (i index k : ℕ) (l : Bool)
    → find_upval us i index l ≡ some k
    → (j : ℕ) × (k ≡ i + j) × (descr us j ≡ some (index, l))
unfolding find_upval
find_upval-descr [] i index k l e = ground arith
find_upval-descr (u ∷ us) i index k l e =
    elim (Bool-cases (u.index == index && same_flag u.is_local l)) [
      | inl same ↦
          (0, ground arith, ground (arith, same_flag-true u.is_local l, ==_iff u.index index))
      | inr other ↦
          let (j, at, found) = find_upval-descr us (i + 1) index k l (ground arith) in
          (suc j, ground arith, found)
    ]

descr-last :
    (us : List UpvalDesc) (u : UpvalDesc)
    → descr (us ++ u ∷ []) (length us) ≡ some (u.index, u.is_local)
descr-last [] u = refl
descr-last (v ∷ us) u = descr-last us u

add_upvalue-descr :
    (index : ℕ) (l c : Bool) (t t' : SymbolTable) (i : ℕ)
    → add_upvalue index l c t ≡ some (i, t')
    → descr t'.upvals i ≡ some (index, l)
unfolding add_upvalue
add_upvalue-descr index l c t t' i e = elim (Option-cases (find_upval t.upvals 0 index l)) [
  | inl missing ↦
      ground (arith, descr-last t.upvals (record { index = index; is_const = c; is_local = l }))
  | inr (k, found) ↦ ground (arith, find_upval-descr t.upvals 0 index k l found)
]

resolve-descr :
    (i index : ℕ) (l : Bool) (self parent : SymbolTable) (rest : List SymbolTable)
    → descr self.upvals i ≡ some (index, l)
    → resolve i self (parent ∷ rest)
      ≡ (if l then some (0, index) else outwards (resolve index parent rest))
unfolding resolve
resolve-descr i index l self parent rest e = elim (Option-cases (get_elem? self.upvals i)) [
  | inl none_there ↦ ground arith
  | inr (u, there) ↦ ground arith
]

with_parents-inv :
    (parents parents' : List SymbolTable) (added : Option (ℕ × SymbolTable)) (found : Option ℕ)
    (self' : SymbolTable)
    → with_parents parents added ≡ some (found, self', parents')
    → (i : ℕ) × (found ≡ some i) × (parents' ≡ parents) × (added ≡ some (i, self'))
unfolding with_parents
with_parents-inv parents parents' none found self' e = ground arith
with_parents-inv parents parents' (some (i, self)) found self' e =
    (i, ground arith, ground arith, ground arith)

-- A descriptor that was just added, followed.
added-resolved :
    (index : ℕ) (l c : Bool) (self self' parent : SymbolTable) (rest parents' : List SymbolTable)
    (found : Option ℕ)
    → with_parents (parent ∷ rest) (add_upvalue index l c self) ≡ some (found, self', parents')
    → resolved found self' parents'
      ≡ (if l then some (0, index) else outwards (resolve index parent rest))
unfolding resolved
added-resolved index l c self self' parent rest parents' found e =
    let (i, is_i, ps, added) = with_parents-inv (parent ∷ rest) parents' _ found self' e in
    let at = add_upvalue-descr index l c self self' i added in
    ground (arith, resolve-descr i index l self' parent rest at)

-- The three ways of a lookup in an enclosing function.
find_upvalue-here :
    (name : List ℕ) (self parent : SymbolTable) (rest : List SymbolTable) (index : ℕ)
    → find name parent ≡ some index
    → find_upvalue name self (parent ∷ rest)
      ≡ with_parents
          (captured index parent ∷ rest)
          (add_upvalue index true (symbol_is_const parent index) self)
unfolding find_upvalue
find_upvalue-here name self parent rest index e = ground arith

find_upvalue-outer :
    (name : List ℕ) (self parent parent1 : SymbolTable) (rest rest1 : List SymbolTable) (index : ℕ)
    → find name parent ≡ none
    → find_upvalue name parent rest ≡ some (some index, parent1, rest1)
    → find_upvalue name self (parent ∷ rest)
      ≡ with_parents (parent1 ∷ rest1) (add_upvalue index false (upval_is_const parent1 index) self)
unfolding find_upvalue
find_upvalue-outer name self parent parent1 rest rest1 index e o = ground arith

-- The upvalue that a lookup gives reaches the variable that the name means by static scope, and the
-- lookup gives none where no enclosing function declares the name.
pub find_upvalue-binding :
    (name : List ℕ) (self self' : SymbolTable) (parents parents' : List SymbolTable)
    (found : Option ℕ)
    → find_upvalue name self parents ≡ some (found, self', parents')
    → resolved found self' parents' ≡ binding name parents
unfolding find_upvalue resolved binding
find_upvalue-binding name self self' [] parents' found e = ground arith
find_upvalue-binding name self self' (parent ∷ rest) parents' found e =
    elim (Option-cases (find name parent)) [
      | inr (index, here) ↦
          let step = find_upvalue-here name self parent rest index here in
          let result =
            added-resolved index true _ self self' _ rest parents' found (sym step ∙ e) in
          ground (arith, result)
      | inl missing ↦ elim (Option-cases (find_upvalue name parent rest)) [
        | inl overflow ↦ ground arith
        | inr ((none, parent1, rest1), outer) ↦
            ground (arith, find_upvalue-binding name parent parent1 rest rest1 none outer)
        | inr ((some index, parent1, rest1), outer) ↦
            let step = find_upvalue-outer name self parent parent1 rest rest1 index missing outer in
            let result =
              added-resolved index false _ self self' parent1 rest1 parents' found (sym step ∙ e) in
            ground (
              arith,
              result,
              find_upvalue-binding name parent parent1 rest rest1 (some index) outer,
            )
      ]
    ]

-- Room for one more upvalue in each function of a chain.
unfoldable pub HaveRoom : List SymbolTable → Type 0
HaveRoom [] = Unit
HaveRoom (t ∷ ts) = (length t.upvals < max_symbols) × HaveRoom ts

add_upvalue_total :
    (index : ℕ) (l c : Bool) (t : SymbolTable)
    → length t.upvals < max_symbols
    → (r : ℕ × SymbolTable) × (add_upvalue index l c t ≡ some r)
unfolding add_upvalue
add_upvalue_total index l c t room = elim (Option-cases (find_upval t.upvals 0 index l)) [
  | inl missing ↦ (
    (
      length t.upvals,
      record t { upvals = t.upvals ++ record { index = index; is_const = c; is_local = l } ∷ [] },
    ),
    ground (arith, lt→ltb (length t.upvals) max_symbols room),
  )
  | inr (i, found) ↦ ((i, t), ground arith)
]

-- A lookup that goes on to the functions further out.
find_upvalue-further :
    (name : List ℕ) (self parent : SymbolTable) (rest : List SymbolTable)
    (result : Option ℕ × SymbolTable × List SymbolTable)
    → length self.upvals < max_symbols
    → find name parent ≡ none
    → find_upvalue name parent rest ≡ some result
    → (r : Option ℕ × SymbolTable × List SymbolTable) × (find_upvalue name self (parent ∷ rest)
        ≡ some r)
unfolding find_upvalue with_parents
find_upvalue-further name self parent rest (none, parent1, rest1) room missing outer =
    ((none, self, parent1 ∷ rest1), ground arith)
find_upvalue-further name self parent rest (some index, parent1, rest1) room missing outer =
    let step = find_upvalue-outer name self parent parent1 rest rest1 index missing outer in
    let ((i, self'), added) =
      add_upvalue_total index false (upval_is_const parent1 index) self room in
    ((some i, self', parent1 ∷ rest1), step ∙ ap (with_parents (parent1 ∷ rest1)) added)

-- A lookup writes past no array while each function of the chain has room for one more upvalue.
pub find_upvalue_total :
    (name : List ℕ) (self : SymbolTable) (parents : List SymbolTable)
    → HaveRoom (self ∷ parents)
    → (r : Option ℕ × SymbolTable × List SymbolTable) × (find_upvalue name self parents ≡ some r)
unfolding find_upvalue with_parents HaveRoom
find_upvalue_total name self [] room = ((none, self, []), refl)
find_upvalue_total name self (parent ∷ rest) (room, more) = elim (Option-cases (find name parent)) [
  | inr (index, here) ↦
      let step = find_upvalue-here name self parent rest index here in
      let ((i, self'), added) =
        add_upvalue_total index true (symbol_is_const parent index) self room in
      (
        (some i, self', captured index parent ∷ rest),
        step ∙ ap (with_parents (captured index parent ∷ rest)) added,
      )
  | inl missing ↦
      let (result, outer) = find_upvalue_total name parent rest more in
      find_upvalue-further name self parent rest result room missing outer
]
