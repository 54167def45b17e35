-- ===== src/Compiler/Parser/Balance.antt =====
-- What every parse function of src/syntax/compiler.cpp leaves as it was: the depth of the scope, the
-- chain of loops, and the compilers around the current one.
pub mod Tables
pub mod Steps
pub mod Nesting
pub mod Functions
pub mod Literals
pub mod Suffixes
pub mod Levels
pub mod Statements
pub mod Grammar
use bad_snap.Common.{
  ℕ, zero, suc, ◌+◌, ◌-◌, ◌≡◌, refl, sym, ap, ◌∙◌, Bool, true, false, Option, none, some, List, [],
  ◌∷◌, ◌++◌, map, append_nil, append_assoc, arith, if◌then◌else◌,
}
use bad_snap.Compiler.Emit.{Emitter, Loop, error}
use bad_snap.Compiler.Symbols
use bad_snap.Compiler.Symbols.{SymbolTable, LocalVar, find_upvalue}
use bad_snap.Compiler.Parser.{
  Function, Parser, Parsed, P, ◌>>=◌, ◌>>◌, pure, gets, or_fault, or_throw, edit, with_index,
  at_line, ok, thrown, fault, no_fuel,
}
use bad_snap.Compiler.Parser.Growth.{Grown, Grown-trans, Grown-patched, Grows, GrowsIndex}

-- What is open between two actions: a block, a loop, or a function.
pub data Opened : Type 0 where
  block function : Opened
  loop : Loop → Opened

module _ {V : Type 0} where
  -- What stays of a compiler while the functions inside it are compiled.
  abbrev pub fixed : Function V → Emitter V × ℕ × List Loop × ℕ
  fixed f = (f.emitter, f.symtable.scope_depth, f.loops, f.num_params)

  -- The later of two states has the scope depth, the loops and the enclosing compilers of the
  -- earlier, with their code; its own block has grown, and finished functions stay finished.
  pub record Balanced (s s' : Parser V) : Type 0 where
    pub depth : s'.self.symtable.scope_depth ≡ s.self.symtable.scope_depth
    pub loops : s'.self.loops ≡ s.self.loops
    pub outer : map fixed s'.parents ≡ map fixed s.parents
    pub grown : Grown s.self.emitter s'.self.emitter
    pub finished : (fs : List (Function V)) × (s'.finished ≡ s.finished ++ fs)

  pub Balanced-trans : (s s₁ s₂ : Parser V) → Balanced s s₁ → Balanced s₁ s₂ → Balanced s s₂
  Balanced-trans s s₁ s₂ h k =
      let (fs, e) = h.finished in
      let (gs, f) = k.finished in
      record {
        depth = k.depth ∙ h.depth;
        loops = k.loops ∙ h.loops;
        outer = k.outer ∙ h.outer;
        grown = Grown-trans s.self.emitter s₁.self.emitter s₂.self.emitter h.grown k.grown;
        finished = (fs ++ gs, f ∙ ap (λ us. us ++ gs) e ∙ append_assoc s.finished fs gs);
      }

  pub Balanced-edited :
      (s : Parser V) (b : Emitter V)
      → Grown s.self.emitter b
      → Balanced s (record s { self = record s.self { emitter = b } })
  Balanced-edited s b g = record {
    depth = refl;
    loops = refl;
    outer = refl;
    grown = g;
    finished = ([], sym (append_nil s.finished));
  }

  -- Where an action returns, its state stands in a relation to the state before.
  unfoldable pub Leaves : {A : Type 0} → (Parser V → Type 0) → Parsed V A → Type 0
  Leaves Q (ok a s) = Q s
  Leaves Q _ = Unit

  pub record Keeps {A : Type 0} (m : P V A) : Type 0 where
    pub at : (s : Parser V) → Leaves (Balanced s) (m s)

  -- A state in which it is, since the state `s₀` before.
  unfoldable pub Within : Opened → Parser V → Parser V → Type 0
  Within block s₀ s =
      (s.self.symtable.scope_depth ≡ s₀.self.symtable.scope_depth + 1)
      × (s.self.loops ≡ s₀.self.loops)
      × (map fixed s.parents ≡ map fixed s₀.parents)
      × Grown s₀.self.emitter s.self.emitter
      × (fs : List (Function V)) × (s.finished ≡ s₀.finished ++ fs)
  Within function s₀ s =
      (map fixed s.parents ≡ fixed s₀.self ∷ map fixed s₀.parents)
      × (fs : List (Function V)) × (s.finished ≡ s₀.finished ++ fs)
  Within (loop l) s₀ s =
      (s.self.symtable.scope_depth ≡ s₀.self.symtable.scope_depth)
      × (s.self.loops ≡ l ∷ s₀.self.loops)
      × (map fixed s.parents ≡ map fixed s₀.parents)
      × Grown s₀.self.emitter s.self.emitter
      × (fs : List (Function V)) × (s.finished ≡ s₀.finished ++ fs)

  -- An action that closes what is open.
  pub record Closes {A : Type 0} (o : Opened) (m : P V A) : Type 0 where
    pub at : (s₀ s : Parser V) → Within o s₀ s → Leaves (Balanced s₀) (m s)

  Within-Balanced :
      (o : Opened) (s₀ s s' : Parser V) → Within o s₀ s → Balanced s s' → Within o s₀ s'
  unfolding Within
  Within-Balanced block s₀ s s' (d, l, p, g, fs, e) h =
      let (gs, f) = h.finished in
      (
        h.depth ∙ d,
        h.loops ∙ l,
        h.outer ∙ p,
        Grown-trans s₀.self.emitter s.self.emitter s'.self.emitter g h.grown,
        fs ++ gs,
        f ∙ ap (λ us. us ++ gs) e ∙ append_assoc s₀.finished fs gs,
      )
  Within-Balanced function s₀ s s' (p, fs, e) h =
      let (gs, f) = h.finished in
      (h.outer ∙ p, fs ++ gs, f ∙ ap (λ us. us ++ gs) e ∙ append_assoc s₀.finished fs gs)
  Within-Balanced (loop k) s₀ s s' (d, l, p, g, fs, e) h =
      let (gs, f) = h.finished in
      (
        h.depth ∙ d,
        h.loops ∙ l,
        h.outer ∙ p,
        Grown-trans s₀.self.emitter s.self.emitter s'.self.emitter g h.grown,
        fs ++ gs,
        f ∙ ap (λ us. us ++ gs) e ∙ append_assoc s₀.finished fs gs,
      )

  Leaves-bind :
      {A B : Type 0} (Q R : Parser V → Type 0) (r : Parsed V A) (f : A → P V B)
      → Leaves Q r
      → ((a : A) (s : Parser V) → Q s → Leaves R (f a s))
      → Leaves R (elim r as (λ _. Parsed V B) [
        | ok a s' ↦ f a s'
        | thrown ↦ thrown
        | fault ↦ fault
        | no_fuel ↦ no_fuel
      ])
  unfolding Leaves
  Leaves-bind Q R (ok a s) f q h = h a s q
  Leaves-bind Q R thrown f q h = tt
  Leaves-bind Q R fault f q h = tt
  Leaves-bind Q R no_fuel f q h = tt

  Leaves-weaken :
      {A : Type 0} (Q R : Parser V → Type 0) (r : Parsed V A)
      → ((s : Parser V) → Q s → R s)
      → Leaves Q r
      → Leaves R r
  unfolding Leaves
  Leaves-weaken Q R (ok a s) h q = h s q
  Leaves-weaken Q R thrown h q = tt
  Leaves-weaken Q R fault h q = tt
  Leaves-weaken Q R no_fuel h q = tt

  pub Keeps-bind :
      {A B : Type 0} (m : P V A) (f : A → P V B)
      → Keeps m
      → ((a : A) → Keeps (f a))
      → Keeps (m >>= f)
  unfolding ◌>>=◌
  Keeps-bind m f hm hf = record {
    at = λ s. Leaves-bind (Balanced s) (Balanced s) (m s) f (hm.at s) λ a s₁ h.
        Leaves-weaken (Balanced s₁) (Balanced s) (f a s₁) (λ s₂ k. Balanced-trans s s₁ s₂ h k)
          ((hf a).at s₁);
  }

  pub Closes-then :
      {A B : Type 0} {o : Opened} (m : P V A) (f : A → P V B)
      → Keeps m
      → ((a : A) → Closes o (f a))
      → Closes o (m >>= f)
  unfolding ◌>>=◌
  Closes-then {o = o} m f hm hf = record {
    at = λ s₀ s w.
        Leaves-bind (Balanced s) (Balanced s₀) (m s) f (hm.at s)
          λ a s₁ h. (hf a).at s₀ s₁ (Within-Balanced o s₀ s s₁ w h);
  }

  -- The rest of an action once it has closed what was open.
  pub Closes-bind :
      {A B : Type 0} {o : Opened} (m : P V A) (f : A → P V B)
      → Closes o m
      → ((a : A) → Keeps (f a))
      → Closes o (m >>= f)
  unfolding ◌>>=◌
  Closes-bind {o = o} m f hm hf = record {
    at = λ s₀ s w. Leaves-bind (Balanced s₀) (Balanced s₀) (m s) f (hm.at s₀ s w) λ a s₁ h.
        Leaves-weaken (Balanced s₁) (Balanced s₀) (f a s₁) (λ s₂ k. Balanced-trans s₀ s₁ s₂ h k)
          ((hf a).at s₁);
  }

  module _ {A : Type 0} where
    pub Keeps-pure : (a : A) → Keeps (pure {V = V} a)
    unfolding Leaves pure
    Keeps-pure a = record {
      at = λ s.
          Balanced-edited s s.self.emitter
            (Grown-patched s.self.emitter s.self.emitter refl refl refl);
    }

    pub Keeps-gets : (f : Parser V → A) → Keeps (gets f)
    unfolding Leaves gets
    Keeps-gets f = record {
      at = λ s.
          Balanced-edited s s.self.emitter
            (Grown-patched s.self.emitter s.self.emitter refl refl refl);
    }

    pub Keeps-or_fault : (o : Option A) → Keeps (or_fault {V = V} o)
    unfolding Leaves or_fault gets
    Keeps-or_fault none = record { at = λ s. tt }
    Keeps-or_fault (some a) = record { at = (Keeps-gets (λ s. a)).at }

    pub Keeps-or_throw : (o : Option A) → Keeps (or_throw {V = V} o)
    unfolding Leaves or_throw gets
    Keeps-or_throw none = record { at = λ s. tt }
    Keeps-or_throw (some a) = record { at = (Keeps-gets (λ s. a)).at }

    pub Keeps-if : (b : Bool) (m n : P V A) → Keeps m → Keeps n → Keeps (if b then m else n)
    Keeps-if true m n hm hn = hm
    Keeps-if false m n hm hn = hn

    pub Closes-if :
        (o : Opened) (b : Bool) (m n : P V A)
        → Closes o m
        → Closes o n
        → Closes o (if b then m else n)
    Closes-if o true m n hm hn = hm
    Closes-if o false m n hm hn = hn

  pub Keeps-option :
      {A B : Type 0} (o : Option A) (m : P V B) (f : A → P V B)
      → Keeps m
      → ((a : A) → Keeps (f a))
      → Keeps (elim o [ none ↦ m | some a ↦ f a ])
  Keeps-option none m f hm hf = hm
  Keeps-option (some a) m f hm hf = hf a

  pub Keeps-edit : (f : Emitter V → Emitter V) → Grows f → Keeps (edit f)
  unfolding Leaves edit
  Keeps-edit f h = record {
    at = λ s.
        let b = at_line s in
        Balanced-edited s (f b) (
          Grown-trans s.self.emitter b (f b) (Grown-patched s.self.emitter b refl refl refl)
            (h.at b));
  }

  pub Keeps-with_index : (f : Emitter V → ℕ × Emitter V) → GrowsIndex f → Keeps (with_index f)
  unfolding Leaves with_index
  Keeps-with_index f h = record {
    at = λ s.
        let b = at_line s in
        Balanced-edited s (f b).1 (
          Grown-trans s.self.emitter b (f b).1 (Grown-patched s.self.emitter b refl refl refl)
            (h.at b));
  }
