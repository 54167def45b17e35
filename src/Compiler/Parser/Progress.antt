-- ===== src/Compiler/Parser/Progress.antt =====
-- That the parse functions of src/syntax/compiler.cpp come to an end: what an action needs of the
-- fuel of those it calls, and how near to the end of the source it leaves the parser.
pub mod Steps
pub mod Rules
pub mod Resuming
pub mod Tokens
pub mod Functions
pub mod Suffixes
pub mod Levels
pub mod Arrays
pub mod Targets
pub mod Statements
pub mod Grammar
pub mod Script
use mathlib.Core.Path.{subst}
use bad_snap.Common.{
  ℕ, zero, suc, ◌+◌, ◌-◌, ◌*◌, ◌≤◌, ◌<◌, ◌≡◌, ◌⊎◌, inl, inr, refl, sym, ap, ◌∙◌, Bool, true, false,
  Option, none, some, List, length, arith, Bool-cases, if◌then◌else◌,
}
use bad_snap.Token.{TokenType, Token, same_type, token_num}
use bad_snap.Compiler.Parser.Functions.{Rule, statements_rule, expr_rule, put_tokens}
use bad_snap.Compiler.Emit.{Emitter}
use bad_snap.Compiler.Symbols.{SymbolTable}
use bad_snap.Compiler.Parser.{
  Parser, Parsed, P, ◌>>=◌, pure, gets, or_fault, or_throw, edit, with_index, at_eof, peek_type, ok,
  thrown, fault, no_fuel,
}

pub le_cases : (a b : ℕ) → (a ≤ b) ⊎ (b < a)
le_cases a b = omega arith

module _ {V : Type 0} (source : List ℕ) where
  -- What is left: two for each byte before the end, and one for a next token that is not the last.
  unfoldable pub remaining : Parser V → ℕ
  remaining s = 2 * (length source - s.scanner.current) + (if at_eof s then 0 else 1)

  pub remaining-last :
      (s : Parser V) → at_eof s ≡ true → remaining s ≡ 2 * (length source - s.scanner.current)
  unfolding remaining
  remaining-last s e = ground (arith, e)

  pub remaining-more :
      (s : Parser V) → at_eof s ≡ false → remaining s ≡ 2 * (length source - s.scanner.current) + 1
  unfolding remaining
  remaining-more s e = rw e

  pub bounds :
      (s : Parser V)
      → (remaining s ≤ 2 * (length source - s.scanner.current) + 1)
        × (2 * (length source - s.scanner.current) ≤ remaining s)
  bounds s = elim (Bool-cases (at_eof s)) [
    | inl last ↦ let e = remaining-last s last in (omega (arith, e), omega (arith, e))
    | inr more ↦ let e = remaining-more s more in (omega (arith, e), omega (arith, e))
  ]

  -- Less is left than before, or as much and the next token is the last one just as before.
  pub record Nearer (s s' : Parser V) : Type 0 where
    pub inside : s'.scanner.current ≤ length source
    pub less :
        (remaining s' < remaining s) ⊎ ((remaining s' ≡ remaining s) × (at_eof s' ≡ at_eof s))

  pub Nearer-refl : (s : Parser V) → s.scanner.current ≤ length source → Nearer s s
  Nearer-refl s inside = record { inside = inside; less = inr (refl, refl) }

  pub Nearer-trans : (s s₁ s₂ : Parser V) → Nearer s s₁ → Nearer s₁ s₂ → Nearer s s₂
  Nearer-trans s s₁ s₂ h k = record {
    inside = k.inside;
    less = elim h.less [
      | inl l ↦ inl (elim k.less [ inl m ↦ omega (arith, l, m) | inr (e, b) ↦ omega (arith, l, e) ])
      | inr (e, b) ↦ elim k.less [
        | inl m ↦ inl (omega (arith, e, m))
        | inr (e', b') ↦ inr (e' ∙ e, b' ∙ b)
      ]
    ];
  }

  pub Nearer-le : (s s' : Parser V) → Nearer s s' → remaining s' ≤ remaining s
  Nearer-le s s' h = elim h.less [ inl l ↦ omega (arith, l) | inr (e, b) ↦ omega (arith, e) ]

  -- An action gives no `no_fuel`, and where it returns, its state has the property.
  unfoldable pub Ends : {A : Type 0} → (Parser V → Type 0) → Parsed V A → Type 0
  Ends Q (ok a s) = Q s
  Ends Q no_fuel = ⊥
  Ends Q _ = Unit

  pub Ends-bind :
      {A B : Type 0} (Q R : Parser V → Type 0) (m : P V A) (f : A → P V B) (s : Parser V)
      → Ends Q (m s)
      → ((a : A) (s₁ : Parser V) → Q s₁ → Ends R (f a s₁))
      → Ends R ((m >>= f) s)
  unfolding Ends ◌>>=◌
  Ends-bind {A = A} {B = B} Q R m f s h k = go (m s) h
    where
      go :
          (r : Parsed V A)
          → Ends Q r
          → Ends R (elim r as (λ _. Parsed V B) [
            | ok a s' ↦ f a s'
            | thrown ↦ thrown
            | fault ↦ fault
            | no_fuel ↦ no_fuel
          ])
      go (ok a s₁) q = k a s₁ q
      go thrown q = tt
      go fault q = tt
      go no_fuel q = q

  pub Ends-weaken :
      {A : Type 0} (Q R : Parser V → Type 0) (r : Parsed V A)
      → ((s : Parser V) → Q s → R s)
      → Ends Q r
      → Ends R r
  unfolding Ends
  Ends-weaken Q R (ok a s) h q = h s q
  Ends-weaken Q R thrown h q = tt
  Ends-weaken Q R fault h q = tt
  Ends-weaken Q R no_fuel h q = q

  -- Where the fuel `n` of the functions that it calls exceeds three times what is left by more than
  -- `w`, the action comes to an end, no further from that of the source.
  pub record Runs (w n : ℕ) {A : Type 0} (m : P V A) : Type 0 where
    pub at :
        (s : Parser V)
        → s.scanner.current ≤ length source
        → 3 * remaining s + w < n
        → Ends (Nearer s) (m s)

  -- The same where the next token is not the last.
  pub record RunsAwake (w n : ℕ) {A : Type 0} (m : P V A) : Type 0 where
    pub at :
        (s : Parser V)
        → s.scanner.current ≤ length source
        → at_eof s ≡ false
        → 3 * remaining s + w < n
        → Ends (Nearer s) (m s)

  -- What an action leaves that has taken a token.
  pub record Shorter (s s' : Parser V) : Type 0 where
    pub inside : s'.scanner.current ≤ length source
    pub less : remaining s' < remaining s

  pub Shorter-Nearer : (s s' : Parser V) → Shorter s s' → Nearer s s'
  Shorter-Nearer s s' h = record { inside = h.inside; less = inl h.less }

  -- An action that takes a token where the next one is not the last.
  pub record Eats (n : ℕ) {A : Type 0} (m : P V A) : Type 0 where
    pub at :
        (s : Parser V)
        → s.scanner.current ≤ length source
        → at_eof s ≡ false
        → 3 * remaining s < n
        → Ends (Shorter s) (m s)

  module _ {n : ℕ} {A B : Type 0} where
    pub Runs-bind :
        (w : ℕ) (m : P V A) (f : A → P V B)
        → Runs w n m
        → ((a : A) → Runs w n (f a))
        → Runs w n (m >>= f)
    Runs-bind w m f hm hf = record {
      at = λ s inside enough.
          Ends-bind (Nearer s) (Nearer s) m f s (hm.at s inside enough) λ a s₁ h.
            let le = Nearer-le s s₁ h in
            Ends-weaken (Nearer s₁) (Nearer s) (f a s₁) (λ s₂ k. Nearer-trans s s₁ s₂ h k)
              ((hf a).at s₁ h.inside (omega (arith, le, enough)));
    }

    -- The rest of an action that has taken a token.
    pub Eats-bind :
        (m : P V A) (f : A → P V B) → Eats n m → ((a : A) → Runs 3 n (f a)) → Eats n (m >>= f)
    Eats-bind m f hm hf = record {
      at = λ s inside awake enough.
          Ends-bind (Shorter s) (Shorter s) m f s (hm.at s inside awake enough) λ a s₁ h.
            Ends-weaken (Nearer s₁) (Shorter s) (f a s₁)
              (λ s₂ k.
                let le = Nearer-le s₁ s₂ k in
                record { inside = k.inside; less = omega (arith, h.less, le) })
              ((hf a).at s₁ h.inside (omega (arith, h.less, enough)));
    }

    pub RunsAwake-bind :
        (w : ℕ) (m : P V A) (f : A → P V B)
        → Eats n m
        → ((a : A) → Runs (suc (suc (suc w))) n (f a))
        → RunsAwake w n (m >>= f)
    RunsAwake-bind w m f hm hf = record {
      at = λ s inside awake enough.
          Ends-bind (Shorter s) (Nearer s) m f s (hm.at s inside awake (omega (arith, enough)))
            λ a s₁ h.
              Ends-weaken (Nearer s₁) (Nearer s) (f a s₁)
                (λ s₂ k. Nearer-trans s s₁ s₂ (Shorter-Nearer s s₁ h) k)
                ((hf a).at s₁ h.inside (omega (arith, h.less, enough)));
    }

  -- The token is taken later.
  pub Eats-later :
      {n : ℕ} {A B : Type 0} (m : P V A) (f : A → P V B)
      → Runs 0 n m
      → ((a : A) → Runs 0 n (f a))
      → ((a : A) → Eats n (f a))
      → Eats n (m >>= f)
  Eats-later m f hm hr hf = record {
    at = λ s inside awake enough.
        Ends-bind (Nearer s) (Shorter s) m f s (hm.at s inside (omega (arith, enough))) λ a s₁ h.
          let le = Nearer-le s s₁ h in
          elim h.less [
            | inl l ↦
                Ends-weaken (Nearer s₁) (Shorter s) (f a s₁)
                  (λ s₂ k.
                    let le' = Nearer-le s₁ s₂ k in
                    record { inside = k.inside; less = omega (arith, l, le') })
                  ((hr a).at s₁ h.inside (omega (arith, le, enough)))
            | inr (e, b) ↦
                Ends-weaken (Shorter s₁) (Shorter s) (f a s₁)
                  (λ s₂ k. record { inside = k.inside; less = omega (arith, e, k.less) })
                  ((hf a).at s₁ h.inside (b ∙ awake) (omega (arith, e, enough)))
          ];
  }
