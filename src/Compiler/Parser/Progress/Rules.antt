-- ===== src/Compiler/Parser/Progress/Rules.antt =====
-- What comes of actions that are put together: the rules by which the parse functions of
-- src/syntax/compiler.cpp come to an end.
use mathlib.Core.Path.{subst}
use bad_snap.Common.{
  ℕ, zero, suc, ◌+◌, ◌*◌, ◌≤◌, ◌≡◌, inl, inr, refl, sym, Bool, true, false, Option, none, some,
  List, length, arith, Bool-cases, if◌then◌else◌,
}
use bad_snap.Token.{TokenType, same_type, token_num}
use bad_snap.Compiler.Parser.Functions.{Rule, statements_rule, expr_rule}
use bad_snap.Compiler.Parser.{
  Parser, Parsed, P, ◌>>=◌, pure, gets, at_eof, peek_type, ok, thrown, fault, no_fuel,
}
use bad_snap.Compiler.Parser.Progress.{
  bounds, Nearer, Ends-weaken, Ends, RunsAwake, Runs, Shorter-Nearer, Shorter, Eats,
}

pub bind_assoc :
    {V A B C : Type 0} (m : P V A) (g : A → P V B) (f : B → P V C) (s : Parser V)
    → ((m >>= g) >>= f) s ≡ (m >>= λ a. g a >>= f) s
unfolding ◌>>=◌
bind_assoc {V = V} {A = A} {B = B} {C = C} m g f s = go (m s)
  where
    go :
        (r : Parsed V A)
        → elim (elim r as (λ _. Parsed V B) [
          | ok a s' ↦ g a s'
          | thrown ↦ thrown
          | fault ↦ fault
          | no_fuel ↦ no_fuel
        ])
            as (λ _. Parsed V C) [
              | ok b s' ↦ f b s'
              | thrown ↦ thrown
              | fault ↦ fault
              | no_fuel ↦ no_fuel
            ]
          ≡ elim r as (λ _. Parsed V C) [
            | ok a s' ↦ (g a >>= f) s'
            | thrown ↦ thrown
            | fault ↦ fault
            | no_fuel ↦ no_fuel
          ]
    go (ok a s') = refl
    go thrown = refl
    go fault = refl
    go no_fuel = refl

-- The fuel that stands for a count of rounds.
abbrev pub thrice : ℕ → ℕ
thrice zero = zero
thrice (suc n) = suc (suc (suc (thrice n)))

thrice_lem : (n : ℕ) → thrice n ≡ 3 * n
thrice_lem zero = refl
thrice_lem (suc n) = omega (arith, thrice_lem n)

eof-type : (type : TokenType) → same_type type TokenType.eof_tok ≡ true → type ≡ TokenType.eof_tok
unfolding same_type token_num
eof-type TokenType.eof_tok e = refl
eof-type _ e = ground (arith, e)

module _ {V : Type 0} (source : List ℕ) where
  module _ {n : ℕ} {A : Type 0} where
    pub RunsAwake-Eats : (w : ℕ) (m : P V A) → Eats source n m → RunsAwake source w n m
    RunsAwake-Eats w m h = record {
      at = λ s inside awake enough.
          Ends-weaken source (Shorter source s) (Nearer source s) (m s) (Shorter-Nearer source s)
            (h.at s inside awake (omega (arith, enough)));
    }

    pub RunsAwake-Runs : (w : ℕ) (m : P V A) → Runs source w n m → RunsAwake source w n m
    RunsAwake-Runs w m h = record { at = λ s inside awake enough. h.at s inside enough }

    pub Runs-if :
        (w : ℕ) (b : Bool) (m m' : P V A)
        → Runs source w n m
        → Runs source w n m'
        → Runs source w n (if b then m else m')
    Runs-if w true m m' h h' = h
    Runs-if w false m m' h h' = h'

    pub Eats-if :
        (b : Bool) (m m' : P V A)
        → Eats source n m
        → Eats source n m'
        → Eats source n (if b then m else m')
    Eats-if true m m' h h' = h
    Eats-if false m m' h h' = h'

    pub Runs-option :
        {B : Type 0} (w : ℕ) (o : Option B) (m : P V A) (f : B → P V A)
        → Runs source w n m
        → ((b : B) → Runs source w n (f b))
        → Runs source w n (elim o [ none ↦ m | some b ↦ f b ])
    Runs-option w none m f hm hf = hm
    Runs-option w (some b) m f hm hf = hf b

  -- What the functions that an action calls may be relied on for: a call behind a token comes to an
  -- end, and one for the statements of a block or an expression does with less.
  pub record Fuelled (n : ℕ) (rec : Rule → P V (Unit {0})) : Type 0 where
    pub at : (rule : Rule) (w : ℕ) → Runs source (suc (suc (suc w))) n (rec rule)
    pub statements : (w : ℕ) → Runs source (suc w) n (rec statements_rule)
    pub expr : (w : ℕ) → Runs source (suc w) n (rec expr_rule)

  -- Where the next token is tested first.
  pub Runs-peek :
      {A : Type 0} {n : ℕ} (w : ℕ) (f : TokenType → P V A)
      → Runs source w n (f TokenType.eof_tok)
      → ((type : TokenType) → RunsAwake source w n (f type))
      → Runs source w n (peek_type >>= f)
  unfolding ◌>>=◌ gets
  Runs-peek w f last more = record {
    at = λ s inside enough. elim (Bool-cases (at_eof s)) [
      | inl e ↦
          subst (λ type. Ends source (Nearer source s) (f type s)) (sym (eof-type s.peek.type e))
            (last.at s inside enough)
      | inr awake ↦ (more s.peek.type).at s inside awake enough
    ];
  }

  pub Eats-gets :
      {A B : Type 0} {n : ℕ} (g : Parser V → A) (f : A → P V B)
      → ((a : A) → Eats source n (f a))
      → Eats source n (gets g >>= f)
  unfolding ◌>>=◌ gets
  Eats-gets g f h = record { at = λ s inside awake enough. (h (g s)).at s inside awake enough }

  pub Runs-last :
      {A : Type 0} {n : ℕ} (w : ℕ) (f : Bool → P V A)
      → Runs source w n (f true)
      → RunsAwake source w n (f false)
      → Runs source w n (gets at_eof >>= f)
  unfolding ◌>>=◌ gets
  Runs-last w f last more = record {
    at = λ s inside enough. elim (Bool-cases (at_eof s)) [
      | inl e ↦ subst (λ b. Ends source (Nearer source s) (f b s)) (sym e) (last.at s inside enough)
      | inr e ↦
          subst (λ b. Ends source (Nearer source s) (f b s)) (sym e) (more.at s inside e enough)
    ];
  }

  -- A choice whose branches go on as one.
  pub Runs-choice :
      {A B : Type 0} {n : ℕ} (w : ℕ) (b : Bool) (m m' : P V A) (f : A → P V B)
      → Runs source w n (m >>= f)
      → Runs source w n (m' >>= f)
      → Runs source w n ((if b then m else m') >>= f)
  Runs-choice w true m m' f h h' = h
  Runs-choice w false m m' f h h' = h'

  pub Runs-known :
      {A B : Type 0} {n : ℕ} (w : ℕ) (a : A) (f : A → P V B)
      → Runs source w n (f a)
      → Runs source w n (pure a >>= f)
  unfolding ◌>>=◌ pure
  Runs-known w a f h = record { at = λ s. h.at s }

  -- A round of a loop, whose count of rounds stands for the fuel.
  pub Runs-round :
      {A : Type 0} {n : ℕ} (w : ℕ) (m : P V A)
      → Runs source w n m
      → Runs source (suc (suc (suc w))) (suc (suc (suc n))) m
  Runs-round w m h = record { at = λ s inside enough. h.at s inside (omega (arith, enough)) }

  -- As many rounds as what is left of any source.
  pub Runs-rounds :
      {A : Type 0} {w n : ℕ} (m : P V A)
      → Runs source 0 (thrice (2 * length source + 4)) m
      → Runs source w n m
  Runs-rounds m h = record {
    at = λ s inside enough.
        let b = bounds source s in
        h.at s inside (omega (arith, b.0, thrice_lem (2 * length source + 4)));
  }

  -- A step that has parts of its own.
  pub Runs-nested :
      {A B C : Type 0} {n : ℕ} (w : ℕ) (m : P V A) (g : A → P V B) (f : B → P V C)
      → Runs source w n (m >>= λ a. g a >>= f)
      → Runs source w n ((m >>= g) >>= f)
  unfolding ◌>>=◌
  Runs-nested {C = C} w m g f h = record {
    at = λ s inside enough.
        subst (Ends source (Nearer source s)) (sym (bind_assoc m g f s)) (h.at s inside enough);
  }

  pub Runs-weaken :
      {A : Type 0} {v w n : ℕ} (m : P V A) → v ≤ w → Runs source v n m → Runs source w n m
  Runs-weaken m le h = record { at = λ s inside enough. h.at s inside (omega (arith, le, enough)) }

  -- The unit of fuel that a call takes.
  pub Runs-call :
      {A : Type 0} {w n : ℕ} (m : P V A) → Runs source w n m → Runs source (suc w) (suc n) m
  Runs-call m h = record { at = λ s inside enough. h.at s inside (omega (arith, enough)) }

  pub Runs-none : {A : Type 0} {w : ℕ} (m : P V A) → Runs source w 0 m
  Runs-none m = record { at = λ s inside enough. absurd (omega (arith, enough)) }
