-- ===== src/Compiler/Parser/Progress/Tokens.antt =====
-- `advance`, `match` and `expect` of src/syntax/compiler.cpp, which take tokens.
use mathlib.Core.Path.{subst}
use bad_snap.Common.{
  ℕ, suc, ◌^◌, ◌≤◌, ◌<◌, ◌≡◌, inl, inr, refl, sym, ap, ◌∙◌, Bool, true, false, List, length, arith,
  Bool-cases,
}
use bad_snap.Token.{TokenType, Token, same_type}
use bad_snap.Scanner.Cursor
use bad_snap.Scanner.Cursor.{Scan, Scanner}
use bad_snap.Scanner.Total.{EndsWell}
use bad_snap.Scanner.Tokens.{Tokenised, next_token_returns}
use bad_snap.Compiler.Parser.{
  Parser, Parsed, P, ◌>>=◌, pure, gets, advance, check_token, match_token, expect, at_eof, is_next,
  ok, thrown, fault, no_fuel,
}
use bad_snap.Compiler.Parser.Progress.{
  le_cases, remaining, bounds, remaining-last, remaining-more, Nearer, Shorter, Ends, Runs,
  RunsAwake, Eats, Eats-bind, RunsAwake-bind,
}
use bad_snap.Compiler.Parser.Progress.Steps.{
  still_rules, Runs-take_error, Runs-check_token, Runs-test, Runs-declare, Runs-add_param,
  Runs-add_self_param, Runs-emit_upvals, Runs-token_text, Runs-enter_loop, Runs-leave_loop,
  Runs-jump_out,
}

bound :
    {V A B : Type 0} (m m' : P V A) (f : A → P V B) (s : Parser V)
    → m s ≡ m' s
    → (m >>= f) s ≡ (m' >>= f) s
unfolding ◌>>=◌
bound {V = V} {B = B} m m' f s e =
    ap
      (λ r. elim r as (λ _. Parsed V B) [
        | ok a s' ↦ f a s'
        | thrown ↦ thrown
        | fault ↦ fault
        | no_fuel ↦ no_fuel
      ])
      e

bound_twice :
    {V A B C : Type 0} (m : P V A) (b : B) (f : B → P V C) (s : Parser V)
    → ((m >>= λ _. pure b) >>= f) s ≡ (m >>= λ _. f b) s
unfolding ◌>>=◌ pure
bound_twice {V = V} {A = A} {B = B} {C = C} m b f s = go (m s)
  where
    go :
        (r : Parsed V A)
        → elim (elim r as (λ _. Parsed V B) [
          | ok a s' ↦ ok b s'
          | thrown ↦ thrown
          | fault ↦ fault
          | no_fuel ↦ no_fuel
        ])
            as (λ _. Parsed V C) [
              | ok a s' ↦ f a s'
              | thrown ↦ thrown
              | fault ↦ fault
              | no_fuel ↦ no_fuel
            ]
          ≡ elim r as (λ _. Parsed V C) [
            | ok a s' ↦ f b s'
            | thrown ↦ thrown
            | fault ↦ fault
            | no_fuel ↦ no_fuel
          ]
    go (ok a s') = refl
    go thrown = refl
    go fault = refl
    go no_fuel = refl

module _ {V : Type 0} (source : List ℕ) (small : length source < 2 ^ 32)
    (well : EndsWell source small) where
  taken : Parser V → Token → Scanner → Parser V
  taken s t scanner = record s { prev = s.token; token = s.peek; peek = t; scanner = scanner }

  -- What is left behind a token, from anywhere, and where there was one.
  Nearer-taken :
      (s : Parser V) (t : Token) (scanner : Scanner)
      → Tokenised source small well s.scanner (t, scanner)
      → Nearer source s (taken s t scanner)
  unfolding taken same_type
  Nearer-taken s t scanner h = elim h.outcome [
    | inl (type, end) ↦
        let last = ap (λ t. same_type t TokenType.eof_tok) type in
        let e = remaining-last source (taken s t scanner) last in
        elim (Bool-cases (at_eof s)) [
          | inl before ↦
              let e₀ = remaining-last source s before in
              record {
                inside = h.within;
                less = elim (le_cases (remaining source s) (remaining source (taken s t scanner))) [
                  | inl l ↦ inr (omega (arith, l, e, e₀, h.forward, h.within), last ∙ sym before)
                  | inr l ↦ inl l
                ];
              }
          | inr before ↦
              let e₀ = remaining-more source s before in
              record { inside = h.within; less = inl (omega (arith, e, e₀, h.forward, h.within)) }
        ]
    | inr (starts, some_bytes, covers) ↦
        let b = bounds source s in
        let b' = bounds source (taken s t scanner) in
        record {
          inside = h.within;
          less = inl (omega (arith, b.0, b.1, b'.0, b'.1, starts, some_bytes, h.within));
        }
  ]

  Shorter-taken :
      (s : Parser V) (t : Token) (scanner : Scanner)
      → Tokenised source small well s.scanner (t, scanner)
      → at_eof s ≡ false
      → Shorter source s (taken s t scanner)
  unfolding taken same_type
  Shorter-taken s t scanner h awake =
      let e₀ = remaining-more source s awake in
      record {
        inside = h.within;
        less = elim h.outcome [
          | inl (type, end) ↦
              let last = ap (λ t. same_type t TokenType.eof_tok) type in
              let e = remaining-last source (taken s t scanner) last in
              omega (arith, e, e₀, h.forward, h.within)
          | inr (starts, some_bytes, covers) ↦
              let b' = bounds source (taken s t scanner) in
              omega (arith, e₀, b'.0, b'.1, starts, some_bytes, h.within)
        ];
      }

  scanned : Parser V → Scan (Token × Scanner) → Parsed V (Unit {0})
  scanned s r = elim r [
    | Cursor.ok (t, scanner) ↦
        ok tt (record s { prev = s.token; token = s.peek; peek = t; scanner = scanner })
    | Cursor.out_of_range ↦ thrown
    | Cursor.no_fuel ↦ no_fuel
  ]

  Ends-advance :
      (Q : Parser V → Type 0) (s : Parser V)
      → s.scanner.current ≤ length source
      → ((t : Token) (scanner : Scanner)
          → Tokenised source small well s.scanner (t, scanner)
          → Q (taken s t scanner))
      → Ends source Q (advance source s)
  unfolding Ends advance taken scanned
  Ends-advance Q s inside q =
      let (r, run, p) = next_token_returns source small well s.scanner inside in
      subst (λ r. Ends source Q (scanned s r)) (sym run) (q r.0 r.1 p)

  module _ {w n : ℕ} where
    pub Runs-advance : Runs source w n (advance {V = V} source)
    Runs-advance = record {
      at = λ s inside enough. Ends-advance (Nearer source s) s inside (Nearer-taken s);
    }

  pub Eats-advance : {n : ℕ} → Eats source n (advance {V = V} source)
  Eats-advance = record {
    at = λ s inside awake enough.
        Ends-advance (Shorter source s) s inside λ t scanner h. Shorter-taken s t scanner h awake;
  }

  match-found :
      (t : TokenType) (s : Parser V)
      → is_next t s ≡ true
      → match_token source t s ≡ (advance source >>= λ _. pure true) s
  unfolding ◌>>=◌ match_token check_token gets
  match-found t s e = rw e

  match-other :
      (t : TokenType) (s : Parser V) → is_next t s ≡ false → match_token source t s ≡ pure false s
  unfolding ◌>>=◌ match_token check_token gets
  match-other t s e = rw e

  pub match-true :
      {A : Type 0} (t : TokenType) (f : Bool → P V A) (s : Parser V)
      → is_next t s ≡ true
      → (match_token source t >>= f) s ≡ (advance source >>= λ _. f true) s
  match-true t f s e =
      bound (match_token source t) (advance source >>= λ _. pure true) f s (match-found t s e)
      ∙ bound_twice (advance source) true f s

  pub match-false :
      {A : Type 0} (t : TokenType) (f : Bool → P V A) (s : Parser V)
      → is_next t s ≡ false
      → (match_token source t >>= f) s ≡ f false s
  unfolding ◌>>=◌ pure
  match-false t f s e = bound (match_token source t) (pure false) f s (match-other t s e)

  pub next-awake : (t : TokenType) (s : Parser V) → is_next t s ≡ true → at_eof s ≡ false
  next-awake t s e = ground (arith, e)

  module _ {A : Type 0} {n : ℕ} where
    -- What follows `advance` where the next token is not the last.
    pub RunsAwake-advance :
        (w : ℕ) (f : Unit → P V A)
        → ((t : Unit {0}) → Runs source (suc (suc (suc w))) n (f t))
        → RunsAwake source w n (advance source >>= f)
    RunsAwake-advance w f h = RunsAwake-bind source w _ f Eats-advance h

    -- What follows a `match` is behind a token where it was the right one.
    pub Runs-match :
        (w : ℕ) (t : TokenType) (f : Bool → P V A)
        → Runs source (suc (suc (suc w))) n (f true)
        → Runs source w n (f false)
        → Runs source w n (match_token source t >>= f)
    Runs-match w t f h h' = record {
      at = λ s inside enough. elim (Bool-cases (is_next t s)) [
        | inl found ↦
            subst (Ends source (Nearer source s)) (sym (match-true t f s found)) (
              (RunsAwake-advance w (λ _. f true) (λ _. h)).at s inside (next-awake t s found)
                enough)
        | inr other ↦
            subst (Ends source (Nearer source s)) (sym (match-false t f s other))
              (h'.at s inside enough)
      ];
    }

    pub Eats-match :
        (t : TokenType) (f : Bool → P V A)
        → Runs source 3 n (f true)
        → Eats source n (f false)
        → Eats source n (match_token source t >>= f)
    Eats-match t f h h' = record {
      at = λ s inside awake enough. elim (Bool-cases (is_next t s)) [
        | inl found ↦
            subst (Ends source (Shorter source s)) (sym (match-true t f s found))
              ((Eats-bind source _ (λ _. f true) Eats-advance (λ _. h)).at s inside awake enough)
        | inr other ↦
            subst (Ends source (Shorter source s)) (sym (match-false t f s other))
              (h'.at s inside awake enough)
      ];
    }

  module _ {w n : ℕ} where
    pub Runs-match_token : (t : TokenType) → Runs source w n (match_token {V = V} source t)
    unfolding match_token
    Runs-match_token t = search (still_rules, Runs-check_token, Runs-advance)

    pub Runs-expect : (t : TokenType) → Runs source w n (expect {V = V} source t)
    unfolding expect
    Runs-expect t = search (still_rules, Runs-check_token, Runs-advance)

pub ruleset progress_rules = (
  still_rules, Runs-take_error, Runs-check_token, Runs-test, Runs-declare, Runs-add_param,
  Runs-add_self_param, Runs-emit_upvals, Runs-token_text, Runs-enter_loop, Runs-leave_loop,
  Runs-jump_out, Runs-advance, Runs-match, Runs-match_token, Runs-expect,
)
