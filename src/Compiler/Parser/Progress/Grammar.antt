-- ===== src/Compiler/Parser/Progress/Grammar.antt =====
-- A script comes to an end: `toplevel`, the loops over statements, and `Compiler::compile` of
-- src/syntax/compiler.cpp.
use mathlib.Core.Path.{subst}
use bad_snap.Common.{
  ℕ, zero, suc, ◌+◌, ◌*◌, ◌<◌, ◌≤◌, ◌^◌, ◌≡◌, ◌⊎◌, inl, inr, refl, sym, ◌∙◌, Bool, true, false,
  ◌||◌, List, length, arith, Bool-cases, if◌then◌else◌,
}
use bad_snap.Scanner.Total.{EndsWell}
use bad_snap.Token.{TokenType}
use bad_snap.Compiler.Parser.{
  Literals, Parser, P, ◌>>=◌, ◌>>◌, pure, gets, at_eof, is_next, advance, match_token, peek_type,
}
use bad_snap.Compiler.Parser.Functions.{Rule, statements_rule, program_rule, block_rest}
use bad_snap.Compiler.Parser.Loops.{failed, skip_tokens, goto_eof}
use bad_snap.Compiler.Parser.Statements.{statement, toplevel, statements, program_rest, program}
use bad_snap.Compiler.Parser.Progress.{
  bounds, remaining, Nearer, Nearer-refl, Nearer-le, Nearer-trans, Shorter, Shorter-Nearer, Ends,
  Ends-bind, Ends-weaken, Runs,
}
use bad_snap.Compiler.Parser.Progress.Rules.{Fuelled}
use bad_snap.Compiler.Parser.Progress.Tokens.{Eats-advance, match-true, match-false, next-awake}
use bad_snap.Compiler.Parser.Progress.Targets.{Settled}
use bad_snap.Compiler.Parser.Progress.Statements.{Settles-statement}

true-false : ¬ (true ≡ false)
true-false e = ground (arith, e)

module _ {V : Type 0} (source : List ℕ) (small : length source < 2 ^ 32)
    (well : EndsWell source small) where
  -- What a statement leaves: less than before, or the last token next, or an error that is new.
  abbrev Moved : Parser V → Parser V → Type 0
  Moved s s' =
      Nearer source s s'
      × ((remaining source s' < remaining source s)
          ⊎ ((at_eof s' ≡ true) ⊎ ((failed s ≡ false) × (failed s' ≡ true))))

  Ends-skip :
      (rounds : ℕ) (s : Parser V)
      → s.scanner.current ≤ length source
      → remaining source s < rounds
      → Ends source (λ s'. Nearer source s s' × (at_eof s' ≡ true)) (skip_tokens source rounds s)
  unfolding skip_tokens gets pure Ends ◌>>=◌
  Ends-skip zero s inside enough = absurd (omega (arith, enough))
  Ends-skip (suc rounds) s inside enough =
      let Q = λ (s' : Parser V). Nearer source s s' × (at_eof s' ≡ true) in
      let choice : Bool → P V (Unit {0}) =
        λ end. if end then pure tt else (advance source >> skip_tokens source rounds) in
      elim (Bool-cases (at_eof s)) [
        | inl e ↦
            subst (λ end. Ends source Q (choice end s)) (sym e) (Nearer-refl source s inside, e)
        | inr e ↦
            subst (λ end. Ends source Q (choice end s)) (sym e)
              (Ends-bind source (Shorter source s) Q (advance source)
                (λ _. skip_tokens source rounds) s
                ((Eats-advance source small well {n = suc (3 * remaining source s)}).at s inside e
                  (omega arith))
                λ _ s₁ k.
                  Ends-weaken source (λ s'. Nearer source s₁ s' × (at_eof s' ≡ true)) Q
                    (skip_tokens source rounds s₁)
                    (λ s' (near, last).
                      (Nearer-trans source s s₁ s' (Shorter-Nearer source s s₁ k) near, last))
                    (Ends-skip rounds s₁ k.inside (omega (arith, k.less, enough))))
      ]

  Ends-goto_eof :
      (s : Parser V)
      → s.scanner.current ≤ length source
      → Ends source (λ s'. Nearer source s s' × (at_eof s' ≡ true)) (goto_eof source s)
  unfolding goto_eof
  Ends-goto_eof s inside =
      let b = bounds source s in Ends-skip (2 * length source + 4) s inside (omega (arith, b.0))

  -- The semicolon behind a statement.
  semicolon : P V (Unit {0})
  semicolon = match_token source TokenType.semi >>= λ _. pure tt

  Ends-semicolon :
      (s : Parser V)
      → s.scanner.current ≤ length source
      → Ends source
          (λ s'.
            Nearer source s s'
            × ((remaining source s' < remaining source s) ⊎ (failed s' ≡ failed s)))
          (semicolon s)
  unfolding semicolon Ends pure
  Ends-semicolon s inside =
      let Q = λ (s' : Parser V).
        Nearer source s s'
        × ((remaining source s' < remaining source s) ⊎ (failed s' ≡ failed s)) in
      elim (Bool-cases (is_next TokenType.semi s)) [
        | inl e ↦
            subst (Ends source Q)
              (sym (match-true source small well TokenType.semi (λ _. pure tt) s e))
              (Ends-bind source (Shorter source s) Q (advance source) (λ _. pure tt) s
                ((Eats-advance source small well {n = suc (3 * remaining source s)}).at s inside
                  (next-awake source small well TokenType.semi s e) (omega arith))
                λ _ s₁ k. (Shorter-Nearer source s s₁ k, inl k.less))
        | inr e ↦
            subst (Ends source Q)
              (sym (match-false source small well TokenType.semi (λ _. pure tt) s e))
              (Nearer-refl source s inside, inr refl)
      ]

  -- One more unit of fuel is needed where no error is set yet.
  unfoldable pub unfailed : Parser V → ℕ
  unfailed s = if failed s then 0 else 1

  -- An action over statements, which the fuel `n` is enough for.
  pub record Lasts (n : ℕ) (m : P V (Unit {0})) : Type 0 where
    pub at :
        (s : Parser V)
        → s.scanner.current ≤ length source
        → 3 * remaining source s + unfailed s < n
        → Ends source (Nearer source s) (m s)

  module _ (lit : Literals V) (rec : Rule → P V (Unit {0})) {n : ℕ} (h : Fuelled source n rec) where
    -- A statement and its semicolon, where the next token is not the last.
    Ends-statement :
        (s : Parser V)
        → s.scanner.current ≤ length source
        → at_eof s ≡ false
        → failed s ≡ false
        → 3 * remaining source s < n
        → Ends source (Moved s) ((statement source lit rec s.peek.type >>= λ _. semicolon) s)
    Ends-statement s inside awake fine enough =
        Ends-bind source (Settled source s) (Moved s) (statement source lit rec s.peek.type)
          (λ _. semicolon) s
          ((Settles-statement source small well lit rec h s.peek.type).at s inside awake enough)
          λ _ s₁ k.
            Ends-weaken source
              (λ s'.
                Nearer source s₁ s'
                × ((remaining source s' < remaining source s₁) ⊎ (failed s' ≡ failed s₁)))
              (Moved s) (semicolon s₁)
              (λ s' (near, either).
                let near' = Nearer-trans source s s₁ s' k.near near in
                let le = Nearer-le source s s₁ k.near in
                let le' = Nearer-le source s₁ s' near in
                (
                  near',
                  elim k.either [
                    | inl l ↦ inl (omega (arith, l, le'))
                    | inr e ↦ elim either [
                      | inl l ↦ inl (omega (arith, l, le))
                      | inr same ↦ inr (inr (fine, same ∙ e))
                    ]
                  ],
                ))
              (Ends-semicolon s₁ k.near.inside)

    Ends-toplevel :
        (s : Parser V)
        → s.scanner.current ≤ length source
        → 3 * remaining source s + unfailed s < suc n
        → Ends source (Moved s) (toplevel source lit rec s)
    unfolding toplevel semicolon Ends gets pure ◌>>=◌ unfailed
    Ends-toplevel s inside enough =
        let statement_next : P V (Unit {0}) =
          peek_type >>= λ type. statement source lit rec type >>= λ _. semicolon in
        let tail : P V (Unit {0}) =
          gets at_eof >>= λ end. if end then pure tt else statement_next in
        let head : Bool → P V (Unit {0}) =
          λ e. (if e then goto_eof source else pure tt) >>= λ _. tail in
        let stop : (s₁ : Parser V)
            → Nearer source s s₁
            → at_eof s₁ ≡ true
            → Ends source (Moved s) (tail s₁) =
          λ s₁ near last.
            subst (λ end. Ends source (Moved s) ((if end then pure tt else statement_next) s₁))
              (sym last) (near, inr (inl last)) in
        elim (Bool-cases (failed s)) [
          | inl e ↦
              subst (λ b. Ends source (Moved s) (head b s)) (sym e)
                (Ends-bind source (λ s'. Nearer source s s' × (at_eof s' ≡ true)) (Moved s)
                  (goto_eof source) (λ _. tail) s (Ends-goto_eof s inside)
                  λ _ s₁ (near, last). stop s₁ near last)
          | inr e ↦
              subst (λ b. Ends source (Moved s) (head b s)) (sym e)
                (elim (Bool-cases (at_eof s)) [
                  | inl last ↦ stop s (Nearer-refl source s inside) last
                  | inr awake ↦
                      subst
                        (λ end. Ends source (Moved s) ((if end then pure tt else statement_next) s))
                        (sym awake) (Ends-statement s inside awake e (ground (arith, enough, e)))
                ])
        ]

    -- The statements that follow one.
    Ends-rest :
        (rule : Rule) (g : Parser V → Bool)
        → ((s : Parser V) → at_eof s ≡ true → g s ≡ true)
        → Lasts n (rec rule)
        → (s : Parser V) → s.scanner.current ≤ length source
        → 3 * remaining source s + unfailed s < suc n
        → Ends source (Nearer source s) (
            (toplevel source lit rec >>= λ _. gets g >>= λ end. if end then pure tt else rec rule)
              s)
    unfolding Ends gets pure ◌>>=◌ unfailed
    Ends-rest rule g last k s inside enough =
        let rest : P V (Unit {0}) = gets g >>= λ end. if end then pure tt else rec rule in
        Ends-bind source (Moved s) (Nearer source s) (toplevel source lit rec) (λ _. rest) s
          (Ends-toplevel s inside enough)
          λ _ s₁ (near, either). elim (Bool-cases (g s₁)) [
            | inl e ↦
                subst
                  (λ end. Ends source (Nearer source s) ((if end then pure tt else rec rule) s₁))
                  (sym e) near
            | inr e ↦
                subst
                  (λ end. Ends source (Nearer source s) ((if end then pure tt else rec rule) s₁))
                  (sym e)
                  (Ends-weaken source (Nearer source s₁) (Nearer source s) (rec rule s₁)
                    (λ s₂ k. Nearer-trans source s s₁ s₂ near k)
                    (k.at s₁ near.inside (elim either [
                      | inl l ↦ ground (arith, l, enough)
                      | inr (inl end) ↦ absurd (true-false (sym (last s₁ end) ∙ e))
                      | inr (inr (fine, set)) ↦
                          let le = Nearer-le source s s₁ near in
                          ground (arith, fine, set, enough, le)
                    ])))
          ]

    pub Lasts-statements : Lasts n (rec statements_rule) → Lasts (suc n) (statements source lit rec)
    unfolding statements block_rest
    Lasts-statements k = record {
      at =
          Ends-rest statements_rule (λ s. at_eof s || is_next TokenType.rcurl_brace s)
            (λ s e. ground (arith, e)) k;
    }

    pub Lasts-program : Lasts n (rec program_rule) → Lasts (suc n) (program source lit rec)
    unfolding program program_rest
    Lasts-program k = record { at = Ends-rest program_rule (λ s. at_eof s) (λ s e. e) k }

    pub Runs-toplevel : Runs source 1 (suc n) (toplevel source lit rec)
    unfolding unfailed
    Runs-toplevel = record {
      at = λ s inside enough.
          Ends-weaken source (Moved s) (Nearer source s) (toplevel source lit rec s)
            (λ s' (near, either). near) (Ends-toplevel s inside (ground (arith, enough)));
    }

  pub Lasts-none : (m : P V (Unit {0})) → Lasts 0 m
  Lasts-none m = record { at = λ s inside enough. absurd (omega (arith, enough)) }

  pub Runs-Lasts : {w n : ℕ} (m : P V (Unit {0})) → Lasts n m → Runs source (suc w) n m
  unfolding unfailed
  Runs-Lasts m h = record { at = λ s inside enough. h.at s inside (ground (arith, enough)) }
