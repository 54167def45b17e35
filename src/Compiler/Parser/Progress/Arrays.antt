-- ===== src/Compiler/Parser/Progress/Arrays.antt =====
-- The rounds of `array` of src/syntax/compiler.cpp, which go on behind an expression.
use mathlib.Core.Path.{subst}
use bad_snap.Common.{
  ℕ, ◌*◌, ◌<◌, ◌^◌, ◌≡◌, ◌⊎◌, inl, inr, sym, ◌∙◌, Bool, true, false, List, length, arith,
  Bool-cases, if◌then◌else◌,
}
use bad_snap.Scanner.Total.{EndsWell}
use bad_snap.Compiler.Parser.{Literals, Parser, P, ◌>>=◌, gets, at_eof}
use bad_snap.Compiler.Parser.Functions.{Rule, array_rule}
use bad_snap.Compiler.Parser.Levels.{array_rest}
use bad_snap.Compiler.Parser.Progress.{
  remaining, Nearer, Nearer-le, Nearer-trans, Shorter, Shorter-Nearer, Ends, Ends-bind, Ends-weaken,
  Runs, Eats,
}
use bad_snap.Compiler.Parser.Progress.Rules.{Fuelled}
use bad_snap.Compiler.Parser.Progress.Steps.{Runs-edit, Runs-check_token}
use bad_snap.Compiler.Parser.Progress.Tokens.{Runs-expect}
use bad_snap.Compiler.Parser.Progress.Levels.{Runs-expr, Eats-expr, Runs-finish_array}

module _ {V : Type 0} (source : List ℕ) where
  -- Less is left than before, or the last token is next.
  abbrev Behind : Parser V → Parser V → Type 0
  Behind s₀ s =
      Nearer source s₀ s × ((remaining source s < remaining source s₀) ⊎ (at_eof s ≡ true))

  record Follows (n : ℕ) {A : Type 0} (m : P V A) : Type 0 where
    at :
        (s₀ s : Parser V)
        → Behind s₀ s
        → 3 * remaining source s₀ < n
        → Ends source (Nearer source s₀) (m s)

  Behind-Nearer : (s₀ s s' : Parser V) → Behind s₀ s → Nearer source s s' → Behind s₀ s'
  Behind-Nearer s₀ s s' (near, either) k = (
    Nearer-trans source s₀ s s' near k,
    (let le = Nearer-le source s s' k in
        let le₀ = Nearer-le source s₀ s near in
        elim either [
          | inl l ↦ inl (omega (arith, l, le))
          | inr last ↦ elim k.less [
            | inl l ↦ inl (omega (arith, l, le₀))
            | inr (e, same) ↦ inr (same ∙ last)
          ]
        ]),
  )

  module _ {n : ℕ} {A B : Type 0} where
    Follows-bind :
        (m : P V A) (f : A → P V B)
        → Runs source 0 n m
        → ((a : A) → Follows n (f a))
        → Follows n (m >>= f)
    Follows-bind m f hm hf = record {
      at = λ s₀ s b enough.
          let le = Nearer-le source s₀ s b.0 in
          Ends-bind source (Nearer source s) (Nearer source s₀) m f s
            (hm.at s b.0.inside (omega (arith, le, enough)))
            λ a s₁ k. (hf a).at s₀ s₁ (Behind-Nearer s₀ s s₁ b k) enough;
    }

    Runs-Follows :
        (m : P V A) (f : A → P V B)
        → Runs source 0 n m
        → Eats source n m
        → ((a : A) → Follows n (f a))
        → Runs source 0 n (m >>= f)
    Runs-Follows m f hr he hf = record {
      at = λ s inside enough. elim (Bool-cases (at_eof s)) [
        | inl last ↦
            Ends-bind source (Nearer source s) (Nearer source s) m f s (hr.at s inside enough)
              λ a s₁ k.
                (hf a).at s s₁
                  (k, elim k.less [ inl l ↦ inl l | inr (e, same) ↦ inr (same ∙ last) ])
                  (omega (arith, enough))
        | inr awake ↦
            Ends-bind source (Shorter source s) (Nearer source s) m f s
              (he.at s inside awake (omega (arith, enough)))
              λ a s₁ k.
                (hf a).at s s₁ (Shorter-Nearer source s s₁ k, inl k.less) (omega (arith, enough))
      ];
    }

  module _ {n : ℕ} {A : Type 0} where
    Follows-Runs : (m : P V A) → Runs source 0 n m → Follows n m
    Follows-Runs m h = record {
      at = λ s₀ s b enough.
          let le = Nearer-le source s₀ s b.0 in
          Ends-weaken source (Nearer source s) (Nearer source s₀) (m s)
            (λ s' k. Nearer-trans source s₀ s s' b.0 k)
            (h.at s b.0.inside (omega (arith, le, enough)));
    }

    Follows-if :
        (b : Bool) (m m' : P V A) → Follows n m → Follows n m' → Follows n (if b then m else m')
    Follows-if true m m' h h' = h
    Follows-if false m m' h h' = h'

    Follows-last :
        (m m' : P V A)
        → Runs source 0 n m
        → Runs source 3 n m'
        → Follows n (gets at_eof >>= λ end. if end then m else m')
    unfolding ◌>>=◌ gets
    Follows-last m m' h h' = record {
      at = λ s₀ s b enough. elim (Bool-cases (at_eof s)) [
        | inl last ↦
            subst (λ end. Ends source (Nearer source s₀) ((if end then m else m') s)) (sym last)
              ((Follows-Runs m h).at s₀ s b enough)
        | inr awake ↦
            subst (λ end. Ends source (Nearer source s₀) ((if end then m else m') s)) (sym awake)
              (Ends-weaken source (Nearer source s) (Nearer source s₀) (m' s)
                (λ s' k. Nearer-trans source s₀ s s' b.0 k)
                (h'.at s b.0.inside (elim b.1 [
                  | inl l ↦ omega (arith, l, enough)
                  | inr last ↦ ground (arith, last, awake)
                ])))
      ];
    }

module _ {V : Type 0} (source : List ℕ) (small : length source < 2 ^ 32)
    (well : EndsWell source small) (lit : Literals V) (rec : Rule → P V (Unit {0})) {n : ℕ}
    (h : Fuelled source n rec) where
  pub Runs-array_rest : Runs source 0 n (array_rest source lit rec)
  unfolding array_rest
  Runs-array_rest =
      let finish = Runs-finish_array source small well lit rec h {w = 0} in
      Runs-Follows source _ _ (Runs-expr source small well lit rec h)
        (Eats-expr source small well lit rec h)
        λ _. Follows-bind source _ _ (Runs-edit source _) λ _.
          Follows-bind source _ _ (Runs-check_token source _) λ closed.
            Follows-if source closed _ _ (Follows-Runs source _ finish) (
              Follows-bind source _ _ (Runs-expect source small well _)
                λ _. Follows-last source _ _ finish (h.at array_rule 0))
