-- ===== src/Compiler/Parser/Progress/Resuming.antt =====
-- Actions that may go on from an earlier next token, as `func_expr` of src/syntax/compiler.cpp does.
use bad_snap.Common.{
  ℕ, ◌+◌, ◌*◌, ◌<◌, inl, inr, refl, Bool, true, false, List, arith, Bool-cases, if◌then◌else◌,
}
use bad_snap.Token.{Token}
use bad_snap.Compiler.Parser.Functions.{put_tokens}
use bad_snap.Compiler.Parser.{Parser, P, ◌>>=◌, gets, at_eof}
use bad_snap.Compiler.Parser.Progress.{
  remaining-last, remaining-more, remaining, bounds, Nearer-refl, Nearer-trans, Nearer-le, Nearer,
  Ends-bind, Ends-weaken, Ends, Runs, le_cases,
}

module _ {V : Type 0} (source : List ℕ) where
  -- An action that goes on from a state as near as `s₀`, or from that state's next token.
  pub record Resumes (s₀ : Parser V) (w n : ℕ) {A : Type 0} (m : P V A) : Type 0 where
    pub at :
        (s : Parser V)
        → Nearer source s₀ s
        → 3 * remaining source s₀ + w < n
        → Ends source (Nearer source s₀) (m s)

  module _ {n : ℕ} {A : Type 0} where
    pub Resumes-Runs : (s₀ : Parser V) (w : ℕ) (m : P V A) → Runs source w n m → Resumes s₀ w n m
    Resumes-Runs s₀ w m h = record {
      at = λ s near enough.
          let le = Nearer-le source s₀ s near in
          Ends-weaken source (Nearer source s) (Nearer source s₀) (m s)
            (λ s₂ k. Nearer-trans source s₀ s s₂ near k)
            (h.at s near.inside (omega (arith, le, enough)));
    }

    pub Resumes-bind :
        {B : Type 0} (s₀ : Parser V) (w : ℕ) (m : P V B) (f : B → P V A)
        → Runs source w n m
        → ((b : B) → Resumes s₀ w n (f b))
        → Resumes s₀ w n (m >>= f)
    Resumes-bind s₀ w m f hm hf = record {
      at = λ s near enough.
          Ends-bind source (Nearer source s₀) (Nearer source s₀) m f s
            (let le = Nearer-le source s₀ s near in
              Ends-weaken source (Nearer source s) (Nearer source s₀) (m s)
                (λ s₂ k. Nearer-trans source s₀ s s₂ near k)
                (hm.at s near.inside (omega (arith, le, enough))))
            λ a s₁ k. (hf a).at s₁ k enough;
    }

    pub Resumes-if :
        (s₀ : Parser V) (w : ℕ) (b : Bool) (m m' : P V A)
        → Resumes s₀ w n m
        → Resumes s₀ w n m'
        → Resumes s₀ w n (if b then m else m')
    Resumes-if s₀ w true m m' h h' = h
    Resumes-if s₀ w false m m' h h' = h'

    pub Runs-Resumes :
        (w : ℕ) (f : Token → P V A)
        → ((s₀ : Parser V) → Resumes s₀ w n (f s₀.peek))
        → Runs source w n (gets (λ s. s.peek) >>= f)
    unfolding ◌>>=◌ gets
    Runs-Resumes w f h = record {
      at = λ s inside enough. (h s).at s (Nearer-refl source s inside) enough;
    }

  pub Resumes-put_tokens :
      (s₀ : Parser V) {w n : ℕ} (prev token : Token)
      → Resumes s₀ w n (put_tokens {V = V} prev token s₀.peek)
  unfolding Ends put_tokens
  Resumes-put_tokens s₀ prev token = record {
    at = λ s near enough.
        let le = Nearer-le source s₀ s near in
        let b = bounds source s in
        let s' = record s { prev = prev; token = token; peek = s₀.peek } in
        record {
          inside = near.inside;
          less = elim (Bool-cases (at_eof s₀)) [
            | inl last ↦
                let e₀ = remaining-last source s₀ last in
                let e = remaining-last source s' last in
                elim (le_cases (remaining source s₀) (remaining source s')) [
                  | inl l ↦ inr (omega (arith, l, e, e₀, le, b.1), refl)
                  | inr l ↦ inl l
                ]
            | inr more ↦
                let e₀ = remaining-more source s₀ more in
                let e = remaining-more source s' more in
                elim (le_cases (remaining source s₀) (remaining source s')) [
                  | inl l ↦ inr (omega (arith, l, e, e₀, le, b.1), refl)
                  | inr l ↦ inl l
                ]
          ];
        };
  }
