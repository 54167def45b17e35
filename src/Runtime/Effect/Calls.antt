-- ===== src/Runtime/Effect/Calls.antt =====
-- How far calls of src/runtime/vm.cpp move the top of the stack, once they have returned.
use bad_snap.Value.{Value}
use bad_snap.Common.{
  length, Bool, List, [], arith, false, if◌then◌else◌, inl, length, suc, true, ℕ, ◌+◌, ◌∷◌, ◌≡◌,
  ◌⊎◌, Option, none, some,
}
use bad_snap.Runtime.Machine.{
  CallFrame, M, Vm, fault, finished, no_fuel, ok, popn, push, raised, runtime_error, to_native,
  ◌>>=◌, Outcome, pop,
}
use bad_snap.Runtime.Effect.{After, Stays, Runs, Runs-Stays, Runs-error}
use bad_snap.Runtime.Effect.Steps.{Runs-pop, Runs-popn, Runs-push}

-- The slot of the function that runs.
unfoldable pub base_slot : List CallFrame → ℕ
base_slot [] = 0
base_slot (frame ∷ rest) = frame.base

module _ {N : Type 0} where
  -- The outcome of an action that may have called a function: it has returned, or its frame is on
  -- top; there, its result takes the slot of the function.
  unfoldable pub AfterCall : {A : Type 0} → ℕ → ℕ → ℕ → ℕ → Outcome N A → Type 0
  AfterCall frames n down up (ok a vm) =
      ((length vm.stack + down ≡ n + up) × (length vm.frames ≡ frames))
      ⊎ ((base_slot vm.frames + 1 + down ≡ n + up) × (length vm.frames ≡ suc frames))
  AfterCall frames n down up _ = Unit

  pub record Calls (d u d' u' : ℕ) (m : M N (Unit {0})) : Type 0 where
    pub at :
        (vm : Vm N) (n : ℕ)
        → length vm.stack + d ≡ n + u
        → AfterCall (length vm.frames) n d' u' (m vm)

  AfterCall-After :
      {A : Type 0} (frames n d u : ℕ) (o : Outcome N A)
      → After frames n d u o
      → AfterCall frames n d u o
  unfolding After AfterCall
  AfterCall-After frames n d u (ok a vm) h = inl h
  AfterCall-After frames n d u _ h = tt

  pub Calls-Runs : (d u d' u' : ℕ) (m : M N (Unit {0})) → Runs d u d' u' m → Calls d u d' u' m
  Calls-Runs d u d' u' m h = record {
    at = λ vm n e. AfterCall-After (length vm.frames) n d' u' (m vm) (h.at vm n e);
  }

  module _ {A : Type 0} {d u d₁ u₁ d' u' : ℕ} where
    pub Calls-bind :
        (m : M N A) (f : A → M N (Unit {0}))
        → Runs d u d₁ u₁ m
        → ((a : A) → Calls d₁ u₁ d' u' (f a))
        → Calls d u d' u' (m >>= f)
    unfolding After AfterCall ◌>>=◌
    Calls-bind m f hm hf = record {
      at = λ vm n e. bound (length vm.frames) n (m vm) (hm.at vm n e);
    }
      where
        bound :
            (frames n : ℕ) (o : Outcome N A)
            → After frames n d₁ u₁ o
            → AfterCall frames n d' u' (elim o [
              | ok a vm' ↦ f a vm'
              | raised vm' ↦ raised vm'
              | finished v vm' ↦ finished v vm'
              | to_native vm' ↦ to_native vm'
              | fault ↦ fault
              | no_fuel ↦ no_fuel
            ])
        bound frames n (ok a vm') (e, k) = rw⁻¹ k ((hf a).at vm' n e)
        bound frames n _ h = tt

  module _ {d u d' u' : ℕ} where
    pub Calls-then :
        {A : Type 0} (m : M N A) (f : A → M N (Unit {0}))
        → Stays m
        → ((a : A) → Calls d u d' u' (f a))
        → Calls d u d' u' (m >>= f)
    Calls-then m f hm hf = Calls-bind m f (Runs-Stays d u m hm) hf

    pub Calls-then_pop :
        (f : Value N → M N (Unit {0}))
        → ((v : Value N) → Calls (suc d) u d' u' (f v))
        → Calls d u d' u' (pop >>= f)
    Calls-then_pop f hf = Calls-bind pop f Runs-pop hf

    pub Calls-then_push :
        (v : Value N) (f : Unit → M N (Unit {0}))
        → ((t : Unit) → Calls d (suc u) d' u' (f t))
        → Calls d u d' u' (push v >>= f)
    Calls-then_push v f hf = Calls-bind (push v) f (Runs-push v) hf

    pub Calls-then_popn :
        (k : ℕ) (f : Unit → M N (Unit {0}))
        → ((t : Unit) → Calls (k + d) u d' u' (f t))
        → Calls d u d' u' (popn k >>= f)
    Calls-then_popn k f hf = Calls-bind (popn k) f (Runs-popn k) hf

    pub Calls-error : Calls d u d' u' runtime_error
    Calls-error = Calls-Runs d u d' u' runtime_error (Runs-error d u d' u')

    pub Calls-if :
        (b : Bool) (m m' : M N (Unit {0}))
        → Calls d u d' u' m
        → Calls d u d' u' m'
        → Calls d u d' u' (if b then m else m')
    Calls-if true m m' h h' = h
    Calls-if false m m' h h' = h'

  pub Calls-option :
      {A : Type 0} {d u d' u' : ℕ} (o : Option A) (m : M N (Unit {0})) (f : A → M N (Unit {0}))
      → Calls d u d' u' m
      → ((a : A) → Calls d u d' u' (f a))
      → Calls d u d' u' (elim o [ none ↦ m | some a ↦ f a ])
  Calls-option none m f h hf = h
  Calls-option (some a) m f h hf = hf a

  -- Two ways to count the same height.
  pub Calls-same :
      (d u d₁ u₁ d' u' d₂ u₂ : ℕ) (m : M N (Unit {0}))
      → d₁ + u ≡ d + u₁
      → d₂ + u' ≡ d' + u₂
      → Calls d u d' u' m
      → Calls d₁ u₁ d₂ u₂ m
  unfolding AfterCall
  Calls-same d u d₁ u₁ d' u' d₂ u₂ m h h' k = record { at = λ vm n e. ground (arith, k.at vm n) }
