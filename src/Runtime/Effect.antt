-- ===== src/Runtime/Effect.antt =====
-- How far an action of src/runtime/vm.cpp moves the top of the stack, and how these moves add up.
pub mod Steps
pub mod Objects
pub mod Calls
pub mod Closures
pub mod Natives
pub mod Operators
pub mod Variables
pub mod Containers
pub mod Opcodes
use bad_snap.Common.{
  ℕ, zero, suc, ◌+◌, ◌-◌, ◌≤◌, ◌<◌, ◌≡◌, refl, sym, ap, ◌∙◌, ◌⊎◌, inl, inr, Bool, true, false,
  Option, none, some, List, [], ◌∷◌, ◌++◌, if◌then◌else◌, length, Bool-cases, Option-cases, leb,
  ltb, leb→le, ltb→lt, take, drop, set, get_elem?, length-set, arith,
}
use bad_snap.Runtime.Machine.{
  CallFrame, Vm, Outcome, ok, raised, finished, to_native, fault, no_fuel, M, ◌>>=◌, ◌>>◌, pure,
  gets, stop, or_fault, or_no_fuel, runtime_error, push, pop, popn, peek, poke, read_slot,
  write_slot, next_byte, next_short, read_value, jump, jump_back, current_frame, make_list,
}
use bad_snap.Value.{Value}

pub length-drop :
    {A : Type 0} (n : ℕ) (xs : List A) → n ≤ length xs → length (drop n xs) + n ≡ length xs
length-drop zero xs h = omega arith
length-drop (suc n) [] h = ground arith
length-drop (suc n) (x ∷ xs) h = ground (arith, length-drop n xs)

pub length-take-drop :
    {A : Type 0} (n : ℕ) (xs : List A) → length (take n xs) + length (drop n xs) ≡ length xs
length-take-drop zero xs = omega arith
length-take-drop (suc n) [] = refl
length-take-drop (suc n) (x ∷ xs) = omega (arith, length-take-drop n xs)

module _ {N : Type 0} where
  -- The outcome of an action: where it returns, the values are `up` more and `down` less than `n`,
  -- and there are as many frames as before.
  unfoldable pub After : {A : Type 0} → ℕ → ℕ → ℕ → ℕ → Outcome N A → Type 0
  After frames n down up (ok a vm) = (length vm.stack + down ≡ n + up) × (length vm.frames ≡ frames)
  After frames n down up _ = Unit

  -- An action that leaves the heights of the stack and of the frames.
  pub record Stays {A : Type 0} (m : M N A) : Type 0 where
    pub at : (vm : Vm N) → After (length vm.frames) (length vm.stack) 0 0 (m vm)

  -- An action that leads from one height, given by what was popped and pushed, to another.
  pub record Runs {A : Type 0} (d u d' u' : ℕ) (m : M N A) : Type 0 where
    pub at :
        (vm : Vm N) (n : ℕ) → length vm.stack + d ≡ n + u → After (length vm.frames) n d' u' (m vm)

  After-same :
      {A : Type 0} (frames n k d u : ℕ) (o : Outcome N A)
      → n + d ≡ k + u
      → After frames n 0 0 o
      → After frames k d u o
  unfolding After
  After-same frames n k d u (ok a vm) h (e, f) = (omega (arith, h, e), f)
  After-same frames n k d u _ h a = tt

  -- The rest of a block may use the outcome of its first action.
  pub After-bind :
      {A B : Type 0} (frames₁ frames n d u d' u' : ℕ) (m : M N A) (f : A → M N B) (vm : Vm N)
      → After frames₁ n d u (m vm)
      → ((a : A) (vm' : Vm N)
          → length vm'.stack + d ≡ n + u
          → length vm'.frames ≡ frames₁
          → After frames n d' u' (f a vm'))
      → After frames n d' u' ((m >>= f) vm)
  unfolding After ◌>>=◌
  After-bind {A = A} {B = B} frames₁ frames n d u d' u' m f vm h hf = bound (m vm) h
    where
      bound :
          (o : Outcome N A)
          → After frames₁ n d u o
          → After frames n d' u' (elim o [
            | ok a vm' ↦ f a vm'
            | raised vm' ↦ raised vm'
            | finished v vm' ↦ finished v vm'
            | to_native vm' ↦ to_native vm'
            | fault ↦ fault
            | no_fuel ↦ no_fuel
          ])
      bound (ok a vm') (e, k) = hf a vm' e k
      bound _ h = tt

  pub Runs-bind :
      {A B : Type 0} {d u d' u' : ℕ} (d₁ u₁ : ℕ) (m : M N A) (f : A → M N B)
      → Runs d u d₁ u₁ m
      → ((a : A) → Runs d₁ u₁ d' u' (f a))
      → Runs d u d' u' (m >>= f)
  Runs-bind {d' = d'} {u' = u'} d₁ u₁ m f hm hf = record {
    at = λ vm n e.
        After-bind (length vm.frames) (length vm.frames) n d₁ u₁ d' u' m f vm (hm.at vm n e)
          λ a vm' e' k. rw⁻¹ k ((hf a).at vm' n e');
  }

  module _ {A : Type 0} where
    pub Runs-Stays : (d u : ℕ) (m : M N A) → Stays m → Runs d u d u m
    Runs-Stays d u m hm = record {
      at = λ vm n h. After-same (length vm.frames) (length vm.stack) n d u (m vm) h (hm.at vm);
    }

  module _ {A B : Type 0} {d u d' u' : ℕ} where
    pub Runs-then :
        (m : M N A) (f : A → M N B)
        → Stays m
        → ((a : A) → Runs d u d' u' (f a))
        → Runs d u d' u' (m >>= f)
    Runs-then m f hm hf = Runs-bind d u m f (Runs-Stays d u m hm) hf

  -- Two ways to count the same height.
  pub Runs-same :
      {A : Type 0} {d u : ℕ} (d' u' d₁ u₁ : ℕ) (m : M N A)
      → d₁ + u' ≡ d' + u₁
      → Runs d u d' u' m
      → Runs d u d₁ u₁ m
  unfolding After
  Runs-same d' u' d₁ u₁ m h k = record { at = λ vm n e. ground (arith, k.at vm n e) }

  module _ {A : Type 0} where
    pub Stays-Runs : (m : M N A) → Runs 0 0 0 0 m → Stays m
    Stays-Runs m h = record { at = λ vm. h.at vm (length vm.stack) refl }

  pub Stays-bind :
      {A B : Type 0} (m : M N A) (f : A → M N B)
      → Stays m
      → ((a : A) → Stays (f a))
      → Stays (m >>= f)
  Stays-bind m f hm hf = Stays-Runs (m >>= f) (Runs-then m f hm (λ a. Runs-Stays 0 0 (f a) (hf a)))

  module _ {A : Type 0} where
    pub Stays-pure : (a : A) → Stays (pure a)
    unfolding After pure
    Stays-pure a = record { at = λ vm. (refl, refl) }

    pub Stays-gets : (f : Vm N → A) → Stays (gets f)
    unfolding After gets
    Stays-gets f = record { at = λ vm. (refl, refl) }

    pub Stays-or_fault : (o : Option A) → Stays (or_fault o)
    unfolding After or_fault
    Stays-or_fault none = record { at = λ vm. tt }
    Stays-or_fault (some a) = record { at = λ vm. (refl, refl) }

    pub Stays-or_no_fuel : (o : Option A) → Stays (or_no_fuel o)
    unfolding After or_no_fuel
    Stays-or_no_fuel none = record { at = λ vm. tt }
    Stays-or_no_fuel (some a) = record { at = λ vm. (refl, refl) }

    pub Runs-error : (d u d' u' : ℕ) → Runs d u d' u' (runtime_error {A = A})
    unfolding After runtime_error
    Runs-error d u d' u' = record { at = λ vm n h. tt }

    pub Runs-if :
        (d u d' u' : ℕ) (b : Bool) (m m' : M N A)
        → Runs d u d' u' m
        → Runs d u d' u' m'
        → Runs d u d' u' (if b then m else m')
    Runs-if d u d' u' true m m' h h' = h
    Runs-if d u d' u' false m m' h h' = h'

    pub Stays-error : Stays (runtime_error {A = A})
    unfolding After runtime_error
    Stays-error = record { at = λ vm. tt }

    pub Stays-stop : Stays (stop {A = A})
    unfolding After stop
    Stays-stop = record { at = λ vm. tt }

    pub Stays-if : (b : Bool) (m m' : M N A) → Stays m → Stays m' → Stays (if b then m else m')
    Stays-if true m m' h h' = h
    Stays-if false m m' h h' = h'

  pub Runs-option :
      {A B : Type 0} {d u d' u' : ℕ} (o : Option A) (m : M N B) (f : A → M N B)
      → Runs d u d' u' m
      → ((a : A) → Runs d u d' u' (f a))
      → Runs d u d' u' (elim o [ none ↦ m | some a ↦ f a ])
  Runs-option none m f h hf = h
  Runs-option (some a) m f h hf = hf a
