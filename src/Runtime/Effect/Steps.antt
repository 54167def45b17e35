-- ===== src/Runtime/Effect/Steps.antt =====
-- How far the steps of the machine move the top of the stack, and the rules that add them up.
use bad_snap.Common.{ℕ, suc, ◌+◌, ◌-◌, refl, length, leb→le, length-set, arith}
use bad_snap.Runtime.Machine.{
  M, ◌>>=◌, push, pop, popn, peek, poke, read_slot, write_slot, next_byte, next_short, read_value,
  jump, jump_back, current_frame, make_list,
}
use bad_snap.Value.{Value}
use bad_snap.Runtime.Effect.{
  After, Stays, Runs, Runs-bind, Runs-Stays, Runs-then, Stays-Runs, Stays-bind, Stays-pure,
  Stays-gets, Stays-or_fault, Stays-or_no_fuel, Runs-error, Runs-if, Stays-error, Stays-stop,
  Stays-if, Runs-option, length-drop,
}

module _ {N : Type 0} where
  pub Stays-peek : (k : ℕ) → Stays {N = N} (peek k)
  unfolding After peek
  Stays-peek k = record { at = λ vm. ground arith }

  pub Stays-poke : (k : ℕ) (v : Value N) → Stays {N = N} (poke k v)
  unfolding After poke
  Stays-poke k v = record { at = λ vm. ground (arith, length-set vm.stack (k - 1) v) }

  pub Stays-read_slot : (slot : ℕ) → Stays {N = N} (read_slot slot)
  unfolding After read_slot
  Stays-read_slot slot = record { at = λ vm. ground arith }

  pub Stays-write_slot : (slot : ℕ) (v : Value N) → Stays {N = N} (write_slot slot v)
  unfolding After write_slot
  Stays-write_slot slot v = record {
    at = λ vm. ground (arith, length-set vm.stack (length vm.stack - 1 - slot) v);
  }

  pub Stays-next_byte : Stays {N = N} next_byte
  unfolding After next_byte
  Stays-next_byte = record { at = λ vm. ground arith }

  pub Stays-jump : (k : ℕ) → Stays {N = N} (jump k)
  unfolding After jump
  Stays-jump k = record { at = λ vm. (refl, refl) }

  pub Stays-jump_back : (k : ℕ) → Stays {N = N} (jump_back k)
  unfolding After jump_back
  Stays-jump_back k = record { at = λ vm. ground arith }

  pub Stays-current_frame : Stays {N = N} current_frame
  unfolding After current_frame
  Stays-current_frame = record { at = λ vm. ground arith }

  pub Stays-make_list : Stays {N = N} make_list
  unfolding After make_list
  Stays-make_list = record { at = λ vm. (refl, refl) }

  pub ruleset stays_rules = (
    Stays-bind, Stays-pure, Stays-gets, Stays-or_fault, Stays-or_no_fuel, Stays-error, Stays-stop,
    Stays-if, Stays-peek, Stays-poke, Stays-read_slot, Stays-write_slot, Stays-next_byte,
    Stays-jump, Stays-jump_back, Stays-current_frame, Stays-make_list,
  )

  pub Stays-next_short : Stays {N = N} next_short
  unfolding next_short
  Stays-next_short = search stays_rules depth 9

  pub Stays-read_value : Stays {N = N} read_value
  unfolding read_value
  Stays-read_value = search stays_rules depth 9

  module _ {d u : ℕ} where
    pub Runs-push : (v : Value N) → Runs d u d (suc u) (push v)
    unfolding After push
    Runs-push v = record { at = λ vm n h. ground arith }

    pub Runs-popn : (k : ℕ) → Runs {N = N} d u (k + d) u (popn k)
    unfolding After popn
    Runs-popn k = record {
      at = λ vm n h. ground (arith, leb→le k (length vm.stack), length-drop k vm.stack);
    }

    pub Runs-pop : Runs {N = N} d u (suc d) u pop
    unfolding After pop
    Runs-pop = record { at = λ vm n h. ground arith }

  module _ {A : Type 0} {d u d' u' : ℕ} where
    pub Runs-then_pop :
        (f : Value N → M N A)
        → ((v : Value N) → Runs (suc d) u d' u' (f v))
        → Runs d u d' u' (pop >>= f)
    Runs-then_pop f hf = Runs-bind (suc d) u pop f Runs-pop hf

    pub Runs-then_push :
        (v : Value N) (f : Unit → M N A)
        → ((t : Unit) → Runs d (suc u) d' u' (f t))
        → Runs d u d' u' (push v >>= f)
    Runs-then_push v f hf = Runs-bind d (suc u) (push v) f (Runs-push v) hf

    pub Runs-then_popn :
        (k : ℕ) (f : Unit → M N A)
        → ((t : Unit) → Runs (k + d) u d' u' (f t))
        → Runs d u d' u' (popn k >>= f)
    Runs-then_popn k f hf = Runs-bind (k + d) u (popn k) f (Runs-popn k) hf

  pub ruleset runs_rules = (
    stays_rules, Stays-next_short, Stays-read_value, Runs-then, Runs-then_pop, Runs-then_push,
    Runs-then_popn, Runs-push, Runs-popn, Runs-error, Runs-if, Runs-Stays,
  )
