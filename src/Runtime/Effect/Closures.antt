-- ===== src/Runtime/Effect/Closures.antt =====
use bad_snap.Runtime.Effect.Calls.{AfterCall, Calls, Calls-bind, Calls-then, base_slot}
use bad_snap.Value.{Obj, Value, nil}
use bad_snap.Runtime.Effect.{
  After, Runs, Runs-if, Runs-same, Stays, Stays-gets, length-take-drop, After-bind, Runs-Stays,
  Stays-pure,
}
use bad_snap.Runtime.Effect.Steps.{Runs-popn, Runs-then_push, runs_rules}
use bad_snap.Common.{
  Bool-cases, leb→le, ltb, ltb→lt, not_ltb→le, drop, length, length-append, take, Bool-cases, List,
  [], arith, drop, inl, inr, length, ltb, refl, suc, take, zero, ℕ, ◌+◌, ◌-◌, ◌∷◌, ◌≡◌,
}
use bad_snap.Runtime.Calls.{
  adjust_args, call_closure, fill_list, insert_below, pop_callframe, pop_frames, prep_vararg_call,
  push_callframe, push_nils, resume, with_ip, ensure_slots,
}
use bad_snap.Runtime.Machine.{CallFrame, CodeBlock, M, Vm, gets, ◌>>=◌}

-- What the calls of src/runtime/vm.cpp leave on the stack.

pub length-with_ip : (ip : ℕ) (frames : List CallFrame) → length (with_ip ip frames) ≡ length frames
length-with_ip ip [] = refl
length-with_ip ip (frame ∷ rest) = refl

module _ {N : Type 0} where
  pub Stays-ensure_slots : (k : ℕ) → Stays {N = N} (ensure_slots k)
  unfolding After ensure_slots
  Stays-ensure_slots k = record { at = λ vm. ground arith }

  pub Stays-fill_list : (a : ℕ) (vs : List (Value N)) → Stays (fill_list a vs)
  unfolding After fill_list
  Stays-fill_list a vs = record { at = λ vm. ground arith }

  Runs-push_nils : (d u n : ℕ) → Runs {N = N} d u d (n + u) (push_nils n)
  unfolding push_nils
  Runs-push_nils d u zero =
      Runs-same d u d (0 + u) _ (omega arith) (Runs-Stays d u _ (Stays-pure tt))
  Runs-push_nils d u (suc n) =
      Runs-then_push nil _
        λ _. Runs-same d (n + suc u) d (suc n + u) _ (omega arith) (Runs-push_nils d (suc u) n)

  Runs-prep_vararg_call :
      (d u num_params num_args : ℕ)
      → Runs {N = N} d u
          ((num_args + 1 - num_params) + d)
          (suc u)
          (prep_vararg_call num_params num_args)
  unfolding prep_vararg_call
  Runs-prep_vararg_call d u num_params num_args = search (runs_rules, Stays-fill_list) depth 12

  -- The parameters take the place of the arguments.
  Runs-adjust_args :
      (d u : ℕ) (code : CodeBlock N) (num_args : ℕ)
      → Runs d u (num_args + d) (code.num_params + u) (adjust_args code num_args)
  unfolding adjust_args
  Runs-adjust_args d u code num_args = elim (Bool-cases (ltb num_args code.num_params)) [
    | inl less ↦ rw less (
        Runs-same _ _ _ _ _ (omega (arith, ltb→lt num_args code.num_params less))
          (Runs-push_nils d u (code.num_params - num_args)))
    | inr more ↦
        let le = not_ltb→le num_args code.num_params more in
        rw more (
          Runs-if _ _ _ _ code.is_variadic _ _
            (Runs-same _ _ _ _ _ (omega (arith, le))
              (Runs-prep_vararg_call d u code.num_params num_args))
            (Runs-same _ _ _ _ _ (omega (arith, le)) (Runs-popn (num_args - code.num_params))))
  ]

  Calls-push_callframe :
      (d u argc : ℕ) (callee : Obj) → Calls {N = N} d (argc + u) d u (push_callframe callee argc)
  unfolding AfterCall push_callframe base_slot
  Calls-push_callframe d u argc callee = record {
    at = λ vm n e.
        ground (arith, leb→le (argc + 1) (length vm.stack), length-with_ip vm.ip vm.frames);
  }

  pub Calls-call_closure :
      (d u func num_args : ℕ) → Calls {N = N} d u (num_args + d) u (call_closure func num_args)
  unfolding call_closure
  Calls-call_closure d u func num_args = Calls-then (gets _) _ (Stays-gets _) λ code.
      Calls-then (ensure_slots _) _ (Stays-ensure_slots _) λ _.
        Calls-bind (adjust_args code num_args) _ (Runs-adjust_args d u code num_args)
          λ _. Calls-push_callframe (num_args + d) u code.num_params _

  pub Runs-insert_below : (d u k : ℕ) (func : Value N) → Runs d u d (suc u) (insert_below k func)
  unfolding After insert_below
  Runs-insert_below d u k func = record {
    at = λ vm n e. ground (
      arith,
      leb→le k (length vm.stack),
      length-append (take k vm.stack) (func ∷ drop k vm.stack),
      length-take-drop k vm.stack,
    );
  }

  pushed :
      (vm : Vm N) (n d u argc : ℕ) (callee : Obj)
      → length vm.stack + d ≡ n + u
      → After (suc (length vm.frames)) n d u (push_callframe callee argc vm)
  unfolding After push_callframe
  pushed vm n d u argc callee e = ground (arith, length-with_ip vm.ip vm.frames)

  popped :
      (vm : Vm N) (frames n d u : ℕ)
      → length vm.frames ≡ suc frames
      → length vm.stack + d ≡ n + u
      → After frames n d u (pop_callframe vm)
  unfolding After pop_callframe pop_frames resume
  popped vm frames n d u h e = ground arith

  -- A native frame comes and goes.
  pub Runs-framed :
      {A : Type 0} (d u d' u' argc : ℕ) (callee : Obj) (m : M N A) (f : A → M N (Unit {0}))
      → Stays m
      → ((a : A) → Runs d u d' u' (f a))
      → Runs d u d' u' (push_callframe callee argc >>= λ _. m >>= λ a. pop_callframe >>= λ _. f a)
  Runs-framed d u d' u' argc callee m f hm hf = record {
    at = λ vm n e.
        let frames = length vm.frames in
        After-bind (suc frames) frames n d u d' u' (push_callframe callee argc) _ vm
          (pushed vm n d u argc callee e)
          λ _ vm₁ e₁ k₁.
            After-bind (suc frames) frames n d u d' u' m _ vm₁
              (rw⁻¹ k₁ ((Runs-Stays d u m hm).at vm₁ n e₁))
              λ a vm₂ e₂ k₂.
                After-bind frames frames n d u d' u' pop_callframe _ vm₂
                  (popped vm₂ frames n d u k₂ e₂) λ _ vm₃ e₃ k₃. rw⁻¹ k₃ ((hf a).at vm₃ n e₃);
  }
