-- ===== src/Compiler/Parser/Growth.antt =====
-- What the steps of src/syntax/block.cpp and src/syntax/compiler.cpp leave of a block.
use bad_snap.Common.{
  ℕ, zero, suc, ◌+◌, ◌%◌, ◌/◌, ◌^◌, ◌≤◌, ◌≡◌, refl, sym, ap, ◌∙◌, Bool, true, false, List, [], ◌∷◌,
  ◌++◌, length, length-set, append_nil, append_assoc, arith, if◌then◌else◌, ltb, leb, ◌==◌, get_or,
}
use bad_snap.Opcode.{Opcode, op_num, jmp, no_op}
use bad_snap.Compiler.Emit.{
  Emitter, Loop, add_instruction, add_value, error, emit_at, emit, emit_arg, emit_with_arg,
  emit_two, emit_value, emit_jump, patch_short, set_code, patch_jump, patch_backwards_jump,
  patch_placeholders, exit_loop, continue_op, op_count,
}
use bad_snap.Compiler.Symbols.{LocalVar, SymbolTable}
use bad_snap.Compiler.Scope.{
  drop_op, exit_locals, exit_block, discard_locals, discard_loop_locals, break_jump, continue_jump,
}

length-snoc : {A : Type 0} (xs : List A) (x : A) → length (xs ++ x ∷ []) ≡ length xs + 1
length-snoc [] x = refl
length-snoc (y ∷ ys) x = ground (arith, length-snoc ys x)

module _ {V : Type 0} where
  -- The code of a block is not shorter than before, has a line for each byte if it had, and the
  -- constants keep their places.
  pub record Grown (b b' : Emitter V) : Type 0 where
    pub longer : length b.code ≤ length b'.code
    pub lines : length b.lines ≡ length b.code → length b'.lines ≡ length b'.code
    pub pool : (vs : List V) × (b'.constant_pool ≡ b.constant_pool ++ vs)

  pub Grown-trans : (b b₁ b₂ : Emitter V) → Grown b b₁ → Grown b₁ b₂ → Grown b b₂
  Grown-trans b b₁ b₂ g h =
      let (vs, e) = g.pool in
      let (ws, k) = h.pool in
      record {
        longer = omega (arith, g.longer, h.longer);
        lines = λ p. h.lines (g.lines p);
        pool = (vs ++ ws, k ∙ ap (λ us. us ++ ws) e ∙ append_assoc b.constant_pool vs ws);
      }

  -- As many bytes, and the rest as it was.
  pub Grown-patched :
      (b b' : Emitter V)
      → length b'.code ≡ length b.code
      → b'.lines ≡ b.lines
      → b'.constant_pool ≡ b.constant_pool
      → Grown b b'
  Grown-patched b b' code lines pool = record {
    longer = omega (arith, code);
    lines = λ p. ap length lines ∙ p ∙ sym code;
    pool = ([], pool ∙ sym (append_nil b.constant_pool));
  }

  Grown-longer :
      (b b' : Emitter V) (byte line : ℕ)
      → b'.code ≡ b.code ++ byte ∷ []
      → b'.lines ≡ b.lines ++ line ∷ []
      → b'.constant_pool ≡ b.constant_pool
      → Grown b b'
  Grown-longer b b' byte line code lines pool =
      let code_length = ap length code ∙ length-snoc b.code byte in
      let line_count = ap length lines ∙ length-snoc b.lines line in
      record {
        longer = omega (arith, code_length);
        lines = λ p. omega (arith, code_length, line_count, p);
        pool = ([], pool ∙ sym (append_nil b.constant_pool));
      }

  -- A step that leaves every block so.
  pub record Grows (f : Emitter V → Emitter V) : Type 0 where
    pub at : (b : Emitter V) → Grown b (f b)

  pub record GrowsIndex (f : Emitter V → ℕ × Emitter V) : Type 0 where
    pub at : (b : Emitter V) → Grown b (f b).1

  pub Grows-error : Grows error
  unfolding error
  Grows-error = record { at = λ b. Grown-patched b (error b) refl refl refl }

  pub Grows-emit_at : (op : Opcode) (line : ℕ) → Grows (emit_at op line)
  unfolding emit_at add_instruction
  Grows-emit_at op line = record {
    at = λ b. Grown-longer b (emit_at op line b) (op_num op) line refl refl refl;
  }

  pub Grows-emit : (op : Opcode) → Grows (emit op)
  unfolding emit emit_at add_instruction
  Grows-emit op = record { at = λ b. Grown-longer b (emit op b) (op_num op) b.line refl refl refl }

  pub Grows-emit_arg : (operand : ℕ) → Grows (emit_arg operand)
  unfolding emit_arg add_instruction
  Grows-emit_arg operand = record {
    at = λ b. Grown-longer b (emit_arg operand b) (operand % 256) b.line refl refl refl;
  }

  pub Grows-emit_with_arg : (op : Opcode) (arg : ℕ) → Grows (emit_with_arg op arg)
  unfolding emit_with_arg
  Grows-emit_with_arg op arg = record {
    at = λ b.
        Grown-trans b (emit op b) (emit_arg arg (emit op b)) ((Grows-emit op).at b)
          ((Grows-emit_arg arg).at (emit op b));
  }

  pub Grows-emit_two : (op op' : Opcode) → Grows (emit_two op op')
  unfolding emit_two
  Grows-emit_two op op' = record {
    at = λ b.
        Grown-trans b (emit_at op b.line b) (emit_two op op' b) ((Grows-emit_at op b.line).at b)
          ((Grows-emit_at op' b.line).at (emit_at op b.line b));
  }

  pub GrowsIndex-emit_value : (v : V) → GrowsIndex (emit_value v)
  unfolding emit_value add_value error
  GrowsIndex-emit_value v = record {
    at = λ b. record {
      longer = ground arith;
      lines = λ p. ground (arith, p);
      pool = (v ∷ [], ground arith);
    };
  }

  pub GrowsIndex-emit_jump : (op : Opcode) → GrowsIndex (emit_jump op)
  unfolding emit_jump
  GrowsIndex-emit_jump op = record {
    at = λ b.
        let b₁ = emit op b in
        let b₂ = emit_arg 255 b₁ in
        Grown-trans b b₁ (emit_arg 255 b₂) ((Grows-emit op).at b) (
          Grown-trans b₁ b₂ (emit_arg 255 b₂) ((Grows-emit_arg 255).at b₁)
            ((Grows-emit_arg 255).at b₂));
  }

  Grown-set_code : (i byte : ℕ) (b : Emitter V) → Grown b (set_code i byte b)
  Grown-set_code i byte b = Grown-patched b (set_code i byte b) (length-set b.code i byte) refl refl

  Grown-patch_short : (i dist : ℕ) (b : Emitter V) → Grown b (patch_short i dist b)
  unfolding patch_short
  Grown-patch_short i dist b =
      let b₁ = set_code i (dist / 2 ^ 8 % 256) b in
      Grown-trans b b₁ (set_code (i + 1) (dist % 256) b₁) (Grown-set_code i (dist / 2 ^ 8 % 256) b)
        (Grown-set_code (i + 1) (dist % 256) b₁)

  Grown-if :
      (c : Bool) (b b₁ b₂ : Emitter V) → Grown b b₁ → Grown b b₂ → Grown b (if c then b₁ else b₂)
  Grown-if true b b₁ b₂ g h = g
  Grown-if false b b₁ b₂ g h = h

  pub Grows-patch_jump : (i : ℕ) → Grows (patch_jump i)
  unfolding patch_jump
  Grows-patch_jump i = record {
    at = λ b. Grown-if _ b _ _ (Grows-error.at b) (Grown-patch_short i _ b);
  }

  Grown-patch_backwards_jump : (i dst : ℕ) (b : Emitter V) → Grown b (patch_backwards_jump i dst b)
  unfolding patch_backwards_jump
  Grown-patch_backwards_jump i dst b = Grown-if _ b _ _ (Grows-error.at b) (Grown-patch_short i _ b)

  Grown-refl : (b : Emitter V) → Grown b b
  Grown-refl b = Grown-patched b b refl refl refl

  Grown-patch_placeholders :
      (fuel : ℕ) (loop : Loop) (n_ops i : ℕ) (b : Emitter V)
      → Grown b (patch_placeholders fuel loop n_ops i b)
  unfolding patch_placeholders
  Grown-patch_placeholders zero loop n_ops i b = Grown-refl b
  Grown-patch_placeholders (suc fuel) loop n_ops i b =
      let here = λ (op : Opcode). set_code i (op_num op) b in
      let forward =
        Grown-trans b (here jmp) _ (Grown-set_code i (op_num jmp) b)
          ((Grows-patch_jump (i + 1)).at (here jmp)) in
      let back =
        Grown-trans b (here (continue_op loop.loop_type)) _
          (Grown-set_code i (op_num (continue_op loop.loop_type)) b)
          (Grown-patch_backwards_jump (i + 1) loop.start (here (continue_op loop.loop_type))) in
      let patched =
        Grown-if _ b _ _ (Grown-if (get_or b.code (i + 1) 0 == 0) b _ _ forward back)
          (Grown-refl b) in
      Grown-if (ltb i n_ops) b _ b
        (Grown-trans b _ _ patched (Grown-patch_placeholders fuel loop n_ops _ _)) (Grown-refl b)

  pub Grows-exit_loop : (op : Opcode) (loop : Loop) → Grows (exit_loop op loop)
  unfolding exit_loop
  Grows-exit_loop op loop = record {
    at = λ b.
        let (i, b₁) = emit_jump op b in
        Grown-trans b b₁ _ ((GrowsIndex-emit_jump op).at b) (
          Grown-trans b₁ (patch_backwards_jump i loop.start b₁) _
            (Grown-patch_backwards_jump i loop.start b₁)
            (Grown-patch_placeholders (suc (op_count b)) loop (op_count b) loop.start
              (patch_backwards_jump i loop.start b₁)));
  }

  Grown-exit_locals :
      (depth : ℕ) (vars : List LocalVar) (b : Emitter V) → Grown b (exit_locals depth vars b).1
  unfolding exit_locals
  Grown-exit_locals depth [] b = Grown-refl b
  Grown-exit_locals depth (v ∷ vs) b =
      let b₁ = emit (drop_op v) b in
      let more =
        Grown-trans b b₁ _ ((Grows-emit (drop_op v)).at b) (Grown-exit_locals depth vs b₁) in
      chosen (v.depth == depth) _ (v ∷ vs, b) more (Grown-refl b)
    where
      chosen :
          (c : Bool) (x y : List LocalVar × Emitter V)
          → Grown b x.1
          → Grown b y.1
          → Grown b (if c then x else y).1
      chosen true x y g h = g
      chosen false x y g h = h

  pub Grown-exit_block : (t : SymbolTable) (b : Emitter V) → Grown b (exit_block t b).1
  unfolding exit_block
  Grown-exit_block t b = Grown-exit_locals t.scope_depth t.symbols b

  Grown-discard_locals :
      (depth : ℕ) (vars : List LocalVar) (b : Emitter V) → Grown b (discard_locals depth vars b)
  unfolding discard_locals
  Grown-discard_locals depth [] b = Grown-refl b
  Grown-discard_locals depth (v ∷ vs) b =
      let b₁ = emit (drop_op v) b in
      Grown-if (leb v.depth depth) b b _ (Grown-refl b)
        (Grown-trans b b₁ _ ((Grows-emit (drop_op v)).at b) (Grown-discard_locals depth vs b₁))

  pub Grows-break_jump : (depth : ℕ) (t : SymbolTable) → Grows (break_jump depth t)
  unfolding break_jump discard_loop_locals
  Grows-break_jump depth t = record {
    at = λ b.
        let b₁ = discard_locals depth t.symbols b in
        let (i, b₂) = emit_jump no_op b₁ in
        Grown-trans b b₁ _ (Grown-discard_locals depth t.symbols b)
          (Grown-trans b₁ b₂ _ ((GrowsIndex-emit_jump no_op).at b₁) (Grown-set_code i 0 b₂));
  }

  pub Grows-continue_jump : (depth : ℕ) (t : SymbolTable) → Grows (continue_jump depth t)
  unfolding continue_jump discard_loop_locals
  Grows-continue_jump depth t = record {
    at = λ b.
        let b₁ = discard_locals depth t.symbols b in
        Grown-trans b b₁ _ (Grown-discard_locals depth t.symbols b)
          ((GrowsIndex-emit_jump no_op).at b₁);
  }

pub ruleset grows_rules = (
  Grows-error, Grows-emit_at, Grows-emit, Grows-emit_arg, Grows-emit_with_arg, Grows-emit_two,
  GrowsIndex-emit_value, GrowsIndex-emit_jump, Grows-patch_jump, Grows-exit_loop, Grows-break_jump,
  Grows-continue_jump,
)
