-- ===== src/Compiler/Jumps.antt =====
-- Where patched jumps lead: src/syntax/compiler.cpp and the jump instructions of
-- src/runtime/vm.cpp.
use bad_snap.Common.{
  ℕ, ◌+◌, ◌-◌, ◌*◌, ◌/◌, ◌%◌, ◌^◌, ◌≤◌, ◌<◌, ◌≡◌, ◌≢◌, ◌⊎◌, ◌↔◌, inl, inr, true, false, ap, refl,
  sym, ◌∙◌, List, arith, lt→ltb, not_ltb, get_or, set, length-set, get_or-set_self, get_or-set_ne,
}
use bad_snap.Compiler.Emit.{
  Emitter, op_count, uint16_max, error, patch_short, patch_jump, patch_backwards_jump,
}

-- `FETCH_SHORT`: two operand bytes, the high one first.
unfoldable pub fetch_short : List ℕ → ℕ → ℕ
fetch_short code i = get_or code i 0 % 256 * 2 ^ 8 + get_or code (i + 1) 0 % 256

-- Where `jmp` and `jmp_back` lead when their operands stand at `i`: `ip` is read past the operands
-- before the distance is added or taken away.
unfoldable pub jump_target : List ℕ → ℕ → ℕ
unfolding fetch_short
jump_target code i = i + 2 + fetch_short code i

unfoldable pub jump_back_target : List ℕ → ℕ → ℕ
unfolding fetch_short
jump_back_target code i = i + 2 - fetch_short code i

-- The `u32` distances are the true ones where these are below 2 ^ 32.
forward_distance :
    (index n : ℕ) → index + 2 ≤ n → n < 2 ^ 32 → (n + 2 ^ 64 - index - 2) % 2 ^ 32 ≡ n - index - 2
forward_distance index n room small = omega arith

back_distance :
    (index dst : ℕ)
    → dst ≤ index
    → index + 2 ≤ dst + uint16_max
    → (index + 2 ^ 64 - dst + 2) % 2 ^ 32 ≡ index + 2 - dst
back_distance index dst before near = omega arith

near_or_far : (m n : ℕ) → (n ≤ m) ⊎ (m < n)
near_or_far m n = omega arith

true-false : ¬ (true ≡ false)
true-false e = ground (arith, e)

module _ {V : Type 0} where
  -- A write to two operand bytes, seen from outside.
  pub record PatchedAt (index : ℕ) (b b' : Emitter V) : Type 0 where
    pub same_length : op_count b' ≡ op_count b
    pub elsewhere : (j : ℕ) → j ≢ index → j ≢ index + 1 → get_or b'.code j 0 ≡ get_or b.code j 0
    pub same_error : b'.has_error ≡ b.has_error

  patch_short-PatchedAt :
      (index dist : ℕ) (b : Emitter V) → PatchedAt index b (patch_short index dist b)
  unfolding patch_short
  patch_short-PatchedAt index dist b = record {
    same_length = length-set _ (index + 1) _ ∙ length-set b.code index _;
    elsewhere = λ j ne ne'.
        get_or-set_ne _ (index + 1) j _ 0 (λ e. ne' (sym e))
        ∙ get_or-set_ne b.code index j _ 0 (λ e. ne (sym e));
    same_error = refl;
  }

  fetch_short-patch_short :
      (index dist : ℕ) (b : Emitter V)
      → index + 2 ≤ op_count b
      → dist ≤ uint16_max
      → fetch_short (patch_short index dist b).code index ≡ dist
  unfolding fetch_short patch_short
  fetch_short-patch_short index dist b room small =
      let once = set b.code index (dist / 2 ^ 8 % 256) in
      omega (
        arith,
        length-set b.code index (dist / 2 ^ 8 % 256),
        get_or-set_ne once (index + 1) index (dist % 256) 0 (omega arith),
        get_or-set_self b.code index (dist / 2 ^ 8 % 256) 0 (omega arith),
        get_or-set_self once (index + 1) (dist % 256) 0
            (omega (arith, length-set b.code index (dist / 2 ^ 8 % 256))),
      )

  patch_jump_near :
      (index : ℕ) (b : Emitter V)
      → index + 2 ≤ op_count b
      → op_count b ≤ index + 2 + uint16_max
      → op_count b < 2 ^ 32
      → patch_jump index b ≡ patch_short index (op_count b - index - 2) b
  unfolding patch_jump
  patch_jump_near index b room near small = rw (
    forward_distance index (op_count b) room small,
    not_ltb uint16_max (op_count b - index - 2) (omega arith),
  )

  patch_back_near :
      (index dst : ℕ) (b : Emitter V)
      → dst ≤ index
      → index + 2 ≤ dst + uint16_max
      → patch_backwards_jump index dst b ≡ patch_short index (index + 2 - dst) b
  unfolding patch_backwards_jump
  patch_back_near index dst b before near =
      rw (back_distance index dst before near, not_ltb uint16_max (index + 2 - dst) (omega arith))

  -- A forward jump whose operands stand at `index`, patched where at most 65535 bytes follow them,
  -- leads to the end of the code, if that is shorter than 2 ^ 32 bytes; no other byte changes, and no
  -- error is raised.
  pub patch_jump-jump_target :
      (index : ℕ) (b : Emitter V)
      → index + 2 ≤ op_count b
      → op_count b ≤ index + 2 + uint16_max
      → op_count b < 2 ^ 32
      → (jump_target (patch_jump index b).code index ≡ op_count b)
        × PatchedAt index b (patch_jump index b)
  unfolding jump_target
  patch_jump-jump_target index b room near small =
      let dist = op_count b - index - 2 in
      let same : patch_jump index b ≡ patch_short index dist b =
        patch_jump_near index b room near small in
      rw same (
        omega (arith, fetch_short-patch_short index dist b room (omega arith)),
        patch_short-PatchedAt index dist b,
      )

  patch_jump_far :
      (index : ℕ) (b : Emitter V)
      → index + 2 + uint16_max < op_count b
      → op_count b < 2 ^ 32
      → patch_jump index b ≡ error b
  unfolding patch_jump
  patch_jump_far index b far small = rw (
    forward_distance index (op_count b) (omega arith) small,
    lt→ltb uint16_max (op_count b - index - 2) (omega arith),
  )

  -- Patching a forward jump whose operands stand at `index`, in a block without errors that is
  -- shorter than 2 ^ 32 bytes: the flag of an error is set exactly where more than 65535 bytes follow
  -- the operands, and then the code is as before; else the jump leads to the end of the code.
  pub patch_jump-has_error :
      (index : ℕ) (b : Emitter V)
      → index + 2 ≤ op_count b
      → op_count b < 2 ^ 32
      → b.has_error ≡ false
      → (((patch_jump index b).has_error ≡ true) ↔ (index + 2 + 65535 < op_count b))
        × (((patch_jump index b).has_error ≡ true) → (patch_jump index b).code ≡ b.code)
        × (((patch_jump index b).has_error ≡ false)
            → jump_target (patch_jump index b).code index ≡ op_count b)
  unfolding error
  patch_jump-has_error index b room small fine =
      elim (near_or_far (index + 2 + uint16_max) (op_count b)) [
        | inl near ↦
            let (leads, patched) = patch_jump-jump_target index b room near small in
            let ok = patched.same_error ∙ fine in
            (
              (λ e. absurd (true-false (sym e ∙ ok)), λ far. absurd (omega (arith, near, far))),
              λ e. absurd (true-false (sym e ∙ ok)),
              λ e. leads,
            )
        | inr far ↦
            let same = patch_jump_far index b far small in
            (
              (λ e. far, λ e. ap (λ b'. b'.has_error) same),
              λ e. ap (λ b'. b'.code) same,
              λ e. absurd (true-false (sym (ap (λ b'. b'.has_error) same) ∙ e)),
            )
      ]

  -- A backward jump whose operands stand at `index`, patched to lead to `dst` at most 65533 bytes
  -- before them, does lead there; no other byte changes, and no error is raised.
  pub patch_backwards_jump-jump_back_target :
      (index dst : ℕ) (b : Emitter V)
      → index + 2 ≤ op_count b
      → dst ≤ index
      → index + 2 ≤ dst + uint16_max
      → (jump_back_target (patch_backwards_jump index dst b).code index ≡ dst)
        × PatchedAt index b (patch_backwards_jump index dst b)
  unfolding jump_back_target
  patch_backwards_jump-jump_back_target index dst b room before near =
      let dist = index + 2 - dst in
      rw (patch_back_near index dst b before near) (
        omega (arith, fetch_short-patch_short index dist b room (omega arith)),
        patch_short-PatchedAt index dist b,
      )
