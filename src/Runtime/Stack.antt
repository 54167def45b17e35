-- ===== src/Runtime/Stack.antt =====
-- Growth of the value stack: include/vm_stack.hpp and `ensure_slots` of src/runtime/vm.cpp.
-- Pointers are addresses counted in slots; the address that `realloc` gives is an argument.
use bad_snap.Common.{
  ℕ, ◌+◌, ◌-◌, ◌%◌, ◌^◌, ◌≤◌, ◌<◌, ◌≡◌, inl, inr, refl, Bool, true, ◌&&◌, List, [], ◌∷◌, ltb, leb,
  ltb→lt, not_ltb→le, leb→le, Bool-cases, if◌then◌else◌, arith,
}
use bad_snap.Runtime.PowTwo.{pow2ceil, pow2ceil_ge}

-- The stack, with the bases of the frames, the current one first, and what the open upvalues point
-- to.
pub record Stack : Type 0 where
  pub values : ℕ
  pub top : ℕ
  pub size : ℕ
  pub bases : List ℕ
  pub upvals : List ℕ

abbrev pub initial_size : ℕ
initial_size = 128

-- A pointer into the old stack, moved to the new one.
unfoldable pub moved_pointer : ℕ → ℕ → ℕ → ℕ
moved_pointer old new p = new + p - old

unfoldable pub move_all : ℕ → ℕ → List ℕ → List ℕ
unfolding moved_pointer
move_all old new [] = []
move_all old new (p ∷ ps) = moved_pointer old new p ∷ move_all old new ps

unfoldable pub num_free_slots : Stack → ℕ
num_free_slots s = (s.size + 2 ^ 32 - (s.top - s.values)) % 2 ^ 32

unfoldable pub grow_stack : ℕ → ℕ → Stack → Stack
unfolding move_all pow2ceil num_free_slots
grow_stack requested new s = record {
  values = new;
  top = new + (s.top - s.values);
  size = pow2ceil ((s.size + (requested + 2 ^ 32 - num_free_slots s) % 2 ^ 32 + 1) % 2 ^ 32);
  bases = move_all s.values new s.bases;
  upvals = move_all s.values new s.upvals;
}

unfoldable pub ensure_slots : ℕ → ℕ → Stack → Stack
unfolding num_free_slots grow_stack
ensure_slots requested new s =
    if ltb requested (num_free_slots s) then s else grow_stack requested new s

-- How far pointers stand from a base.
unfoldable pub offsets : ℕ → List ℕ → List ℕ
offsets base [] = []
offsets base (p ∷ ps) = (p - base) ∷ offsets base ps

unfoldable pub all_from : ℕ → List ℕ → Bool
all_from base [] = true
all_from base (p ∷ ps) = leb base p && all_from base ps

-- The pointers of a stack lie in it, and its size is one of `uint`'s.
pub record IsValid (s : Stack) : Type 0 where
  pub used : s.values ≤ s.top
  pub in_size : s.top ≤ s.values + s.size
  pub bases_inside : all_from s.values s.bases ≡ true
  pub upvals_inside : all_from s.values s.upvals ≡ true

offsets-move_all :
    (old new : ℕ) (ps : List ℕ)
    → all_from old ps ≡ true
    → offsets new (move_all old new ps) ≡ offsets old ps
unfolding offsets move_all all_from moved_pointer
offsets-move_all old new [] inside = refl
offsets-move_all old new (p ∷ ps) inside = ground (arith, offsets-move_all old new ps, leb→le old p)

all_from-move_all :
    (old new : ℕ) (ps : List ℕ) → all_from old ps ≡ true → all_from new (move_all old new ps) ≡ true
unfolding move_all all_from moved_pointer
all_from-move_all old new [] inside = refl
all_from-move_all old new (p ∷ ps) inside =
    ground (arith, all_from-move_all old new ps, leb→le old p)

-- What a request for slots leaves: more free slots than were asked for, and each pointer as far
-- from the base as it was.
pub record Roomy (requested : ℕ) (s s' : Stack) : Type 0 where
  pub valid : IsValid s'
  pub room : requested + (s'.top - s'.values) < s'.size
  pub same_top : s'.top - s'.values ≡ s.top - s.values
  pub same_bases : offsets s'.values s'.bases ≡ offsets s.values s.bases
  pub same_upvals : offsets s'.values s'.upvals ≡ offsets s.values s.upvals

free_slots :
    (s : Stack) → IsValid s → s.size < 2 ^ 32 → num_free_slots s + (s.top - s.values) ≡ s.size
unfolding num_free_slots
free_slots s ok small = let used = ok.used in let inside = ok.in_size in omega arith

enough-Roomy :
    (requested : ℕ) (s : Stack)
    → IsValid s
    → s.size < 2 ^ 32
    → requested < num_free_slots s
    → Roomy requested s s
enough-Roomy requested s ok small enough =
    let free = free_slots s ok small in
    record {
      valid = ok;
      room = omega arith;
      same_top = refl;
      same_bases = refl;
      same_upvals = refl;
    }

size-grow_stack :
    (requested new : ℕ) (s : Stack)
    → IsValid s
    → s.size + requested + 1 ≤ 2 ^ 31
    → num_free_slots s ≤ requested
    → requested + (s.top - s.values) < (grow_stack requested new s).size
unfolding grow_stack
size-grow_stack requested new s ok small short =
    let free = free_slots s ok (omega arith) in
    let asked = (s.size + (requested + 2 ^ 32 - num_free_slots s) % 2 ^ 32 + 1) % 2 ^ 32 in
    let is_asked : asked + num_free_slots s ≡ s.size + requested + 1 = omega arith in
    let (ge, most) = pow2ceil_ge asked (omega arith) in omega arith

grow_stack-Roomy :
    (requested new : ℕ) (s : Stack)
    → IsValid s
    → s.size + requested + 1 ≤ 2 ^ 31
    → num_free_slots s ≤ requested
    → Roomy requested s (grow_stack requested new s)
unfolding grow_stack
grow_stack-Roomy requested new s ok small short =
    let size = size-grow_stack requested new s ok small short in
    let used : new + (s.top - s.values) - new ≡ s.top - s.values = omega arith in
    record {
      valid = record {
        used = omega arith;
        in_size = omega arith;
        bases_inside = all_from-move_all s.values new s.bases ok.bases_inside;
        upvals_inside = all_from-move_all s.values new s.upvals ok.upvals_inside;
      };
      room = omega arith;
      same_top = used;
      same_bases = offsets-move_all s.values new s.bases ok.bases_inside;
      same_upvals = offsets-move_all s.values new s.upvals ok.upvals_inside;
    }

-- A request for slots on a valid stack leaves more free slots than were asked for, keeps the
-- pointers inside, and each as far from the base as it was, wherever the new memory lies, as long as
-- the size asked for is no more than 2 ^ 31.
pub ensure_slots_lem :
    (requested new : ℕ) (s : Stack)
    → IsValid s
    → s.size + requested + 1 ≤ 2 ^ 31
    → Roomy requested s (ensure_slots requested new s)
unfolding ensure_slots
ensure_slots_lem requested new s ok small = elim (Bool-cases (ltb requested (num_free_slots s))) [
  | inl enough ↦
      let same : ensure_slots requested new s ≡ s = ground arith in
      rw same
        (enough-Roomy requested s ok (omega arith) (ltb→lt requested (num_free_slots s) enough))
  | inr short ↦
      let same : ensure_slots requested new s ≡ grow_stack requested new s = ground arith in
      rw same
        (grow_stack-Roomy requested new s ok small (not_ltb→le requested (num_free_slots s) short))
]
