-- ===== src/Runtime/Cycle.antt =====
-- What a cycle of the collector keeps: src/runtime/gc.cpp.
use bad_snap.Value.{ObjType, has_tag, object, same_tag}
use bad_snap.Table.{
  Entry, Table, entry_at, is_white_key, sweep_entries, tombstone, delete_white_string_keys,
}
use bad_snap.Runtime.Reachable.{is_gray}
use bad_snap.Runtime.Held.{In, Refers, Rooted, Reach, root, step}
use bad_snap.Runtime.Held.Listed.{listed-In, In-listed, Refers-listed, listed-Rooted, Rooted-listed}
use bad_snap.Runtime.Sweep.{
  after_trace, sweep_objects, Gc, Roots, collect_garbage, finish, root_list, sweep, unmark,
}
use bad_snap.Runtime.Marking.{
  unmarked, List-cases, trace_gray_end, trace_gray_pop, trace_gray-Reach,
}
use bad_snap.Common.{
  ==_iff, Bool-cases, Bool, Bool-cases, List, Option, [], ap, arith, inl, inr, none, some, suc, sym,
  true, zero, ℕ, ◌&&◌, ◌==◌, ◌∙◌, ◌∷◌, ◌≡◌, false, refl, length, length,
}
use bad_snap.Runtime.Collector.{
  Body, Marking, listed, mark_object, mark_objects, trace_gray, trace_object, with_mark,
}
use mathlib.Core.Path.{subst}

same_address : (a b : ℕ) → (a == b) ≡ true → a ≡ b
same_address a b h = ground arith

some_injective : {A : Type 0} (a b : A) → some a ≡ some b → a ≡ b
some_injective {A = A} a b e = ap (λ (o : Option A). elim o [ none ↦ a | some x ↦ x ]) e

no_round : {N : Type 0} (heap : ℕ → Body N) (s s' : Marking) → trace_gray heap zero s ≡ some s' → ⊥
unfolding trace_gray
no_round heap s s' e = ground arith

-- Every marked object, and every gray one, has a property.
pub record Only (P : ℕ → Type 0) (s : Marking) : Type 0 where
  pub marked : (a : ℕ) → s.marked a ≡ true → P a
  pub gray : (a : ℕ) → is_gray a s.gray ≡ true → P a

module _ (P : ℕ → Type 0) where
  mark_object-Only : (b : ℕ) (s : Marking) → P b → Only P s → Only P (mark_object (some b) s)
  unfolding mark_object with_mark is_gray
  mark_object-Only b s pb only = elim (Bool-cases (s.marked b)) [
    | inl old ↦ rw old only
    | inr new ↦ rw new (record {
      marked = λ a h. elim (Bool-cases (a == b)) [
        | inl same ↦ subst P (sym (same_address a b same)) pb
        | inr other ↦ only.marked a (ground arith)
      ];
      gray = λ a h. elim (Bool-cases (a == b)) [
        | inl same ↦ subst P (sym (same_address a b same)) pb
        | inr other ↦ only.gray a (ground arith)
      ];
    })
  ]

  mark_objects-Only :
      (rs : List (Option ℕ)) (s : Marking)
      → ((b : ℕ) → listed b rs ≡ true → P b)
      → Only P s
      → Only P (mark_objects rs s)
  unfolding mark_objects mark_object listed
  mark_objects-Only [] s inside only = only
  mark_objects-Only (none ∷ rs) s inside only = mark_objects-Only rs s inside only
  mark_objects-Only (some b ∷ rs) s inside only =
      mark_objects-Only rs (mark_object (some b) s) (λ c l. inside c (ground arith))
        (mark_object-Only b s (inside b (ground (arith, ==_iff b b))) only)

  module _ {N : Type 0} (heap : ℕ → Body N)
      (next : (a b : ℕ) → P a → listed b (trace_object (heap a)) ≡ true → P b) where
    trace_gray-Only :
        (fuel : ℕ) (s s' : Marking) → trace_gray heap fuel s ≡ some s' → Only P s → Only P s'
    unfolding is_gray
    trace_gray-Only zero s s' e only = absurd (no_round heap s s' e)
    trace_gray-Only (suc fuel) s s' e only = elim (List-cases s.gray) [
      | inl black ↦
          subst (Only P) (some_injective s s' (sym (trace_gray_end heap fuel s black) ∙ e)) only
      | inr (a, rest, g) ↦
          let popped : Marking = record s { gray = rest } in
          let pa = only.gray a (rw g (ground (arith, ==_iff a a))) in
          let fewer : Only P popped = record {
            marked = only.marked;
            gray = λ b h. only.gray b (rw g (ground arith));
          } in
          trace_gray-Only fuel (mark_objects (trace_object (heap a)) popped) s'
            (sym (trace_gray_pop heap fuel s a rest g) ∙ e)
            (mark_objects-Only (trace_object (heap a)) popped (λ b l. next a b pa l) fewer)
    ]

-- A sweep keeps the marked objects of the list.
is_gray-sweep_objects :
    (size : ℕ → ℕ) (marked : ℕ → Bool) (objects : List ℕ) (a : ℕ)
    → is_gray a (sweep_objects size marked objects).0 ≡ (marked a && is_gray a objects)
unfolding sweep_objects is_gray
is_gray-sweep_objects size marked [] a = ground arith
is_gray-sweep_objects size marked (o ∷ next) a =
    ground (arith, is_gray-sweep_objects size marked next a, ==_iff a o)

-- No key that is left in the interned strings is a string without a mark.
no_white_keys :
    {N : Type 0} (marked : ℕ → Bool) (es : List (Entry N)) (i : ℕ)
    → is_white_key marked (entry_at (sweep_entries marked es).0 i) ≡ false
unfolding sweep_entries is_white_key tombstone has_tag
no_white_keys marked [] i = refl
no_white_keys marked (e ∷ es) zero = elim (Bool-cases (is_white_key marked e)) [
  | inl white ↦ rw white refl
  | inr other ↦ rw other other
]
no_white_keys marked (e ∷ es) (suc i) = elim (Bool-cases (is_white_key marked e)) [
  | inl white ↦ rw white (no_white_keys marked es i)
  | inr other ↦ rw other (no_white_keys marked es i)
]

-- What a cycle is to achieve, with the objects that it leaves.
pub record Collected {N : Type 0} (heap : ℕ → Body N) (roots : Roots N) (before after : Gc)
    (strings : Table N) : Type 0 where
  pub kept :
      (a : ℕ)
      → Reach heap (Rooted roots) a
      → is_gray a before.objects ≡ true
      → is_gray a after.objects ≡ true
  pub freed :
      (a : ℕ)
      → is_gray a after.objects ≡ true
      → (is_gray a before.objects ≡ true) × Reach heap (Rooted roots) a
  pub no_marks : (a : ℕ) → after.marked a ≡ false
  pub interned_keys :
      (i a : ℕ)
      → (entry_at strings.entries i).key ≡ object (record { tag = ObjType.string; addr = a })
      → Reach heap (Rooted roots) a

both : (b c : Bool) → b ≡ true → c ≡ true → (b && c) ≡ true
both b c h k = ground arith

split : (b c : Bool) → (b && c) ≡ true → (b ≡ true) × (c ≡ true)
split b c h = ground arith

none_marked : (P : ℕ → Type 0) → Only P unmarked
unfolding is_gray
none_marked P = record {
  marked = λ a h. absurd (ground arith);
  gray = λ a h. absurd (ground arith);
}

cleared :
    (marked : ℕ → Bool) (objects : List ℕ) (a : ℕ)
    → (marked a ≡ true → is_gray a objects ≡ true)
    → unmark marked objects a ≡ false
unfolding unmark
cleared marked objects a h = elim (Bool-cases (marked a)) [
  | inl m ↦ rw m (rw (h m) refl)
  | inr m ↦ rw m refl
]

not_white :
    {N : Type 0} (marked : ℕ → Bool) (e : Entry N) (a : ℕ)
    → e.key ≡ object (record { tag = ObjType.string; addr = a })
    → is_white_key marked e ≡ false
    → marked a ≡ true
unfolding is_white_key has_tag same_tag
not_white marked e a k w = ground (arith, k)

-- All that can be reached is in the list of objects.
Reach-inside :
    {N : Type 0} {heap : ℕ → Body N} {Root : ℕ → Type 0} (all : List ℕ)
    → ((a : ℕ) → Root a → is_gray a all ≡ true)
    → ((a b : ℕ) → Refers (heap a) b → is_gray b all ≡ true)
    → (a : ℕ) → Reach heap Root a
    → is_gray a all ≡ true
Reach-inside all inside all_inside _ (root a l) = inside a l
Reach-inside all inside all_inside _ (step a b r l) = all_inside a b l

-- The listed roots are the roots.
Reach-Rooted :
    {N : Type 0} {heap : ℕ → Body N} (roots : Roots N) (a : ℕ)
    → Reach heap (Rooted roots) a
    → Reach heap (λ b. In (some b) (root_list roots)) a
Reach-Rooted roots _ (root a r) = root a (In-listed a (root_list roots) (listed-Rooted roots a r))
Reach-Rooted roots _ (step a b reach r) = step a b (Reach-Rooted roots a reach) r

module _ {N : Type 0} (size limit : ℕ → ℕ) (heap : ℕ → Body N) where
  collected :
      (roots : Roots N) (strings : Table N) (gc : Gc) (s : Marking)
      → gc.can_collect ≡ true
      → gc.marked ≡ (λ a. false)
      → trace_gray heap (suc (length gc.objects)) (mark_objects (root_list roots) unmarked) ≡ some s
      → collect_garbage size limit heap roots strings gc
        ≡ some (finish size limit heap strings gc s)
  unfolding collect_garbage after_trace
  collected roots strings gc s on clean ran = rw on (rw clean (rw ran refl))

  -- From a state without marks, whose list of objects holds all the roots and all that the objects
  -- refer to, a cycle ends, and leaves in the list the objects that can be reached from the roots,
  -- and no other; no mark is left, and each string among the interned ones can be reached. The
  -- roots are the values of the stack, the functions of the frames, the open upvalues, the
  -- protected objects, the global variables, the four prototypes and the code blocks that are being
  -- compiled. As for the objects, a code block refers to its name and its constants, a closure to
  -- its upvalues and its code block, a native function to its values, an upvalue to its value, a
  -- table to the keys and values of its slots, a list to its elements, and user data to its
  -- prototype and what its tracer marks; the prototype of a table and the indexer of user data do
  -- not count, as the code does not trace them.
  pub collect_garbage-Collected :
      (roots : Roots N) (strings : Table N) (gc : Gc)
      → gc.can_collect ≡ true
      → gc.marked ≡ (λ a. false)
      → ((b : ℕ) → Rooted roots b → is_gray b gc.objects ≡ true)
      → ((a b : ℕ) → Refers (heap a) b → is_gray b gc.objects ≡ true)
      → (freed : ℕ) × (strings' : Table N) × (gc' : Gc) × (collect_garbage size limit heap roots
            strings gc
          ≡ some (freed, strings', gc'))
        × Collected heap roots gc gc' strings'
  unfolding finish sweep delete_white_string_keys
  collect_garbage-Collected roots strings gc on clean inside all_inside =
      let rs = root_list roots in
      let P = Reach heap (Rooted roots) in
      let (s, ran, reached) =
        trace_gray-Reach heap gc.objects rs
          (λ b i. inside b (Rooted-listed roots b (listed-In b rs i))) all_inside in
      let fuel = suc (length gc.objects) in
      let only : Only P s =
        trace_gray-Only P heap (λ a b r l. step a b r (Refers-listed (heap a) b l)) fuel
          (mark_objects rs unmarked) s ran
          (mark_objects-Only P rs unmarked (λ b l. root b (Rooted-listed roots b l))
            (none_marked P)) in
      (
        _,
        _,
        _,
        collected roots strings gc s on clean ran,
        record {
          kept = λ a r h.
              is_gray-sweep_objects size s.marked gc.objects a
              ∙ both (s.marked a) _ (reached a (Reach-Rooted roots a r)) h;
          freed = λ a h.
              let (marked, listed_before) =
                split (s.marked a) _ (sym (is_gray-sweep_objects size s.marked gc.objects a) ∙ h) in
              (listed_before, only.marked a marked);
          no_marks = λ a.
              cleared s.marked gc.objects a
                λ m. Reach-inside gc.objects inside all_inside a (only.marked a m);
          interned_keys = λ i a k. only.marked a (
              not_white s.marked (entry_at (sweep_entries s.marked strings.entries).0 i) a k
                (no_white_keys s.marked strings.entries i));
        },
      )
