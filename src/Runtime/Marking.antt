-- ===== src/Runtime/Marking.antt =====
-- The tracing loop of the collector ends, and marks what can be reached: src/runtime/gc.cpp.
use bad_snap.Common.{
  ℕ, zero, suc, ◌+◌, ◌<◌, ◌≤◌, ◌≡◌, ◌⊎◌, inl, inr, refl, ap, ◌∙◌, Bool, true, false, Option, none,
  some, List, [], ◌∷◌, ==_iff, Bool-cases, if◌then◌else◌, length, arith,
}
use bad_snap.Runtime.Collector.{
  Body, trace_object, Marking, with_mark, mark_object, mark_objects, trace_gray, listed,
}
use bad_snap.Runtime.Held.{In, Refers, Reach, root, step}
use bad_snap.Runtime.Held.Listed.{listed-In, In-listed, listed-Refers, Refers-listed}
use bad_snap.Runtime.Reachable.{
  is_gray, mark_objects_grows, mark_objects_marks, mark_objects_new, Black, Tricolour,
  trace-Tricolour,
}

pub List-cases :
    {A : Type 0} (xs : List A) → (xs ≡ []) ⊎ ((x : A) × (rest : List A) × (xs ≡ x ∷ rest))
List-cases [] = inl refl
List-cases (x ∷ xs) = inr (x, xs, refl)

-- How many of the objects are not marked.
unfoldable pub white : (ℕ → Bool) → List ℕ → ℕ
white marked [] = 0
white marked (a ∷ all) = (if marked a then 0 else 1) + white marked all

white_le :
    (marked : ℕ → Bool) (a : ℕ) (all : List ℕ) → white (with_mark marked a) all ≤ white marked all
unfolding white with_mark
white_le marked a [] = ground arith
white_le marked a (b ∷ all) = ground (arith, white_le marked a all)

white_lt :
    (marked : ℕ → Bool) (a : ℕ) (all : List ℕ)
    → is_gray a all ≡ true
    → marked a ≡ false
    → white (with_mark marked a) all + 1 ≤ white marked all
unfolding white with_mark is_gray
white_lt marked a [] inside new = ground arith
white_lt marked a (b ∷ all) inside new =
    ground (arith, white_lt marked a all, white_le marked a all, ==_iff a b, ==_iff b a)

-- Each pointer in a list is null or leads to one of the objects.
unfoldable pub Inside : List ℕ → List (Option ℕ) → Type 0
Inside all rs = (b : ℕ) → listed b rs ≡ true → is_gray b all ≡ true

-- What the loop still has to do.
abbrev left_over : List ℕ → Marking → ℕ
left_over all s = white s.marked all + length s.gray

mark_object_left :
    (all : List ℕ) (b : ℕ) (s : Marking)
    → is_gray b all ≡ true
    → left_over all (mark_object (some b) s) ≤ left_over all s
unfolding mark_object
mark_object_left all b s inside = elim (Bool-cases (s.marked b)) [
  | inl old ↦ ground arith
  | inr new ↦ ground (arith, white_lt s.marked b all inside new)
]

mark_objects_left :
    (all : List ℕ) (rs : List (Option ℕ)) (s : Marking)
    → Inside all rs
    → left_over all (mark_objects rs s) ≤ left_over all s
unfolding mark_objects mark_object Inside listed
mark_objects_left all [] s inside = ground arith
mark_objects_left all (none ∷ rs) s inside = mark_objects_left all rs s inside
mark_objects_left all (some b ∷ rs) s inside =
    let here : is_gray b all ≡ true = inside b (ground (arith, ==_iff b b)) in
    let rest = mark_objects_left all rs (mark_object (some b) s) (λ c l. inside c (ground arith)) in
    let first = mark_object_left all b s here in omega arith

no_gray : (a : ℕ) (gray : List ℕ) → gray ≡ [] → is_gray a gray ≡ true → ⊥
unfolding is_gray
no_gray a [] e h = ground arith
no_gray a (b ∷ bs) e h = ground arith

abbrev pub unmarked : Marking
unmarked = record { marked = λ a. false; gray = [] }

white_unmarked : (all : List ℕ) → white (λ a. false) all ≡ length all
unfolding white
white_unmarked [] = refl
white_unmarked (a ∷ all) = ground (arith, white_unmarked all)

module _ {N : Type 0} (heap : ℕ → Body N) where
  pub trace_gray_end :
      (fuel : ℕ) (s : Marking) → s.gray ≡ [] → trace_gray heap (suc fuel) s ≡ some s
  unfolding trace_gray
  trace_gray_end fuel s e = ground (arith, e)

  pub trace_gray_pop :
      (fuel : ℕ) (s : Marking) (a : ℕ) (rest : List ℕ)
      → s.gray ≡ a ∷ rest
      → trace_gray heap (suc fuel) s
        ≡ trace_gray heap fuel (mark_objects (trace_object (heap a)) (record s { gray = rest }))
  unfolding trace_gray
  trace_gray_pop fuel s a rest e = ground (arith, e)

  -- What the loop leaves when it ends.
  pub record Traced (s s' : Marking) : Type 0 where
    pub closed : (a : ℕ) → s'.marked a ≡ true → Black heap s'.marked a
    pub kept : (a : ℕ) → s.marked a ≡ true → s'.marked a ≡ true

  closed_at_end :
      (s : Marking)
      → s.gray ≡ []
      → Tricolour heap s
      → (a : ℕ) → s.marked a ≡ true
      → Black heap s.marked a
  unfolding Tricolour is_gray
  closed_at_end s e tri a h = elim (tri a h) [
    | inl gray ↦ absurd (no_gray a s.gray e gray)
    | inr black ↦ black
  ]

  trace_gray_total :
      (all : List ℕ) (fuel : ℕ) (s : Marking)
      → ((a : ℕ) → Inside all (trace_object (heap a)))
      → left_over all s < fuel
      → Tricolour heap s
      → (s' : Marking) × (trace_gray heap fuel s ≡ some s') × Traced s s'
  trace_gray_total all zero s inside enough tri = ground arith
  trace_gray_total all (suc fuel) s inside enough tri = elim (List-cases s.gray) [
    | inl black ↦ (
      s,
      trace_gray_end fuel s black,
      record { closed = closed_at_end s black tri; kept = λ a h. h },
    )
    | inr (a, rest, e) ↦
        let popped = record s { gray = rest } in
        let rs = trace_object (heap a) in
        let less = mark_objects_left all rs popped (inside a) in
        let fewer : length s.gray ≡ suc (length rest) = ap length e in
        let (s', ran, traced) =
          trace_gray_total all fuel (mark_objects rs popped) inside (omega arith)
            (trace-Tricolour heap s a rest e tri) in
        (
          s',
          trace_gray_pop fuel s a rest e ∙ ran,
          record {
            closed = traced.closed;
            kept = λ c h. traced.kept c (mark_objects_grows rs popped c h);
          },
        )
  ]

  roots-Tricolour : (roots : List (Option ℕ)) → Tricolour heap (mark_objects roots unmarked)
  unfolding Tricolour
  roots-Tricolour roots a h = elim (mark_objects_new roots unmarked a h) [
    | inl old ↦ ground arith
    | inr gray ↦ inl gray
  ]

  Reach-marked :
      (roots : List (Option ℕ)) (s' : Marking) (a : ℕ)
      → Traced (mark_objects roots unmarked) s'
      → Reach heap (λ b. In (some b) roots) a
      → s'.marked a ≡ true
  unfolding Black
  Reach-marked roots s' _ traced (root a i) =
      traced.kept a (mark_objects_marks roots unmarked a (listed-In a roots i))
  Reach-marked roots s' _ traced (step b a reach r) =
      traced.closed b (Reach-marked roots s' b traced reach) a (listed-Refers (heap b) a r)

  -- All that is traced lies in the list of objects, where all lies there that an object refers to.
  Inside-Refers :
      (all : List ℕ)
      → ((a b : ℕ) → Refers (heap a) b → is_gray b all ≡ true)
      → (a : ℕ) → Inside all (trace_object (heap a))
  unfolding Inside
  Inside-Refers all inside a b l = inside a b (Refers-listed (heap a) b l)

  -- Where the roots and all that the objects refer to are among some objects, tracing from the
  -- marked roots ends within one round for each of these and one more, and every object is marked
  -- then that can be reached from the roots by what objects refer to: a code block refers to its
  -- name and its constants, a closure to its upvalues and its code block, a native function to its
  -- values, an upvalue to its value, a table to the keys and values of its slots, a list to its
  -- elements, and user data to its prototype and what its tracer marks; the prototype of a table
  -- and the indexer of user data do not count, as the code does not trace them.
  pub trace_gray-Reach :
      (all : List ℕ) (roots : List (Option ℕ))
      → ((b : ℕ) → In (some b) roots → is_gray b all ≡ true)
      → ((a b : ℕ) → Refers (heap a) b → is_gray b all ≡ true)
      → (s' : Marking) × (trace_gray heap (suc (length all)) (mark_objects roots unmarked)
          ≡ some s')
        × ((a : ℕ) → Reach heap (λ b. In (some b) roots) a → s'.marked a ≡ true)
  unfolding Inside
  trace_gray-Reach all roots roots_inside inside =
      let less =
        mark_objects_left all roots unmarked (λ b l. roots_inside b (In-listed b roots l)) in
      let count = white_unmarked all in
      let (s', ran, traced) =
        trace_gray_total all (suc (length all)) (mark_objects roots unmarked)
          (Inside-Refers all inside) (omega arith) (roots-Tricolour roots) in
      (s', ran, λ a reach. Reach-marked roots s' a traced reach)
