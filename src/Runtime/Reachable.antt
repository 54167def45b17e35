-- ===== src/Runtime/Reachable.antt =====
-- What the collector marks: src/runtime/gc.cpp.
use bad_snap.Common.{
  ℕ, ◌≡◌, ◌⊎◌, inl, inr, sym, ap, ◌∙◌, Bool, true, false, ◌||◌, Option, none, some, List, [], ◌∷◌,
  ◌==◌, ==_iff, Bool-cases, arith,
}
use bad_snap.Runtime.Collector.{
  Body, trace_object, Marking, with_mark, mark_object, mark_objects, listed,
}

unfoldable pub is_gray : ℕ → List ℕ → Bool
is_gray a [] = false
is_gray a (b ∷ bs) = (a == b) || is_gray a bs

mark_object_grows :
    (r : Option ℕ) (s : Marking) (a : ℕ) → s.marked a ≡ true → (mark_object r s).marked a ≡ true
unfolding mark_object with_mark
mark_object_grows none s a h = h
mark_object_grows (some b) s a h = elim (Bool-cases (s.marked b)) [
  | inl old ↦ ground arith
  | inr new ↦ ground arith
]

pub mark_objects_grows :
    (rs : List (Option ℕ)) (s : Marking) (a : ℕ)
    → s.marked a ≡ true
    → (mark_objects rs s).marked a ≡ true
unfolding mark_objects
mark_objects_grows [] s a h = h
mark_objects_grows (r ∷ rs) s a h =
    mark_objects_grows rs (mark_object r s) a (mark_object_grows r s a h)

mark_object_marks : (s : Marking) (b : ℕ) → (mark_object (some b) s).marked b ≡ true
unfolding mark_object with_mark
mark_object_marks s b = elim (Bool-cases (s.marked b)) [
  | inl old ↦ ground arith
  | inr new ↦ ground (arith, ==_iff b b)
]

pub mark_objects_marks :
    (rs : List (Option ℕ)) (s : Marking) (b : ℕ)
    → listed b rs ≡ true
    → (mark_objects rs s).marked b ≡ true
unfolding mark_objects listed
mark_objects_marks [] s b h = ground arith
mark_objects_marks (none ∷ rs) s b h = mark_objects_marks rs (mark_object none s) b h
mark_objects_marks (some c ∷ rs) s b h = elim (Bool-cases (b == c)) [
  | inl same ↦
      let is_c : b ≡ c = ground (arith, ==_iff b c) in
      mark_objects_grows rs (mark_object (some c) s) b
        (ap (mark_object (some c) s).marked is_c ∙ mark_object_marks s c)
  | inr other ↦ mark_objects_marks rs (mark_object (some c) s) b (ground arith)
]

mark_objects_gray :
    (rs : List (Option ℕ)) (s : Marking) (a : ℕ)
    → is_gray a s.gray ≡ true
    → is_gray a (mark_objects rs s).gray ≡ true
unfolding mark_objects mark_object is_gray
mark_objects_gray [] s a h = h
mark_objects_gray (none ∷ rs) s a h = mark_objects_gray rs s a h
mark_objects_gray (some b ∷ rs) s a h =
    mark_objects_gray rs (mark_object (some b) s) a
      (elim (Bool-cases (s.marked b)) [ inl old ↦ ground arith | inr new ↦ ground arith ])

mark_object_new :
    (r : Option ℕ) (s : Marking) (a : ℕ)
    → (mark_object r s).marked a ≡ true
    → (s.marked a ≡ true) ⊎ (is_gray a (mark_object r s).gray ≡ true)
unfolding mark_object with_mark is_gray
mark_object_new none s a h = inl h
mark_object_new (some b) s a h = elim (Bool-cases (s.marked b)) [
  | inl old ↦ inl (ground arith)
  | inr new ↦ elim (Bool-cases (a == b)) [
    | inl same ↦ inr (ground arith)
    | inr other ↦ inl (ground arith)
  ]
]

-- What was newly marked is gray.
pub mark_objects_new :
    (rs : List (Option ℕ)) (s : Marking) (a : ℕ)
    → (mark_objects rs s).marked a ≡ true
    → (s.marked a ≡ true) ⊎ (is_gray a (mark_objects rs s).gray ≡ true)
unfolding mark_objects
mark_objects_new [] s a h = inl h
mark_objects_new (r ∷ rs) s a h = elim (mark_objects_new rs (mark_object r s) a h) [
  | inr gray ↦ inr gray
  | inl marked ↦ elim (mark_object_new r s a marked) [
    | inl old ↦ inl old
    | inr gray ↦ inr (mark_objects_gray rs (mark_object r s) a gray)
  ]
]

still_gray :
    (c a : ℕ) (rest gray : List ℕ)
    → gray ≡ a ∷ rest
    → is_gray c gray ≡ true
    → (c == a) ≡ false
    → is_gray c rest ≡ true
unfolding is_gray
still_gray c a rest [] e h other = ground arith
still_gray c a rest (b ∷ bs) e h other = ground arith

module _ {N : Type 0} (heap : ℕ → Body N) where
  unfoldable pub Black : (ℕ → Bool) → ℕ → Type 0
  Black marked a = (b : ℕ) → listed b (trace_object (heap a)) ≡ true → marked b ≡ true

  unfoldable pub Tricolour : Marking → Type 0
  unfolding Black
  Tricolour s = (a : ℕ) → s.marked a ≡ true → (is_gray a s.gray ≡ true) ⊎ Black s.marked a

  pub trace-Tricolour :
      (s : Marking) (a : ℕ) (rest : List ℕ)
      → s.gray ≡ a ∷ rest
      → Tricolour s
      → Tricolour (mark_objects (trace_object (heap a)) (record s { gray = rest }))
  unfolding Tricolour Black
  trace-Tricolour s a rest e tri c h =
      let popped = record s { gray = rest } in
      let rs = trace_object (heap a) in
      elim (mark_objects_new rs popped c h) [
        | inr gray ↦ inl gray
        | inl old ↦ elim (tri c old) [
          | inr black ↦ inr (λ b l. mark_objects_grows rs popped b (black b l))
          | inl gray ↦ elim (Bool-cases (c == a)) [
            | inl same ↦
                let is_a : c ≡ a = ground (arith, ==_iff c a) in
                inr (λ b l.
                  mark_objects_marks rs popped b
                    (ap (λ d. listed b (trace_object (heap d))) (sym is_a) ∙ l))
            | inr other ↦
                inl (mark_objects_gray rs popped c (still_gray c a rest s.gray e gray other))
          ]
        ]
      ]
