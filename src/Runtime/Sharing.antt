-- ===== src/Runtime/Sharing.antt =====
-- Closures that capture one variable share one upvalue: `capture_upvalue` of src/runtime/vm.cpp.
use bad_snap.Common.{
  ℕ, ◌≡◌, inl, inr, refl, ap, ◌∙◌, true, none, some, Option-cases, List, [], ◌∷◌, ◌++◌, ◌==◌,
  ==_iff, ltb→lt, lt→ltb, if◌then◌else◌, length, length-append, get_or, get_or-append, get_or-last,
  arith,
}
use bad_snap.Runtime.OpenUpvalues.{
  Cell, at_slot, closed, OpenUpvalue, Upvalues, capture, capture_upvalue, read_upvalue, find_open,
  ascending, ascending-capture, find_open-capture, find_open_missing-capture, capture_again,
}
use bad_snap.Runtime.Closing.{points_to, linked, IsValid, points_to-read, find_open-linked}

module _ {V : Type 0} where
  linked-append :
      (nil : V) (cells : List (Cell V)) (us : List OpenUpvalue) (new : Cell V)
      → linked nil cells us ≡ true
      → linked nil (cells ++ new ∷ []) us ≡ true
  unfolding linked
  linked-append nil cells [] new ok = refl
  linked-append nil cells (u ∷ us) new ok = ground (
    arith,
    linked-append nil cells us new,
    ltb→lt u.cell (length cells),
    get_or-append cells (new ∷ []) u.cell (closed nil),
    length-append cells (new ∷ []),
    lt→ltb u.cell (length (cells ++ new ∷ [])),
  )

  linked-capture :
      (nil : V) (cells : List (Cell V)) (us : List OpenUpvalue) (slot : ℕ)
      → linked nil cells us ≡ true
      → find_open slot us ≡ none
      → linked nil (cells ++ at_slot slot ∷ []) (capture slot (length cells) us).1 ≡ true
  unfolding linked capture find_open points_to
  linked-capture nil cells [] slot ok missing = ground (
    arith,
    get_or-last cells (at_slot slot) (closed nil),
    length-append cells (at_slot slot ∷ []),
    ==_iff slot slot,
    lt→ltb (length cells) (length (cells ++ at_slot slot ∷ [])),
  )
  linked-capture nil cells (u ∷ us) slot ok missing = ground (
    arith,
    get_or-last cells (at_slot slot) (closed nil),
    length-append cells (at_slot slot ∷ []),
    ==_iff slot slot,
    lt→ltb (length cells) (length (cells ++ at_slot slot ∷ [])),
    linked-append nil cells (u ∷ us) (at_slot slot) ok,
    linked-capture nil cells us slot,
  )

  -- What a capture of `slot` leaves.
  pub record Captured (nil : V) (slot : ℕ) (s : Upvalues V) (found : ℕ) (s' : Upvalues V)
      : Type 0 where
    pub valid : IsValid nil s'
    pub same_values : s'.values ≡ s.values
    pub reads : read_upvalue nil s' found ≡ get_or s.values slot nil
    pub chain :
        (other : ℕ)
        → find_open other s'.open_upvals
          ≡ (if other == slot then some found else find_open other s.open_upvals)
    pub again : capture_upvalue slot s' ≡ (found, s')

  capture_upvalue-again :
      (nil : V) (slot c : ℕ) (s : Upvalues V)
      → IsValid nil s
      → find_open slot s.open_upvals ≡ some c
      → capture_upvalue slot s ≡ (c, s)
  unfolding capture_upvalue
  capture_upvalue-again nil slot c s ok found =
      let (inside, points) =
        find_open-linked nil s.cells s.open_upvals slot c ok.all_linked found in
      ground (
        arith,
        inside,
        capture_again slot (length s.cells) c s.open_upvals ok.in_order found,
        ==_iff c (length s.cells),
      )

  capture_upvalue-open :
      (slot : ℕ) (s : Upvalues V)
      → ((capture_upvalue slot s).1.open_upvals ≡ (capture slot (length s.cells) s.open_upvals).1)
        × ((capture_upvalue slot s).1.values ≡ s.values)
        × ((capture_upvalue slot s).0 ≡ (capture slot (length s.cells) s.open_upvals).0)
  unfolding capture_upvalue
  capture_upvalue-open slot s = (ground arith, ground arith, refl)

  capture_upvalue-linked :
      (nil : V) (slot : ℕ) (s : Upvalues V)
      → IsValid nil s
      → linked nil (capture_upvalue slot s).1.cells (capture_upvalue slot s).1.open_upvals ≡ true
  unfolding capture_upvalue
  capture_upvalue-linked nil slot s ok = elim (Option-cases (find_open slot s.open_upvals)) [
    | inl missing ↦
        let n = length s.cells in
        let fresh = find_open_missing-capture slot n s.open_upvals missing in
        ground (
          arith,
          fresh,
          ==_iff n n,
          linked-capture nil s.cells s.open_upvals slot ok.all_linked missing,
        )
    | inr (c, found) ↦ ground (arith, capture_upvalue-again nil slot c s ok found, ok.all_linked)
  ]

  -- `capture_upvalue` keeps the machine valid, gives an upvalue that reads the slot, changes which
  -- upvalue is open at no other slot, and gives the same upvalue when the slot is captured again.
  pub capture_upvalue_lem :
      (nil : V) (slot : ℕ) (s : Upvalues V)
      → IsValid nil s
      → Captured nil slot s (capture_upvalue slot s).0 (capture_upvalue slot s).1
  unfolding capture_upvalue read_upvalue
  capture_upvalue_lem nil slot s ok =
      let (found, s') = capture_upvalue slot s in
      let (chain, same, is_found) = capture_upvalue-open slot s in
      let valid : IsValid nil s' = record {
        in_order =
            ap ascending chain ∙ ascending-capture slot (length s.cells) s.open_upvals ok.in_order;
        all_linked = capture_upvalue-linked nil slot s ok;
      } in
      let finds : (other : ℕ)
          → find_open other s'.open_upvals
            ≡ (if other == slot then some found else find_open other s.open_upvals) =
        λ other.
          ap (find_open other) chain
          ∙ find_open-capture slot (length s.cells) other s.open_upvals ok.in_order in
      let here : find_open slot s'.open_upvals ≡ some found =
        ground (arith, finds slot, ==_iff slot slot) in
      let (inside, points) =
        find_open-linked nil s'.cells s'.open_upvals slot found valid.all_linked here in
      record {
        valid = valid;
        same_values = same;
        reads =
            points_to-read nil s'.values (get_or s'.cells found (closed nil)) slot points
            ∙ ap (λ values. get_or values slot nil) same;
        chain = finds;
        again = capture_upvalue-again nil slot found s' valid here;
      }
