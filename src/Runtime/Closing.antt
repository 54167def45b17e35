-- ===== src/Runtime/Closing.antt =====
-- What capturing and closing do to the upvalues of a frame: src/runtime/vm.cpp.
use bad_snap.Common.{
  ℕ, ◌+◌, ◌≤◌, ◌<◌, ◌≡◌, inl, inr, refl, ap, ◌∙◌, Bool, true, false, ◌&&◌, some, List, [], ◌∷◌,
  ◌==◌, ltb, leb, ==_iff, leb→le, ltb→lt, Bool-cases, length, get_or, set, length-set,
  get_or-set_self, get_or-set_ne, arith,
}
use bad_snap.Runtime.OpenUpvalues.{
  Cell, at_slot, closed, OpenUpvalue, Upvalues, read_cell, read_upvalue, close_from,
  close_upvalues_upto, find_open, above, ascending,
}

unfoldable pub points_to : {V : Type 0} → Cell V → ℕ → Bool
points_to (at_slot i) slot = i == slot
points_to (closed v) slot = false

-- Each member of a chain has a cell that points to the slot it stands for.
unfoldable pub linked : {V : Type 0} → V → List (Cell V) → List OpenUpvalue → Bool
unfolding points_to
linked nil cells [] = true
linked nil cells (u ∷ us) =
    ltb u.cell (length cells)
    && points_to (get_or cells u.cell (closed nil)) u.slot
    && linked nil cells us

-- Whether a chain is empty or starts at a slot or above it.
unfoldable pub starts_from : ℕ → List OpenUpvalue → Bool
starts_from last [] = true
starts_from last (u ∷ us) = leb last u.slot

starts_from-next :
    (last : ℕ) (u : OpenUpvalue) (us : List OpenUpvalue)
    → leb last u.slot ≡ true
    → above u.slot us ≡ true
    → starts_from last us ≡ true
unfolding starts_from above
starts_from-next last u [] e high = refl
starts_from-next last u (w ∷ us) e high = ground (arith, ltb→lt u.slot w.slot)

module _ {V : Type 0} where
  -- A cell that is closed reads the same and stays closed when another is closed.
  closed-set :
      (nil : V) (values : List V) (cells : List (Cell V)) (d c : ℕ) (v : V)
      → c < length cells
      → get_or cells c (closed nil) ≡ closed v
      → get_or
          (set cells d (closed (read_cell nil values (get_or cells d (closed nil)))))
          c
          (closed nil)
        ≡ closed v
  unfolding read_cell
  closed-set nil values cells d c v inside is_closed = elim (Bool-cases (d == c)) [
    | inl same ↦ ground (
      arith,
      ==_iff d c,
      is_closed,
      get_or-set_self cells d (closed (read_cell nil values (get_or cells d (closed nil))))
          (closed nil),
    )
    | inr other ↦ ground (
      arith,
      ==_iff d c,
      is_closed,
      get_or-set_ne cells d c (closed (read_cell nil values (get_or cells d (closed nil))))
          (closed nil),
    )
  ]

  close_from-closed :
      (nil : V) (last : ℕ) (values : List V) (us : List OpenUpvalue) (cells : List (Cell V)) (c : ℕ)
      (v : V)
      → c < length cells
      → get_or cells c (closed nil) ≡ closed v
      → get_or (close_from nil last values us cells).1 c (closed nil) ≡ closed v
  unfolding close_from
  close_from-closed nil last values [] cells c v inside is_closed = is_closed
  close_from-closed nil last values (u ∷ us) cells c v inside is_closed =
      let value = closed (read_cell nil values (get_or cells u.cell (closed nil))) in
      let cells' = set cells u.cell value in
      let same = length-set cells u.cell value in
      ground (
        arith,
        same,
        is_closed,
        close_from-closed nil last values us cells' c v (ground (arith, same, inside))
            (closed-set nil values cells u.cell c v inside is_closed),
      )

  points_to-injective : (c : Cell V) (a b : ℕ) → points_to c a ≡ true → points_to c b ≡ true → a ≡ b
  unfolding points_to
  points_to-injective (at_slot i) a b ea eb = ground (arith, ==_iff i a, ==_iff i b)
  points_to-injective (closed v) a b ea eb = ground arith

  pub points_to-read :
      (nil : V) (values : List V) (c : Cell V) (slot : ℕ)
      → points_to c slot ≡ true
      → read_cell nil values c ≡ get_or values slot nil
  unfolding points_to read_cell
  points_to-read nil values (at_slot i) slot e =
      let same : i ≡ slot = ground (arith, ==_iff i slot) in ap (λ j. get_or values j nil) same
  points_to-read nil values (closed v) slot e = ground arith

  -- A change to the cell of a lower slot keeps a chain linked.
  linked-set :
      (nil : V) (cells : List (Cell V)) (us : List OpenUpvalue) (d slot : ℕ) (new : Cell V)
      → points_to (get_or cells d (closed nil)) slot ≡ true
      → above slot us ≡ true
      → linked nil cells us ≡ true
      → linked nil (set cells d new) us ≡ true
  unfolding linked above
  linked-set nil cells [] d slot new here high linked_us = refl
  linked-set nil cells (u ∷ us) d slot new here high linked_us = ground (
    arith,
    linked-set nil cells us d slot new here,
    length-set cells d new,
    get_or-set_ne cells d u.cell new (closed nil),
    ltb→lt slot u.slot,
    points_to-injective (get_or cells d (closed nil)) slot u.slot here,
  )

  -- Where a chain in order starts at `last` or above it, all of it is closed, each upvalue with the
  -- value that its slot has.
  pub close_from-chain :
      (nil : V) (last : ℕ) (values : List V) (us : List OpenUpvalue) (cells : List (Cell V))
      → ascending us ≡ true
      → linked nil cells us ≡ true
      → starts_from last us ≡ true
      → (close_from nil last values us cells).0 ≡ []
  unfolding close_from ascending linked starts_from
  close_from-chain nil last values [] cells up linked_us from = refl
  close_from-chain nil last values (u ∷ us) cells up linked_us from =
      let cell = get_or cells u.cell (closed nil) in
      let value = closed (read_cell nil values cell) in
      ground (
        arith,
        starts_from-next last u us from,
        linked-set nil cells us u.cell u.slot value,
        close_from-chain nil last values us (set cells u.cell value),
      )

  pub close_from-value :
      (nil : V) (last : ℕ) (values : List V) (us : List OpenUpvalue) (cells : List (Cell V))
      (slot c : ℕ)
      → ascending us ≡ true
      → linked nil cells us ≡ true
      → starts_from last us ≡ true
      → find_open slot us ≡ some c
      → get_or (close_from nil last values us cells).1 c (closed nil)
        ≡ closed (get_or values slot nil)
  unfolding close_from ascending linked starts_from find_open
  close_from-value nil last values [] cells slot c up linked_us from found = ground arith
  close_from-value nil last values (u ∷ us) cells slot c up linked_us from found =
      let cell = get_or cells u.cell (closed nil) in
      let value = closed (read_cell nil values cell) in
      let cells' = set cells u.cell value in
      elim (Bool-cases (u.slot == slot)) [
        | inl here ↦
            let inside : u.cell < length cells = ground (arith, ltb→lt u.cell (length cells)) in
            let points : points_to cell u.slot ≡ true = ground arith in
            let old = read_cell nil values cell in
            let kept =
              close_from-closed nil last values us cells' u.cell old
                (ground (arith, inside, length-set cells u.cell value))
                (get_or-set_self cells u.cell value (closed nil) inside) in
            let same : u.slot ≡ slot = ground (arith, ==_iff u.slot slot) in
            let is_cell : u.cell ≡ c = ground arith in
            let reads = points_to-read nil values cell u.slot points in
            ground (arith, kept, same, is_cell, reads)
        | inr further ↦ ground (
          arith,
          starts_from-next last u us from,
          linked-set nil cells us u.cell u.slot value,
          close_from-value nil last values us cells' slot c,
        )
      ]

-- A machine whose chain is in order, with a cell at its slot for each member.
pub record IsValid {V : Type 0} (nil : V) (s : Upvalues V) : Type 0 where
  pub in_order : ascending s.open_upvals ≡ true
  pub all_linked : linked nil s.cells s.open_upvals ≡ true

module _ {V : Type 0} where
  -- Where the lowest open upvalue stands at `last` or above it, closing empties the chain, and each
  -- upvalue that was open reads the value that its slot had, whatever the stack holds afterwards.
  pub close_upvalues_upto_all :
      (nil : V) (last : ℕ) (s : Upvalues V)
      → IsValid nil s
      → starts_from last s.open_upvals ≡ true
      → let s' = close_upvalues_upto nil last s in
        (s'.open_upvals ≡ [])
        × ((slot c : ℕ) (later : List V)
            → find_open slot s.open_upvals ≡ some c
            → read_upvalue nil (record s' { values = later }) c ≡ get_or s.values slot nil)
  unfolding close_upvalues_upto read_upvalue
  close_upvalues_upto_all nil last s ok from = (
    close_from-chain nil last s.values s.open_upvals s.cells ok.in_order ok.all_linked from,
    λ slot c later found. ap (read_cell nil later) (
        close_from-value nil last s.values s.open_upvals s.cells slot c ok.in_order ok.all_linked
          from found),
  )

  pub find_open-linked :
      (nil : V) (cells : List (Cell V)) (us : List OpenUpvalue) (slot c : ℕ)
      → linked nil cells us ≡ true
      → find_open slot us ≡ some c
      → (c < length cells) × (points_to (get_or cells c (closed nil)) slot ≡ true)
  unfolding linked find_open
  find_open-linked nil cells [] slot c ok found = ground arith
  find_open-linked nil cells (u ∷ us) slot c ok found = elim (Bool-cases (u.slot == slot)) [
    | inl here ↦
        let same : u.slot ≡ slot = ground (arith, ==_iff u.slot slot) in
        let is_cell : u.cell ≡ c = ground arith in
        (ground (arith, is_cell, ltb→lt u.cell (length cells)), ground (arith, is_cell, same))
    | inr further ↦ find_open-linked nil cells us slot c (ground arith) (ground arith)
  ]

  close_from-below :
      (nil : V) (last low : ℕ) (values : List V) (us : List OpenUpvalue) (cells : List (Cell V))
      → low < last
      → starts_from (low + 1) us ≡ false
      → (close_from nil last values us cells).1 ≡ cells
  unfolding close_from starts_from
  close_from-below nil last low values [] cells less starts = refl
  close_from-below nil last low values (u ∷ us) cells less starts =
      ground (arith, leb→le last u.slot)

  -- Where the lowest open upvalue stands below `last`, an upvalue that is open at `last` or above it
  -- stays open: it goes on reading whatever the stack holds at its slot afterwards.
  pub close_upvalues_upto_none :
      (nil : V) (last slot c low : ℕ) (s : Upvalues V)
      → IsValid nil s
      → find_open slot s.open_upvals ≡ some c
      → last ≤ slot
      → low < last
      → starts_from (low + 1) s.open_upvals ≡ false
      → (later : List V)
      → read_upvalue nil (record (close_upvalues_upto nil last s) { values = later }) c
        ≡ get_or later slot nil
  unfolding close_upvalues_upto read_upvalue
  close_upvalues_upto_none nil last slot c low s ok found le less starts later =
      let (inside, points) =
        find_open-linked nil s.cells s.open_upvals slot c ok.all_linked found in
      let same = close_from-below nil last low s.values s.open_upvals s.cells less starts in
      ap (λ cells. read_cell nil later (get_or cells c (closed nil))) same
      ∙ points_to-read nil later (get_or s.cells c (closed nil)) slot points
