-- ===== src/Runtime/Elements.antt =====
-- What a list object holds after its operations: src/list.cpp and src/stdlib/vy_list.cpp.
use bad_snap.Common.{
  ℕ, zero, suc, ◌+◌, ◌-◌, ◌*◌, ◌%◌, ◌^◌, ◌≤◌, ◌<◌, ◌≡◌, inl, inr, refl, sym, ap, ◌∙◌, some, List,
  [], ◌∷◌, ◌++◌, leb, lt→ltb, leb→le, le→leb, Bool-cases, length, length-append, length-replicate,
  get_elem?, get_elem?-last, take-append_length, take-suc-drop, get_elem?_inside, append_nil,
  append_assoc, take, drop, replicate, arith,
}
use bad_snap.Runtime.PowTwo.{pow2ceil, pow2ceil_ge}
use bad_snap.Runtime.Lists.{
  ListObj, new_list, list_of, num_entries, ensure_capacity, append, pop, slice_from, slice,
}

-- The buffer always has room for one more entry.
unfoldable pub HasRoom : {V : Type 0} → ListObj V → Type 0
HasRoom l = num_entries l < l.capacity

module _ {V : Type 0} where
  with_last : List V → V → ℕ → ListObj V
  with_last vs v c = record { capacity = c; values = vs ++ v ∷ [] }

  append_total :
      (v : V) (l : ListObj V)
      → HasRoom l
      → (c : ℕ) × (append v l ≡ some (with_last l.values v c)) × HasRoom (with_last l.values v c)
  unfolding append ensure_capacity HasRoom with_last
  append_total v l room =
      let longer = length-append l.values (v ∷ []) in
      elim (Bool-cases (leb l.capacity (num_entries l + 1))) [
        | inl full ↦ (
          l.capacity * 2,
          ground (arith, lt→ltb (length l.values) (l.capacity * 2)),
          ground (arith, longer, leb→le l.capacity (num_entries l + 1)),
        )
        | inr free ↦ (
          l.capacity,
          ground (arith, lt→ltb (length l.values) l.capacity),
          ground (arith, longer),
        )
      ]

  pop-last :
      (nil v : V) (vs : List V) (c : ℕ)
      → pop nil (with_last vs v c) ≡ (v, record { capacity = c; values = vs })
  unfolding pop with_last
  pop-last nil v vs c =
      let longer = length-append vs (v ∷ []) in
      let one_less : length (vs ++ v ∷ []) - 1 ≡ length vs = omega arith in
      ground (
        arith,
        one_less,
        longer,
        lt→ltb 0 (length (vs ++ v ∷ [])),
        get_elem?-last vs v,
        take-append_length vs (v ∷ []),
      )

  -- An entry appended to a list with room is written inside the buffer, leaves room for the next,
  -- and comes after the entries that were there; a `pop` gives it back and leaves these.
  pub append-pop :
      (nil v : V) (l : ListObj V)
      → HasRoom l
      → (l' : ListObj V) × (append v l ≡ some l')
        × HasRoom l'
        × ((pop nil l').0 ≡ v)
        × ((pop nil l').1.values ≡ l.values)
  append-pop nil v l room =
      let (c, appended, room') = append_total v l room in
      (
        with_last l.values v c,
        appended,
        room',
        ap (λ r. r.0) (pop-last nil v l.values c),
        ap (λ r. r.1.values) (pop-last nil v l.values c),
      )

  slice_from_step :
      (n i : ℕ) (values vs : List V) (v : V) (c : ℕ)
      → get_elem? values i ≡ some v
      → (with_last vs v c).values ++ take n (drop (i + 1) values)
        ≡ vs ++ take (suc n) (drop i values)
  unfolding with_last
  slice_from_step n i values vs v c at = ground (
    arith,
    take-suc-drop n i values v at,
    append_assoc vs (v ∷ []) (take n (drop (i + 1) values)),
  )

  slice_from_lem :
      (n i : ℕ) (values : List V) (s : ListObj V)
      → i + n ≤ length values
      → HasRoom s
      → (r : ListObj V) × (slice_from n i values s ≡ some r)
        × (r.values ≡ s.values ++ take n (drop i values))
  unfolding slice_from
  slice_from_lem zero i values s inside room = (s, refl, sym (append_nil s.values))
  slice_from_lem (suc n) i values s inside room =
      let (v, at) = get_elem?_inside i values (omega arith) in
      let (c, appended, room') = append_total v s room in
      let (r, done, holds) =
        slice_from_lem n (i + 1) values (with_last s.values v c) (omega arith) room' in
      (r, ground (arith, at, appended, done), holds ∙ slice_from_step n i values s.values v c at)

  -- A slice with both ends in range holds the entries from the first to the last of them.
  pub slice_lem :
      (start limit : ℕ) (l : ListObj V)
      → start < num_entries l
      → limit < num_entries l
      → (r : ListObj V) × (slice start limit l ≡ some r)
        × (r.values ≡ take (limit + 1 - start) (drop start l.values))
  unfolding slice new_list HasRoom
  slice_lem start limit l from inside =
      slice_from_lem (limit + 1 - start) start l.values new_list (omega arith) (omega arith)

  list_of_step :
      (nil : V) (mincap : ℕ)
      → mincap < pow2ceil ((mincap + 1) % 2 ^ 32)
      → list_of nil mincap
        ≡ some
            (record { capacity = pow2ceil ((mincap + 1) % 2 ^ 32); values = replicate mincap nil })
  unfolding list_of
  list_of_step nil mincap room = ground (arith, le→leb mincap (pow2ceil ((mincap + 1) % 2 ^ 32)))

  -- A list made for up to 2 ^ 31 - 1 entries has them inside its buffer, with room for one more.
  pub list_of_total :
      (nil : V) (mincap : ℕ)
      → mincap + 1 ≤ 2 ^ 31
      → (l : ListObj V) × (list_of nil mincap ≡ some l) × HasRoom l × (num_entries l ≡ mincap)
  unfolding list_of HasRoom
  list_of_total nil mincap small =
      let asked = (mincap + 1) % 2 ^ 32 in
      let (ge, most) = pow2ceil_ge asked (omega arith) in
      let count = length-replicate mincap nil in
      let room : mincap < pow2ceil asked = omega arith in
      (
        record { capacity = pow2ceil asked; values = replicate mincap nil },
        list_of_step nil mincap room,
        omega arith,
        count,
      )
