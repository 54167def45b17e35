-- ===== src/Runtime/Held/Listed.antt =====
-- What the collector of src/runtime/gc.cpp marks is what the roots and the objects hold.
use bad_snap.Common.{
  ℕ, ◌≡◌, ◌≢◌, ◌⊎◌, inl, inr, refl, sym, ap, ◌∙◌, Bool, true, false, ◌||◌, Option, none, some, List,
  [], ◌∷◌, ◌++◌, ◌==◌, ==_iff, Bool-cases, arith,
}
use bad_snap.Runtime.Collector.{
  Body, string_body, codeblock_body, closure_body, c_closure_body, upvalue_body, table_body,
  list_body, user_data_body, marked_by, marked_by_all, trace_entries, trace_object, listed,
}
use bad_snap.Runtime.Sweep.{Roots, pointers, global_roots, root_list}
use bad_snap.Table.{Entry, is_entry_free, is_entry_dead}
use bad_snap.Value.{Value, object, nil, undefined, is_nil, is_undefined}
use bad_snap.Runtime.Held.{
  In, IsAt, Holds, HoldsEntry, Refers, HoldsGlobal, Rooted, on_stack, in_frame, open_upval,
  protected, global, prototype, compiling,
}

-- What is listed of pointers, one way and the other.
pub listed-append :
    (b : ℕ) (ps qs : List (Option ℕ)) → listed b (ps ++ qs) ≡ (listed b ps || listed b qs)
unfolding listed
listed-append b [] qs = refl
listed-append b (none ∷ ps) qs = listed-append b ps qs
listed-append b (some c ∷ ps) qs = ground (arith, listed-append b ps qs)

listed_cons :
    (b : ℕ) (p : Option ℕ) (ps : List (Option ℕ))
    → (p ≡ some b) ⊎ (listed b ps ≡ true)
    → listed b (p ∷ ps) ≡ true
unfolding listed
listed_cons b p ps (inl e) = rw e (ground (arith, ==_iff b b))
listed_cons b none ps (inr h) = h
listed_cons b (some c) ps (inr h) = ground (arith, h)

cons_listed :
    (b : ℕ) (p : Option ℕ) (ps : List (Option ℕ))
    → listed b (p ∷ ps) ≡ true
    → (p ≡ some b) ⊎ (listed b ps ≡ true)
unfolding listed
cons_listed b none ps h = inr h
cons_listed b (some c) ps h = elim (Bool-cases (b == c)) [
  | inl e ↦ inl (ap some (ground (arith, ==_iff b c)))
  | inr e ↦ inr (ground (arith, h, e))
]

pub listed-In : (b : ℕ) (ps : List (Option ℕ)) → In (some b) ps → listed b ps ≡ true
listed-In b [] i = absurd i
listed-In b (p ∷ ps) (inl e) = listed_cons b p ps (inl e)
listed-In b (p ∷ ps) (inr i) = listed_cons b p ps (inr (listed-In b ps i))

pub In-listed : (b : ℕ) (ps : List (Option ℕ)) → listed b ps ≡ true → In (some b) ps
unfolding listed
In-listed b [] h = ground arith
In-listed b (p ∷ ps) h = elim (cons_listed b p ps h) [
  | inl e ↦ inl e
  | inr k ↦ inr (In-listed b ps k)
]

only : (b : ℕ) (p : Option ℕ) → listed b (p ∷ []) ≡ true → p ≡ some b
only b p h = elim (cons_listed b p [] h) [ inl e ↦ e | inr k ↦ absurd (In-listed b [] k) ]

some_injective : {A : Type 0} (a b : A) → some a ≡ some b → a ≡ b
some_injective {A = A} a b e = ap (λ (o : Option A). elim o [ none ↦ a | some x ↦ x ]) e

neither : (c d : Bool) → (c || d) ≡ false → (c ≡ false) × (d ≡ false)
neither c d h = ground (arith, h)

either : (c d : Bool) → (c || d) ≡ true → (c ≡ true) ⊎ (d ≡ true)
either true d h = inl refl
either false d h = inr h

either_left : (c d : Bool) → c ≡ true → (c || d) ≡ true
either_left c d h = ground (arith, h)

either_right : (c d : Bool) → d ≡ true → (c || d) ≡ true
either_right c d h = ground (arith, h)

listed-pointers : (b : ℕ) (as' : List ℕ) → In b as' → listed b (pointers as') ≡ true
unfolding pointers
listed-pointers b [] i = absurd i
listed-pointers b (a ∷ as') (inl e) = listed_cons b _ _ (inl (ap some e))
listed-pointers b (a ∷ as') (inr i) = listed_cons b _ _ (inr (listed-pointers b as' i))

pointers-listed : (b : ℕ) (as' : List ℕ) → listed b (pointers as') ≡ true → In b as'
unfolding pointers listed
pointers-listed b [] h = ground arith
pointers-listed b (a ∷ as') h = elim (cons_listed b (some a) (pointers as') h) [
  | inl e ↦ inl (some_injective a b e)
  | inr k ↦ inr (pointers-listed b as' k)
]

-- The list of the roots, one part after the other.
first : (b : ℕ) (ps qs : List (Option ℕ)) → listed b ps ≡ true → listed b (ps ++ qs) ≡ true
first b ps qs h = listed-append b ps qs ∙ either_left _ _ h

later : (b : ℕ) (ps qs : List (Option ℕ)) → listed b qs ≡ true → listed b (ps ++ qs) ≡ true
later b ps qs h = listed-append b ps qs ∙ either_right _ _ h

parted :
    (b : ℕ) (ps qs : List (Option ℕ))
    → listed b (ps ++ qs) ≡ true
    → (listed b ps ≡ true) ⊎ (listed b qs ≡ true)
parted b ps qs h = either _ _ (sym (listed-append b ps qs) ∙ h)

module _ {N : Type 0} where
  marked_by-IsAt : (b : ℕ) (v : Value N) → IsAt b v → marked_by v ≡ some b
  unfolding marked_by
  marked_by-IsAt b v (o, e, same) = rw e (ap some same)

  IsAt-marked_by : (b : ℕ) (v : Value N) → marked_by v ≡ some b → IsAt b v
  unfolding marked_by
  IsAt-marked_by b (object o) e = (o, refl, some_injective o.addr b e)
  IsAt-marked_by b _ e = ground (arith, e)

  listed-Holds : (b : ℕ) (vs : List (Value N)) → Holds b vs → listed b (marked_by_all vs) ≡ true
  unfolding marked_by_all
  listed-Holds b [] h = absurd h
  listed-Holds b (v ∷ vs) (inl e) = listed_cons b _ _ (inl (marked_by-IsAt b v e))
  listed-Holds b (v ∷ vs) (inr h) = listed_cons b _ _ (inr (listed-Holds b vs h))

  Holds-listed : (b : ℕ) (vs : List (Value N)) → listed b (marked_by_all vs) ≡ true → Holds b vs
  unfolding marked_by_all listed
  Holds-listed b [] h = ground arith
  Holds-listed b (v ∷ vs) h = elim (cons_listed b (marked_by v) (marked_by_all vs) h) [
    | inl e ↦ inl (IsAt-marked_by b v e)
    | inr k ↦ inr (Holds-listed b vs k)
  ]

  not_free : (e : Entry N) → e.key ≢ nil → is_entry_free e ≡ false
  unfolding is_entry_free is_nil
  not_free e ne = keyed e.key ne
    where
      keyed : (v : Value N) → v ≢ nil → is_nil v ≡ false
      keyed nil ne = absurd (ne refl)
      keyed _ ne = refl

  not_dead : (e : Entry N) → e.key ≢ undefined → is_entry_dead e ≡ false
  unfolding is_entry_dead is_undefined
  not_dead e ne = keyed e.key ne
    where
      keyed : (v : Value N) → v ≢ undefined → is_undefined v ≡ false
      keyed undefined ne = absurd (ne refl)
      keyed _ ne = refl

  is_used : (e : Entry N) → is_entry_free e ≡ false → e.key ≢ nil
  unfolding is_entry_free is_nil
  is_used e h k = ground (arith, h, k)

  is_live : (e : Entry N) → is_entry_dead e ≡ false → e.key ≢ undefined
  unfolding is_entry_dead is_undefined
  is_live e h k = ground (arith, h, k)

  listed-HoldsEntry :
      (b : ℕ) (es : List (Entry N)) → HoldsEntry b es → listed b (trace_entries es) ≡ true
  unfolding trace_entries
  listed-HoldsEntry b [] h = absurd h
  listed-HoldsEntry b (e ∷ es) (inl (used, live, inl k)) =
      rw (not_free e used, not_dead e live) (listed_cons b _ _ (inl (marked_by-IsAt b e.key k)))
  listed-HoldsEntry b (e ∷ es) (inl (used, live, inr k)) =
      rw (not_free e used, not_dead e live)
        (listed_cons b _ _ (inr (listed_cons b _ _ (inl (marked_by-IsAt b e.value k)))))
  listed-HoldsEntry b (e ∷ es) (inr h) = elim (Bool-cases (is_entry_free e || is_entry_dead e)) [
    | inl skip ↦ rw skip (listed-HoldsEntry b es h)
    | inr used ↦
        rw used (listed_cons b _ _ (inr (listed_cons b _ _ (inr (listed-HoldsEntry b es h)))))
  ]

  HoldsEntry-listed :
      (b : ℕ) (es : List (Entry N)) → listed b (trace_entries es) ≡ true → HoldsEntry b es
  unfolding trace_entries listed
  HoldsEntry-listed b [] h = ground arith
  HoldsEntry-listed b (e ∷ es) h = elim (Bool-cases (is_entry_free e || is_entry_dead e)) [
    | inl skip ↦ inr (HoldsEntry-listed b es (rw skip at h))
    | inr used ↦
        let (free, dead) = neither (is_entry_free e) (is_entry_dead e) used in
        let in_use : (e.key ≢ nil) × (e.key ≢ undefined) = (is_used e free, is_live e dead) in
        elim (cons_listed b (marked_by e.key) (marked_by e.value ∷ trace_entries es)
          (rw used at h)) [
            | inl k ↦ inl (in_use.0, in_use.1, inl (IsAt-marked_by b e.key k))
            | inr rest ↦ elim (cons_listed b (marked_by e.value) (trace_entries es) rest) [
              | inl k ↦ inl (in_use.0, in_use.1, inr (IsAt-marked_by b e.value k))
              | inr more ↦ inr (HoldsEntry-listed b es more)
            ]
          ]
  ]

  -- The collector traces what an object refers to, and no more.
  pub listed-Refers : (x : Body N) (b : ℕ) → Refers x b → listed b (trace_object x) ≡ true
  unfolding trace_object Refers
  listed-Refers string_body b h = absurd h
  listed-Refers (codeblock_body name constants) b (inl e) = listed_cons b _ _ (inl e)
  listed-Refers (codeblock_body name constants) b (inr h) =
      listed_cons b _ _ (inr (listed-Holds b constants h))
  listed-Refers (closure_body upvals codeblock) b (inl i) =
      listed-append b upvals (some codeblock ∷ []) ∙ either_left _ _ (listed-In b upvals i)
  listed-Refers (closure_body upvals codeblock) b (inr e) =
      listed-append b upvals (some codeblock ∷ [])
      ∙ either_right _ _ (listed_cons b _ _ (inl (ap some e)))
  listed-Refers (c_closure_body values) b e = listed_cons b _ _ (inl e)
  listed-Refers (upvalue_body v) b e = listed_cons b _ _ (inl (marked_by-IsAt b v e))
  listed-Refers (table_body proto_table es) b h = listed-HoldsEntry b es h
  listed-Refers (list_body vs) b h = listed-Holds b vs h
  listed-Refers (user_data_body indexer proto custom) b (inl e) = listed_cons b _ _ (inl e)
  listed-Refers (user_data_body indexer proto custom) b (inr i) =
      listed_cons b _ _ (inr (listed-In b custom i))

  pub Refers-listed : (x : Body N) (b : ℕ) → listed b (trace_object x) ≡ true → Refers x b
  unfolding trace_object Refers
  Refers-listed string_body b h = In-listed b [] h
  Refers-listed (codeblock_body name constants) b h =
      elim (cons_listed b name (marked_by_all constants) h) [
        | inl e ↦ inl e
        | inr k ↦ inr (Holds-listed b constants k)
      ]
  Refers-listed (closure_body upvals codeblock) b h =
      elim (either _ _ (sym (listed-append b upvals (some codeblock ∷ [])) ∙ h)) [
        | inl k ↦ inl (In-listed b upvals k)
        | inr k ↦ inr (some_injective codeblock b (only b (some codeblock) k))
      ]
  Refers-listed (c_closure_body values) b h = only b values h
  Refers-listed (upvalue_body v) b h = IsAt-marked_by b v (only b (marked_by v) h)
  Refers-listed (table_body proto_table es) b h = HoldsEntry-listed b es h
  Refers-listed (list_body vs) b h = Holds-listed b vs h
  Refers-listed (user_data_body indexer proto custom) b h = elim (cons_listed b proto custom h) [
    | inl e ↦ inl e
    | inr k ↦ inr (In-listed b custom k)
  ]

  listed-HoldsGlobal :
      (b : ℕ) (gs : List (ℕ × Value N)) → HoldsGlobal b gs → listed b (global_roots gs) ≡ true
  unfolding global_roots
  listed-HoldsGlobal b [] h = absurd h
  listed-HoldsGlobal b ((name, v) ∷ gs) (inl (inl e)) = listed_cons b _ _ (inl (ap some e))
  listed-HoldsGlobal b ((name, v) ∷ gs) (inl (inr k)) =
      listed_cons b _ _ (inr (listed_cons b _ _ (inl (marked_by-IsAt b v k))))
  listed-HoldsGlobal b ((name, v) ∷ gs) (inr h) =
      listed_cons b _ _ (inr (listed_cons b _ _ (inr (listed-HoldsGlobal b gs h))))

  HoldsGlobal-listed :
      (b : ℕ) (gs : List (ℕ × Value N)) → listed b (global_roots gs) ≡ true → HoldsGlobal b gs
  unfolding global_roots listed
  HoldsGlobal-listed b [] h = ground arith
  HoldsGlobal-listed b ((name, v) ∷ gs) h =
      elim (cons_listed b (some name) (marked_by v ∷ global_roots gs) h) [
        | inl e ↦ inl (inl (some_injective name b e))
        | inr rest ↦ elim (cons_listed b (marked_by v) (global_roots gs) rest) [
          | inl k ↦ inl (inr (IsAt-marked_by b v k))
          | inr more ↦ inr (HoldsGlobal-listed b gs more)
        ]
      ]

  abbrev primitives : Roots N → List ℕ
  primitives r =
      r.prototypes.string ∷ r.prototypes.number ∷ r.prototypes.boolean ∷ r.prototypes.list ∷ []

  primitive :
      (r : Roots N) (b : ℕ)
      → (r.prototypes.string ≡ b)
        ⊎ ((r.prototypes.number ≡ b) ⊎ ((r.prototypes.boolean ≡ b) ⊎ (r.prototypes.list ≡ b)))
      → In b (primitives r)
  primitive r b (inl e) = inl e
  primitive r b (inr (inl e)) = inr (inl e)
  primitive r b (inr (inr (inl e))) = inr (inr (inl e))
  primitive r b (inr (inr (inr e))) = inr (inr (inr (inl e)))

  primitive_of : (r : Roots N) (b : ℕ) → In b (primitives r) → Rooted r b
  primitive_of r b (inl e) = prototype (inl e)
  primitive_of r b (inr (inl e)) = prototype (inr (inl e))
  primitive_of r b (inr (inr (inl e))) = prototype (inr (inr (inl e)))
  primitive_of r b (inr (inr (inr (inl e)))) = prototype (inr (inr (inr e)))
  primitive_of r b (inr (inr (inr (inr e)))) = absurd e

  pub listed-Rooted : (r : Roots N) (b : ℕ) → Rooted r b → listed b (root_list r) ≡ true
  unfolding root_list
  listed-Rooted r b (on_stack h) = first b _ _ (
      first b _ _
        (first b _ _ (first b _ _ (first b _ _ (first b _ _ (listed-Holds b r.stack h))))))
  listed-Rooted r b (in_frame i) = first b _ _ (
      first b _ _
        (first b _ _ (first b _ _ (first b _ _ (later b _ _ (listed-pointers b r.frames i))))))
  listed-Rooted r b (open_upval i) =
      first b _ _
        (first b _ _ (first b _ _ (first b _ _ (later b _ _ (listed-pointers b r.open_upvals i)))))
  listed-Rooted r b (protected i) =
      first b _ _ (first b _ _ (first b _ _ (later b _ _ (listed-pointers b r.extra_roots i))))
  listed-Rooted r b (global h) =
      first b _ _ (first b _ _ (later b _ _ (listed-HoldsGlobal b r.global_vars h)))
  listed-Rooted r b (prototype e) =
      first b _ _ (later b _ _ (listed-pointers b (primitives r) (primitive r b e)))
  listed-Rooted r b (compiling i) = later b _ _ (listed-pointers b r.compilers i)

  pub Rooted-listed : (r : Roots N) (b : ℕ) → listed b (root_list r) ≡ true → Rooted r b
  unfolding root_list
  Rooted-listed r b h = elim (parted b _ (pointers r.compilers) h) [
    | inr k ↦ compiling (pointers-listed b r.compilers k)
    | inl h ↦ elim (parted b _ (pointers (primitives r)) h) [
      | inr k ↦ primitive_of r b (pointers-listed b (primitives r) k)
      | inl h ↦ elim (parted b _ (global_roots r.global_vars) h) [
        | inr k ↦ global (HoldsGlobal-listed b r.global_vars k)
        | inl h ↦ elim (parted b _ (pointers r.extra_roots) h) [
          | inr k ↦ protected (pointers-listed b r.extra_roots k)
          | inl h ↦ elim (parted b _ (pointers r.open_upvals) h) [
            | inr k ↦ open_upval (pointers-listed b r.open_upvals k)
            | inl h ↦ elim (parted b (marked_by_all r.stack) (pointers r.frames) h) [
              | inr k ↦ in_frame (pointers-listed b r.frames k)
              | inl k ↦ on_stack (Holds-listed b r.stack k)
            ]
          ]
        ]
      ]
    ]
  ]
