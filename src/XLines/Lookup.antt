-- ===== src/XLines/Lookup.antt =====
-- `XLineManager::HasEntry` and `Clear` of src/operserv.cpp.
use anope.Base.{
  ℕ, ◌≡◌, refl, ◌⊎◌, inl, inr, true, false, Option, none, some, List, [], ◌∷◌, arith, Bytes,
  Bool-cases, Option-cases, All,
}
use anope.Text.{equals_ci}
use anope.Text.Order.{equals_ci_sym, equals_ci_trans}
use anope.XLines.{
  XLine, World, ok, update, lookup_uid, forget, is_in, find_mask, mine, has_entry, clear_loop,
  clear,
}
use anope.XLines.Heap.{Keyed, forget-Keyed}
use anope.XLines.Invariant.{Owned, IsValid, update-Owned}

-- What an answer of `HasEntry` says.
pub data Found (mask : Bytes) (w : World) (r : Option ℕ) : Type 0 where
  by_id :
      (q : ℕ) (x : XLine)
      → r ≡ some q
      → w.heap q ≡ some x
      → equals_ci mask x.uid ≡ true
      → mine w.me x.manager ≡ true
      → Found mask w r
  by_mask :
      (q : ℕ) (x : XLine)
      → r ≡ some q
      → is_in q w.lines ≡ true
      → w.heap q ≡ some x
      → equals_ci x.mask mask ≡ true
      → Found mask w r
  nothing :
      r ≡ none
      → All (λ q. (x : XLine) × (w.heap q ≡ some x) × (equals_ci x.mask mask ≡ false)) w.lines
      → Found mask w r

abbrev Scan : Bytes → (ℕ → Option XLine) → List ℕ → Option ℕ → Type 0
Scan mask heap ps r =
    ((q : ℕ) × (x : XLine) × (r ≡ some q)
      × (is_in q ps ≡ true)
      × (heap q ≡ some x)
      × (equals_ci x.mask mask ≡ true))
    ⊎ ((r ≡ none) × All (λ q. (x : XLine) × (heap q ≡ some x) × (equals_ci x.mask mask ≡ false)) ps)

find_mask-Scan :
    (me : ℕ) (heap : ℕ → Option XLine) (mask : Bytes) (ps : List ℕ)
    → All (Owned me heap) ps
    → (r : Option ℕ) × (find_mask heap mask ps ≡ ok r) × Scan mask heap ps r
unfolding find_mask is_in
find_mask-Scan me heap mask [] h = (none, refl, inr (refl, tt))
find_mask-Scan me heap mask (p ∷ ps) ((x, alive, m), h) =
    elim (Bool-cases (equals_ci x.mask mask)) [
      | inl e ↦ (some p, ground arith, inl (p, x, refl, ground arith, alive, e))
      | inr e ↦
          let (r, found, scan) = find_mask-Scan me heap mask ps h in
          (
            r,
            ground (arith, found),
            elim scan [
              | inl (q, y, er, k, a, s) ↦ inl (q, y, er, ground arith, a, s)
              | inr (er, rest) ↦ inr (er, ((x, alive, e), rest))
            ],
          )
    ]

lookup_uid-Keyed :
    (heap : ℕ → Option XLine) (k : Bytes) (m : List (Bytes × ℕ)) (q : ℕ)
    → All (Keyed heap) m
    → lookup_uid k m ≡ some q
    → (x : XLine) × (heap q ≡ some x) × (equals_ci k x.uid ≡ true)
unfolding lookup_uid
lookup_uid-Keyed heap k [] q h e = absurd (cc)
lookup_uid-Keyed heap k ((j, p) ∷ m) q ((x, alive, key, ne), h) e =
    elim (Bool-cases (equals_ci j k)) [
      | inl s ↦ (x, ground arith, equals_ci_trans k j x.uid (equals_ci_sym j k s) key)
      | inr s ↦ lookup_uid-Keyed heap k m q h (ground arith)
    ]

-- `HasEntry` on a valid manager touches no freed entry. It answers with the entry of that id that is
-- the manager's or nobody's, else with an entry of the list with that mask, and with none only if no
-- entry of the list has the mask.
pub has_entry_lem :
    (mask : Bytes) (w : World)
    → IsValid w
    → (r : Option ℕ) × (has_entry mask w ≡ ok r) × Found mask w r
unfolding has_entry
has_entry_lem mask w v = elim (Option-cases (lookup_uid mask w.by_uid)) [
  | inl e ↦ let (r, found, scan) = scanned in (r, ground (arith, found), from_scan r scan)
  | inr (q, e) ↦
      let (x, alive, key) = lookup_uid-Keyed w.heap mask w.by_uid q v.keyed e in
      elim (Bool-cases (mine w.me x.manager)) [
        | inl m ↦ (some q, ground arith, by_id q x refl alive key m)
        | inr m ↦ let (r, found, scan) = scanned in (r, ground (arith, found), from_scan r scan)
      ]
]
  where
    scanned : (r : Option ℕ) × (find_mask w.heap mask w.lines ≡ ok r) × Scan mask w.heap w.lines r
    scanned = find_mask-Scan w.me w.heap mask w.lines v.owned

    from_scan : (r : Option ℕ) → Scan mask w.heap w.lines r → Found mask w r
    from_scan r (inl (q, x, e, k, a, s)) = by_mask q x e k a s
    from_scan r (inr (e, rest)) = nothing e rest

clear_loop_lem :
    (ps : List ℕ) (w : World)
    → IsValid (record w { lines = ps })
    → (w' : World) × (clear_loop ps w ≡ ok w') × IsValid w' × (w'.lines ≡ [])
unfolding clear_loop
clear_loop_lem [] w v = (record w { lines = [] }, refl, v, refl)
clear_loop_lem (p ∷ ps) w v =
    let (x, alive, m) = v.owned.0 in
    let w₁ : World = record w { heap = update w.heap p none; by_uid = forget x w.by_uid } in
    let (w', e, v', l) = clear_loop_lem ps w₁ (record {
      distinct = v.distinct.1;
      owned = update-Owned w.me w.heap p none ps v.distinct.0 v.owned.1;
      keyed = forget-Keyed w.heap p x w.by_uid alive v.keyed;
    }) in
    (w', ground (arith, alive, e), v', l)

-- `Clear` on a valid manager touches no freed entry, and leaves a valid manager with no entries: the
-- map by id points to no entry that was deleted.
pub clear_lem :
    (w : World) → IsValid w → (w' : World) × (clear w ≡ ok w') × IsValid w' × (w'.lines ≡ [])
unfolding clear
clear_lem w v =
    clear_loop_lem w.lines w (record { distinct = v.distinct; owned = v.owned; keyed = v.keyed })
