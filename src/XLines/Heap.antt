-- ===== src/XLines/Heap.antt =====
-- The heap and the map by unique id of src/operserv.cpp under writes and deletions.
use anope.Base.{
  ℕ, ◌≡◌, refl, ap, ◌∙◌, ◌≢◌, inl, inr, true, false, Option, none, some, List, [], ◌∷◌, arith,
  Bytes, ◌==◌, ==_iff, Bool-cases, All, ℕ_discrete,
}
use anope.Text.{equals_ci, is_empty}
use anope.Text.Order.{equals_ci_refl}
use anope.XLines.{XLine, update, put_uid, erase_uid, forget, is_in, remove}

pub update_self : (heap : ℕ → Option XLine) (p : ℕ) (v : Option XLine) → update heap p v p ≡ v
unfolding update
update_self heap p v = ground arith

pub update_ne :
    (heap : ℕ → Option XLine) (p q : ℕ) (v : Option XLine) → q ≢ p → update heap p v q ≡ heap q
unfolding update
update_ne heap p q v h = ground arith

pub update_gone :
    (heap : ℕ → Option XLine) (p q : ℕ) {y : XLine} → update heap p none q ≡ some y → q ≢ p
unfolding update
update_gone heap p q a = ground arith

pub same_line :
    (heap : ℕ → Option XLine) {p q : ℕ} {x y : XLine}
    → heap p ≡ some x
    → heap q ≡ some y
    → q ≡ p
    → x ≡ y
same_line heap e k s = cc

-- The pointer `p` is not in the list.
abbrev pub Absent : ℕ → List ℕ → Type 0
Absent p = All λ q. q ≢ p

-- No pointer stands in the list twice.
abbrev pub Distinct : List ℕ → Type 0
Distinct [] = Unit {0}
Distinct (p ∷ ps) = Absent p ps × Distinct ps

pub All-remove {ℓ} : (P : ℕ → Type ℓ) (p : ℕ) (ps : List ℕ) → All P ps → All P (remove p ps)
unfolding remove
All-remove P p [] h = tt
All-remove P p (q ∷ ps) h = elim (Bool-cases (q == p)) [
  | inl e ↦ rw (e, remove) h.1
  | inr e ↦ rw (e, remove) (h.0, All-remove P p ps h.1)
]

pub remove-Distinct : (p : ℕ) (ps : List ℕ) → Distinct ps → Distinct (remove p ps)
unfolding remove
remove-Distinct p [] h = tt
remove-Distinct p (q ∷ ps) h = elim (Bool-cases (q == p)) [
  | inl e ↦ rw (e, remove) h.1
  | inr e ↦ rw (e, remove) (All-remove (λ r. r ≢ q) p ps h.0, remove-Distinct p ps h.1)
]

pub remove-Absent : (p : ℕ) (ps : List ℕ) → Distinct ps → Absent p (remove p ps)
unfolding remove
remove-Absent p [] h = tt
remove-Absent p (q ∷ ps) h = elim (Bool-cases (q == p)) [
  | inl e ↦ rw (e, remove) (rw (← (==_iff q p).0 e) h.0)
  | inr e ↦ rw (e, remove) ((λ k. ground arith), remove-Absent p ps h.1)
]

-- What the map points to is alive and has its key, but for case, as its id, which is not empty.
abbrev pub Keyed : (ℕ → Option XLine) → Bytes × ℕ → Type 0
Keyed heap (k, q) =
    (x : XLine) × (heap q ≡ some x) × (equals_ci k x.uid ≡ true) × (is_empty x.uid ≡ false)

pub All-erase_uid :
    (P : Bytes × ℕ → Type 0) (k : Bytes) (m : List (Bytes × ℕ)) → All P m → All P (erase_uid k m)
unfolding erase_uid
All-erase_uid P k [] h = tt
All-erase_uid P k ((j, q) ∷ m) h = elim (Bool-cases (equals_ci j k)) [
  | inl e ↦ rw (e, erase_uid) (All-erase_uid P k m h.1)
  | inr e ↦ rw (e, erase_uid) (h.0, All-erase_uid P k m h.1)
]

pub put_uid-Keyed :
    (heap : ℕ → Option XLine) (p : ℕ) (x : XLine) (m : List (Bytes × ℕ))
    → heap p ≡ some x
    → is_empty x.uid ≡ false
    → All (Keyed heap) m
    → All (Keyed heap) (put_uid x.uid p m)
unfolding put_uid
put_uid-Keyed heap p x [] e ne h = ((x, e, equals_ci_refl x.uid, ne), tt)
put_uid-Keyed heap p x ((j, q) ∷ m) e ne h = elim (Bool-cases (equals_ci j x.uid)) [
  | inl k ↦ rw (k, put_uid) ((x, e, k, ne), h.1)
  | inr k ↦ rw (k, put_uid) (h.0, put_uid-Keyed heap p x m e ne h.1)
]

pub update-Keyed :
    (heap : ℕ → Option XLine) (p : ℕ) (x x' : XLine) (m : List (Bytes × ℕ))
    → heap p ≡ some x
    → x'.uid ≡ x.uid
    → All (Keyed heap) m
    → All (Keyed (update heap p (some x'))) m
update-Keyed heap p x x' [] e u h = tt
update-Keyed heap p x x' ((j, q) ∷ m) e u ((y, alive, key, ne), h) = (
  elim (ℕ_discrete q p) [
    | yes same ↦
        let xy : x ≡ y = same_line heap e alive same in
        let w : x'.uid ≡ y.uid = u ∙ ap (λ (z : XLine). z.uid) xy in
        (x', rw same (update_self heap p (some x')), rw w key, rw w ne)
    | no other ↦ (y, update_ne heap p q (some x') other ∙ alive, key, ne)
  ],
  update-Keyed heap p x x' m e u h,
)

-- After an entry and the key of its id are gone, what the map points to is still alive.
pub forget-Keyed :
    (heap : ℕ → Option XLine) (p : ℕ) (x : XLine) (m : List (Bytes × ℕ))
    → heap p ≡ some x
    → All (Keyed heap) m
    → All (Keyed (update heap p none)) (forget x m)
unfolding forget erase_uid
forget-Keyed heap p x m e h = elim (Bool-cases (is_empty x.uid)) [
  | inl empty ↦ rw empty (kept m h empty)
  | inr full ↦ rw full (erased m h)
]
  where
    kept :
        (n : List (Bytes × ℕ))
        → All (Keyed heap) n
        → is_empty x.uid ≡ true
        → All (Keyed (update heap p none)) n
    kept [] h empty = tt
    kept ((j, q) ∷ n) ((y, alive, key, ne), h) empty = (
      (
        y,
        update_ne heap p q none (λ same.
              let xy : x ≡ y = same_line heap e alive same in
              let bad : is_empty x.uid ≡ false = ap (λ (z : XLine). is_empty z.uid) xy ∙ ne in cc)
            ∙ alive,
        key,
        ne,
      ),
      kept n h empty,
    )

    erased :
        (n : List (Bytes × ℕ))
        → All (Keyed heap) n
        → All (Keyed (update heap p none)) (erase_uid x.uid n)
    erased [] h = tt
    erased ((j, q) ∷ n) ((y, alive, key, ne), h) = elim (Bool-cases (equals_ci j x.uid)) [
      | inl k ↦ rw (k, erase_uid) (erased n h)
      | inr k ↦
          rw (k, erase_uid)
            (
              (
                y,
                update_ne heap p q none (λ same.
                      let xy : x ≡ y = same_line heap e alive same in
                      let bad : equals_ci j x.uid ≡ true =
                        ap (λ (z : XLine). equals_ci j z.uid) xy ∙ key in
                      cc)
                    ∙ alive,
                key,
                ne,
              ),
              erased n h,
            )
    ]

pub is_in-Absent : (p : ℕ) (ps : List ℕ) → Absent p ps → is_in p ps ≡ false
unfolding is_in
is_in-Absent p [] h = refl
is_in-Absent p (q ∷ ps) (ne, h) = ground (arith, is_in-Absent p ps h)
