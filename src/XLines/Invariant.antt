-- ===== src/XLines/Invariant.antt =====
-- The lists of src/operserv.cpp hold no freed entry: what `AddXLine`, `DelXLine` and `Clear` keep.
use anope.Base.{
  ℕ, ◌≡◌, refl, sym, ◌∙◌, ◌≢◌, inl, inr, true, false, Option, none, some, List, [], ◌∷◌, ◌++◌,
  arith, Bytes, if◌then◌else◌, Bool-cases, All, append-All,
}
use anope.Text.{is_empty}
use anope.XLines.{XLine, World, ok, update, put_uid, forget, is_in, remove, add, del, send_del}
use anope.XLines.Heap.{
  update_self, update_ne, Absent, Distinct, All-remove, remove-Distinct, remove-Absent, Keyed,
  All-erase_uid, is_in-Absent, put_uid-Keyed, update-Keyed, forget-Keyed,
}

-- An entry of the list is alive and belongs to the manager.
abbrev pub Owned : ℕ → (ℕ → Option XLine) → ℕ → Type 0
Owned me heap p = (x : XLine) × (heap p ≡ some x) × (x.manager ≡ some me)

pub record IsValid (w : World) : Type 0 where
  pub distinct : Distinct w.lines
  pub owned : All (Owned w.me w.heap) w.lines
  pub keyed : All (Keyed w.heap) w.by_uid

pub update-Owned :
    (me : ℕ) (heap : ℕ → Option XLine) (p : ℕ) (v : Option XLine) (ps : List ℕ)
    → Absent p ps
    → All (Owned me heap) ps
    → All (Owned me (update heap p v)) ps
update-Owned me heap p v [] a h = tt
update-Owned me heap p v (q ∷ ps) (ne, a) ((x, alive, m), h) =
    ((x, update_ne heap p q v ne ∙ alive, m), update-Owned me heap p v ps a h)

Distinct-snoc : (p : ℕ) (ps : List ℕ) → Absent p ps → Distinct ps → Distinct (ps ++ p ∷ [])
Distinct-snoc p [] a d = (tt, tt)
Distinct-snoc p (q ∷ ps) (ne, a) (dq, d) =
    (append-All (λ r. r ≢ q) ps (p ∷ []) dq ((λ e. ne (sym e)), tt), Distinct-snoc p ps a d)

-- Adding an entry that is alive and not in the list succeeds and keeps the manager valid.
pub add-IsValid :
    (w : World) (p : ℕ) {x : XLine}
    → IsValid w
    → w.heap p ≡ some x
    → Absent p w.lines
    → (w' : World) × (add p w ≡ ok w') × IsValid w' × (w'.lines ≡ w.lines ++ p ∷ [])
unfolding add
add-IsValid w p {x} v alive a =
    let x' : XLine = record x { manager = some w.me } in
    let heap' = update w.heap p (some x') in
    (
      record w {
        heap = heap';
        by_uid = if is_empty x.uid then w.by_uid else put_uid x.uid p w.by_uid;
        lines = w.lines ++ p ∷ [];
      },
      rw (alive, add),
      record {
        distinct = Distinct-snoc p w.lines a v.distinct;
        owned =
            append-All _ w.lines (p ∷ []) (update-Owned w.me w.heap p (some x') w.lines a v.owned)
              ((x', update_self w.heap p (some x'), refl), tt);
        keyed =
            let old = update-Keyed w.heap p x x' w.by_uid alive refl v.keyed in
            elim (Bool-cases (is_empty x.uid)) [
              | inl e ↦ rw e old
              | inr e ↦
                  rw e (put_uid-Keyed heap' p x' w.by_uid (update_self w.heap p (some x')) e old)
            ];
      },
      refl,
    )

-- The manager after an entry of its list was deleted.
abbrev pub without : ℕ → XLine → World → World
without p x w = record w {
  heap = update w.heap p none;
  by_uid = forget x w.by_uid;
  lines = remove p w.lines;
  calls = w.calls ++ send_del p ∷ [];
}

pub without-IsValid :
    (w : World) (p : ℕ) (x : XLine) → IsValid w → w.heap p ≡ some x → IsValid (without p x w)
without-IsValid w p x v alive = record {
  distinct = remove-Distinct p w.lines v.distinct;
  owned =
      update-Owned w.me w.heap p none (remove p w.lines) (remove-Absent p w.lines v.distinct)
        (All-remove (Owned w.me w.heap) p w.lines v.owned);
  keyed = forget-Keyed w.heap p x w.by_uid alive v.keyed;
}

pub del_lem :
    (w : World) (p : ℕ) {x : XLine}
    → w.heap p ≡ some x
    → is_in p w.lines ≡ true
    → del p w ≡ ok (true, without p x w)
unfolding del
del_lem w p alive inside = rw (alive, del) (rw inside)

forget-Keyed_alive :
    (heap : ℕ → Option XLine) (x : XLine) (m : List (Bytes × ℕ))
    → All (Keyed heap) m
    → All (Keyed heap) (forget x m)
unfolding forget
forget-Keyed_alive heap x m h = elim (Bool-cases (is_empty x.uid)) [
  | inl e ↦ rw e h
  | inr e ↦ rw e (All-erase_uid (Keyed heap) x.uid m h)
]

-- Deleting an entry that is alive succeeds, keeps the manager valid, tells whether the entry was in
-- the list, and leaves it out of the list.
pub del-IsValid :
    (w : World) (p : ℕ) {x : XLine}
    → IsValid w
    → w.heap p ≡ some x
    → (w' : World) × (del p w ≡ ok (is_in p w.lines, w')) × IsValid w' × (is_in p w'.lines ≡ false)
unfolding del
del-IsValid w p {x} v alive = elim (Bool-cases (is_in p w.lines)) [
  | inl e ↦ (
    without p x w,
    rw e (del_lem w p alive e),
    without-IsValid w p x v alive,
    is_in-Absent p (remove p w.lines) (remove-Absent p w.lines v.distinct),
  )
  | inr e ↦ (
    record w { by_uid = forget x w.by_uid },
    ground (arith, alive, e),
    record {
      distinct = v.distinct;
      owned = v.owned;
      keyed = forget-Keyed_alive w.heap x w.by_uid v.keyed;
    },
    e,
  )
]
