-- ===== src/XLines/Reached.antt =====
-- What the operations of src/operserv.cpp make of a manager, in any order.
use anope.Base.{
  ℕ, ◌≡◌, sym, ap, ◌∙◌, ◌≢◌, Bool, false, Option, none, some, List, [], ◌∷◌, Bytes, none-some, All,
  subst,
}
use anope.XLines.{XLine, World, ok, update, is_in, add, del, clear, can_add}
use anope.XLines.Heap.{Absent, update_ne, Keyed}
use anope.XLines.Invariant.{IsValid, Owned, add-IsValid, del-IsValid}
use anope.XLines.CanAdd.{can_add_lem}
use anope.XLines.Lookup.{clear_lem}

abbrev pub vacant : ℕ → World
vacant me = record { me = me; heap = λ p. none; by_uid = []; lines = []; calls = [] }

-- An entry is made at a free place, is added once, and is deleted whether it is in the list or not.
pub data Reached (me : ℕ) : World → Type 0 where
  started : Reached me (vacant me)
  made :
      {w : World} (p : ℕ) (x : XLine)
      → Reached me w
      → w.heap p ≡ none
      → Reached me (record w { heap = update w.heap p (some x) })
  added :
      {w w' : World} {x : XLine} (p : ℕ)
      → Reached me w
      → w.heap p ≡ some x
      → Absent p w.lines
      → add p w ≡ ok w'
      → Reached me w'
  deleted :
      {w w' : World} {x : XLine} {found : Bool} (p : ℕ)
      → Reached me w
      → w.heap p ≡ some x
      → del p w ≡ ok (found, w')
      → Reached me w'
  asked :
      {w w' : World} {answer : ℕ} {last : Option ℕ} (mask : Bytes) (expires : ℕ)
      → Reached me w
      → can_add mask expires w ≡ ok (answer, last, w')
      → Reached me w'
  cleared : {w w' : World} → Reached me w → clear w ≡ ok w' → Reached me w'

ok-inj : {A : Type 0} {a b : A} → ok a ≡ ok b → a ≡ b
ok-inj e = cc

-- What is alive is not at a place that is free.
apart : (heap : ℕ → Option XLine) {p q : ℕ} {x : XLine} → heap p ≡ none → heap q ≡ some x → q ≢ p
apart heap unused alive e = none-some (sym unused ∙ (ap heap (sym e) ∙ alive))

module _ (w : World) (p : ℕ) (x : XLine) (unused : w.heap p ≡ none) where
  made-Owned :
      (ps : List ℕ) → All (Owned w.me w.heap) ps → All (Owned w.me (update w.heap p (some x))) ps
  made-Owned [] h = tt
  made-Owned (q ∷ ps) ((y, alive, m), h) =
      ((y, update_ne w.heap p q (some x) (apart w.heap unused alive) ∙ alive, m), made-Owned ps h)

  made-Keyed :
      (m : List (Bytes × ℕ)) → All (Keyed w.heap) m → All (Keyed (update w.heap p (some x))) m
  made-Keyed [] h = tt
  made-Keyed ((k, q) ∷ m) ((y, alive, key, ne), h) = (
    (y, update_ne w.heap p q (some x) (apart w.heap unused alive) ∙ alive, key, ne),
    made-Keyed m h,
  )

  made-IsValid : IsValid w → IsValid (record w { heap = update w.heap p (some x) })
  made-IsValid v = record {
    distinct = v.distinct;
    owned = made-Owned w.lines v.owned;
    keyed = made-Keyed w.by_uid v.keyed;
  }

pub reached-IsValid : {me : ℕ} {w : World} → Reached me w → IsValid w
reached-IsValid Reached.started = record { distinct = tt; owned = tt; keyed = tt }
reached-IsValid (Reached.made {w} p x r unused) = made-IsValid w p x unused (reached-IsValid r)
reached-IsValid (Reached.added {w} {w'} {x} p r alive a run) =
    let (w'', run', v, l) = add-IsValid w p (reached-IsValid r) alive a in
    subst IsValid (ok-inj (sym run' ∙ run)) v
reached-IsValid (Reached.deleted {w} {w'} {x} {found} p r alive run) =
    let (w'', run', v, l) = del-IsValid w p (reached-IsValid r) alive in
    subst (λ (o : Bool × World). IsValid o.1) (ok-inj (sym run' ∙ run)) v
reached-IsValid (Reached.asked {w} {w'} {answer} {last} mask expires r run) =
    let (out, run', d) = can_add_lem mask expires w (reached-IsValid r) in
    subst (λ (o : ℕ × Option ℕ × World). IsValid o.2) (ok-inj (sym run' ∙ run)) d.valid
reached-IsValid (Reached.cleared {w} {w'} r run) =
    let (w'', run', v, l) = clear_lem w (reached-IsValid r) in
    subst IsValid (ok-inj (sym run' ∙ run)) v

-- Whatever entries were made, added, deleted, asked for and cleared, the entries of the list are alive,
-- differ and belong to the manager, and the map by id points to entries that are alive and have the
-- id. An entry that is alive can be deleted: the answer tells whether it was in the list, it is out
-- of the list then, and all this still holds. `Clear` ends with an empty list.
pub reached-safe :
    {me : ℕ} {w : World} {x : XLine} (p : ℕ)
    → Reached me w
    → w.heap p ≡ some x
    → IsValid w
      × ((w' : World) × (del p w ≡ ok (is_in p w.lines, w'))
          × Reached me w'
          × (is_in p w'.lines ≡ false))
      × ((w' : World) × (clear w ≡ ok w') × Reached me w' × (w'.lines ≡ []))
reached-safe {me} {w} {x} p r alive =
    let v = reached-IsValid r in
    let (w1, run1, v1, out) = del-IsValid w p v alive in
    let (w2, run2, v2, empty) = clear_lem w v in
    (v, (w1, run1, Reached.deleted p r alive run1, out), (w2, run2, Reached.cleared r run2, empty))
