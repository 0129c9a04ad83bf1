-- ===== src/XLines/Check.antt =====
-- `XLineManager::Check` of src/operserv.cpp: which entry a user is found by.
use anope.Base.{
  ℕ, zero, suc, ◌≤◌, ◌≡◌, refl, sym, ap, ◌∙◌, ◌≢◌, ◌⊎◌, inl, inr, Bool, true, false, Option, none,
  some, List, [], ◌∷◌, ◌++◌, arith, Bytes, length, get_elem?, drop, All, ℕ_discrete,
}
use anope.Cidr.{Family}
use anope.XLines.{
  XLine, World, User, ok, update, remove, is_in, get_entry, is_expired, applies, check_loop, check,
  on_expire, on_match,
}
use anope.XLines.Heap.{update_ne, Absent, remove-Absent, All-remove}
use anope.XLines.Positions.{
  get_elem?_total, All-get_elem?, is_in-get_elem?, drop-get_elem?, drop-remove, length-remove,
  is_in-remove, Distinct-drop, All-of_is_in, All-is_in, drop-length,
}
use anope.XLines.Invariant.{IsValid, without, without-IsValid, del_lem}

module _ (pton : Family → Bytes → Option (List ℕ)) (now : ℕ) (u : User) where
  -- The test of an entry against the user comes to a result.
  abbrev pub Testable : World → ℕ → Type 0
  Testable w p = (x : XLine) × (w.heap p ≡ some x) × ((b : Bool) × (applies pton u x ≡ ok b))

  abbrev pub Expired : World → ℕ → Type 0
  Expired w p = (x : XLine) × (w.heap p ≡ some x) × (is_expired now x ≡ true)

  -- The entry is in force, and the test of the user against it gives `b`.
  abbrev pub Tested : Bool → World → ℕ → Type 0
  Tested b w p =
      (x : XLine) × (w.heap p ≡ some x) × ((is_expired now x ≡ false) × (applies pton u x ≡ ok b))

  pub data Answer (w' : World) (entry : Option ℕ) : Type 0 where
    miss : entry ≡ none → All (Tested false w') w'.lines → Answer w' entry
    hit : (p : ℕ) → entry ≡ some p → is_in p w'.lines ≡ true → Tested true w' p → Answer w' entry

  abbrev pub Kept : World → World → ℕ → Type 0
  Kept w w' q = (is_in q w'.lines ≡ true) ⊎ Expired w q

  pub record Done (w : World) (out : Option ℕ × World) : Type 0 where
    pub valid : IsValid out.1
    pub answer : Answer out.1 out.0
    pub kept : All (Kept w out.1) w.lines

  abbrev Runs : ℕ → World → Type 0
  Runs i w = (out : Option ℕ × World) × (check_loop pton now u i w ≡ ok out) × Done w out

  stays : (w : World) → All (Kept w w) w.lines
  stays w = All-of_is_in _ w.lines (λ q k. inl k)

  -- A property of live entries is not touched by the deletion of another one.
  frame :
      (P : XLine → Type 0) (heap : ℕ → Option XLine) (p : ℕ) (ps : List ℕ)
      → Absent p ps
      → All (λ q. (x : XLine) × (heap q ≡ some x) × P x) ps
      → All (λ q. (x : XLine) × (update heap p none q ≡ some x) × P x) ps
  frame P heap p [] a h = tt
  frame P heap p (q ∷ ps) (ne, a) ((x, alive, e), h) =
      ((x, update_ne heap p q none ne ∙ alive, e), frame P heap p ps a h)

  -- The manager after the entry looked at had expired.
  abbrev dropped : ℕ → XLine → World → World
  dropped p x w = without p x (record w { calls = w.calls ++ on_expire p ∷ [] })

  after_expiry :
      (i p : ℕ) (x : XLine) (w : World)
      → w.heap p ≡ some x
      → is_expired now x ≡ true
      → Runs i (dropped p x w)
      → (out : Option ℕ × World) × (check_loop pton now u i (dropped p x w) ≡ ok out) × Done w out
  after_expiry i p x w alive ev (out, r, d) = (
    out,
    r,
    record {
      valid = d.valid;
      answer = d.answer;
      kept = All-of_is_in _ w.lines (λ q k. elim (ℕ_discrete q p) [
        | yes same ↦ inr (x, rw same alive, ev)
        | no other ↦
            All-is_in (λ r. (r ≢ p) → Kept w out.1 r) (remove p w.lines) q
              (is_in-remove w.lines p q other k) (back_map (remove p w.lines) d.kept) other
      ]);
    },
  )
    where
      back_map :
          (ps : List ℕ)
          → All (Kept (dropped p x w) out.1) ps
          → All (λ r. (r ≢ p) → Kept w out.1 r) ps
      back_map [] h = tt
      back_map (r ∷ ps) (inl k, h) = ((λ other. inl k), back_map ps h)
      back_map (r ∷ ps) (inr (y, a, g), h) =
          ((λ other. inr (y, sym (update_ne w.heap p r none other) ∙ a, g)), back_map ps h)

  step :
      (i p : ℕ) (x : XLine) (w : World) (gone b : Bool)
      → IsValid w
      → get_elem? w.lines i ≡ some p
      → w.heap p ≡ some x
      → is_expired now x ≡ gone
      → applies pton u x ≡ ok b
      → (gone ≡ true → Runs i (dropped p x w))
      → (gone ≡ false → b ≡ false → Runs i w)
      → Runs (suc i) w
  unfolding check_loop get_entry
  step i p x w true b valid e alive ev eb gone_runs next_runs =
      let (out, r, d) = after_expiry i p x w alive ev (gone_runs refl) in
      let deleted =
        del_lem (record w { calls = w.calls ++ on_expire p ∷ [] }) p alive
          (is_in-get_elem? w.lines i p e) in
      (out, ground (arith, r, deleted), d)
  step i p x w false true valid e alive ev eb gone_runs next_runs = (
    (some p, record w { calls = w.calls ++ on_match p ∷ [] }),
    ground arith,
    record {
      valid = record { distinct = valid.distinct; owned = valid.owned; keyed = valid.keyed };
      answer = hit p refl (is_in-get_elem? w.lines i p e) (x, alive, (ev, eb));
      kept = stays w;
    },
  )
  step i p x w false false valid e alive ev eb gone_runs next_runs =
      let (out, r, d) = next_runs refl refl in (out, ground (arith, r), d)

  run :
      (i : ℕ) (w : World)
      → IsValid w
      → i ≤ length w.lines
      → All (Testable w) w.lines
      → All (Tested false w) (drop i w.lines)
      → Runs i w
  unfolding check_loop
  run zero w v h t a = ((none, w), refl, record { valid = v; answer = miss refl a; kept = stays w })
  run (suc i) w v h t a =
      let (p, e) = get_elem?_total w.lines i h in
      let (x, alive, (b, eb)) = All-get_elem? (Testable w) w.lines i t e in
      let absent : Absent p (drop (suc i) w.lines) =
        let d = rw (drop-get_elem? w.lines i e) at (Distinct-drop i w.lines v.distinct) in d.0 in
      step i p x w (is_expired now x) b v e alive refl eb
        (λ ev.
          run i (dropped p x w)
            (without-IsValid (record w { calls = w.calls ++ on_expire p ∷ [] }) p x
              (record { distinct = v.distinct; owned = v.owned; keyed = v.keyed }) alive)
            (omega (arith, h, length-remove w.lines p (is_in-get_elem? w.lines i p e)))
            (frame (λ x. (b : Bool) × (applies pton u x ≡ ok b)) w.heap p (remove p w.lines)
              (remove-Absent p w.lines v.distinct) (All-remove (Testable w) p w.lines t))
            (rw (drop-remove w.lines i p v.distinct e) (
              frame (λ x. (is_expired now x ≡ false) × (applies pton u x ≡ ok false)) w.heap p
                (drop (suc i) w.lines) absent a)))
        (λ ev eq.
          run i w v (omega (arith, h)) t
            (rw (drop-get_elem? w.lines i e) ((x, alive, (ev, eb ∙ ap ok eq)), a)))

-- If the test of the user against each entry comes to a result, `Check` on a valid manager touches
-- no freed entry and keeps the manager valid. It returns an entry in force that holds for the user,
-- or none and then no entry left holds for the user. An entry that is gone had expired.
pub check_lem :
    (pton : Family → Bytes → Option (List ℕ)) (now : ℕ) (u : User) (w : World)
    → IsValid w
    → All (Testable pton now u w) w.lines
    → (out : Option ℕ × World) × (check pton now u w ≡ ok out) × Done pton now u w out
unfolding check
check_lem pton now u w v t =
    run pton now u (length w.lines) w v (omega arith) t (rw (drop-length w.lines) tt)
