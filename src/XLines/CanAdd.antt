-- ===== src/XLines/CanAdd.antt =====
-- `XLineManager::CanAdd` of src/operserv.cpp: what its answer says of the list.
use anope.Base.{
  ℕ, zero, suc, ◌≤◌, ◌≡◌, refl, sym, ap, ◌∙◌, ◌≢◌, ◌⊎◌, inl, inr, Bool, false, both, ◌&&◌, ◌||◌,
  ◌==◌, leb, Bool-cases, ◌<◌, subst, true, Option, none, some, List, [], ◌∷◌, arith, Bytes, length,
  get_elem?, drop, All, ℕ_discrete,
}
use anope.Text.{equals_ci}
use anope.Glob.{matches}
use anope.XLines.{
  XLine, World, ok, update, is_in, remove, get_entry, Verdict, same_longer, same_shorter, covers,
  covered, apart, verdict, can_add_loop, can_add,
}
use anope.XLines.Heap.{same_line, update_self, update_gone, update_ne, Absent, update-Keyed}
use anope.XLines.Positions.{
  get_elem?_total, All-get_elem?, is_in-get_elem?, drop-get_elem?, drop-remove, length-remove,
  is_in-remove, Distinct-drop, All-of_is_in, All-is_in, drop-length,
}
use anope.XLines.Invariant.{Owned, IsValid, without, without-IsValid, del_lem}

lasts_lem : (a b : ℕ) → (a == 0 || leb b a) ≡ true → (a ≡ 0) ⊎ (b ≤ a)
lasts_lem a b e = ground (arith, e)

ends_lem : (a b : ℕ) → (a == 0 || leb b a) ≡ false → (a ≢ 0) × (a < b)
ends_lem a b e = ground (arith, e)

no_pair :
    (c : Bool) (a b : ℕ)
    → (c && (a == 0 || leb b a)) ≡ false
    → ((c ≡ true) × ((a ≡ 0) ⊎ (b ≤ a)) → ⊥)
no_pair c a b e (on, h) = ground (arith, e, on, h)

not_true : {b : Bool} → b ≡ false → b ≡ true → ⊥
not_true f t = cc

module _ (mask : Bytes) (expires : ℕ) where
  -- The entry has the mask; its mask covers the new one; the new mask covers it.
  abbrev pub IsSame : XLine → Type 0
  IsSame x = equals_ci x.mask mask ≡ true

  abbrev pub IsWider : XLine → Type 0
  IsWider x = matches mask x.mask ≡ true

  abbrev pub IsNarrower : XLine → Type 0
  IsNarrower x = matches x.mask mask ≡ true

  -- The entry is permanent, with the expiry 0, or expires no earlier than asked; and the other way round.
  abbrev pub Outlasts : XLine → Type 0
  Outlasts x = (x.expires ≡ 0) ⊎ (expires ≤ x.expires)

  abbrev pub IsOutlasted : XLine → Type 0
  IsOutlasted x = (expires ≡ 0) ⊎ (x.expires ≤ expires)

  -- What an entry is to the new one.
  abbrev pub Means : Verdict → XLine → Type 0
  Means same_longer x = IsSame x × Outlasts x
  Means same_shorter x = IsSame x × (x.expires ≢ 0) × (x.expires < expires)
  Means covers x = (IsSame x → ⊥) × IsWider x × Outlasts x
  Means covered x = (IsSame x → ⊥) × IsNarrower x × IsOutlasted x
  Means apart x = (IsSame x → ⊥) × (IsWider x × Outlasts x → ⊥) × (IsNarrower x × IsOutlasted x → ⊥)

  verdict_lem : (x : XLine) → Means (verdict mask expires x) x
  unfolding verdict
  verdict_lem x = elim (Bool-cases (equals_ci x.mask mask)) [
    | inl same ↦ elim (Bool-cases (x.expires == 0 || leb expires x.expires)) [
      | inl long ↦
          let e : verdict mask expires x ≡ same_longer = rw (same, long) refl in
          subst (λ v. Means v x) (sym e) (same, lasts_lem x.expires expires long)
      | inr short ↦
          let e : verdict mask expires x ≡ same_shorter = rw (same, short) refl in
          subst (λ v. Means v x) (sym e)
            (same, (ends_lem x.expires expires short).0, (ends_lem x.expires expires short).1)
    ]
    | inr other ↦
        let wide = matches mask x.mask && (x.expires == 0 || leb expires x.expires) in
        let narrow = matches x.mask mask && (expires == 0 || leb x.expires expires) in
        elim (Bool-cases wide) [
          | inl w ↦
              let (on, long) = both w in
              let e : verdict mask expires x ≡ covers = rw (other, w) refl in
              subst (λ v. Means v x) (sym e) (not_true other, on, lasts_lem x.expires expires long)
          | inr nw ↦ elim (Bool-cases narrow) [
            | inl n ↦
                let (on, short) = both n in
                let e : verdict mask expires x ≡ covered = rw (other, nw, n) refl in
                subst (λ v. Means v x) (sym e)
                  (not_true other, on, lasts_lem expires x.expires short)
            | inr nn ↦
                let e : verdict mask expires x ≡ apart = rw (other, nw, nn) refl in
                subst (λ v. Means v x) (sym e)
                  (
                    not_true other,
                    no_pair (matches mask x.mask) x.expires expires nw,
                    no_pair (matches x.mask mask) expires x.expires nn,
                  )
          ]
        ]
  ]

  means : (x : XLine) (v : Verdict) → verdict mask expires x ≡ v → Means v x
  means x v e = subst (λ u. Means u x) e (verdict_lem x)

  -- The entry `p` of a world is alive, and what it is to the new one.
  abbrev pub HasVerdict : Verdict → World → ℕ → Type 0
  HasVerdict v w p = (x : XLine) × (w.heap p ≡ some x) × Means v x

  -- What each answer says, with the world before and after.
  pub data Answer (w w' : World) (code : ℕ) (entry : Option ℕ) : Type 0 where
    free : code ≡ 0 → All (HasVerdict apart w') w'.lines → Answer w w' code entry
    already :
        (p : ℕ) → code ≡ 1 → entry ≡ some p → HasVerdict same_longer w' p → Answer w w' code entry
    prolonged :
        (p : ℕ) (x : XLine)
        → code ≡ 2
        → entry ≡ some p
        → w.heap p ≡ some x
        → Means same_shorter x
        → w'.heap p ≡ some (record x { expires = expires })
        → Answer w w' code entry
    over : (p : ℕ) → code ≡ 3 → entry ≡ some p → HasVerdict covers w' p → Answer w w' code entry

  -- An entry of the list before is still there, or the new mask covers it.
  abbrev pub Kept : World → World → ℕ → Type 0
  Kept w w' q = (is_in q w'.lines ≡ true) ⊎ HasVerdict covered w q

  pub record Done (w : World) (out : ℕ × Option ℕ × World) : Type 0 where
    pub valid : IsValid out.2
    pub answer : Answer w out.2 out.0 out.1
    pub kept : All (Kept w out.2) w.lines

  abbrev Runs : ℕ → Option ℕ → World → Type 0
  Runs i last w =
      (out : ℕ × Option ℕ × World) × (can_add_loop mask expires i last w ≡ ok out) × Done w out

  stays : (w : World) (h : ℕ → Option XLine) → All (Kept w (record w { heap = h })) w.lines
  stays w h = All-of_is_in _ w.lines (λ q k. inl k)

  -- A verdict of an entry other than `p` is not touched by a write to `p`.
  frame :
      (v : Verdict) (w : World) (p : ℕ) (y : Option XLine) (ps : List ℕ)
      → Absent p ps
      → All (HasVerdict v w) ps
      → All (HasVerdict v (record w { heap = update w.heap p y })) ps
  frame v w p y [] a h = tt
  frame v w p y (q ∷ ps) (ne, a) ((x, alive, e), h) =
      ((x, update_ne w.heap p q y ne ∙ alive, e), frame v w p y ps a h)

  prolong-IsValid :
      (w : World) (p : ℕ) (x x' : XLine)
      → IsValid w
      → w.heap p ≡ some x
      → x'.uid ≡ x.uid
      → x'.manager ≡ x.manager
      → IsValid (record w { heap = update w.heap p (some x') })
  prolong-IsValid w p x x' v alive u m = record {
    distinct = v.distinct;
    owned = all_owned w.lines v.owned;
    keyed = update-Keyed w.heap p x x' w.by_uid alive u v.keyed;
  }
    where
      all_owned :
          (ps : List ℕ)
          → All (Owned w.me w.heap) ps
          → All (Owned w.me (update w.heap p (some x'))) ps
      all_owned [] h = tt
      all_owned (q ∷ ps) ((y, ay, my), h) = (
        elim (ℕ_discrete q p) [
          | yes same ↦ (
            x',
            rw same (update_self w.heap p (some x')),
            m
                ∙ (let xy : x ≡ y = same_line w.heap alive ay same in
                    ap (λ (z : XLine). z.manager) xy ∙ my),
          )
          | no other ↦ (y, update_ne w.heap p q (some x') other ∙ ay, my)
        ],
        all_owned ps h,
      )

  -- The entry looked at is deleted, and the loop goes on below it.
  after_del :
      (i p : ℕ) (x : XLine) (w : World)
      → IsValid w
      → get_elem? w.lines i ≡ some p
      → w.heap p ≡ some x
      → verdict mask expires x ≡ covered
      → Runs i (some p) (without p x w)
      → (out : ℕ × Option ℕ × World) × (can_add_loop mask expires i (some p) (without p x w)
          ≡ ok out)
        × Done w out
  after_del i p x w v e alive ev (out, r, d) = (
    out,
    r,
    record {
      valid = d.valid;
      answer = elim d.answer [
        | free c h ↦ free c h
        | already q c s h ↦ already q c s h
        | prolonged q y c s a g h ↦
            prolonged q y c s (sym (update_ne w.heap p q none (update_gone w.heap p q a)) ∙ a) g h
        | over q c s h ↦ over q c s h
      ];
      kept = All-of_is_in _ w.lines (λ q k. elim (ℕ_discrete q p) [
        | yes same ↦ inr (x, rw same alive, means x covered ev)
        | no other ↦
            All-is_in (λ r. (r ≢ p) → Kept w out.2 r) (remove p w.lines) q
              (is_in-remove w.lines p q other k) (back_map (remove p w.lines) d.kept) other
      ]);
    },
  )
    where
      back_map :
          (ps : List ℕ)
          → All (Kept (without p x w) out.2) ps
          → All (λ r. (r ≢ p) → Kept w out.2 r) ps
      back_map [] h = tt
      back_map (r ∷ ps) (inl k, h) = ((λ other. inl k), back_map ps h)
      back_map (r ∷ ps) (inr (y, a, g), h) =
          ((λ other. inr (y, sym (update_ne w.heap p r none other) ∙ a, g)), back_map ps h)

  step :
      (i p : ℕ) (last : Option ℕ) (x : XLine) (w : World) (v : Verdict)
      → IsValid w
      → get_elem? w.lines i ≡ some p
      → w.heap p ≡ some x
      → verdict mask expires x ≡ v
      → (v ≡ apart → Runs i (some p) w)
      → (v ≡ covered → Runs i (some p) (without p x w))
      → Runs (suc i) last w
  unfolding can_add_loop get_entry
  step i p last x w same_longer valid e alive ev apart_runs covered_runs = (
    (1, some p, w),
    ground arith,
    record {
      valid = valid;
      answer = already p refl refl (x, alive, means x same_longer ev);
      kept = stays w w.heap;
    },
  )
  step i p last x w same_shorter valid e alive ev apart_runs covered_runs =
      let x' : XLine = record x { expires = expires } in
      let w' : World = record w { heap = update w.heap p (some x') } in
      (
        (2, some p, w'),
        ground arith,
        record {
          valid = prolong-IsValid w p x x' valid alive refl refl;
          answer =
              prolonged p x refl refl alive (means x same_shorter ev)
                (update_self w.heap p (some x'));
          kept = stays w (update w.heap p (some x'));
        },
      )
  step i p last x w covers valid e alive ev apart_runs covered_runs = (
    (3, some p, w),
    ground arith,
    record {
      valid = valid;
      answer = over p refl refl (x, alive, means x covers ev);
      kept = stays w w.heap;
    },
  )
  step i p last x w covered valid e alive ev apart_runs covered_runs =
      let (out, r, d) = after_del i p x w valid e alive ev (covered_runs refl) in
      let gone = del_lem w p alive (is_in-get_elem? w.lines i p e) in
      (out, ground (arith, r, gone), d)
  step i p last x w apart valid e alive ev apart_runs covered_runs =
      let (out, r, d) = apart_runs refl in (out, ground (arith, r), d)

  run :
      (i : ℕ) (last : Option ℕ) (w : World)
      → IsValid w
      → i ≤ length w.lines
      → All (HasVerdict apart w) (drop i w.lines)
      → Runs i last w
  unfolding can_add_loop
  run zero last w v h a =
      ((0, last, w), refl, record { valid = v; answer = free refl a; kept = stays w w.heap })
  run (suc i) last w v h a =
      let (p, e) = get_elem?_total w.lines i h in
      let (x, alive, m) = All-get_elem? (Owned w.me w.heap) w.lines i v.owned e in
      step i p last x w (verdict mask expires x) v e alive refl
        (λ ev.
          run i (some p) w v (omega (arith, h))
            (rw (drop-get_elem? w.lines i e) ((x, alive, means x apart ev), a)))
        (λ ev.
          run i (some p) (without p x w) (without-IsValid w p x v alive)
            (omega (arith, h, length-remove w.lines p (is_in-get_elem? w.lines i p e)))
            (rw (drop-remove w.lines i p v.distinct e) (
              frame apart w p none (drop (suc i) w.lines)
                (let d = rw (drop-get_elem? w.lines i e) at (Distinct-drop i w.lines v.distinct) in
                  d.0)
                a)))

-- `CanAdd` on a valid manager touches no freed entry and keeps the manager valid. An entry lasts where it is
-- permanent, with the expiry 0, or expires no earlier than asked. The answer 0 says that no entry left has
-- the mask, none has a mask that covers the new one and lasts, and none is covered by the new mask and
-- expires no later than asked, or at any time if 0 is asked; 1, that the entry returned has the mask and
-- lasts; 2, that it had the mask, was not permanent and expired earlier, and now expires as asked; 3, that
-- its mask is another one, which covers the new one, and that it lasts. Any number counts as no earlier than
-- 0: where a permanent entry is asked for, every entry with the mask lasts. An entry that is gone had
-- another mask, which the new one covers, and expired no later than asked, or 0 was asked.
pub can_add_lem :
    (mask : Bytes) (expires : ℕ) (w : World)
    → IsValid w
    → (out : ℕ × Option ℕ × World) × (can_add mask expires w ≡ ok out) × Done mask expires w out
unfolding can_add
can_add_lem mask expires w v =
    run mask expires (length w.lines) none w v (omega arith) (rw (drop-length w.lines) tt)
