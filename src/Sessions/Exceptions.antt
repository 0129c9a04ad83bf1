-- ===== src/Sessions/Exceptions.antt =====
-- The list of exceptions under DEL of numbers and under the expiry timer.
use anope.Base.{
  ℕ, zero, suc, ◌+◌, ◌-◌, ◌≤◌, ◌<◌, ◌≡◌, refl, sym, ap, ◌∙◌, inl, inr, Bool, true, false, ◌||◌,
  Option, none, some, List, [], ◌∷◌, arith, ltb, ◌==◌, if◌then◌else◌, Bool-cases, length, get_elem?,
  erase_at, All, dec_lt,
}
use anope.Numbers.{u32, handle_down, process}
use anope.Numbers.Ranges.{has_number, Increasing}
use anope.Numbers.Positions.{
  kept, number_set, number_set-Increasing, has_number-number_set, kept_same, erase_at-kept,
  kept_none,
}
use anope.Sessions.{Exception, del_number, is_expired, expire_at, expire_loop, expire}
use anope.Sessions.Counts.{u32_small}

erase_at_over : (es : List Exception) (i : ℕ) → length es ≤ i → erase_at es i ≡ es
erase_at_over [] i le = refl
erase_at_over (e ∷ es) zero le = absurd (omega arith)
erase_at_over (e ∷ es) (suc i) le = ap (λ l. e ∷ l) (erase_at_over es i (omega arith))

length-erase_at :
    (es : List Exception) (i : ℕ) → i < length es → length (erase_at es i) + 1 ≡ length es
length-erase_at [] i lt = absurd (omega arith)
length-erase_at (e ∷ es) zero lt = omega arith
length-erase_at (e ∷ es) (suc i) lt = omega (arith, length-erase_at es i (omega arith))

-- A number and the position before it; entries that go are counted.
del_number_step :
    (k deleted : ℕ) (es : List Exception)
    → deleted + length es < 4294967296
    → (deleted' : ℕ) × (del_number (suc k) (deleted, es) ≡ (deleted', erase_at es k))
      × (deleted' + length (erase_at es k) ≡ deleted + length es)
unfolding del_number
del_number_step k deleted es small = elim (dec_lt (length es) (suc k)) [
  | yes lt ↦
      let e : (suc k == 0 || ltb (length es) (suc k)) ≡ true = ground (arith, lt) in
      let same = erase_at_over es k (omega (arith, lt)) in
      (deleted, tested e ∙ ap (λ l. (deleted, l)) (sym same), rw same refl)
  | no nlt ↦
      let e : (suc k == 0 || ltb (length es) (suc k)) ≡ false = ground (arith, nlt) in
      let less = length-erase_at es k (omega (arith, nlt)) in
      let back : suc k - 1 ≡ k = omega arith in
      let one_more : u32 (deleted + 1) ≡ deleted + 1 =
        u32_small (deleted + 1) (omega (arith, small, nlt)) in
      (
        deleted + 1,
        tested e
            ∙ ap (λ i. (u32 (deleted + 1), erase_at es i)) back
            ∙ ap (λ d. (d, erase_at es k)) one_more,
        omega (arith, less),
      )
]
  where
    tested :
        {b : Bool}
        → (suc k == 0 || ltb (length es) (suc k)) ≡ b
        → del_number (suc k) (deleted, es)
          ≡ (if b then (deleted, es) else (u32 (deleted + 1), erase_at es (suc k - 1)))
    tested e = ap (λ b. if b then (deleted, es) else (u32 (deleted + 1), erase_at es (suc k - 1))) e

none_below : (n j : ℕ) (ns : List ℕ) → All (λ m. n < m) ns → j ≤ n → has_number j ns ≡ false
unfolding has_number
none_below n j [] above le = refl
none_below n j (m ∷ ns) (lt, above) le = ground (arith, lt, none_below n j ns above le)

-- The greatest number first, each position is that of the list as it was at the start.
handle_down-kept :
    (ns : List ℕ) (deleted : ℕ) (es : List Exception)
    → Increasing ns
    → deleted + length es < 4294967296
    → (deleted' : ℕ) × (handle_down del_number ns (deleted, es)
        ≡ (deleted', kept (λ j. has_number j ns) 1 es))
      × (deleted' + length (kept (λ j. has_number j ns) 1 es) ≡ deleted + length es)
unfolding handle_down has_number del_number
handle_down-kept [] deleted es up small =
    let same = kept_none (λ j. false) 1 es (λ j. refl) in
    (deleted, ap (λ l. (deleted, l)) (sym same), ap (λ l. deleted + length l) same)
handle_down-kept (zero ∷ ns) deleted es (above, up) small =
    let (deleted', run, total) = handle_down-kept ns deleted es up small in
    let same =
      kept_same (λ j. has_number j ns) (λ j. j == 0 || has_number j ns) 1 es
        (λ j le. ground (arith, le)) in
    (
      deleted',
      ap (del_number 0) run ∙ ap (λ l. (deleted', l)) same,
      ap (λ l. deleted' + length l) (sym same) ∙ total,
    )
handle_down-kept (suc k ∷ ns) deleted es (above, up) small =
    let (d, run, total) = handle_down-kept ns deleted es up small in
    let rest = kept (λ j. has_number j ns) 1 es in
    let (deleted', step, total') = del_number_step k d rest (omega (arith, small, total)) in
    let same =
      erase_at-kept (λ j. has_number j ns) 1 k (suc k) es (omega arith)
        (λ j le. none_below (suc k) j ns above le) in
    (
      deleted',
      ap (del_number (suc k)) run ∙ (step ∙ ap (λ l. (deleted', l)) same),
      ap (λ l. deleted' + length l) (sym same) ∙ (total' ∙ total),
    )

-- DEL of numbers that are in a list in any order and any number of times deletes the exceptions that had
-- these positions, counted from 1, and no other, and counts them; numbers that are no position are
-- passed over. There are fewer than 2^32 exceptions.
pub del_numbers :
    (ns : List ℕ) (es : List Exception)
    → length es < 4294967296
    → (deleted : ℕ) × (process del_number true (number_set ns) (0, es)
        ≡ (deleted, kept (λ j. has_number j ns) 1 es))
      × (deleted + length (kept (λ j. has_number j ns) 1 es) ≡ length es)
unfolding process
del_numbers ns es small =
    let (deleted, run, total) =
      handle_down-kept (number_set ns) 0 es (number_set-Increasing ns) (omega (arith, small)) in
    let same =
      kept_same (λ j. has_number j (number_set ns)) (λ j. has_number j ns) 1 es
        (λ j le. has_number-number_set j ns) in
    (
      deleted,
      run ∙ ap (λ l. (deleted, l)) same,
      ap (λ l. deleted + length l) (sym same) ∙ (total ∙ omega arith),
    )

unfoldable pub live : ℕ → List Exception → List Exception
live now [] = []
live now (e ∷ es) = let rest = live now es in if is_expired now e then rest else e ∷ rest

expire_at_behind :
    (now i : ℕ) (x : Exception) (o : Option Exception) (es : List Exception)
    → expire_at now (suc i) o (x ∷ es) ≡ x ∷ expire_at now i o es
unfolding expire_at
expire_at_behind now i x none es = refl
expire_at_behind now i x (some e) es = elim (Bool-cases (is_expired now e)) [
  | inl b ↦ rw b refl
  | inr b ↦ rw b refl
]

expire_loop_behind :
    (now i : ℕ) (x : Exception) (es : List Exception)
    → expire_loop now (suc i) (x ∷ es) ≡ expire_at now 0 (some x) (x ∷ expire_loop now i es)
unfolding expire_loop
expire_loop_behind now zero x es = refl
expire_loop_behind now (suc i) x es =
    ap (expire_loop now (suc i)) (expire_at_behind now i x (get_elem? es i) es)
    ∙ expire_loop_behind now i x (expire_at now i (get_elem? es i) es)

-- The expiry timer leaves the exceptions that have not expired, in their order.
pub expire-live : (now : ℕ) (es : List Exception) → expire now es ≡ live now es
unfolding expire expire_at expire_loop live
expire-live now [] = refl
expire-live now (e ∷ es) =
    expire_loop_behind now (length es) e es
    ∙ ap (λ l. if is_expired now e then l else e ∷ l) (expire-live now es)
