-- ===== src/XLines/Positions.antt =====
-- Positions in the list of a manager (src/operserv.cpp), which is read from its end while entries
-- are deleted.
use anope.Base.{
  ℕ, zero, suc, ◌<◌, ◌≡◌, refl, ◌≢◌, inl, inr, true, some, List, [], ◌∷◌, arith, ◌==◌, ==_iff,
  Bool-cases, length, get_elem?, drop, All, subst,
}
use anope.XLines.{is_in, remove}
use anope.XLines.Heap.{Absent, Distinct}

pub get_elem?_total :
    {A : Type 0} (xs : List A) (i : ℕ) → i < length xs → (a : A) × (get_elem? xs i ≡ some a)
get_elem?_total [] i h = absurd (omega arith)
get_elem?_total (x ∷ xs) zero h = (x, refl)
get_elem?_total (x ∷ xs) (suc i) h = get_elem?_total xs i (omega arith)

pub All-get_elem? :
    {A : Type 0} (P : A → Type 0) (xs : List A) (i : ℕ) {a : A}
    → All P xs
    → get_elem? xs i ≡ some a
    → P a
All-get_elem? P [] i h e = absurd (cc)
All-get_elem? P (x ∷ xs) zero h e = subst P (ground arith) h.0
All-get_elem? P (x ∷ xs) (suc i) h e = All-get_elem? P xs i h.1 e

pub is_in-get_elem? : (ps : List ℕ) (i p : ℕ) → get_elem? ps i ≡ some p → is_in p ps ≡ true
unfolding is_in
is_in-get_elem? [] i p e = absurd (cc)
is_in-get_elem? (q ∷ ps) zero p e = ground arith
is_in-get_elem? (q ∷ ps) (suc i) p e = ground (arith, is_in-get_elem? ps i p e)

pub drop-get_elem? :
    {A : Type 0} (xs : List A) (i : ℕ) {a : A}
    → get_elem? xs i ≡ some a
    → drop i xs ≡ a ∷ drop (suc i) xs
drop-get_elem? [] i e = absurd (cc)
drop-get_elem? (x ∷ xs) zero e = ground arith
drop-get_elem? (x ∷ xs) (suc i) e = drop-get_elem? xs i e

Absent-ne : (p q : ℕ) (ps : List ℕ) (i : ℕ) → Absent q ps → get_elem? ps i ≡ some p → p ≢ q
Absent-ne p q ps i a e = All-get_elem? (λ r. r ≢ q) ps i a e

pub drop-remove :
    (ps : List ℕ) (i p : ℕ)
    → Distinct ps
    → get_elem? ps i ≡ some p
    → drop i (remove p ps) ≡ drop (suc i) ps
unfolding remove
drop-remove [] i p d e = absurd (cc)
drop-remove (q ∷ ps) zero p d e = ground arith
drop-remove (q ∷ ps) (suc i) p d e =
    let ne = Absent-ne p q ps i d.0 e in ground (arith, drop-remove ps i p d.1 e, ne)

pub length-remove :
    (ps : List ℕ) (p : ℕ) → is_in p ps ≡ true → suc (length (remove p ps)) ≡ length ps
unfolding is_in remove
length-remove [] p h = absurd (cc)
length-remove (q ∷ ps) p h = ground (arith, length-remove ps p)

pub is_in-remove :
    (ps : List ℕ) (p q : ℕ) → q ≢ p → is_in q ps ≡ true → is_in q (remove p ps) ≡ true
unfolding is_in remove
is_in-remove [] p q ne h = absurd (cc)
is_in-remove (r ∷ ps) p q ne h = ground (arith, is_in-remove ps p q ne)

pub Distinct-drop : (i : ℕ) (ps : List ℕ) → Distinct ps → Distinct (drop i ps)
Distinct-drop zero ps d = d
Distinct-drop (suc i) [] d = tt
Distinct-drop (suc i) (p ∷ ps) d = Distinct-drop i ps d.1

pub get_elem?-lt :
    {A : Type 0} (xs : List A) (i : ℕ) {a : A} → get_elem? xs i ≡ some a → i < length xs
get_elem?-lt [] i e = absurd (cc)
get_elem?-lt (x ∷ xs) zero e = omega arith
get_elem?-lt (x ∷ xs) (suc i) e = omega (arith, get_elem?-lt xs i e)

pub All-of_is_in : (P : ℕ → Type 0) (ps : List ℕ) → ((q : ℕ) → is_in q ps ≡ true → P q) → All P ps
unfolding is_in
All-of_is_in P [] h = tt
All-of_is_in P (p ∷ ps) h = (h p (ground arith), All-of_is_in P ps (λ q k. h q (ground arith)))

pub All-is_in : (P : ℕ → Type 0) (ps : List ℕ) (q : ℕ) → is_in q ps ≡ true → All P ps → P q
unfolding is_in
All-is_in P [] q k h = absurd (cc)
All-is_in P (p ∷ ps) q k h = elim (Bool-cases (p == q)) [
  | inl e ↦ subst P ((==_iff p q).0 e) h.0
  | inr e ↦ All-is_in P ps q (ground arith) h.1
]

pub drop-length : {A : Type 0} (xs : List A) → drop (length xs) xs ≡ []
drop-length [] = refl
drop-length (x ∷ xs) = drop-length xs
