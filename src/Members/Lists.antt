-- ===== src/Members/Lists.antt =====
-- Looking up the containers of one channel or user.
use anope.Base.{
  ℕ, ◌≡◌, refl, ◌∙◌, ◌≢◌, ◌⊎◌, inl, inr, Option, none, some, [], ◌∷◌, ◌++◌, arith, ◌==◌,
  if◌then◌else◌, ℕ_discrete,
}
use anope.Members.{Containers, at, find_container, erase_container}

pub at_self : {A : Type 0} (f : ℕ → A) (k : ℕ) (v : A) → at f k v k ≡ v
unfolding at
at_self f k v = ground arith

pub at_other : {A : Type 0} (f : ℕ → A) (k : ℕ) (v : A) (i : ℕ) → i ≢ k → at f k v i ≡ f i
unfolding at
at_other f k v i ne = ground (arith, ne)

-- Each key stands once.
abbrev pub Once : Containers → Type 0
Once [] = Unit
Once ((j, st) ∷ l) = (find_container j l ≡ none) × Once l

pub find-snoc :
    (k : ℕ) (j st : ℕ) (l : Containers)
    → find_container k (l ++ (j, st) ∷ [])
      ≡ elim (find_container k l) [ some s ↦ some s | none ↦ if j == k then some st else none ]
unfolding find_container
find-snoc k j st [] = refl
find-snoc k j st ((i, s) ∷ l) = ground (arith, find-snoc k j st l)

pub Once-snoc :
    (j st : ℕ) (l : Containers) → Once l → find_container j l ≡ none → Once (l ++ (j, st) ∷ [])
unfolding find_container
Once-snoc j st [] o h = (refl, tt)
Once-snoc j st ((i, s) ∷ l) (here, o) h =
    (find-snoc i j st l ∙ ground (arith, here, h), Once-snoc j st l o (ground (arith, h)))

pub find-erase_self :
    (k : ℕ) (l : Containers) → Once l → find_container k (erase_container k l) ≡ none
unfolding find_container erase_container
find-erase_self k [] o = refl
find-erase_self k ((j, s) ∷ l) (here, o) = ground (arith, here, find-erase_self k l o)

pub find-erase_other :
    (k i : ℕ) (l : Containers) → i ≢ k → find_container i (erase_container k l) ≡ find_container i l
unfolding find_container erase_container
find-erase_other k i [] ne = refl
find-erase_other k i ((j, s) ∷ l) ne = ground (arith, ne, find-erase_other k i l ne)

pub erase-hit : (j k s : ℕ) (l : Containers) → j ≡ k → erase_container k ((j, s) ∷ l) ≡ l
unfolding erase_container
erase-hit j k s l e = ground (arith, e)

erase-miss :
    (j k s : ℕ) (l : Containers)
    → j ≢ k
    → erase_container k ((j, s) ∷ l) ≡ (j, s) ∷ erase_container k l
unfolding erase_container
erase-miss j k s l ne = ground (arith, ne)

erase-none : (k : ℕ) → erase_container k [] ≡ []
unfolding erase_container
erase-none k = refl

pub Once-erase : (k : ℕ) (l : Containers) → Once l → Once (erase_container k l)
Once-erase k [] o = rw (erase-none k) tt
Once-erase k ((j, s) ∷ l) (here, o) = elim (ℕ_discrete j k) [
  | yes e ↦ rw (erase-hit j k s l e) o
  | no ne ↦ rw (erase-miss j k s l ne) (find-erase_other k j l ne ∙ here, Once-erase k l o)
]

-- A table of lists where one list gains or loses the key `k`.
module _ (f : ℕ → Containers) (i k : ℕ) where
  pub snoc_here :
      (n : ℕ)
      → find_container k (f i) ≡ none
      → find_container k (at f i (f i ++ (k, n) ∷ []) i) ≡ some n
  snoc_here n free =
      rw (at_self f i (f i ++ (k, n) ∷ [])) (find-snoc k k n (f i) ∙ ground (arith, free))

  pub snoc_other :
      (n d v : ℕ)
      → (d ≢ k) ⊎ (v ≢ i)
      → find_container d (at f i (f i ++ (k, n) ∷ []) v) ≡ find_container d (f v)
  snoc_other n d v far = elim (ℕ_discrete v i) [
    | no ne ↦ rw (at_other f i (f i ++ (k, n) ∷ []) v ne) refl
    | yes e ↦
        rw (e, at_self f i (f i ++ (k, n) ∷ []))
          (find-snoc d k n (f i) ∙ kept (find_container d (f i)) (other_key far e))
  ]
    where
      other_key : (d ≢ k) ⊎ (v ≢ i) → v ≡ i → d ≢ k
      other_key (inl ne) e = ne
      other_key (inr ne) e = absurd (ne e)

      kept :
          (o : Option ℕ)
          → d ≢ k
          → elim o [ some s ↦ some s | none ↦ if k == d then some n else none ] ≡ o
      kept (some s) ne = refl
      kept none ne = ground (arith, ne)

  pub snoc-Once :
      (n : ℕ)
      → ((v : ℕ) → Once (f v))
      → find_container k (f i) ≡ none
      → (v : ℕ) → Once (at f i (f i ++ (k, n) ∷ []) v)
  snoc-Once n once free v = elim (ℕ_discrete v i) [
    | no ne ↦ rw (at_other f i (f i ++ (k, n) ∷ []) v ne) (once v)
    | yes e ↦ rw (e, at_self f i (f i ++ (k, n) ∷ [])) (Once-snoc k n (f i) (once i) free)
  ]

  pub erase_here : Once (f i) → find_container k (at f i (erase_container k (f i)) i) ≡ none
  erase_here once = rw (at_self f i (erase_container k (f i))) (find-erase_self k (f i) once)

  pub erase_other :
      (d v : ℕ)
      → (d ≢ k) ⊎ (v ≢ i)
      → find_container d (at f i (erase_container k (f i)) v) ≡ find_container d (f v)
  erase_other d v far = elim (ℕ_discrete v i) [
    | no ne ↦ rw (at_other f i (erase_container k (f i)) v ne) refl
    | yes e ↦
        rw (e, at_self f i (erase_container k (f i))) (find-erase_other k d (f i) (other_key far e))
  ]
    where
      other_key : (d ≢ k) ⊎ (v ≢ i) → v ≡ i → d ≢ k
      other_key (inl ne) e = ne
      other_key (inr ne) e = absurd (ne e)

  pub erase-Once : ((v : ℕ) → Once (f v)) → (v : ℕ) → Once (at f i (erase_container k (f i)) v)
  erase-Once once v = elim (ℕ_discrete v i) [
    | no ne ↦ rw (at_other f i (erase_container k (f i)) v ne) (once v)
    | yes e ↦ rw (e, at_self f i (erase_container k (f i))) (Once-erase k (f i) (once i))
  ]
