-- ===== src/ModeLocks/Valid.antt =====
-- The invariant of the mode locks: ordered by name, one entry for a single mode, and one entry for each
-- parameter of a list or status mode.
use anope.Base.{
  ℕ, ◌<◌, ◌≡◌, sym, ◌∙◌, ◌≢◌, ◌⊎◌, inl, inr, Bool, false, Option, List, [], ◌∷◌, arith, Bytes, ltb,
  ◌==◌, Bool-cases, All, ℕ_discrete, subst,
}
use anope.Text.{equals_cs}
use anope.Text.Order.{equals_cs_iff}
use anope.Access.{EventReturn}
use anope.ModeLocks.{
  ModeLock, ModeType, ChannelMode, is_single, insert, erase_name, erase_param, setter_or, without,
  new_lock, set_mlock, is_stop,
}

-- `l` may stand before `m`.
abbrev pub Before : (ℕ → ModeType) → ModeLock → ModeLock → Type 0
Before type_of l m =
    (l.name < m.name)
    ⊎ ((l.name ≡ m.name) × (is_single (type_of l.name) ≡ false) × (l.param ≢ m.param))

abbrev pub IsValid : (ℕ → ModeType) → List ModeLock → Type 0
IsValid type_of [] = Unit
IsValid type_of (l ∷ ls) = All (Before type_of l) ls × IsValid type_of ls

-- A lock of the name with the parameter may be inserted beside `l`.
abbrev pub Apart : (ℕ → ModeType) → ℕ → Bytes → ModeLock → Type 0
Apart type_of name param l =
    (l.name ≢ name) ⊎ ((is_single (type_of l.name) ≡ false) × (l.param ≢ param))

differ : (s t : Bytes) → equals_cs s t ≡ false → s ≢ t
differ s t h e = absurd (ground (arith, h, (equals_cs_iff s t).1 e))

module _ (type_of : ℕ → ModeType) (name : ℕ) (param : Bytes) where
  All-erase_name :
      (P : ModeLock → Type 0) (ls : List ModeLock) → All P ls → All P (erase_name name ls)
  unfolding erase_name
  All-erase_name P [] h = tt
  All-erase_name P (l ∷ ls) (hl, h) =
      let ih = All-erase_name P ls h in
      elim (Bool-cases (l.name == name)) [ inl e ↦ rw e ih | inr e ↦ rw e (hl, ih) ]

  erase_name-IsValid :
      (ls : List ModeLock)
      → IsValid type_of ls
      → IsValid type_of (erase_name name ls) × All (Apart type_of name param) (erase_name name ls)
  unfolding erase_name
  erase_name-IsValid [] v = (tt, tt)
  erase_name-IsValid (l ∷ ls) (b, v) =
      let (iv, ia) = erase_name-IsValid ls v in
      elim (Bool-cases (l.name == name)) [
        | inl e ↦ rw e (iv, ia)
        | inr e ↦
            rw e (((All-erase_name (Before type_of l) ls b, iv), (inl (ground (arith, e)), ia)))
      ]

  All-erase_param :
      (P : ModeLock → Type 0) (ls : List ModeLock) → All P ls → All P (erase_param name param ls)
  unfolding erase_param
  All-erase_param P [] h = tt
  All-erase_param P (l ∷ ls) (hl, h) =
      let ih = All-erase_param P ls h in
      elim (Bool-cases (ltb l.name name)) [
        | inl e ↦ rw e (hl, ih)
        | inr e ↦ elim (Bool-cases (ltb name l.name)) [
          | inl e' ↦ rw (e, e') (hl, h)
          | inr e' ↦ elim (Bool-cases (equals_cs l.param param)) [
            | inl s ↦ rw (e, e', s) h
            | inr s ↦ rw (e, e', s) (hl, ih)
          ]
        ]
      ]

  -- What stands behind an entry of a later name, or behind the erased one.
  later-Apart :
      (l : ModeLock) (ls : List ModeLock)
      → name < l.name
      → All (Before type_of l) ls
      → All (Apart type_of name param) ls
  later-Apart l [] lt b = tt
  later-Apart l (m ∷ ls) lt (bm, b) = (
    elim bm [ inl far ↦ inl (omega arith) | inr (e, _, _) ↦ inl (omega arith) ],
    later-Apart l ls lt b,
  )

  erased-Apart :
      (l : ModeLock) (ls : List ModeLock)
      → l.name ≡ name
      → l.param ≡ param
      → All (Before type_of l) ls
      → All (Apart type_of name param) ls
  erased-Apart l [] e s b = tt
  erased-Apart l (m ∷ ls) e s (bm, b) = (
    elim bm [
      | inl far ↦ inl (omega arith)
      | inr (en, k, ne) ↦ inr (subst (λ n. is_single (type_of n) ≡ false) en k, λ p. ne (s ∙ sym p))
    ],
    erased-Apart l ls e s b,
  )

  erase_param-IsValid :
      (ls : List ModeLock)
      → is_single (type_of name) ≡ false
      → IsValid type_of ls
      → IsValid type_of (erase_param name param ls)
        × All (Apart type_of name param) (erase_param name param ls)
  unfolding erase_param
  erase_param-IsValid [] k v = (tt, tt)
  erase_param-IsValid (l ∷ ls) k (b, v) =
      let (iv, ia) = erase_param-IsValid ls k v in
      let b' = All-erase_param (Before type_of l) ls b in
      elim (Bool-cases (ltb l.name name)) [
        | inl e ↦ rw e ((b', iv), (inl (ground (arith, e)), ia))
        | inr e ↦ elim (Bool-cases (ltb name l.name)) [
          | inl e' ↦
              rw (e, e')
                ((b, v), (inl (ground (arith, e')), later-Apart l ls (ground (arith, e')) b))
          | inr e' ↦
              let en : l.name ≡ name = ground (arith, e, e') in
              elim (Bool-cases (equals_cs l.param param)) [
                | inl s ↦
                    rw (e, e', s) (v, erased-Apart l ls en ((equals_cs_iff l.param param).0 s) b)
                | inr s ↦
                    rw (e, e', s)
                      (
                        (b', iv),
                        (
                          inr (
                            subst (λ n. is_single (type_of n) ≡ false) (sym en) k,
                            differ l.param param s,
                          ),
                          ia,
                        ),
                      )
              ]
        ]
      ]

module _ (type_of : ℕ → ModeType) (ml : ModeLock) where
  All-insert : (P : ModeLock → Type 0) (ls : List ModeLock) → P ml → All P ls → All P (insert ml ls)
  unfolding insert
  All-insert P [] hm h = (hm, tt)
  All-insert P (l ∷ ls) hm (hl, h) =
      let ih = All-insert P ls hm h in
      elim (Bool-cases (ltb ml.name l.name)) [ inl e ↦ rw e (hm, (hl, h)) | inr e ↦ rw e (hl, ih) ]

  far_Before :
      (l : ModeLock) (ls : List ModeLock)
      → ml.name < l.name
      → All (Before type_of l) ls
      → All (Before type_of ml) ls
  far_Before l [] lt b = tt
  far_Before l (m ∷ ls) lt (bm, b) = (
    elim bm [ inl far ↦ inl (omega arith) | inr (e, _, _) ↦ inl (omega arith) ],
    far_Before l ls lt b,
  )

  insert-IsValid :
      (ls : List ModeLock)
      → IsValid type_of ls
      → All (Apart type_of ml.name ml.param) ls
      → IsValid type_of (insert ml ls)
  unfolding insert
  insert-IsValid [] v a = (tt, tt)
  insert-IsValid (l ∷ ls) (b, v) (al, a) =
      let iv = insert-IsValid ls v a in
      elim (Bool-cases (ltb ml.name l.name)) [
        | inl e ↦
            let lt : ml.name < l.name = ground (arith, e) in
            rw e ((inl lt, far_Before l ls lt b), (b, v))
        | inr e ↦ rw e (All-insert (Before type_of l) ls (beside e al) b, iv)
      ]
    where
      beside : ltb ml.name l.name ≡ false → Apart type_of ml.name ml.param l → Before type_of l ml
      beside e (inl ne) = inl (ground (arith, e, ne))
      beside e (inr (k, ne)) = elim (ℕ_discrete l.name ml.name) [
        | yes en ↦ inr (en, k, ne)
        | no nn ↦ inl (ground (arith, e, nn))
      ]

without-IsValid :
    (type_of : ℕ → ModeType) (mode : ChannelMode) (param : Bytes) (ls : List ModeLock)
    → type_of mode.name ≡ mode.type
    → IsValid type_of ls
    → IsValid type_of (without mode param ls)
      × All (Apart type_of mode.name param) (without mode param ls)
unfolding without
without-IsValid type_of mode param ls e v = elim (Bool-cases (is_single mode.type)) [
  | inl s ↦ rw s (erase_name-IsValid type_of mode.name param ls v)
  | inr s ↦ rw s (erase_param-IsValid type_of mode.name param ls (rw e s) v)
]

-- Where `type_of` gives the type of the mode, `set_mlock` keeps the locks valid, whatever the hook
-- answers: the entries stay ordered, a regular or parameter mode keeps one entry, and a list or status
-- mode keeps one entry for each parameter.
pub set_mlock-IsValid :
    (type_of : ℕ → ModeType) (on_mlock : ModeLock → EventReturn) (founder : Option Bytes)
    (mode : ChannelMode) (status : Bool) (param setter : Bytes) (created : ℕ) (ls : List ModeLock)
    → type_of mode.name ≡ mode.type
    → IsValid type_of ls
    → IsValid type_of (set_mlock on_mlock founder mode status param setter created ls).1
unfolding set_mlock new_lock
set_mlock-IsValid type_of on_mlock founder mode status param setter created ls e v =
    let ml = new_lock mode status param (setter_or founder setter) created in
    let (iv, ia) = without-IsValid type_of mode param ls e v in
    elim (Bool-cases (is_stop (on_mlock ml))) [
      | inl stop ↦ rw stop v
      | inr go ↦ rw go (insert-IsValid type_of ml (without mode param ls) iv ia)
    ]
