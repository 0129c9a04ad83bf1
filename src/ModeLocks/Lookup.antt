-- ===== src/ModeLocks/Lookup.antt =====
-- What is locked is found again.
use anope.Base.{
  ℕ, ◌≡◌, refl, ◌∙◌, ◌≢◌, inl, inr, Bool, true, false, Option, List, [], ◌∷◌, arith, Bytes, ltb,
  ◌==◌, if◌then◌else◌, Bool-cases, All,
}
use anope.Text.Order.{equals_cs_iff}
use anope.Access.{EventReturn}
use anope.ModeLocks.{
  ModeLock, mode_regular, mode_list, mode_param, mode_status, ChannelMode, find_from, insert,
  erase_name, has_param, has_mlock, without, new_lock, ModeType, is_regular, is_single, same,
  setter_or, is_stop, set_mlock, remove_all, remove_mlock,
}

module _ (ml : ModeLock) where
  has_param_self : (ls : List ModeLock) → has_param ml.name ml.param (ml ∷ ls) ≡ true
  unfolding has_param
  has_param_self ls = ground (arith, (equals_cs_iff ml.param ml.param).1 refl)

  has_param_behind :
      (l : ModeLock) (ls : List ModeLock)
      → ltb ml.name l.name ≡ false
      → has_param ml.name ml.param ls ≡ true
      → has_param ml.name ml.param (l ∷ ls) ≡ true
  unfolding has_param
  has_param_behind l ls e ih = ground (arith, e, ih)

  has_param-insert : (ls : List ModeLock) → has_param ml.name ml.param (insert ml ls) ≡ true
  unfolding insert
  has_param-insert [] = has_param_self []
  has_param-insert (l ∷ ls) = elim (Bool-cases (ltb ml.name l.name)) [
    | inl e ↦ rw e (has_param_self (l ∷ ls))
    | inr e ↦ rw e (has_param_behind l (insert ml ls) e (has_param-insert ls))
  ]

  find_from_self : (ls : List ModeLock) → find_from ml.name (ml ∷ ls) ≡ ml ∷ ls
  unfolding find_from
  find_from_self ls = ground arith

  find_from_behind :
      (l : ModeLock) (ls : List ModeLock)
      → ltb ml.name l.name ≡ false
      → has_param ml.name ml.param ls ≡ true
      → has_param ml.name ml.param (find_from ml.name ls) ≡ true
      → has_param ml.name ml.param (find_from ml.name (l ∷ ls)) ≡ true
  unfolding find_from
  find_from_behind l ls e whole ih = elim (Bool-cases (ltb l.name ml.name)) [
    | inl e' ↦ rw e' ih
    | inr e' ↦
        let en : (l.name == ml.name) ≡ true = ground (arith, e, e') in
        rw (e', en) (has_param_behind l ls e whole)
  ]

  has_param-find :
      (ls : List ModeLock) → has_param ml.name ml.param (find_from ml.name (insert ml ls)) ≡ true
  unfolding insert
  has_param-find [] = rw (find_from_self []) (has_param_self [])
  has_param-find (l ∷ ls) = elim (Bool-cases (ltb ml.name l.name)) [
    | inl e ↦ rw (e, find_from_self (l ∷ ls)) (has_param_self (l ∷ ls))
    | inr e ↦ rw e (find_from_behind l (insert ml ls) e (has_param-insert ls) (has_param-find ls))
  ]

  find_from-insert :
      (ls : List ModeLock)
      → All (λ l. l.name ≢ ml.name) ls
      → (rest : List ModeLock) × (find_from ml.name (insert ml ls) ≡ ml ∷ rest)
  unfolding insert find_from
  find_from-insert [] a = ([], ground arith)
  find_from-insert (l ∷ ls) (ne, a) =
      let (rest, ih) = find_from-insert ls a in
      elim (Bool-cases (ltb ml.name l.name)) [
        | inl e ↦ (l ∷ ls, rw e (ground arith))
        | inr e ↦ (rest, rw e (ground (arith, e, ne, ih)))
      ]

erased : (name : ℕ) (ls : List ModeLock) → All (λ l. l.name ≢ name) (erase_name name ls)
unfolding erase_name
erased name [] = tt
erased name (l ∷ ls) = elim (Bool-cases (l.name == name)) [
  | inl e ↦ rw e (erased name ls)
  | inr e ↦ rw e (ground (arith, e), erased name ls)
]

single_of : (t : ModeType) → is_regular t ≡ true → is_single t ≡ true
unfolding is_regular is_single
single_of mode_regular h = refl
single_of mode_list h = absurd (cc)
single_of mode_param h = refl
single_of mode_status h = absurd (cc)

same_self : (b : Bool) → same b b ≡ true
unfolding same
same_self true = refl
same_self false = refl

-- A mode of any kind but regular is asked for by its parameter.
other-has_mlock :
    (mode : ChannelMode) (status : Bool) (param : Bytes) (ls : List ModeLock)
    → is_regular mode.type ≡ false
    → has_mlock mode param status ls ≡ has_param mode.name param (find_from mode.name ls)
unfolding has_mlock has_param
other-has_mlock mode status param ls r = go (find_from mode.name ls)
  where
    go :
        (f : List ModeLock)
        → elim f [
          | [] ↦ false
          | (l ∷ ls') ↦
              if is_regular mode.type
              then same l.set status
              else has_param mode.name param (l ∷ ls')
        ]
          ≡ has_param mode.name param f
    go [] = refl
    go (l ∷ ls') = rw r refl

regular-has_mlock :
    (mode : ChannelMode) (status : Bool) (param : Bytes) (ls : List ModeLock) (l : ModeLock)
    (rest : List ModeLock)
    → is_regular mode.type ≡ true
    → find_from mode.name ls ≡ l ∷ rest
    → has_mlock mode param status ls ≡ same l.set status
unfolding has_mlock
regular-has_mlock mode status param ls l rest r e = rw (e, has_mlock, r) refl

insert-has_mlock :
    (mode : ChannelMode) (status : Bool) (param setter : Bytes) (created : ℕ) (ls : List ModeLock)
    → has_mlock mode param status
        (insert (new_lock mode status param setter created) (without mode param ls))
      ≡ true
unfolding new_lock without
insert-has_mlock mode status param setter created ls =
    let ml = new_lock mode status param setter created in
    elim (Bool-cases (is_regular mode.type)) [
      | inl r ↦ regular r
      | inr r ↦
          other-has_mlock mode status param (insert ml (without mode param ls)) r
          ∙ has_param-find ml (without mode param ls)
    ]
  where
    regular :
        is_regular mode.type ≡ true
        → has_mlock mode param status
            (insert (new_lock mode status param setter created) (without mode param ls))
          ≡ true
    regular r =
        let ml = new_lock mode status param setter created in
        let (rest, e) = find_from-insert ml (erase_name mode.name ls) (erased mode.name ls) in
        rw (single_of mode.type r) (
          regular-has_mlock mode status param (insert ml (erase_name mode.name ls)) ml rest r e
          ∙ same_self status)

-- After `set_mlock` has answered true, `has_mlock` finds the lock, for every kind of mode.
pub set_mlock-has_mlock :
    (on_mlock : ModeLock → EventReturn) (founder : Option Bytes) (mode : ChannelMode)
    (status : Bool) (param setter : Bytes) (created : ℕ) (ls : List ModeLock)
    → (set_mlock on_mlock founder mode status param setter created ls).0 ≡ true
    → has_mlock mode param status (set_mlock on_mlock founder mode status param setter created ls).1
      ≡ true
unfolding set_mlock
set_mlock-has_mlock on_mlock founder mode status param setter created ls h =
    let ml = new_lock mode status param (setter_or founder setter) created in
    elim (Bool-cases (is_stop (on_mlock ml))) [
      | inl stop ↦ absurd (cc)
      | inr go ↦ rw go (insert-has_mlock mode status param (setter_or founder setter) created ls)
    ]

removed :
    (on_un_mlock : ModeLock → EventReturn) (name : ℕ) (ls : List ModeLock)
    → ((l : ModeLock) → is_stop (on_un_mlock l) ≡ false)
    → All (λ l. l.name ≢ name) (remove_all on_un_mlock name ls)
unfolding remove_all
removed on_un_mlock name [] go = tt
removed on_un_mlock name (l ∷ ls) go = elim (Bool-cases (l.name == name)) [
  | inl e ↦ rw (e, go l) (removed on_un_mlock name ls go)
  | inr e ↦ rw e (ground (arith, e), removed on_un_mlock name ls go)
]

find_from_missing :
    (name : ℕ) (ls : List ModeLock) → All (λ l. l.name ≢ name) ls → find_from name ls ≡ []
unfolding find_from
find_from_missing name [] a = refl
find_from_missing name (l ∷ ls) (ne, a) = ground (arith, ne, find_from_missing name ls a)

-- Where no module stops it, `RemoveMLock` of a regular or parameter mode answers true and leaves no lock
-- of the mode, on or off and with any parameter.
pub remove_mlock-has_mlock :
    (on_un_mlock : ModeLock → EventReturn) (mode : ChannelMode) (param other : Bytes)
    (status : Bool) (ls : List ModeLock)
    → ((l : ModeLock) → is_stop (on_un_mlock l) ≡ false)
    → is_single mode.type ≡ true
    → ((remove_mlock on_un_mlock mode param ls).0 ≡ true)
      × (has_mlock mode other status (remove_mlock on_un_mlock mode param ls).1 ≡ false)
unfolding remove_mlock has_mlock
remove_mlock-has_mlock on_un_mlock mode param other status ls go single =
    rw single (refl, none_left)
  where
    none_left : has_mlock mode other status (remove_all on_un_mlock mode.name ls) ≡ false
    none_left =
        rw
          (
            find_from_missing mode.name (remove_all on_un_mlock mode.name ls)
                (removed on_un_mlock mode.name ls go),
            has_mlock,
          )
          refl
