-- ===== src/Users/Reached.antt =====
-- The users that are found after they came, changed their nicks and went.
use anope.Base.{
  ℕ, ◌≡◌, sym, ap, ◌∙◌, ◌≢◌, ◌↔◌, inl, inr, Bool, true, false, ◌&&◌, Option, none, some, List, [],
  ◌∷◌, Bytes, some-inj, Bool-cases, length, All, subst,
}
use mathlib.Core.Option
use anope.Numbers.{u32}
use anope.XLines.{remove}
use anope.XLines.Heap.{Distinct}
use anope.Users.{
  User, World, no_users, new_user, set_new_nick, delete_user, first_digit, gone, find_user,
}
use anope.Users.Index.{Indexes}
use anope.Users.Valid.{start-IsValid, new_user-IsValid, gone-IsValid, set_new_nick-IsValid}
use anope.Users.Named.{IsValid, has_nick, has_uid, answers_to, Live}

-- The places of the users who are online, and the state. A user comes at a free place, with a nick and a
-- unique id that nobody else has, and changes to a nick that nobody else has.
pub data Reached : List ℕ → World → Type 0 where
  started : Reached [] no_users
  came :
      {ps : List ℕ} {w w' : World} (p : ℕ) (u : User)
      → Reached ps w
      → w.heap p ≡ none
      → ((q : ℕ) (u' : User) → w.heap q ≡ some u' → has_nick u.nick u' ≡ false)
      → ((q : ℕ) (u' : User) → w.heap q ≡ some u' → has_uid u.uid u' ≡ false)
      → new_user p u w ≡ some w'
      → Reached (p ∷ ps) w'
  changed :
      {ps : List ℕ} {w w' : World} {u : User} (p : ℕ) (nick : Bytes)
      → Reached ps w
      → w.heap p ≡ some u
      → ((q : ℕ) (u' : User) → w.heap q ≡ some u' → q ≢ p → has_nick nick u' ≡ false)
      → set_new_nick p nick w ≡ some w'
      → Reached ps w'
  went :
      {ps : List ℕ} {w w' : World} {u : User} (p : ℕ)
      → Reached ps w
      → w.heap p ≡ some u
      → delete_user p w ≡ some w'
      → Reached (remove p ps) w'

pub reached-IsValid : {ps : List ℕ} {w : World} → Reached ps w → IsValid ps w
unfolding delete_user
reached-IsValid Reached.started = start-IsValid
reached-IsValid (Reached.came {ps} {w} {w'} p u r vacant nick_free uid_free run) =
    new_user-IsValid p u ps w w' (reached-IsValid r) vacant nick_free uid_free run
reached-IsValid (Reached.changed {ps} {w} {w'} {u} p nick r alive nick_free run) =
    set_new_nick-IsValid p u nick ps w w' (reached-IsValid r) alive nick_free run
reached-IsValid (Reached.went {ps} {w} {w'} {u} p r alive run) =
    subst (IsValid (remove p ps)) (some-inj (sym (ap (Option.map (λ x. gone p x w)) alive) ∙ run))
      (gone-IsValid p u ps w (reached-IsValid r) alive)

found_iff :
    (test : Bytes → User → Bool) (m : Bytes → Option ℕ) (heap : ℕ → Option User) (k : Bytes) (p : ℕ)
    → Indexes test m heap
    → (m k ≡ some p) ↔ ((u : User) × (heap p ≡ some u) × (test k u ≡ true))
found_iff test m heap k p ix = (ix.sound k p, λ (u, alive, t). ix.complete k p u alive t)

-- Whoever came, changed the nick and went before: a user is the answer of `finduser` exactly if he is online
-- and the name means him, by his nick in any case of letters, or, where users have unique ids and the
-- name begins with a digit, by his unique id, which is not empty. `usercnt` is the number of the users
-- who are online modulo 2^32. No two users who are online at a time have the same nick, but for case, or
-- the same unique id.
pub reached-find_user :
    {ps : List ℕ} {w : World} (ts6 : Bool) (name : Bytes) (p : ℕ)
    → Reached ps w
    → ((find_user ts6 name w ≡ some p)
        ↔ ((u : User) × (w.heap p ≡ some u) × (answers_to ts6 name u ≡ true)))
      × (Distinct ps × All (Live w.heap) ps)
      × (w.usercnt ≡ u32 (length ps))
unfolding find_user answers_to
reached-find_user {ps} {w} ts6 name p r =
    let v = reached-IsValid r in
    (
      elim (Bool-cases (first_digit name && ts6)) [
        | inl e ↦ rw e (found_iff has_uid w.by_uid w.heap name p v.uids)
        | inr e ↦ rw e (found_iff has_nick w.by_nick w.heap name p v.nicks)
      ],
      (v.distinct, v.live),
      v.counted,
    )
