-- ===== src/Users/Valid.antt =====
-- The maps of users under a user who comes, changes his nick or goes.
use anope.Base.{
  ℕ, ◌+◌, ◌≡◌, refl, sym, ap, ◌∙◌, ◌≢◌, inl, inr, true, false, ◌||◌, Option, none, some, List, [],
  ◌∷◌, arith, Bytes, if◌then◌else◌, some-inj, none-some, Bool-cases, length, All, ℕ_discrete, subst,
}
use anope.Text.{is_empty}
use mathlib.Core.Option
use anope.Numbers.{u32}
use anope.XLines.{is_in, remove}
use anope.XLines.Heap.{All-remove, remove-Distinct, remove-Absent}
use anope.XLines.Positions.{is_in-remove, length-remove}
use anope.Users.{
  User, World, no_users, at_place, new_user, set_new_nick, put_nick, put_uid, added, renamed, gone,
}
use anope.Users.Index.{
  place_other, place_here, name_at, empty-Indexes, come-Indexes, same-Indexes, go-Indexes,
  keep-Indexes,
}
use anope.Users.Named.{
  has_nick, has_uid, Live, IsValid, nick_apart, uid_apart, still_live, vacant_Absent, one_more,
  one_less,
}

pub start-IsValid : IsValid [] no_users
unfolding no_users u32
start-IsValid = record {
  nicks = empty-Indexes has_nick;
  uids = empty-Indexes has_uid;
  distinct = tt;
  live = tt;
  listed = λ p u e. absurd (none-some e);
  counted = refl;
}

added-IsValid :
    (p : ℕ) (u : User) (ps : List ℕ) (w : World)
    → IsValid ps w
    → w.heap p ≡ none
    → ((q : ℕ) (u' : User) → w.heap q ≡ some u' → has_nick u.nick u' ≡ false)
    → ((q : ℕ) (u' : User) → w.heap q ≡ some u' → has_uid u.uid u' ≡ false)
    → IsValid (p ∷ ps) (added p u w)
unfolding added put_nick put_uid name_at has_nick has_uid is_in
added-IsValid p u ps w v vacant nick_free uid_free =
    let absent = vacant_Absent w.heap p ps vacant v.live in
    record {
      nicks =
          come-Indexes has_nick w.by_nick w.heap v.nicks p u vacant
            (λ k q u' alive. nick_apart u u' k (nick_free q u' alive));
      uids =
          come-Indexes has_uid w.by_uid w.heap v.uids p u vacant
            (λ k q u' alive. uid_apart u u' k (uid_free q u' alive));
      distinct = (absent, v.distinct);
      live = ((u, place_here w.heap p (some u)), still_live w.heap p (some u) ps absent v.live);
      listed = λ q x e. elim (ℕ_discrete q p) [
        | yes same ↦ ground (arith, same)
        | no ne ↦ ground (arith, v.listed q x (sym (place_other w.heap p (some u) q ne) ∙ e))
      ];
      counted = ap (λ n. u32 (n + 1)) v.counted ∙ one_more (length ps);
    }

-- The constructor answers with a state that is valid.
pub new_user-IsValid :
    (p : ℕ) (u : User) (ps : List ℕ) (w w' : World)
    → IsValid ps w
    → w.heap p ≡ none
    → ((q : ℕ) (u' : User) → w.heap q ≡ some u' → has_nick u.nick u' ≡ false)
    → ((q : ℕ) (u' : User) → w.heap q ≡ some u' → has_uid u.uid u' ≡ false)
    → new_user p u w ≡ some w'
    → IsValid (p ∷ ps) w'
unfolding new_user
new_user-IsValid p u ps w w' v vacant nick_free uid_free run =
    elim (Bool-cases (is_empty u.nick || is_empty u.ident || is_empty u.host)) [
      | inl e ↦ absurd (none-some (sym (ap (λ b. if b then none else some (added p u w)) e) ∙ run))
      | inr e ↦
          subst (IsValid (p ∷ ps))
            (some-inj (sym (ap (λ b. if b then none else some (added p u w)) e) ∙ run))
            (added-IsValid p u ps w v vacant nick_free uid_free)
    ]

-- The places stay live when a user changes.
rewritten :
    (heap : ℕ → Option User) (p : ℕ) (u : User) (ps : List ℕ)
    → All (Live heap) ps
    → All (Live (at_place heap p (some u))) ps
rewritten heap p u [] l = tt
rewritten heap p u (q ∷ ps) ((x, alive), l) = (
  elim (ℕ_discrete q p) [
    | yes same ↦ (u, ap (at_place heap p (some u)) same ∙ place_here heap p (some u))
    | no ne ↦ (x, place_other heap p (some u) q ne ∙ alive)
  ],
  rewritten heap p u ps l,
)

-- The heap without a user, and with the user as he is now.
put_back :
    (heap : ℕ → Option User) (p : ℕ) (v : Option User) (q : ℕ)
    → at_place (at_place heap p none) p v q ≡ at_place heap p v q
unfolding at_place
put_back heap p v q = ground arith

renamed-IsValid :
    (p : ℕ) (u : User) (nick : Bytes) (ps : List ℕ) (w : World)
    → IsValid ps w
    → w.heap p ≡ some u
    → ((q : ℕ) (u' : User) → w.heap q ≡ some u' → q ≢ p → has_nick nick u' ≡ false)
    → IsValid ps (renamed p u nick w)
unfolding renamed put_nick name_at has_nick has_uid
renamed-IsValid p u nick ps w v alive nick_free =
    let u' : User = record u { nick = nick } in
    let without = at_place w.heap p none in
    let present : is_in p ps ≡ true = v.listed p u alive in
    record {
      nicks =
          same-Indexes has_nick _ (at_place without p (some u')) (at_place w.heap p (some u'))
            (put_back w.heap p (some u'))
            (come-Indexes has_nick (put_nick u.nick none w.by_nick) without
              (go-Indexes has_nick w.by_nick w.heap v.nicks p u alive) p u'
              (place_here w.heap p none)
              (λ k q x there. elim (ℕ_discrete q p) [
                | yes same ↦
                    absurd
                      (none-some (sym (place_here w.heap p none) ∙ (ap without (sym same) ∙ there)))
                | no ne ↦
                    nick_apart u' x k
                      (nick_free q x (sym (place_other w.heap p none q ne) ∙ there) ne)
              ]));
      uids = keep-Indexes has_uid w.by_uid w.heap v.uids p u u' alive (λ k. refl);
      distinct = v.distinct;
      live = rewritten w.heap p u' ps v.live;
      listed = λ q x e. elim (ℕ_discrete q p) [
        | yes same ↦ ap (λ r. is_in r ps) same ∙ present
        | no ne ↦ v.listed q x (sym (place_other w.heap p (some u') q ne) ∙ e)
      ];
      counted = v.counted;
    }

pub gone-IsValid :
    (p : ℕ) (u : User) (ps : List ℕ) (w : World)
    → IsValid ps w
    → w.heap p ≡ some u
    → IsValid (remove p ps) (gone p u w)
unfolding gone put_nick put_uid name_at has_nick has_uid
gone-IsValid p u ps w v alive =
    let present : is_in p ps ≡ true = v.listed p u alive in
    record {
      nicks = go-Indexes has_nick w.by_nick w.heap v.nicks p u alive;
      uids = go-Indexes has_uid w.by_uid w.heap v.uids p u alive;
      distinct = remove-Distinct p ps v.distinct;
      live =
          still_live w.heap p none (remove p ps) (remove-Absent p ps v.distinct)
            (All-remove (Live w.heap) p ps v.live);
      listed = λ q x e. elim (ℕ_discrete q p) [
        | yes same ↦ absurd (
            none-some
              (sym (place_here w.heap p none) ∙ (ap (at_place w.heap p none) (sym same) ∙ e)))
        | no ne ↦ is_in-remove ps p q ne (v.listed q x (sym (place_other w.heap p none q ne) ∙ e))
      ];
      counted =
          ap (λ n. u32 (n + 4294967295)) (v.counted ∙ ap u32 (sym (length-remove ps p present)))
          ∙ one_less (length (remove p ps));
    }

pub set_new_nick-IsValid :
    (p : ℕ) (u : User) (nick : Bytes) (ps : List ℕ) (w w' : World)
    → IsValid ps w
    → w.heap p ≡ some u
    → ((q : ℕ) (u' : User) → w.heap q ≡ some u' → q ≢ p → has_nick nick u' ≡ false)
    → set_new_nick p nick w ≡ some w'
    → IsValid ps w'
unfolding set_new_nick
set_new_nick-IsValid p u nick ps w w' v alive nick_free run = elim (Bool-cases (is_empty nick)) [
  | inl e ↦ absurd (
      none-some (
        sym (ap (λ b. if b then none else Option.map (λ x. renamed p x nick w) (w.heap p)) e)
        ∙ run))
  | inr e ↦
      subst (IsValid ps)
        (some-inj (
          sym (
            ap (λ b. if b then none else Option.map (λ x. renamed p x nick w) (w.heap p)) e
            ∙ ap (Option.map (λ x. renamed p x nick w)) alive)
          ∙ run))
        (renamed-IsValid p u nick ps w v alive nick_free)
]
