-- ===== src/Users/Named.antt =====
-- Whom a name means, and which states of the maps of users are valid.
use anope.Base.{
  ℕ, suc, ◌+◌, ◌≡◌, sym, ap, ◌∙◌, Bool, true, false, not, ◌&&◌, Option, none, some, List, [], ◌∷◌,
  arith, Bytes, if◌then◌else◌, none-some, both, length, All,
}
use anope.Text.{is_empty, equals_ci, equals_cs}
use anope.Text.Order.{equals_ci_sym, equals_ci_trans, equals_cs_iff}
use anope.Numbers.{u32}
use anope.XLines.{is_in}
use anope.XLines.Heap.{Distinct, Absent}
use anope.Users.{User, World, at_place, first_digit}
use anope.Users.Index.{Indexes, place_other}

unfoldable pub has_nick : Bytes → User → Bool
has_nick k u = equals_ci k u.nick

unfoldable pub has_uid : Bytes → User → Bool
has_uid k u = not (is_empty u.uid) && equals_cs k u.uid

-- Does a name mean the user? A name that begins with a digit is a unique id, where users have these.
unfoldable pub answers_to : Bool → Bytes → User → Bool
answers_to ts6 name u = if first_digit name && ts6 then has_uid name u else has_nick name u

abbrev pub Live : (ℕ → Option User) → ℕ → Type 0
Live heap p = (u : User) × (heap p ≡ some u)

pub record IsValid (ps : List ℕ) (w : World) : Type 0 where
  pub nicks : Indexes has_nick w.by_nick w.heap
  pub uids : Indexes has_uid w.by_uid w.heap
  pub distinct : Distinct ps
  pub live : All (Live w.heap) ps
  pub listed : (p : ℕ) (u : User) → w.heap p ≡ some u → is_in p ps ≡ true
  pub counted : w.usercnt ≡ u32 (length ps)

-- A nick and its variants in case belong to one user.
pub nick_apart :
    (u u' : User) (k : Bytes)
    → has_nick u.nick u' ≡ false
    → has_nick k u ≡ true
    → has_nick k u' ≡ true
    → ⊥
unfolding has_nick
nick_apart u u' k no_clash h h' =
    let both = equals_ci_trans u.nick k u'.nick (equals_ci_sym k u.nick h) h' in cc

pub uid_apart :
    (u u' : User) (k : Bytes)
    → has_uid u.uid u' ≡ false
    → has_uid k u ≡ true
    → has_uid k u' ≡ true
    → ⊥
unfolding has_uid
uid_apart u u' k no_clash h h' =
    let same : k ≡ u.uid = (equals_cs_iff k u.uid).0 (both h).1 in
    let clash : has_uid k u' ≡ has_uid u.uid u' = ap (λ j. has_uid j u') same in cc

-- Live places but one stay live.
pub still_live :
    (heap : ℕ → Option User) (p : ℕ) (v : Option User) (ps : List ℕ)
    → Absent p ps
    → All (Live heap) ps
    → All (Live (at_place heap p v)) ps
still_live heap p v [] a l = tt
still_live heap p v (q ∷ ps) (ne, a) ((u, alive), l) =
    ((u, place_other heap p v q ne ∙ alive), still_live heap p v ps a l)

pub vacant_Absent :
    (heap : ℕ → Option User) (p : ℕ) (ps : List ℕ)
    → heap p ≡ none
    → All (Live heap) ps
    → Absent p ps
vacant_Absent heap p [] e l = tt
vacant_Absent heap p (q ∷ ps) e ((u, alive), l) =
    ((λ same. none-some (sym e ∙ (ap heap (sym same) ∙ alive))), vacant_Absent heap p ps e l)

pub one_more : (n : ℕ) → u32 (u32 n + 1) ≡ u32 (suc n)
unfolding u32
one_more n = omega arith

pub one_less : (n : ℕ) → u32 (u32 (suc n) + 4294967295) ≡ u32 n
unfolding u32
one_less n = omega arith
