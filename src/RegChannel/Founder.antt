-- ===== src/RegChannel/Founder.antt =====
-- Accounts count the channels that they founded.
use anope.Base.{
  ℕ, ◌+◌, ◌%◌, ◌^◌, ◌≡◌, ap, ◌∙◌, Option, none, some, List, [], ◌∷◌, ◌++◌, arith, if◌then◌else◌,
}
use anope.RegChannel.{ChannelInfo, same_account, decrement, increment, set_founder}

-- The number of channels whose founder is the account `a`.
unfoldable pub founded : ℕ → List ChannelInfo → ℕ
founded a [] = 0
founded a (ci ∷ cs) = (if same_account ci.founder (some a) then 1 else 0) + founded a cs

founded-append :
    (a : ℕ) (xs ys : List ChannelInfo) → founded a (xs ++ ys) ≡ founded a xs + founded a ys
unfolding founded
founded-append a [] ys = omega arith
founded-append a (ci ∷ xs) ys = omega (arith, founded-append a xs ys)

founded-middle :
    (a : ℕ) (front : List ChannelInfo) (ci : ChannelInfo) (back : List ChannelInfo)
    → founded a (front ++ ci ∷ back)
      ≡ (if same_account ci.founder (some a) then 1 else 0) + (founded a front + founded a back)
unfolding founded
founded-middle a front ci back = omega (arith, founded-append a front (ci ∷ back))

moved :
    (f nc : Option ℕ) (counts : ℕ → ℕ) (a rest : ℕ)
    → counts a ≡ ((if same_account f (some a) then 1 else 0) + rest) % 2 ^ 16
    → increment nc (decrement f counts) a
      ≡ ((if same_account nc (some a) then 1 else 0) + rest) % 2 ^ 16
unfolding same_account increment decrement
moved none none counts a rest h = ground arith
moved none (some q) counts a rest h = ground arith
moved (some p) none counts a rest h = ground arith
moved (some p) (some q) counts a rest h = ground arith

-- If the count of an account is the number of channels it founded, modulo 2 ^ 16, then so it is
-- after the founder of one of the channels was set.
pub set_founder-founded :
    (nc : Option ℕ) (ci : ChannelInfo) (front back : List ChannelInfo) (counts : ℕ → ℕ) (a : ℕ)
    → counts a ≡ founded a (front ++ ci ∷ back) % 2 ^ 16
    → (set_founder nc ci counts).1 a
      ≡ founded a (front ++ (set_founder nc ci counts).0 ∷ back) % 2 ^ 16
unfolding set_founder
set_founder-founded nc ci front back counts a h =
    rw (founded-middle a front (set_founder nc ci counts).0 back) (
      moved ci.founder nc counts a (founded a front + founded a back)
        (h ∙ ap (λ n. n % 2 ^ 16) (founded-middle a front ci back)))
