-- ===== src/Opers/Depth.antt =====
-- What an operator type answers, where inheritance follows an order.
use anope.Base.{
  ℕ, zero, suc, ◌≤◌, ◌<◌, ◌≡◌, refl, Bool, true, false, ◌||◌, Option, some, List, [], ◌∷◌, ◌++◌,
  arith, Bytes, if◌then◌else◌, All,
}
use anope.Opers.{OperType, any_mask, or_else, first_of, all_of_them, has_priv, get_privs}

any_mask-append :
    (text : Bytes) (xs ys : List Bytes)
    → any_mask text (xs ++ ys) ≡ any_mask text xs || any_mask text ys
unfolding any_mask
any_mask-append text [] ys = refl
any_mask-append text (x ∷ xs) ys = ground (arith, any_mask-append text xs ys)

or_else_lem : (a b : Bool) → or_else (some a) (some b) ≡ some (a || b)
or_else_lem true b = refl
or_else_lem false b = refl

below-All :
    (low high : ℕ) (ps : List ℕ) → low ≤ high → All (λ q. q < low) ps → All (λ q. q < high) ps
below-All low high [] le h = tt
below-All low high (p ∷ ps) le (hp, h) = (omega arith, below-All low high ps le h)

-- The answers of the inherited types are those of their lists put together.
module _ (list : ℕ → Option (List Bytes)) (ask : ℕ → Option Bool) (text : Bytes) (bound : ℕ) where
  together :
      ((p : ℕ)
        → p < bound
        → (ms : List Bytes) × (list p ≡ some ms) × (ask p ≡ some (any_mask text ms)))
      → (ps : List ℕ) → All (λ q. q < bound) ps
      → (ms : List Bytes) × (all_of_them list ps ≡ some ms)
        × (first_of ask ps ≡ some (any_mask text ms))
  unfolding first_of all_of_them any_mask
  together each [] h = ([], refl, refl)
  together each (p ∷ ps) (hp, h) =
      let (xs, ex, ax) = each p hp in
      let (ys, ey, ay) = together each ps h in
      (
        xs ++ ys,
        rw (ex, ey) refl,
        rw (ax, ay, any_mask-append text xs ys) (or_else_lem (any_mask text xs) (any_mask text ys)),
      )

own : (a b : Bool) → (if a then some true else some b) ≡ some (a || b)
own true b = refl
own false b = refl

-- Where every type inherits from types before it only, a depth above the type's place is enough:
-- `GetPrivs` gives a list, and `HasPriv` answers whether the privilege matches a mask of that list.
pub has_priv-get_privs :
    (types : ℕ → OperType) (depth : ℕ) (text : Bytes) (p : ℕ)
    → ((q : ℕ) → All (λ r. r < q) (types q).inheritances)
    → p < depth
    → (ms : List Bytes) × (get_privs types depth p ≡ some ms)
      × (has_priv types depth text p ≡ some (any_mask text ms))
unfolding get_privs has_priv
has_priv-get_privs types zero text p below lt = absurd (omega arith)
has_priv-get_privs types (suc depth) text p below lt =
    let inherited = below-All p depth (types p).inheritances (omega arith) (below p) in
    let (ys, ey, ay) =
      together (get_privs types depth) (has_priv types depth text) text depth
        (λ q l. has_priv-get_privs types depth text q below l) (types p).inheritances inherited in
    (
      (types p).privs ++ ys,
      rw ey refl,
      rw (ay, any_mask-append text (types p).privs ys)
          (own (any_mask text (types p).privs) (any_mask text ys)),
    )
