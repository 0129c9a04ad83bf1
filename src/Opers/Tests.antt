-- ===== src/Opers/Tests.antt =====
-- Operator types on a small configuration.
use anope.Base.{
  ℕ, ◌<◌, ◌≡◌, refl, inl, inr, some, List, [], ◌∷◌, arith, Bytes, codes, ◌==◌, if◌then◌else◌,
  Bool-cases, All,
}
use anope.Opers.{OperType, any_mask, all_of_them, has_priv, get_privs, get_commands}
use anope.Opers.Depth.{has_priv-get_privs}

abbrev helper : OperType
helper = record {
  name = codes "Helper";
  commands = codes "nickserv/list" ∷ [];
  privs = codes "chanserv/auspex" ∷ [];
  inheritances = [];
}

abbrev admin : OperType
admin = record {
  name = codes "Admin";
  commands = codes "operserv/*" ∷ [];
  privs = [];
  inheritances = 0 ∷ [];
}

abbrev types : ℕ → OperType
types p = if p == 1 then admin else helper

types_below : (q : ℕ) → All (λ r. r < q) (types q).inheritances
types_below q = elim (Bool-cases (q == 1)) [
  | inl e ↦ rw e (ground (arith, e), tt)
  | inr e ↦ rw e tt
]

-- The list of commands holds the privileges of the inherited type, and not its commands.
inherited_commands :
    get_commands types 2 1 ≡ some (codes "operserv/*" ∷ codes "chanserv/auspex" ∷ [])
unfolding get_commands get_privs all_of_them
inherited_commands = refl

has_priv-get_privs_example :
    (ms : List Bytes) × (get_privs types 2 1 ≡ some ms)
    × (has_priv types 2 (codes "chanserv/auspex") 1 ≡ some (any_mask (codes "chanserv/auspex") ms))
has_priv-get_privs_example =
    has_priv-get_privs types 2 (codes "chanserv/auspex") 1 types_below (omega arith)
