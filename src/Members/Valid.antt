-- ===== src/Members/Valid.antt =====
-- Channels and users agree on who is where.
use anope.Base.{
  ℕ, ◌+◌, ◌<◌, ◌≡◌, refl, sym, ◌∙◌, ◌≢◌, ◌⊎◌, inl, inr, false, not, ◌&&◌, none, some, arith,
  some-inj, ℕ_discrete,
}
use anope.Members.{
  World, ChannelStatus, find_container, join_user, at, erase_container, ChannelFlags, no_containers,
  delete_user,
}
use anope.Members.Lists.{
  Once, at_self, at_other, snoc_here, snoc_other, snoc-Once, erase_here, erase_other, erase-Once,
}

-- A channel lists a user exactly if the user lists the channel, once, with the same status, which is
-- alive and is that of no other pair.
pub record IsValid (w : World) : Type 0 where
  pub both : (c u : ℕ) → find_container u (w.users_of c) ≡ find_container c (w.chans_of u)
  pub users_once : (c : ℕ) → Once (w.users_of c)
  pub chans_once : (u : ℕ) → Once (w.chans_of u)
  pub alive :
      (c u st : ℕ)
      → find_container c (w.chans_of u) ≡ some st
      → (st < w.next) × ((s : ChannelStatus) × (w.statuses st ≡ some s))
  pub apart :
      (c u c' u' st : ℕ)
      → find_container c (w.chans_of u) ≡ some st
      → find_container c' (w.chans_of u') ≡ some st
      → (c ≡ c') × (u ≡ u')

pub Pair-cases : (c u d v : ℕ) → ((d ≡ c) × (v ≡ u)) ⊎ ((d ≢ c) ⊎ (v ≢ u))
Pair-cases c u d v = elim (ℕ_discrete d c) [
  | no ne ↦ inr (inl ne)
  | yes e ↦ elim (ℕ_discrete v u) [ yes e' ↦ inl (e, e') | no ne ↦ inr (inr ne) ]
]

swapped : {P Q : Type 0} → P ⊎ Q → Q ⊎ P
swapped (inl p) = inr p
swapped (inr q) = inl q

-- A container that is found behind a join is the new one, or was found before.
join_found :
    (c u : ℕ) (w : World) (d x st : ℕ)
    → find_container c (w.chans_of u) ≡ none
    → find_container d ((join_user c u w).chans_of x) ≡ some st
    → ((d ≡ c) × (x ≡ u) × (st ≡ w.next)) ⊎ (find_container d (w.chans_of x) ≡ some st)
unfolding join_user
join_found c u w d x st free h = elim (Pair-cases c u d x) [
  | inl (ed, ex) ↦
      inl (ed, ex, some-inj (sym (rw (ed, ex) at h) ∙ snoc_here w.chans_of u c w.next free))
  | inr far ↦ inr (sym (snoc_other w.chans_of u c w.next d x far) ∙ h)
]

-- A user who joins a channel that he is not on keeps the containers valid.
pub join_user-IsValid :
    (c u : ℕ) (w : World)
    → IsValid w
    → find_container c (w.chans_of u) ≡ none
    → IsValid (join_user c u w)
unfolding join_user
join_user-IsValid c u w v free = record {
  both = both;
  users_once = snoc-Once w.users_of c u w.next v.users_once (v.both c u ∙ free);
  chans_once = snoc-Once w.chans_of u c w.next v.chans_once free;
  alive = λ d x st h. alive d x st (join_found c u w d x st free h);
  apart = λ d x d' x' st h h'.
      apart d x d' x' st (join_found c u w d x st free h) (join_found c u w d' x' st free h');
}
  where
    both :
        (d x : ℕ)
        → find_container x ((join_user c u w).users_of d)
          ≡ find_container d ((join_user c u w).chans_of x)
    both d x = elim (Pair-cases c u d x) [
      | inl (ed, ex) ↦
          rw (ed, ex)
            (snoc_here w.users_of c u w.next (v.both c u ∙ free)
              ∙ sym (snoc_here w.chans_of u c w.next free))
      | inr far ↦
          snoc_other w.users_of c u w.next x d (swapped far)
          ∙ (v.both d x ∙ sym (snoc_other w.chans_of u c w.next d x far))
    ]

    alive :
        (d x st : ℕ)
        → ((d ≡ c) × (x ≡ u) × (st ≡ w.next)) ⊎ (find_container d (w.chans_of x) ≡ some st)
        → (st < w.next + 1) × ((s : ChannelStatus) × ((join_user c u w).statuses st ≡ some s))
    alive d x st (inl (ed, ex, es)) =
        (omega arith, ((λ flag. false), rw es (at_self w.statuses w.next (some (λ flag. false)))))
    alive d x st (inr h) =
        let (lt, (s, e)) = v.alive d x st h in
        (omega arith, (s, at_other w.statuses w.next (some (λ flag. false)) st (omega arith) ∙ e))

    apart :
        (d x d' x' st : ℕ)
        → ((d ≡ c) × (x ≡ u) × (st ≡ w.next)) ⊎ (find_container d (w.chans_of x) ≡ some st)
        → ((d' ≡ c) × (x' ≡ u) × (st ≡ w.next)) ⊎ (find_container d' (w.chans_of x') ≡ some st)
        → (d ≡ d') × (x ≡ x')
    apart d x d' x' st (inl (ed, ex, es)) (inl (ed', ex', es')) = (omega arith, omega arith)
    apart d x d' x' st (inl (ed, ex, es)) (inr h) =
        let (lt, r) = v.alive d' x' st h in absurd (omega arith)
    apart d x d' x' st (inr h) (inl (ed, ex, es)) =
        let (lt, r) = v.alive d x st h in absurd (omega arith)
    apart d x d' x' st (inr h) (inr h') = v.apart d x d' x' st h h'

-- What `DeleteUser` leaves.
unfoldable pub after_part : ℕ → ℕ → ℕ → World → World
after_part c u st w = record {
  users_of = at w.users_of c (erase_container u (w.users_of c));
  chans_of = at w.chans_of u (erase_container c (w.chans_of u));
  statuses = at w.statuses st none;
  next = w.next;
}

part_found :
    (c u gone : ℕ) (w : World) (d x st : ℕ)
    → IsValid w
    → find_container c (w.chans_of u) ≡ some gone
    → find_container d ((after_part c u gone w).chans_of x) ≡ some st
    → (find_container d (w.chans_of x) ≡ some st) × (st ≢ gone)
unfolding after_part
part_found c u gone w d x st v on h = elim (Pair-cases c u d x) [
  | inl (ed, ex) ↦
      absurd (none_some (sym (erase_here w.chans_of u c (v.chans_once u)) ∙ (rw (ed, ex) at h)))
  | inr far ↦
      let before = sym (erase_other w.chans_of u c d x far) ∙ h in
      (before, λ e. elsewhere far (v.apart d x c u st before (rw e on)))
]
  where
    none_some : {a : ℕ} → none ≡ some a → ⊥
    none_some e = cc

    elsewhere : (d ≢ c) ⊎ (x ≢ u) → (d ≡ c) × (x ≡ u) → ⊥
    elsewhere (inl ne) (e, e') = ne e
    elsewhere (inr ne) (e, e') = ne e'

pub after_part-IsValid :
    (c u gone : ℕ) (w : World)
    → IsValid w
    → find_container c (w.chans_of u) ≡ some gone
    → IsValid (after_part c u gone w)
unfolding after_part
after_part-IsValid c u gone w v on = record {
  both = both;
  users_once = erase-Once w.users_of c u v.users_once;
  chans_once = erase-Once w.chans_of u c v.chans_once;
  alive = λ d x st h. alive d x st (part_found c u gone w d x st v on h);
  apart = λ d x d' x' st h h'.
      v.apart d x d' x' st (part_found c u gone w d x st v on h).0
        (part_found c u gone w d' x' st v on h').0;
}
  where
    both :
        (d x : ℕ)
        → find_container x ((after_part c u gone w).users_of d)
          ≡ find_container d ((after_part c u gone w).chans_of x)
    both d x = elim (Pair-cases c u d x) [
      | inl (ed, ex) ↦
          rw (ed, ex)
            (erase_here w.users_of c u (v.users_once c)
              ∙ sym (erase_here w.chans_of u c (v.chans_once u)))
      | inr far ↦
          erase_other w.users_of c u x d (swapped far)
          ∙ (v.both d x ∙ sym (erase_other w.chans_of u c d x far))
    ]

    alive :
        (d x st : ℕ)
        → (find_container d (w.chans_of x) ≡ some st) × (st ≢ gone)
        → (st < w.next) × ((s : ChannelStatus) × ((after_part c u gone w).statuses st ≡ some s))
    alive d x st (h, ne) =
        let (lt, (s, e)) = v.alive d x st h in (lt, (s, at_other w.statuses gone none st ne ∙ e))

-- `DeleteUser` of a user who is on the channel touches no end of a list, keeps the containers valid
-- and leaves the user off the channel. The channel is deleted exactly if it is empty then and is
-- neither persistent, syncing nor inhabited.
pub delete_user-IsValid :
    (c u : ℕ) (flags : ChannelFlags) (w : World) (st : ℕ)
    → IsValid w
    → find_container c (w.chans_of u) ≡ some st
    → (w' : World) × (delete_user c u flags w
        ≡ some (
          w',
          not flags.persist
              && not flags.syncing
              && not flags.inhabit
              && no_containers (w'.users_of c),
        ))
      × IsValid w'
      × (find_container c (w'.chans_of u) ≡ none)
unfolding delete_user after_part
delete_user-IsValid c u flags w st v on = (
  after_part c u st w,
  rw (v.both c u ∙ on, delete_user, on, at_self w.users_of c (erase_container u (w.users_of c)))
      refl,
  after_part-IsValid c u st w v on,
  erase_here w.chans_of u c (v.chans_once u),
)
