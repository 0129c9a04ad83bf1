-- ===== src/Members.antt =====
-- src/channels.cpp and src/users.cpp: who is on which channel, and with which status. A channel lists
-- its users and a user lists the channels; the two containers of a pair share one status object, which
-- stands in a store by its place. Users and channels are named by their places.
pub mod Lists
pub mod Valid
pub mod Reached
pub mod Quit
mod Tests
use anope.Base.{
  ℕ, ◌+◌, Bool, true, false, not, ◌&&◌, Option, none, some, List, [], ◌∷◌, ◌++◌, ◌==◌,
  if◌then◌else◌,
}

-- The containers of one channel or user: the other side and the place of the status.
abbrev pub Containers : Type 0
Containers = List (ℕ × ℕ)

-- A status: the flags that are set.
abbrev pub ChannelStatus : Type 0
ChannelStatus = ℕ → Bool

pub record World : Type 0 where
  pub users_of : ℕ → Containers
  pub chans_of : ℕ → Containers
  pub statuses : ℕ → Option ChannelStatus
  pub next : ℕ

unfoldable pub at : {A : Type 0} → (ℕ → A) → ℕ → A → ℕ → A
at f k v i = if i == k then v else f i

-- `FindUser` of a channel and `FindChannel` of a user: the status of the container found.
unfoldable pub find_container : ℕ → Containers → Option ℕ
find_container k [] = none
find_container k ((j, st) ∷ l) = if j == k then some st else find_container k l

unfoldable pub erase_container : ℕ → Containers → Containers
erase_container k [] = []
erase_container k ((j, st) ∷ l) =
    let rest = erase_container k l in if j == k then l else (j, st) ∷ rest

-- `JoinUser`, up to the change of the creation time of a persistent channel.
unfoldable pub join_user : ℕ → ℕ → World → World
join_user c u w = record {
  users_of = at w.users_of c (w.users_of c ++ (u, w.next) ∷ []);
  chans_of = at w.chans_of u (w.chans_of u ++ (c, w.next) ∷ []);
  statuses = at w.statuses w.next (some (λ flag. false));
  next = w.next + 1;
}

-- What `DeleteUser` asks of the channel once the user is gone.
pub record ChannelFlags : Type 0 where
  pub persist : Bool
  pub syncing : Bool
  pub inhabit : Bool

unfoldable pub no_containers : Containers → Bool
no_containers [] = true
no_containers (x ∷ l) = false

-- `DeleteUser`: the world, and whether the channel is deleted. The search for the container reads the
-- end of the list where the user is not on the channel: `none`.
unfoldable pub delete_user : ℕ → ℕ → ChannelFlags → World → Option (World × Bool)
delete_user c u flags w = elim (find_container u (w.users_of c)) [
  | none ↦ none
  | some st ↦ elim (find_container c (w.chans_of u)) [
    | none ↦ none
    | some st' ↦
        let users = erase_container u (w.users_of c) in
        some (
          record {
            users_of = at w.users_of c users;
            chans_of = at w.chans_of u (erase_container c (w.chans_of u));
            statuses = at w.statuses st none;
            next = w.next;
          },
          not flags.persist && not flags.syncing && not flags.inhabit && no_containers users,
        )
  ]
]

-- The status that a user has on a channel, by `FindChannel`; a freed status would be `none` inside.
unfoldable pub status_of : ℕ → ℕ → World → Option (Option ChannelStatus)
status_of c u w = elim (find_container c (w.chans_of u)) [
  | none ↦ none
  | some st ↦ some (w.statuses st)
]

-- `HasUserStatus` for a status mode: `none` stands for a read of a freed status.
unfoldable pub has_user_status : ℕ → ℕ → ℕ → World → Option Bool
has_user_status c u flag w = elim (status_of c u w) [
  | none ↦ some false
  | some none ↦ none
  | some (some s) ↦ some (s flag)
]

-- `cc->Status->SetFlag` and `UnsetFlag`, in `SetModeInternal` and `RemoveModeInternal`.
unfoldable pub set_status : ℕ → ℕ → ℕ → Bool → World → Option World
set_status c u flag value w = elim (find_container c (w.chans_of u)) [
  | none ↦ some w
  | some st ↦ elim (w.statuses st) [
    | none ↦ none
    | some s ↦ some (record w { statuses = at w.statuses st (some (at s flag value)) })
  ]
]
