-- ===== src/RegChannel.antt =====
-- src/regchannel.cpp: the founder, the access, akick and bad word lists, and the levels of
-- `ChannelInfo`. Access entries are objects, so the list holds their places. What the hooks on a new
-- bad word do is left out.
pub mod Founder
pub mod Levels
mod Tests
use anope.Base.{
  ℕ, zero, suc, ◌+◌, ◌%◌, ◌^◌, Bool, true, false, Option, none, some, List, [], ◌∷◌, ◌++◌, Bytes,
  leb, ◌==◌, if◌then◌else◌, length, get_elem?, erase_at,
}
use anope.Base.Int.{ℤ, pos, negsuc}
use anope.Text.{equals_cs, is_empty}
use anope.Access.{Privilege, remove_level}

-- An akick is on an account or on a mask: the flag `AK_ISNICK` with `nc`, or `mask`.
pub data Target : Type 0 where
  on_account : ℕ → Target
  on_mask : Bytes → Target

pub record AutoKick : Type 0 where
  pub target : Target
  pub reason : Bytes
  pub creator : Bytes
  pub addtime : ℕ
  pub last_used : ℕ

pub data BadWordType : Type 0 where
  bw_any bw_single bw_start bw_end : BadWordType

pub record BadWord : Type 0 where
  pub word : Bytes
  pub type : BadWordType

-- Accounts are named by their places.
pub record ChannelInfo : Type 0 where
  pub founder : Option ℕ
  pub successor : Option ℕ
  pub access : List ℕ
  pub akick : List AutoKick
  pub badwords : List BadWord
  pub levels : List (Bytes × ℤ)
  pub last_used : ℕ

unfoldable pub same_account : Option ℕ → Option ℕ → Bool
same_account none none = true
same_account none (some q) = false
same_account (some p) none = false
same_account (some p) (some q) = p == q

-- `--channelcount` and `++channelcount`, 16 bits wide.
unfoldable pub decrement : Option ℕ → (ℕ → ℕ) → ℕ → ℕ
decrement none counts a = counts a
decrement (some p) counts a = if a == p then (counts a + 65535) % 2 ^ 16 else counts a

unfoldable pub increment : Option ℕ → (ℕ → ℕ) → ℕ → ℕ
increment none counts a = counts a
increment (some p) counts a = if a == p then (counts a + 1) % 2 ^ 16 else counts a

-- `SetFounder`, with the counts of all accounts.
unfoldable pub set_founder : Option ℕ → ChannelInfo → (ℕ → ℕ) → ChannelInfo × (ℕ → ℕ)
set_founder nc ci counts = (
  record ci {
    founder = nc;
    successor = if same_account nc ci.successor then none else ci.successor;
  },
  increment nc (decrement ci.founder counts),
)

-- `GetAccess(index)`, `GetAkick(index)` and `GetBadWord(index)` of a list.
unfoldable pub get_at {ℓ} : {A : Type ℓ} → List A → ℕ → Option A
get_at xs index = if leb (length xs) index then none else get_elem? xs index

-- `EraseAccess(index)`, `EraseAkick(index)` and `EraseBadWord(index)` of a list.
unfoldable pub erase_index {ℓ} : {A : Type ℓ} → List A → ℕ → List A
erase_index xs index = if leb (length xs) index then xs else erase_at xs index

-- `while (!empty()) Erase(0)`, on fuel: a round erases one element.
unfoldable pub clear_loop {ℓ} : {A : Type ℓ} → ℕ → List A → List A
clear_loop zero xs = xs
clear_loop (suc fuel) [] = []
clear_loop (suc fuel) (x ∷ xs) = clear_loop fuel (erase_index (x ∷ xs) 0)

unfoldable pub add_access : ℕ → ChannelInfo → ChannelInfo
add_access p ci = record ci { access = ci.access ++ p ∷ [] }

unfoldable pub get_access : ChannelInfo → ℕ → Option ℕ
get_access ci index = get_at ci.access index

unfoldable pub erase_access : ℕ → ChannelInfo → ChannelInfo
erase_access index ci = record ci { access = erase_index ci.access index }

unfoldable pub erase_first : ℕ → List ℕ → List ℕ
erase_first p [] = []
erase_first p (q ∷ qs) = let rest = erase_first p qs in if q == p then qs else q ∷ rest

-- `EraseAccess(taccess)`.
unfoldable pub erase_access_entry : ℕ → ChannelInfo → ChannelInfo
erase_access_entry p ci = record ci { access = erase_first p ci.access }

unfoldable pub clear_access : ChannelInfo → ChannelInfo
clear_access ci = record ci { access = [] }

-- The two `AddAkick`; no akick is added for no account.
unfoldable pub add_akick_account :
    Bytes → Option ℕ → Bytes → ℕ → ℕ → ChannelInfo → Option AutoKick × ChannelInfo
add_akick_account user none reason t lu ci = (none, ci)
add_akick_account user (some nc) reason t lu ci =
    let k : AutoKick = record {
      target = on_account nc;
      reason = reason;
      creator = user;
      addtime = t;
      last_used = lu;
    } in
    (some k, record ci { akick = ci.akick ++ k ∷ [] })

unfoldable pub add_akick_mask : Bytes → Bytes → Bytes → ℕ → ℕ → ChannelInfo → AutoKick × ChannelInfo
add_akick_mask user mask reason t lu ci =
    let k : AutoKick = record {
      target = on_mask mask;
      reason = reason;
      creator = user;
      addtime = t;
      last_used = lu;
    } in
    (k, record ci { akick = ci.akick ++ k ∷ [] })

unfoldable pub get_akick : ChannelInfo → ℕ → Option AutoKick
get_akick ci index = get_at ci.akick index

unfoldable pub erase_akick : ℕ → ChannelInfo → ChannelInfo
erase_akick index ci = record ci { akick = erase_index ci.akick index }

unfoldable pub clear_akick : ChannelInfo → ChannelInfo
clear_akick ci = record ci { akick = clear_loop (length ci.akick) ci.akick }

unfoldable pub add_bad_word : Bytes → BadWordType → ChannelInfo → BadWord × ChannelInfo
add_bad_word word type ci =
    let bw : BadWord = record { word = word; type = type } in
    (bw, record ci { badwords = ci.badwords ++ bw ∷ [] })

unfoldable pub get_bad_word : ChannelInfo → ℕ → Option BadWord
get_bad_word ci index = get_at ci.badwords index

unfoldable pub erase_bad_word : ℕ → ChannelInfo → ChannelInfo
erase_bad_word index ci = record ci { badwords = erase_index ci.badwords index }

unfoldable pub clear_bad_words : ChannelInfo → ChannelInfo
clear_bad_words ci = record ci { badwords = clear_loop (length ci.badwords) ci.badwords }

-- `ACCESS_INVALID`, -10000.
abbrev pub access_invalid : ℤ
access_invalid = negsuc 9999

unfoldable pub find_level : Bytes → List (Bytes × ℤ) → Option ℤ
find_level priv [] = none
find_level priv ((k, l) ∷ m) =
    let rest = find_level priv m in if equals_cs k priv then some l else rest

-- `levels[priv] = level`.
unfoldable pub put_level : Bytes → ℤ → List (Bytes × ℤ) → List (Bytes × ℤ)
put_level priv level m = (priv, level) ∷ remove_level priv m

-- `GetLevel`, for the outcome of `FindPrivilege`; a missing level becomes 0.
unfoldable pub get_level : Option Privilege → Bytes → ChannelInfo → ℤ × ChannelInfo
get_level none priv ci = (access_invalid, ci)
get_level (some p) priv ci = elim (find_level priv ci.levels) [
  | some l ↦ (l, ci)
  | none ↦ (pos 0, record ci { levels = put_level priv (pos 0) ci.levels })
]

unfoldable pub set_level : Bytes → ℤ → ChannelInfo → ChannelInfo
set_level priv level ci = record ci { levels = put_level priv level ci.levels }

unfoldable pub clear_levels : ChannelInfo → ChannelInfo
clear_levels ci = record ci { levels = [] }
