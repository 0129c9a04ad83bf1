-- ===== src/ModeStacker/View.antt =====
-- The modes that a server and services hold for what is stacked between them.
use anope.Base.{
  ℕ, ◌≡◌, refl, sym, ◌∙◌, inl, inr, Bool, true, false, ◌||◌, List, [], ◌∷◌, Bytes, if◌then◌else◌,
  All,
}
use anope.ModeLocks.{same}
use anope.ModeStacker.{Mode, StackerInfo, add_mode}
use anope.ModeStacker.Keys.{among, same_key, Unique, same_key_self, Key-cases}

-- Which modes are on, by place and parameter.
abbrev pub View : Type 0
View = ℕ → Bytes → Bool

-- The server's modes once the changes have been sent.
unfoldable pub flushed : StackerInfo → View → View
flushed s server q y = if among q y s.del_modes then false else among q y s.add_modes || server q y

unfoldable pub changed : ℕ → Bytes → Bool → View → View
changed p x status view q y = if same_key q y p x then status else view q y

pub record Request : Type 0 where
  pub mode : Mode
  pub status : Bool

-- `User::SetMode` and `RemoveMode` of a mode without a parameter: nothing where services hold the mode as
-- asked, or else the change is stacked, and services hold the mode as asked at once. Those of a channel do
-- the same for regular modes, where no locks are enforced.
unfoldable pub ask : Request → View × StackerInfo → View × StackerInfo
ask r (view, s) =
    if same (view r.mode.place []) r.status
    then (view, s)
    else (changed r.mode.place [] r.status view, add_mode r.mode r.status [] s)

unfoldable pub ask_all : List Request → View × StackerInfo → View × StackerInfo
ask_all [] state = state
ask_all (r ∷ rs) state = ask_all rs (ask r state)

-- Changes to add are off on the server, changes to remove are on, and each stands once.
pub record IsStacked (server : View) (view : View) (s : StackerInfo) : Type 0 where
  pub off : All (λ c. server c.0.place c.1 ≡ false) s.add_modes
  pub on : All (λ c. server c.0.place c.1 ≡ true) s.del_modes
  pub adds_once : Unique s.add_modes
  pub dels_once : Unique s.del_modes
  pub agrees : (q : ℕ) (y : Bytes) → flushed s server q y ≡ view q y

pub flushed_at :
    (server : View) (s : StackerInfo) (q : ℕ) (y : Bytes) (d a v : Bool)
    → among q y s.del_modes ≡ d
    → among q y s.add_modes ≡ a
    → server q y ≡ v
    → flushed s server q y ≡ (if d then false else a || v)
unfolding flushed
flushed_at server s q y d a v ed ea ev = rw (ed, ea, ev) refl

changed_self :
    (view : View) (p : ℕ) (x : Bytes) (status : Bool) → changed p x status view p x ≡ status
unfolding changed
changed_self view p x status = rw (same_key_self p x) refl

changed_other :
    (view : View) (p : ℕ) (x : Bytes) (status : Bool) (q : ℕ) (y : Bytes)
    → same_key q y p x ≡ false
    → changed p x status view q y ≡ view q y
unfolding changed
changed_other view p x status q y ne = rw ne refl

-- What is seen of a key that stands on neither list, or on one.
pub unfolded :
    (server view : View) (s : StackerInfo) (q : ℕ) (y : Bytes)
    → IsStacked server view s
    → view q y ≡ (if among q y s.del_modes then false else among q y s.add_modes || server q y)
unfolding flushed
unfolded server view s q y v = sym (v.agrees q y)

-- Two lists of changes agree with the old ones but for one key, where they say `status`.
pub agrees_from :
    (server view : View) (m : Mode) (x : Bytes) (status : Bool) (s t : StackerInfo)
    → IsStacked server view s
    → flushed t server m.place x ≡ status
    → ((q : ℕ) (y : Bytes)
        → same_key q y m.place x ≡ false
        → (among q y t.del_modes ≡ among q y s.del_modes)
          × (among q y t.add_modes ≡ among q y s.add_modes))
    → (q : ℕ) (y : Bytes) → flushed t server q y ≡ changed m.place x status view q y
agrees_from server view m x status s t v here others q y = elim (Key-cases q y m.place x) [
  | inl (ep, ex) ↦ rw (ep, ex, changed_self view m.place x status) here
  | inr ne ↦
      let (ed, ea) = others q y ne in
      rw (changed_other view m.place x status q y ne)
        (flushed_at server t q y _ _ _ ed ea refl ∙ sym (unfolded server view s q y v))
]
