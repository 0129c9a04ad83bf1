-- ===== src/ModeStacker/Lost.antt =====
-- How the change of a parameter mode is lost in the stacker, src/modes.cpp.
use anope.Base.{◌≡◌, ◌≢◌, refl, true, false, List, [], ◌∷◌, ◌++◌, arith, Bytes, ==_self, ==_no, All}
use anope.ModeStacker.{
  Mode, Change, StackerInfo, is_param, on_list, erase_same, add_to, add_mode, is_same,
}

-- No change of the mode is on the list.
abbrev pub IsUntouched : Mode → List Change → Type 0
IsUntouched m cs = All (λ c. c.0.place ≢ m.place) cs

module _ (m : Mode) (x : Bytes) where
  other_mode : (c : Change) → c.0.place ≢ m.place → is_same m x c ≡ false
  unfolding is_same
  other_mode (n, p) ne = rw (==_no n.place m.place ne) refl

  untouched-on_list : (cs : List Change) → IsUntouched m cs → on_list m x cs ≡ false
  unfolding on_list
  untouched-on_list [] h = refl
  untouched-on_list (c ∷ cs) (hc, h) = rw (other_mode c hc, untouched-on_list cs h) refl

  untouched-erase : (cs : List Change) → IsUntouched m cs → erase_same m x cs ≡ cs
  unfolding erase_same
  untouched-erase [] h = refl
  untouched-erase (c ∷ cs) (hc, h) = rw (other_mode c hc, untouched-erase cs h) refl

module _ (m : Mode) (old new : Bytes) (param : is_param m.type ≡ true) where
  is_same_param : is_same m new (m, old) ≡ true
  unfolding is_same
  is_same_param = rw (==_self m.place, param) (ground arith)

  last-on_list : (cs : List Change) → IsUntouched m cs → on_list m new (cs ++ (m, old) ∷ []) ≡ true
  unfolding on_list
  last-on_list [] h = rw is_same_param refl
  last-on_list (c ∷ cs) (hc, h) = rw (other_mode m new c hc, last-on_list cs h) refl

  last-erase : (cs : List Change) → IsUntouched m cs → erase_same m new (cs ++ (m, old) ∷ []) ≡ cs
  unfolding erase_same
  last-erase [] h = rw is_same_param refl
  last-erase (c ∷ cs) (hc, h) = rw (other_mode m new c hc, last-erase cs h) refl

-- Where no change of a parameter mode is stacked, removing the mode and then setting it with any parameter
-- leaves the stacked changes as they were: neither the removal nor the new parameter is sent.
pub param_lost :
    (m : Mode) (old new : Bytes) (s : StackerInfo)
    → is_param m.type ≡ true
    → IsUntouched m s.add_modes
    → IsUntouched m s.del_modes
    → add_mode m true new (add_mode m false old s) ≡ s
unfolding add_mode add_to
param_lost m old new s param adds dels =
    rw
      (
        untouched-on_list m old s.add_modes adds,
        untouched-erase m old s.del_modes dels,
        last-on_list m old new param s.del_modes dels,
        last-erase m old new param s.del_modes dels,
        untouched-erase m new s.add_modes adds,
      )
      refl
