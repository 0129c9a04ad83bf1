-- ===== src/ModeStacker/Refine.antt =====
-- Sending the stacked changes brings the server to the modes that services hold, for regular modes. The
-- lemmas on a single change hold for every mode that is no parameter mode.
use anope.Base.{◌≡◌, false, [], ◌∷◌, ◌++◌, Bytes}
use anope.ModeStacker.{Mode, StackerInfo, is_param, erase_same}
use anope.ModeStacker.View.{View, IsStacked}

module _ (server view : View) (m : Mode) (x : Bytes) (plain : is_param m.type ≡ false)
    (s : StackerInfo) (v : IsStacked server view s) where
  -- The change is taken back from the other list.
  erased : StackerInfo
  erased = record s {
    add_modes = erase_same m x s.add_modes;
    del_modes = erase_same m x s.del_modes;
  }

  -- The change is put on the list of modes to add.
  added : StackerInfo
  added = record s { add_modes = erase_same m x s.add_modes ++ (m, x) ∷ [] }

  -- The change is put on the list of modes to remove.
  removed : StackerInfo
  removed = record s { del_modes = erase_same m x s.del_modes ++ (m, x) ∷ [] }
