-- ===== src/Text/Tests.antt =====
-- Tests of the case maps of src/hashcomp.cpp, and the theorems on the orders at concrete texts.
use anope.Base.{◌≡◌, refl, false, codes}
use anope.Text.{
  equals_ci, ci_less, irc_less, ascii_fold, rfc_fold, c_str, compare_by, is_equal, is_less,
}
use anope.Text.Order.{ci_less-equals_ci}

brackets : irc_less (codes "#{a}") (codes "#[A]") ≡ false
unfolding irc_less is_less compare_by rfc_fold c_str
brackets = refl

ci_less-equals_ci_example :
    ci_less (codes "Bob") (codes "carol") ≡ ci_less (codes "BOB") (codes "carol")
unfolding equals_ci is_equal compare_by ascii_fold c_str
ci_less-equals_ci_example = ci_less-equals_ci (codes "Bob") (codes "BOB") (codes "carol") refl
