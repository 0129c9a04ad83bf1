-- ===== src/ModeStacker/Built.antt =====
-- What a string at work in `BuildModeStrings` says, with the strings that are finished.
use anope.Base.{
  ℕ, ◌+◌, ◌≤◌, ◌≡◌, refl, sym, ap, ◌∙◌, inl, inr, Bool, true, false, List, [], ◌∷◌, ◌++◌,
  append-nil, append_assoc, arith, Bytes, ltb, ◌==◌, Bool-cases, length, length-append, All,
  append-All,
}
use anope.ModeStacker.{Mode, Change, Building, spaced, build_step, build_loop}
use anope.ModeStacker.Read.{
  read, read_all, letters, IsLetter, NoBlank, sign_after, IsParams, read-append, sign_after-append,
  read-IsParams, spaced-IsParams, read_all-snoc, read_letter, sign_after_letter,
}

-- The strings finished and the one at work have said `said`, none with more than `max` letters.
pub record IsBuilt (max : ℕ) (said : List (Bool × ℕ)) (sign : Bool) (b : Building) : Type 0 where
  pub told : read_all b.ret ++ read true b.buf ≡ said
  pub signed : sign_after true b.buf ≡ sign
  pub counted : length (read true b.buf) ≡ b.n_modes
  pub few : b.n_modes ≤ max
  pub short : All (λ s. length (read true s) ≤ max) b.ret
  pub solid : NoBlank b.buf
  pub params : IsParams b.parambuf

-- The character of a sign.
abbrev pub sign_char : Bool → ℕ
sign_char true = b'+'
sign_char false = b'-'

pub read_sign : (sign start : Bool) (t : Bytes) → read start (sign_char sign ∷ t) ≡ read sign t
unfolding read
read_sign true start t = refl
read_sign false start t = refl

sign_after_sign :
    (sign start : Bool) (t : Bytes) → sign_after start (sign_char sign ∷ t) ≡ sign_after sign t
unfolding sign_after
sign_after_sign true start t = refl
sign_after_sign false start t = refl

solid_sign : (sign : Bool) → (sign_char sign == b' ') ≡ false
solid_sign true = refl
solid_sign false = refl

pub read_finished :
    (b : Building)
    → NoBlank b.buf
    → IsParams b.parambuf
    → read true (b.buf ++ b.parambuf) ≡ read true b.buf
read_finished b solid params =
    rw
      (
        read-append true b.buf b.parambuf solid,
        read-IsParams (sign_after true b.buf) b.parambuf params,
      )
      (append-nil (read true b.buf))

module _ (max : ℕ) (said : List (Bool × ℕ)) (sign : Bool) (m : Mode) (p : Bytes)
    (b : Building) where
  -- The string at work is full: it is finished, and a new one begins.
  full-IsBuilt :
      1 ≤ max
      → IsLetter (m, p)
      → IsBuilt max said sign b
      → IsBuilt max (said ++ (sign, m.mode_char) ∷ []) sign (record {
        ret = b.ret ++ (b.buf ++ b.parambuf) ∷ [];
        buf = sign_char sign ∷ m.mode_char ∷ [];
        parambuf = spaced p;
        n_modes = 1;
      })
  full-IsBuilt some_room letter v =
      let e : read true (sign_char sign ∷ m.mode_char ∷ []) ≡ (sign, m.mode_char) ∷ [] =
        read_sign sign true (m.mode_char ∷ []) ∙ read_letter sign (m, p) letter in
      let whole = read_finished b v.solid v.params in
      record {
        told =
            rw (read_all-snoc b.ret (b.buf ++ b.parambuf), whole, e)
              (ap (λ l. l ++ (sign, m.mode_char) ∷ []) v.told);
        signed =
            sign_after_sign sign true (m.mode_char ∷ []) ∙ sign_after_letter sign (m, p) letter;
        counted = ap length e;
        few = some_room;
        short =
            append-All (λ s. length (read true s) ≤ max) b.ret ((b.buf ++ b.parambuf) ∷ []) v.short
              (rw whole (omega (arith, v.few, v.counted)), tt);
        solid = (solid_sign sign, (letter.0, tt));
        params = spaced-IsParams [] p tt;
      }

  room-IsBuilt :
      b.n_modes + 1 ≤ max
      → IsLetter (m, p)
      → IsBuilt max said sign b
      → IsBuilt max (said ++ (sign, m.mode_char) ∷ []) sign (record {
        ret = b.ret;
        buf = b.buf ++ m.mode_char ∷ [];
        parambuf = b.parambuf ++ spaced p;
        n_modes = b.n_modes + 1;
      })
  room-IsBuilt room letter v =
      let e : read true (b.buf ++ m.mode_char ∷ []) ≡ read true b.buf ++ (sign, m.mode_char) ∷ [] =
        read-append true b.buf (m.mode_char ∷ []) v.solid
        ∙ ap (λ l. read true b.buf ++ l) (rw v.signed (read_letter sign (m, p) letter)) in
      record {
        told = rw e (
            sym (append_assoc (read_all b.ret) (read true b.buf) ((sign, m.mode_char) ∷ []))
            ∙ ap (λ l. l ++ (sign, m.mode_char) ∷ []) v.told);
        signed =
            sign_after-append true b.buf (m.mode_char ∷ [])
            ∙ rw v.signed (sign_after_letter sign (m, p) letter);
        counted =
            ap length e
            ∙ (length-append (read true b.buf) ((sign, m.mode_char) ∷ [])
                ∙ omega (arith, v.counted));
        few = room;
        short = v.short;
        solid =
            append-All (λ c. (c == b' ') ≡ false) b.buf (m.mode_char ∷ []) v.solid (letter.0, tt);
        params = spaced-IsParams b.parambuf p v.params;
      }

  build_step-IsBuilt :
      1 ≤ max
      → IsLetter (m, p)
      → IsBuilt max said sign b
      → IsBuilt max
          (said ++ (sign, m.mode_char) ∷ [])
          sign
          (build_step max (sign_char sign) (m, p) b)
  unfolding build_step
  build_step-IsBuilt some_room letter v = elim (Bool-cases (ltb max (b.n_modes + 1))) [
    | inl full ↦ rw full (full-IsBuilt some_room letter v)
    | inr room ↦ rw room (room-IsBuilt (ground (arith, room)) letter v)
  ]

pub build_loop-IsBuilt :
    (max : ℕ) (said : List (Bool × ℕ)) (sign : Bool) (cs : List Change) (b : Building)
    → 1 ≤ max
    → All IsLetter cs
    → IsBuilt max said sign b
    → IsBuilt max (said ++ letters sign cs) sign (build_loop max (sign_char sign) cs b)
unfolding build_loop letters
build_loop-IsBuilt max said sign [] b some_room h v = rw (append-nil said) v
build_loop-IsBuilt max said sign ((m, p) ∷ cs) b some_room (hc, h) v =
    rw (← append_assoc said ((sign, m.mode_char) ∷ []) (letters sign cs)) (
      build_loop-IsBuilt max (said ++ (sign, m.mode_char) ∷ []) sign cs
        (build_step max (sign_char sign) (m, p) b) some_room h
        (build_step-IsBuilt max said sign m p b some_room hc v))
