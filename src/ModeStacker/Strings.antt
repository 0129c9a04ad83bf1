-- ===== src/ModeStacker/Strings.antt =====
-- What the strings of `BuildModeStrings` say to a reader of mode strings.
use anope.Base.{
  ℕ, ◌≤◌, ◌≡◌, refl, sym, ap, ◌∙◌, inl, inr, Bool, true, false, List, [], ◌∷◌, ◌++◌, append-nil,
  arith, Bytes, ◌==◌, ==_iff, Bool-cases, length, All, append-All,
}
use anope.ModeStacker.{
  StackerInfo, Building, drop_sign, build_adds, build_dels, last_string, build_mode_strings,
}
use anope.ModeStacker.Read.{
  read, read_all, letters, IsLetter, NoBlank, sign_after, read-append, sign_after-append,
  read_all-snoc,
}
use anope.ModeStacker.Built.{IsBuilt, sign_char, read_sign, read_finished, build_loop-IsBuilt}

read_same :
    (c : ℕ) (s t : Bytes)
    → ((sign : Bool) → read sign s ≡ read sign t)
    → (sign : Bool) → read sign (c ∷ s) ≡ read sign (c ∷ t)
unfolding read
read_same c s t same sign = elim (Bool-cases (c == b' ')) [
  | inl blank ↦ rw (blank, read) refl
  | inr e ↦ elim (Bool-cases (c == b'+')) [
    | inl plus ↦ rw (e, plus, read) (same true)
    | inr e' ↦ elim (Bool-cases (c == b'-')) [
      | inl minus ↦ rw (e, e', minus, read) (same false)
      | inr other ↦ rw (e, e', other, read) (ap (λ l. (sign, c) ∷ l) (same sign))
    ]
  ]
]

sign_alone : (mark sign : Bool) (c : ℕ) → (c == sign_char mark) ≡ true → read sign (c ∷ []) ≡ []
unfolding read
sign_alone mark sign c e = rw ((==_iff c (sign_char mark)).0 e) (read_sign mark sign [])

-- A sign at the end of a string says nothing.
read-drop_sign :
    (mark : Bool) (s : Bytes) (sign : Bool) → read sign (drop_sign (sign_char mark) s) ≡ read sign s
unfolding drop_sign read
read-drop_sign mark [] sign = refl
read-drop_sign mark (c ∷ []) sign = elim (Bool-cases (c == sign_char mark)) [
  | inl e ↦ rw (e, sign_alone mark sign c e) refl
  | inr e ↦ rw e refl
]
read-drop_sign mark (c ∷ d ∷ s) sign =
    read_same c (drop_sign (sign_char mark) (d ∷ s)) (d ∷ s) (read-drop_sign mark (d ∷ s)) sign

drop_sign-NoBlank : (mark : ℕ) (s : Bytes) → NoBlank s → NoBlank (drop_sign mark s)
unfolding drop_sign
drop_sign-NoBlank mark [] h = tt
drop_sign-NoBlank mark (c ∷ []) h = elim (Bool-cases (c == mark)) [
  | inl e ↦ rw e tt
  | inr e ↦ rw e h
]
drop_sign-NoBlank mark (c ∷ d ∷ s) (hc, h) = (hc, drop_sign-NoBlank mark (d ∷ s) h)

read_nothing : (sign : Bool) (l : List (Bool × ℕ)) → l ++ read sign [] ≡ l
unfolding read
read_nothing sign l = append-nil l

minus_alone : (sign : Bool) → sign_after sign (b'-' ∷ []) ≡ false
unfolding sign_after
minus_alone sign = refl

turned-IsBuilt :
    (max : ℕ) (said : List (Bool × ℕ)) (b : Building)
    → IsBuilt max said true b
    → IsBuilt max said false (record b { buf = drop_sign b'+' b.buf ++ b'-' ∷ [] })
turned-IsBuilt max said b v =
    let solid = drop_sign-NoBlank b'+' b.buf v.solid in
    let e : read true (drop_sign b'+' b.buf ++ b'-' ∷ []) ≡ read true b.buf =
      read-append true (drop_sign b'+' b.buf) (b'-' ∷ []) solid
      ∙ rw (read_sign false (sign_after true (drop_sign b'+' b.buf)) []) (
          read_nothing false (read true (drop_sign b'+' b.buf)) ∙ read-drop_sign true b.buf true) in
    record {
      told = rw e v.told;
      signed =
          sign_after-append true (drop_sign b'+' b.buf) (b'-' ∷ [])
          ∙ minus_alone (sign_after true (drop_sign b'+' b.buf));
      counted = rw e v.counted;
      few = v.few;
      short = v.short;
      solid =
          append-All (λ c. (c == b' ') ≡ false) (drop_sign b'+' b.buf) (b'-' ∷ []) solid (refl, tt);
      params = v.params;
    }

-- A mode string for each line, with the letters that are not more than the server takes in one, and
-- all together the changes in their order.
abbrev pub Says : ℕ → List (Bool × ℕ) → List Bytes → Type 0
Says max said strings = (read_all strings ≡ said) × All (λ s. length (read true s) ≤ max) strings

module _ (max : ℕ) (said : List (Bool × ℕ)) (sign : Bool) (b : Building) where
  last_string-Says :
      (buf : Bytes)
      → IsBuilt max said sign b
      → NoBlank buf
      → read true buf ≡ read true b.buf
      → Says max said (b.ret ++ last_string buf b.parambuf)
  unfolding last_string
  last_string-Says [] v solid e = rw (append-nil b.ret) (
    sym (read_nothing true (read_all b.ret)) ∙ (ap (λ l. read_all b.ret ++ l) e ∙ v.told),
    v.short,
  )
  last_string-Says (c ∷ buf) v solid e =
      let whole : read true (c ∷ buf ++ b.parambuf) ≡ read true b.buf =
        read_finished (record b { buf = c ∷ buf }) solid v.params ∙ e in
      (
        rw (read_all-snoc b.ret (c ∷ buf ++ b.parambuf), whole) v.told,
        append-All (λ s. length (read true s) ≤ max) b.ret ((c ∷ buf ++ b.parambuf) ∷ []) v.short
            (rw whole (omega (arith, v.few, v.counted)), tt),
      )

started-IsBuilt :
    (max : ℕ)
    → IsBuilt max [] true (record { ret = []; buf = b'+' ∷ []; parambuf = []; n_modes = 0 })
unfolding read sign_after read_all
started-IsBuilt max = record {
  told = refl;
  signed = refl;
  counted = refl;
  few = omega arith;
  short = tt;
  solid = (refl, tt);
  params = tt;
}

-- Where the server takes at least one mode in a line and no mode has the character `+`, `-` or blank,
-- the strings of `BuildModeStrings` say the modes to add and then those to remove, in order and with
-- their signs, and none holds more modes than the server takes.
pub build_mode_strings-Says :
    (maxmodes : ℕ) (s : StackerInfo)
    → 1 ≤ maxmodes
    → All IsLetter s.add_modes
    → All IsLetter s.del_modes
    → Says maxmodes
        (letters true s.add_modes ++ letters false s.del_modes)
        (build_mode_strings maxmodes s)
unfolding build_mode_strings build_dels build_adds
build_mode_strings-Says maxmodes s some_room adds dels =
    let b = build_dels maxmodes s in
    let v =
      build_loop-IsBuilt maxmodes (letters true s.add_modes) false s.del_modes
        (record (build_adds maxmodes s) {
          buf = drop_sign b'+' (build_adds maxmodes s).buf ++ b'-' ∷ [];
        })
        some_room dels
        (turned-IsBuilt maxmodes (letters true s.add_modes) (build_adds maxmodes s) (
          build_loop-IsBuilt maxmodes [] true s.add_modes _ some_room adds
            (started-IsBuilt maxmodes))) in
    last_string-Says maxmodes (letters true s.add_modes ++ letters false s.del_modes) false b
      (drop_sign b'-' b.buf) v (drop_sign-NoBlank b'-' b.buf v.solid)
      (read-drop_sign false b.buf true)
