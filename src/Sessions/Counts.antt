-- ===== src/Sessions/Counts.antt =====
-- The count of a session is the number of users that are online from its host.
use anope.Base.{
  ℕ, ◌+◌, ◌-◌, ◌<◌, ◌≡◌, refl, sym, ap, ◌∙◌, subst, ◌⊎◌, inl, inr, Bool, true, false, not, ◌&&◌,
  Option, none, some, [], ◌∷◌, ◌++◌, arith, Bytes, codes, ltb, ◌==◌, if◌then◌else◌, Bool-cases,
  dec_lt,
}
use anope.Text.{equals_cs}
use anope.Text.Order.{equals_cs_iff}
use anope.Numbers.{u32}
use anope.Sessions.{
  State, Session, Config, put_session, count_down, del_session, on_user_logoff, count_hit, killed,
  kill_user, User, is_over, count_up, add_session, on_user_connect, Connected, ran, user_deleted,
  is_akilled,
}

unfoldable pub count_of : Option Session → ℕ
count_of none = 0
count_of (some s) = s.count

-- Users online by host, with one more and with one less.
abbrev pub Online : Type 0
Online = Bytes → ℕ

unfoldable pub come : Bytes → Online → Online
come host on h = if equals_cs h host then on h + 1 else on h

unfoldable pub leave : Bytes → Online → Online
leave host on h = if equals_cs h host then on h - 1 else on h

-- Each host has as many sessions as users, and no session is empty.
pub record Tracks (on : Online) (st : State) : Type 0 where
  pub counts : (h : Bytes) → count_of (st.sessions h) ≡ on h
  pub live : (h : Bytes) (s : Session) → st.sessions h ≡ some s → 0 < s.count

self : (h : Bytes) → equals_cs h h ≡ true
self h = (equals_cs_iff h h).1 refl

-- The session of one host is replaced by one with the count that the host has now.
put_session-Tracks :
    (host : Bytes) (s : Option Session) (on on' : Online) (st : State)
    → Tracks on st
    → count_of s ≡ on' host
    → ((h : Bytes) → equals_cs h host ≡ false → on' h ≡ on h)
    → ((t : Session) → s ≡ some t → 0 < t.count)
    → Tracks on' (put_session host s st)
unfolding put_session
put_session-Tracks host s on on' st v here others live = record { counts = counts; live = alive }
  where
    counts : (h : Bytes) → count_of ((put_session host s st).sessions h) ≡ on' h
    counts h = elim (Bool-cases (equals_cs h host)) [
      | inl e ↦ rw e (here ∙ ap on' (sym ((equals_cs_iff h host).0 e)))
      | inr e ↦ rw e (v.counts h ∙ sym (others h e))
    ]

    alive : (h : Bytes) (t : Session) → (put_session host s st).sessions h ≡ some t → 0 < t.count
    alive h t k = elim (Bool-cases (equals_cs h host)) [
      | inl e ↦ live t (sym (ap (λ b. if b then s else st.sessions h) e) ∙ k)
      | inr e ↦ v.live h t (sym (ap (λ b. if b then s else st.sessions h) e) ∙ k)
    ]

pub come_here : (host : Bytes) (on : Online) → come host on host ≡ on host + 1
unfolding come
come_here host on = rw (self host) refl

leave_here : (host : Bytes) (on : Online) → leave host on host ≡ on host - 1
unfolding leave
leave_here host on = rw (self host) refl

come_other :
    (host : Bytes) (on : Online) (h : Bytes) → equals_cs h host ≡ false → come host on h ≡ on h
unfolding come
come_other host on h e = rw e refl

leave_other :
    (host : Bytes) (on : Online) (h : Bytes) → equals_cs h host ≡ false → leave host on h ≡ on h
unfolding leave
leave_other host on h e = rw e refl

count_down-Tracks :
    (cfg : Config) (host : Bytes) (o : Option Session) (on : Online) (st : State)
    → Tracks on st
    → st.sessions host ≡ o
    → 0 < on host
    → Tracks (leave host on) (count_down cfg host o st)
unfolding count_down count_of
count_down-Tracks cfg host none on st v e online =
    absurd (omega (arith, online, sym (ap count_of e) ∙ v.counts host))
count_down-Tracks cfg host (some s) on st v e online =
    let count : s.count ≡ on host = sym (ap count_of e) ∙ v.counts host in
    elim (dec_lt 1 s.count) [
      | yes lt ↦
          let test : ltb 1 s.count ≡ true = ground (arith, lt) in
          rw test (
            put_session-Tracks host (some (record s { count = s.count - 1 })) on (leave host on) st
              v (omega (arith, count, leave_here host on)) (leave_other host on)
              (λ t k. omega (arith, lt, ap count_of k)))
      | no nlt ↦
          let test : ltb 1 s.count ≡ false = ground (arith, nlt) in
          rw test (
            put_session-Tracks host none on (leave host on) st v
              (omega (arith, count, nlt, leave_here host on)) (leave_other host on)
              (λ t k. absurd (cc)))
    ]

-- The session of a host where somebody is online.
session_there : (o : Option Session) (n : ℕ) → count_of o ≡ n → 0 < n → (s : Session) × (o ≡ some s)
unfolding count_of
session_there none n e lt = absurd (omega arith)
session_there (some s) n e lt = (s, refl)

pub u32_small : (n : ℕ) → n < 4294967296 → u32 n ≡ n
unfolding u32
u32_small n lt = omega arith

-- Can a kill lead to a read of the deleted user? There the server sends no QUIT for a killed user, and
-- AKILLs are set.
abbrev pub reads_deleted : Config → Bool
reads_deleted cfg = not cfg.quit_on_kill && (not (cfg.max_session_kill == 0) && cfg.has_akills)

-- A connect runs to its end, and the state tracks who is online then, or it reads the deleted user.
abbrev pub Ends : Config → Bytes → Online → Connected → Type 0
Ends cfg host on c =
    ((st' : State) × (gone : Bool) × (c ≡ ran st' gone)
      × Tracks (if gone then on else come host on) st')
    ⊎ ((c ≡ user_deleted) × (reads_deleted cfg ≡ true))

akilled_lem :
    (cfg : Config) (hits : ℕ)
    → is_akilled cfg hits ≡ true
    → (not (cfg.max_session_kill == 0) && cfg.has_akills) ≡ true
unfolding is_akilled
akilled_lem cfg hits e = ground (arith, e)

count_hit-Tracks :
    (cfg : Config) (host : Bytes) (gone : Bool) (s : Session) (on : Online) (st : State)
    → not cfg.quit_on_kill ≡ gone
    → Tracks (if gone then on else come host on) st
    → st.sessions host ≡ some s
    → Ends cfg host on (count_hit cfg host gone (some s) st)
unfolding count_hit count_of
count_hit-Tracks cfg host gone s on st g v e =
    let on' = if gone then on else come host on in
    let hits = u32 (s.hits + 1) in
    let st' = put_session host (some (record s { hits = hits })) st in
    let v' : Tracks on' st' =
      put_session-Tracks host (some (record s { hits = hits })) on' on' st v
        (sym (ap count_of e) ∙ v.counts host) (λ h k. refl)
        (λ t k. omega (arith, v.live host s e, ap count_of k)) in
    elim (Bool-cases (is_akilled cfg hits)) [
      | inl b ↦ elim (Bool-cases gone) [
        | inl deleted ↦ inr (rw (b, deleted) refl, rw (g, deleted) (akilled_lem cfg hits b))
        | inr there ↦ inl (
          record st' { akills = st'.akills ++ (codes "*@" ++ host) ∷ [] },
          gone,
          rw (b, there) refl,
          record { counts = v'.counts; live = v'.live },
        )
      ]
      | inr b ↦ inl (st', gone, rw b refl, v')
    ]

left_again : (host : Bytes) (on : Online) (h : Bytes) → leave host (come host on) h ≡ on h
unfolding leave come
left_again host on h = elim (Bool-cases (equals_cs h host)) [
  | inl e ↦ rw e (omega arith)
  | inr e ↦ rw e refl
]

same-Tracks :
    (on on' : Online) (st : State) → ((h : Bytes) → on h ≡ on' h) → Tracks on st → Tracks on' st
same-Tracks on on' st same v = record { counts = λ h. v.counts h ∙ same h; live = v.live }

still_online :
    (b : Bool) (host : Bytes) (on : Online)
    → 0 < on host
    → 0 < (if b then on else come host on) host
still_online true host on online = online
still_online false host on online = omega (arith, come_here host on)

module _ (cfg : Config) (limited : cfg.limit_sessions ≡ true) where
  pub logoff-Tracks :
      (host : Bytes) (on : Online) (st : State)
      → Tracks on st
      → 0 < on host
      → Tracks (leave host on) (on_user_logoff cfg host false st)
  unfolding on_user_logoff del_session count_down
  logoff-Tracks host on st v online =
      rw limited (count_down-Tracks cfg host (st.sessions host) on st v refl online)

  -- The state behind `Kill`, and who is online then.
  killed-Tracks :
      (host : Bytes) (on : Online) (st : State)
      → Tracks (come host on) st
      → Tracks (if not cfg.quit_on_kill then on else come host on) (killed cfg host st)
  unfolding killed on_user_logoff del_session count_down
  killed-Tracks host on st v = elim (Bool-cases cfg.quit_on_kill) [
    | inl e ↦ rw e v
    | inr e ↦ rw e (
        same-Tracks (leave host (come host on)) on (on_user_logoff cfg host false st)
          (left_again host on)
          (logoff-Tracks host (come host on) st v (omega (arith, come_here host on))))
  ]

  kill_user-Tracks :
      (host : Bytes) (on : Online) (st : State)
      → Tracks (come host on) st
      → 0 < on host
      → Ends cfg host on (kill_user cfg host st)
  unfolding kill_user
  kill_user-Tracks host on st v online =
      let gone = not cfg.quit_on_kill in
      let on' = if gone then on else come host on in
      let v' : Tracks on' (killed cfg host st) = killed-Tracks host on st v in
      let (s, e) =
        session_there ((killed cfg host st).sessions host) (on' host) (v'.counts host)
          (still_online gone host on online) in
      subst (λ o. Ends cfg host on (count_hit cfg host gone o (killed cfg host st))) (sym e)
        (count_hit-Tracks cfg host gone s on (killed cfg host st) refl v' e)

  count_up-Tracks :
      (u : User) (exempt : Bool) (o : Option Session) (on : Online) (st : State)
      → Tracks on st
      → st.sessions u.host ≡ o
      → on u.host + 1 < 4294967296
      → Ends cfg u.host on (count_up cfg u exempt o st)
  unfolding count_up count_of
  count_up-Tracks u exempt none on st v e small =
      let st' = put_session u.host (some (record { host = u.host; count = 1; hits = 0 })) st in
      inl (
        st',
        false,
        refl,
        put_session-Tracks u.host (some (record { host = u.host; count = 1; hits = 0 })) on
            (come u.host on) st v
            (omega (arith, come_here u.host on, sym (ap count_of e) ∙ v.counts u.host))
            (come_other u.host on) (λ t k. omega (arith, ap count_of k)),
      )
  count_up-Tracks u exempt (some s) on st v e small =
      let count : s.count ≡ on u.host = sym (ap count_of e) ∙ v.counts u.host in
      let one_more : u32 (s.count + 1) ≡ s.count + 1 =
        u32_small (s.count + 1) (omega (arith, count, small)) in
      let st' = put_session u.host (some (record s { count = u32 (s.count + 1) })) st in
      let v' : Tracks (come u.host on) st' =
        put_session-Tracks u.host (some (record s { count = u32 (s.count + 1) })) on
          (come u.host on) st v (omega (arith, come_here u.host on, count, one_more))
          (come_other u.host on) (λ t k. omega (arith, one_more, ap count_of k)) in
      elim (Bool-cases (is_over cfg s.count u st.exceptions && not exempt)) [
        | inl b ↦
            subst (λ t. Ends cfg u.host on (if t then kill_user cfg u.host st' else ran st' false))
              (sym b) (kill_user-Tracks u.host on st' v' (omega (arith, count, v.live u.host s e)))
        | inr b ↦
            inl (st', false, ap (λ t. if t then kill_user cfg u.host st' else ran st' false) b, v')
      ]

  pub connect-Tracks :
      (u : User) (exempt : Bool) (on : Online) (st : State)
      → Tracks on st
      → on u.host + 1 < 4294967296
      → Ends cfg u.host on (on_user_connect cfg u exempt st)
  unfolding on_user_connect add_session
  connect-Tracks u exempt on st v small =
      subst
        (λ b.
          Ends cfg u.host on
            (if b then count_up cfg u exempt (st.sessions u.host) st else ran st false))
        (sym limited) (count_up-Tracks u exempt (st.sessions u.host) on st v refl small)
