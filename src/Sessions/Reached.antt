-- ===== src/Sessions/Reached.antt =====
-- The sessions that a sequence of connects and quits leads to.
use anope.Base.{
  ◌+◌, ◌<◌, ◌≡◌, refl, sym, ◌∙◌, inl, inr, Bool, true, false, none, List, [], Bytes, if◌then◌else◌,
  subst,
}
use anope.Sessions.{
  State, Exception, User, Config, on_user_logoff, on_user_connect, Connected, ran, user_deleted,
}
use anope.Sessions.Counts.{
  Online, count_of, come, leave, Tracks, logoff-Tracks, connect-Tracks, Ends,
}

-- Who is online, by host, and the state of the module. The users whose connects and quits are seen are
-- not of a U-lined server; the exceptions may change at any time.
pub data Reached (cfg : Config) : Online → State → Type 0 where
  started :
      (es : List Exception)
      → Reached cfg (λ h. 0) (record { sessions = λ h. none; exceptions = es; akills = [] })
  connected :
      {on : Online} {st st' : State} {gone : Bool} (u : User) (exempt : Bool)
      → Reached cfg on st
      → on u.host + 1 < 4294967296
      → on_user_connect cfg u exempt st ≡ ran st' gone
      → Reached cfg (if gone then on else come u.host on) st'
  quit :
      {on : Online} {st : State} (host : Bytes)
      → Reached cfg on st
      → 0 < on host
      → Reached cfg (leave host on) (on_user_logoff cfg host false st)
  changed :
      {on : Online} {st : State} (es : List Exception)
      → Reached cfg on st
      → Reached cfg on (record st { exceptions = es })

ended :
    (c : Connected) (st : State) (gone : Bool)
    → c ≡ ran st gone
    → (P : Bool → State → Type 0)
    → ((st' : State) × (gone' : Bool) × (c ≡ ran st' gone') × P gone' st')
    → P gone st
ended c st gone e P (st', gone', e', p) =
    let same : ran st' gone' ≡ ran st gone = sym e' ∙ e in
    let same_state : st' ≡ st = cc in
    let same_gone : gone' ≡ gone = cc in
    subst (λ g. P g st) same_gone (subst (λ t. P gone' t) same_state p)

not_deleted : {st : State} {gone : Bool} → ran st gone ≡ user_deleted → ⊥
not_deleted e = cc

module _ (cfg : Config) (limited : cfg.limit_sessions ≡ true) where
  reached-Tracks : {on : Online} {st : State} → Reached cfg on st → Tracks on st
  unfolding count_of
  reached-Tracks (Reached.started es) = record { counts = λ h. refl; live = λ h s e. absurd (cc) }
  reached-Tracks (Reached.connected {on} {st} {st'} {gone} u exempt r small e) =
      elim (connect-Tracks cfg limited u exempt on st (reached-Tracks r) small) [
        | inl done ↦
            ended (on_user_connect cfg u exempt st) st' gone e
              (λ g t. Tracks (if g then on else come u.host on) t) done
        | inr (crash, h) ↦ absurd (not_deleted (sym e ∙ crash))
      ]
  reached-Tracks (Reached.quit {on} {st} host r online) =
      logoff-Tracks cfg limited host on st (reached-Tracks r) online
  reached-Tracks (Reached.changed es r) =
      let v = reached-Tracks r in record { counts = v.counts; live = v.live }

-- Where sessions are limited and no U-lined server takes part, each host has at any time as many sessions
-- as users are online from it, whoever was killed, and with whatever exceptions. The connect of another
-- user uses no session that its own kill deleted: it runs to its end, and the sessions count the users who
-- are online then; or else it reads the host of the user whom the kill has deleted, which happens only
-- where the server sends no QUIT for a killed user and AKILLs are set. A host has fewer than 2^32 users.
pub reached-connect :
    (cfg : Config) (on : Online) (st : State) (u : User) (exempt : Bool)
    → cfg.limit_sessions ≡ true
    → Reached cfg on st
    → on u.host + 1 < 4294967296
    → Tracks on st × Ends cfg u.host on (on_user_connect cfg u exempt st)
reached-connect cfg on st u exempt limited r small =
    let v = reached-Tracks cfg limited r in (v, connect-Tracks cfg limited u exempt on st v small)
