-- ===== src/Session.antt =====
-- src/session.h and src/details/session.cpp: the talks that an agent runs for one request, each
-- waiting for its descriptor. What `XFC_BUG` guards is only logged in a build without DEBUG_MODE,
-- and the code goes on; `none` is undefined behaviour.
pub mod Retry
pub mod Arming
pub mod Watching
pub mod Counting
use magneto.Base.{
  ℕ, zero, suc, ◌+◌, ◌-◌, ◌==◌, Bool, true, false, not, ◌&&◌, ◌||◌, if◌then◌else◌, List, [], ◌∷◌,
  ◌++◌, length, set, get_elem?, Option, none, some, ℤ, pos, negsuc, ◌-ℤ◌, min_ℤ, is_pos, eqb_ℤ,
  ltb_ℤ,
}
use magneto.Model.{
  Talk, Service, Remote, RemotePtr, deref, Category, is_end, is_read, is_conn, is_ok, is_read_only,
  kconn, kread, kwrite, kok, broken, bad_encode, timeout, other,
}
use magneto.Env.{
  Env, Trace, Effect, Event, ev_in, ev_out, add_event, clock, encoded, took_ctx, registered, close,
}
use magneto.ConnsMgr.{ConnsMgr, get_fd, report}

-- What the agent reads of `ConfNormal`.
pub record Timeouts : Type 0 where
  pub ctimeo_ms : ℤ
  pub wtimeo_ms : ℤ
  pub rtimeo_ms : ℤ
  pub client_keepalive_sec : ℤ

pub record Session : Type 0 where
  pub talks : List Talk
  pub num_talks_done : ℕ
  pub has_failure : Bool

-- A part of `ResetTalk_`: whether it goes on, and the talk so far.
abbrev pub Stage : Type 0
Stage = Option (Bool × Talk × ConnsMgr × Trace)

-- The answer of `GetFd`: a descriptor, connected or still connecting, or none.
abbrev pub with_fd : Talk → ℤ × Bool → RemotePtr → Talk
with_fd talk (fd, done) ptr =
    if is_pos fd
    then record talk {
      fd = fd;
      remote = some ptr;
      status = if done then (if is_read_only talk.category then kread else kwrite) else kconn;
    }
    else record talk { fd = negsuc 0; remote = some ptr; error = broken }

unfoldable pub acquire : Env → Trace → ConnsMgr → Talk → Stage
acquire env t c talk =
    if eqb_ℤ talk.fd (pos 0)
    then elim talk.service [
      | none ↦ none
      | some s ↦ elim (get_fd env t s talk.fail_remotes c) [
        | none ↦ none
        | some (answer, ptr, c', t') ↦ some (is_pos answer.0, with_fd talk answer ptr, c', t')
      ]
    ]
    else some (is_pos talk.fd, talk, c, t)

-- A retry writes its buffer anew.
unfoldable pub re_encode : Env → Trace → ConnsMgr → Bool → Talk → Stage
re_encode env t c false talk = some (true, talk, c, t)
re_encode env t c true talk = elim talk.protocol_write [
  | none ↦ some (true, talk, c, t)
  | some pc ↦ elim talk.buf [
    | none ↦ none
    | some bytes ↦
        if env.encode t pc bytes
        then some (true, talk, c, encoded ∷ t)
        else some (false, record talk { error = bad_encode }, c, encoded ∷ t)
  ]
]

abbrev pub direction : Talk → Event
direction talk = if is_read talk.status then ev_in else ev_out

-- The time that the configuration allows for what the talk waits for; `none` where the pointer to
-- the remote is bad.
abbrev pub allowed : Timeouts → ConnsMgr → Talk → Option ℤ
allowed conf c talk = elim talk.remote [
  | none ↦ some (if is_read talk.status then conf.rtimeo_ms else conf.wtimeo_ms)
  | some ptr ↦ if is_conn talk.status then some conf.ctimeo_ms else elim (deref c.tmp_remotes ptr) [
    | none ↦ none
    | some r ↦ some (if is_read talk.status then r.rtimeo_ms else r.wtimeo_ms)
  ]
]

abbrev pub register : Env → Trace → ConnsMgr → Talk → ℤ → Talk × Bool × ConnsMgr × Trace
register env t c talk timeo =
    let t' = registered talk.fd add_event (direction talk) timeo ∷ t in
    if env.reg_event t talk.fd add_event (direction talk) timeo
    then (talk, false, c, t')
    else (record talk { fd = negsuc 0; error = other }, true, c, close talk.fd t')

-- The part of `ResetTalk_` from `pool_event_ctxs_->Get()` on. The flag says that `has_failure_`
-- was set.
unfoldable pub arm :
    Env → Timeouts → Trace → ConnsMgr → Talk → Option (Talk × Bool × ConnsMgr × Trace)
arm env conf t c talk =
    let t1 = took_ctx talk.fd talk.no_talk (env.now_ms t) ∷ clock ∷ t in
    let left = talk.endtime_ms -ℤ env.now_ms t1 in
    if is_pos left
    then elim (allowed conf c talk) [
      | none ↦ none
      | some timeo ↦ some (register env (clock ∷ t1) c talk (min_ℤ left timeo))
    ]
    else some (record talk { error = timeout }, true, c, clock ∷ t1)

-- Session::ResetTalk_.
unfoldable pub reset_talk :
    Env → Timeouts → Trace → ConnsMgr → Bool → Talk → Option (Talk × Bool × ConnsMgr × Trace)
reset_talk env conf t c is_retry talk = elim (acquire env t c talk) [
  | none ↦ none
  | some (go1, talk1, c1, t1) ↦
      if go1
      then elim (re_encode env t1 c1 is_retry talk1) [
        | none ↦ none
        | some (go2, talk2, c2, t2) ↦
            if go2 then arm env conf t2 c2 talk2 else some (talk2, true, c2, t2)
      ]
      else some (talk1, true, c1, t1)
]

-- The loop of Session::Reset, over the talks with those done so far.
unfoldable pub reset_talks :
    Env → Timeouts → Trace → ConnsMgr → List Talk → Option (Session × ConnsMgr × Trace)
reset_talks env conf t c [] =
    some (record { talks = []; num_talks_done = 0; has_failure = false }, c, t)
reset_talks env conf t c (talk ∷ talks) =
    if is_end talk.status
    then elim (reset_talks env conf t c talks) [
      | none ↦ none
      | some (s, c', t') ↦
          some (record s { talks = talk ∷ s.talks; num_talks_done = suc s.num_talks_done }, c', t')
    ]
    else elim (reset_talk env conf t c false talk) [
      | none ↦ none
      | some (talk1, failed1, c1, t1) ↦ elim (reset_talks env conf t1 c1 talks) [
        | none ↦ none
        | some (s, c', t') ↦ some (
          record {
            talks = talk1 ∷ s.talks;
            num_talks_done = if is_ok talk1.error then s.num_talks_done else suc s.num_talks_done;
            has_failure = failed1 || s.has_failure;
          },
          c',
          t',
        )
      ]
    ]

-- Session::Reset: whether a talk is under way.
unfoldable pub reset :
    Env → Timeouts → Trace → ConnsMgr → List Talk → Option (Bool × Session × ConnsMgr × Trace)
unfolding reset_talks
reset env conf t c talks = elim (reset_talks env conf t c talks) [
  | none ↦ none
  | some (s, c', t') ↦ some (not (s.num_talks_done == length s.talks), s, c', t')
]

-- The part of FinishTalk that reports to the connection manager.
unfoldable pub note_result : ConnsMgr → Bool → Talk → Option (ConnsMgr × Talk)
note_result c succ talk = elim talk.remote [
  | none ↦ some (c, talk)
  | some ptr ↦ elim (deref c.tmp_remotes ptr) [
    | none ↦ none
    | some r ↦ some (
      report r succ c,
      if succ then talk else record talk { fail_remotes = talk.fail_remotes ++ (r ∷ []) },
    )
  ]
]

abbrev pub for_retry : Talk → Talk
for_retry talk = record talk { retry = talk.retry - 1; fd = pos 0; error = kok }

-- The part for a talk that did not succeed: the talk, whether it is still done, whether
-- `has_failure_` was set.
unfoldable pub fail_talk :
    Env → Timeouts → Trace → ConnsMgr → Talk → Option (Talk × Bool × Bool × ConnsMgr × Trace)
fail_talk env conf t c talk =
    if talk.retry == 0
    then some (talk, true, true, c, t)
    else elim (reset_talk env conf (if is_pos talk.fd then close talk.fd t else t) c true
        (for_retry talk)) [
          | none ↦ none
          | some (talk1, failed, c1, t1) ↦
              some (talk1, not (is_ok talk1.error), failed || not (is_ok talk1.error), c1, t1)
        ]

-- Session::FinishTalk on the talk at `i`, which the caller holds as `talk`.
unfoldable pub finish_talk :
    Env
    → Timeouts
    → Trace
    → ConnsMgr
    → Session
    → ℕ
    → Bool
    → Talk
    → Option (Bool × Session × ConnsMgr × Trace)
finish_talk env conf t c s i succ talk = elim (note_result c succ talk) [
  | none ↦ none
  | some (c1, talk1) ↦
      elim (if succ then some (talk1, true, false, c1, t) else fail_talk env conf t c1 talk1) [
        | none ↦ none
        | some (talk2, done, failed, c2, t2) ↦
            let s' : Session = record {
              talks = set s.talks i talk2;
              num_talks_done = if done then suc s.num_talks_done else s.num_talks_done;
              has_failure = s.has_failure || failed;
            } in
            some (s'.num_talks_done == length s'.talks, s', c2, t2)
      ]
]
