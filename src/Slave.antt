-- ===== src/Slave.antt =====
-- src/agents/agent_slave.h and src/agents/details/agent_slave.cpp, the part that runs the talks of
-- sessions: CheckEventCtxTimeout_, the three handlers, CheckSession_, and what CleanTimeouts_
-- does to a session. A session is told by its value; `none` is undefined behaviour.
pub mod Handling
pub mod Clients
pub mod Loop
use magneto.Base.{
  ℕ, zero, suc, Bool, true, false, not, if◌then◌else◌, List, [], ◌∷◌, Option, none, some, ℤ, pos,
  negsuc, ◌-ℤ◌, min_ℤ, is_pos, eqb_ℤ, leb_ℤ, get_elem?, set,
}
use magneto.Model.{
  Talk, Remote, deref, Category, TalkCategory, write_and_read, is_read_only, Status, kconn, kread,
  kwrite, Error, kok, timeout, broken, bad_decode, other, is_ok,
}
use magneto.Env.{
  Env, Trace, Effect, Event, ev_in, ev_out, ev_err, ev_other, mod_event, clock, codec_io, decoded,
  registered, unregistered, freed_ctx, close,
}
use magneto.ConnsMgr.{ConnsMgr}
use magneto.Session.{Timeouts, Session, finish_talk}

-- The fields of an `EventCtx` that a session's talk uses.
pub record EventCtx : Type 0 where
  pub fd : ℤ
  pub timeleft_ms : ℤ
  pub lasttime_ms : ℤ
  pub no_talk : ℕ

-- CheckEventCtxTimeout_: false if the time is used up; `timeleft_ms` 0 stands for the time left.
unfoldable pub check_timeout : Env → Trace → ℤ → EventCtx → Bool × EventCtx × Trace
check_timeout env t timeleft_ms ctx =
    let cur = env.now_ms t in
    let consumed = cur -ℤ ctx.lasttime_ms in
    if leb_ℤ ctx.timeleft_ms consumed then (false, ctx, clock ∷ t) else (
      true,
      record ctx {
        timeleft_ms =
            if eqb_ℤ timeleft_ms (pos 0) then ctx.timeleft_ms -ℤ consumed else timeleft_ms;
        lasttime_ms = cur;
      },
      clock ∷ t,
    )

-- What a handler returns: whether more events are needed, the talk and its context.
abbrev pub Handled : Type 0
Handled = Bool × Talk × EventCtx × Trace

-- The label `ERROR_HANDLE` with an error, and without one.
abbrev pub give_up : Trace → EventCtx → Error → Talk → Handled
give_up t ctx e talk =
    (false, record talk { error = e; fd = negsuc 0 }, ctx, close talk.fd (unregistered talk.fd ∷ t))

abbrev pub succeed : Trace → EventCtx → Talk → Handled
succeed t ctx talk = (false, record talk { error = kok }, ctx, unregistered talk.fd ∷ t)

-- Registers the talk for its next event, unless its time is used up.
unfoldable pub go_on : Env → Event → Talk → Bool × EventCtx × Trace → Handled
go_on env ev talk (false, ctx, t) = give_up t ctx timeout talk
go_on env ev talk (true, ctx, t) =
    let t' = registered talk.fd mod_event ev ctx.timeleft_ms ∷ t in
    if env.reg_event t talk.fd mod_event ev ctx.timeleft_ms
    then (true, talk, ctx, t')
    else give_up t' ctx other talk

abbrev pub remote_of : ConnsMgr → Talk → Option Remote
remote_of c talk = elim talk.remote [ none ↦ none | some ptr ↦ deref c.tmp_remotes ptr ]

-- HandleSessionEventConn_: the connection is there, and the first direction begins.
unfoldable pub handle_conn : Env → Trace → ConnsMgr → Talk → EventCtx → Option Handled
unfolding check_timeout go_on
handle_conn env t c talk ctx = elim (remote_of c talk) [
  | none ↦ none
  | some r ↦
      let reads = is_read_only talk.category in
      let talk' = record talk { status = if reads then kread else kwrite } in
      let left = talk.endtime_ms -ℤ env.now_ms t in
      let wait = min_ℤ left (if reads then r.rtimeo_ms else r.wtimeo_ms) in
      some
        (go_on env (if reads then ev_in else ev_out) talk' (check_timeout env (clock ∷ t) wait ctx))
]

-- HandleSessionEventRead_, on what `Read` returned.
unfoldable pub read_ret : Env → Trace → Category → Talk → EventCtx → ℤ → Handled
unfolding check_timeout go_on
read_ret env t pc talk ctx (pos zero) =
    if env.decode t pc
    then succeed (decoded ∷ t) ctx talk
    else give_up (decoded ∷ t) ctx bad_decode talk
read_ret env t pc talk ctx (pos (suc n)) = go_on env ev_in talk (check_timeout env t (pos 0) ctx)
read_ret env t pc talk ctx (negsuc n) = give_up t ctx broken talk

unfoldable pub handle_read : Env → Trace → Talk → EventCtx → Option Handled
unfolding read_ret
handle_read env t talk ctx = elim talk.protocol_read [
  | none ↦ none
  | some pc ↦ some (read_ret env (codec_io ∷ t) pc talk ctx (env.read t pc talk.fd))
]

abbrev pub wants_reply : TalkCategory → Bool
wants_reply write_and_read = true
wants_reply _ = false

-- The branch of the write handler for a talk that wants a reply.
abbrev pub await_reply : Env → Trace → Talk → EventCtx → Remote → Handled
await_reply env t talk ctx r =
    let left = talk.endtime_ms -ℤ env.now_ms t in
    let (alive, ctx', t') = check_timeout env (clock ∷ t) (min_ℤ left r.rtimeo_ms) ctx in
    go_on env ev_in (if alive then record talk { status = kread } else talk) (alive, ctx', t')

-- HandleSessionEventWrite_, on what `Write` returned: when all is written, a talk that wants a
-- reply waits for it, and any other has succeeded.
unfoldable pub write_ret : Env → Trace → ConnsMgr → Talk → EventCtx → ℤ → Option Handled
unfolding check_timeout go_on
write_ret env t c talk ctx (pos zero) =
    if wants_reply talk.category
    then elim (remote_of c talk) [ none ↦ none | some r ↦ some (await_reply env t talk ctx r) ]
    else some (succeed t ctx talk)
write_ret env t c talk ctx (pos (suc n)) =
    some (go_on env ev_out talk (check_timeout env t (pos 0) ctx))
write_ret env t c talk ctx (negsuc n) = some (give_up t ctx broken talk)

unfoldable pub handle_write : Env → Trace → ConnsMgr → Talk → EventCtx → Option Handled
unfolding write_ret
handle_write env t c talk ctx = elim talk.protocol_write [
  | none ↦ none
  | some pc ↦ write_ret env (codec_io ∷ t) c talk ctx (env.write t pc talk.fd)
]

-- The switch of CheckSession_ over the status of the talk.
unfoldable pub on_ready : Env → Trace → ConnsMgr → Talk → EventCtx → Option Handled
unfolding handle_conn handle_read handle_write
on_ready env t c talk ctx = elim talk.status [
  | kconn ↦ handle_conn env t c talk ctx
  | kread ↦ handle_read env t talk ctx
  | kwrite ↦ handle_write env t c talk ctx
  | _ ↦ some (false, talk, ctx, t)
]

unfoldable pub on_event : Env → Trace → ConnsMgr → Event → Talk → EventCtx → Option Handled
unfolding on_ready
on_event env t c ev_in talk ctx = on_ready env t c talk ctx
on_event env t c ev_out talk ctx = on_ready env t c talk ctx
on_event env t c ev_err talk ctx = some (give_up t ctx broken talk)
on_event env t c ev_other talk ctx = some (give_up t ctx timeout talk)

-- CheckSession_: whether the session is over, the session, the context if it is still registered.
unfoldable pub check_session :
    Env
    → Timeouts
    → Trace
    → ConnsMgr
    → Session
    → Event
    → EventCtx
    → Option (Bool × Session × Option EventCtx × ConnsMgr × Trace)
check_session env conf t c s ev ctx = elim (get_elem? s.talks ctx.no_talk) [
  | none ↦ none
  | some talk ↦ elim (on_event env t c ev talk ctx) [
    | none ↦ none
    | some (more, talk', ctx', t') ↦
        if more
        then some (false, record s { talks = set s.talks ctx.no_talk talk' }, some ctx', c, t')
        else elim (finish_talk env conf (freed_ctx ctx.fd ∷ t') c s ctx.no_talk (is_ok talk'.error)
            talk') [ none ↦ none | some (over, s', c', u) ↦ some (over, s', none, c', u) ]
  ]
]

-- CleanTimeouts_ on the context of a session's talk, which the driver has unregistered. The talk's
-- error is left as it is.
unfoldable pub time_out :
    Env
    → Timeouts
    → Trace
    → ConnsMgr
    → Session
    → EventCtx
    → Option (Bool × Session × ConnsMgr × Trace)
time_out env conf t c s ctx = elim (get_elem? s.talks ctx.no_talk) [
  | none ↦ none
  | some talk ↦
      finish_talk env conf (close talk.fd t) c s ctx.no_talk false (record talk { fd = negsuc 0 })
]
