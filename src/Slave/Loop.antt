-- ===== src/Slave/Loop.antt =====
-- src/agents/details/agent_slave.cpp: the loops of an agent, CheckEvents_, CleanTimeouts_,
-- CheckMailbox_ and Process_. What the driver and the mailbox give in a round is an input of the
-- round; a session is told by the number that its object was given when it was taken from the pool.
-- `none` is undefined behaviour.
pub mod Answers
use magneto.Base.{
  ℕ, zero, suc, ◌==◌, Bool, true, false, if◌then◌else◌, List, [], ◌∷◌, ◌++◌, Option, none, some, ℤ,
  pos, ◌>>=◌,
}
use magneto.Model.{Remote, Error, kok, partial, broken}
use magneto.Env.{Env, Trace, Event}
use magneto.ConnsMgr.{ConnsMgr, config_remotes}
use magneto.Session.{Timeouts, Session, reset}
use magneto.Slave.{EventCtx, check_session, time_out}
use magneto.Slave.Clients.{
  KeepAlive, MsgNewReq, MsgReadReq, ReadReq, Place, waits, works, gone, Served, accept,
  check_read_req, expire, handle_msg_destruct,
}
use magneto.Scheduler.{
  Msg, config, read_req, new_req, session, destruct, MsgSession, build_for_session,
}

-- What the agent reads of the configuration; the remotes are those of the current version.
pub record Settings : Type 0 where
  pub timeouts : Timeouts
  pub keep_alive : KeepAlive
  pub remotes : Trace → List Remote

-- A session under way: its object, the message that asked for it, and its state.
pub record Running : Type 0 where
  pub object : ℕ
  pub msg : MsgSession
  pub state : Session

-- AgentSlave, with the messages for schedulers that it has sent, latest first.
pub record Agent : Type 0 where
  pub conns_mgr : ConnsMgr
  pub num_clients_keepalive : ℤ
  pub sessions : List Running
  pub next_object : ℕ
  pub mailbox : List Msg
  pub trace : Trace
  pub answers : List MsgSession
  pub requests : List MsgNewReq

unfoldable pub find_session : ℕ → List Running → Option Running
find_session k [] = none
find_session k (r ∷ rs) = if r.object == k then some r else find_session k rs

-- `pool_sessions_->Free`.
unfoldable pub free_session : ℕ → List Running → List Running
free_session k [] = []
free_session k (r ∷ rs) = if r.object == k then rs else r ∷ free_session k rs

unfoldable pub update_session : ℕ → Session → List Running → List Running
update_session k s [] = []
update_session k s (r ∷ rs) =
    if r.object == k then record r { state = s } ∷ rs else r ∷ update_session k s rs

-- BuildForSession and SendBackMsg_, which tries until the scheduler takes the message.
abbrev pub answer : MsgSession → Session → Error → MsgSession
answer m s e = build_for_session m.biz_ctx m.biz_procedure s.talks (pos 0) e

-- A session after one of its talks has come to an end: it is answered when all have.
unfoldable pub settle : ℕ → Running → Bool → Session → Error → Agent → Agent
unfolding free_session update_session
settle k r over s e a =
    if over
    then record a { sessions = free_session k a.sessions; answers = answer r.msg s e ∷ a.answers }
    else record a { sessions = update_session k s a.sessions }

-- CheckEvents_ on kSession.
unfoldable pub session_event : Env → Settings → ℕ → Event → EventCtx → Agent → Option Agent
unfolding find_session settle check_session
session_event env conf k ev ctx a = elim (find_session k a.sessions) [
  | none ↦ none
  | some r ↦ elim (check_session env conf.timeouts a.trace a.conns_mgr r.state ev ctx) [
    | none ↦ none
    | some (over, s, ctx', c, t) ↦ some (
        settle k r over s (if s.has_failure then partial else kok)
          (record a { conns_mgr = c; trace = t }))
  ]
]

-- CleanTimeouts_ on kSession.
unfoldable pub session_timeout : Env → Settings → ℕ → EventCtx → Agent → Option Agent
unfolding find_session settle time_out
session_timeout env conf k ctx a = elim (find_session k a.sessions) [
  | none ↦ none
  | some r ↦ elim (time_out env conf.timeouts a.trace a.conns_mgr r.state ctx) [
    | none ↦ none
    | some (over, s, c, t) ↦
        some (settle k r over s partial (record a { conns_mgr = c; trace = t }))
  ]
]

-- What a client's part of the loops has come to; a request that was read is with its scheduler.
abbrev pub new_requests : Place → List MsgNewReq → List MsgNewReq
new_requests (works m) sent = m ∷ sent
new_requests (waits rr) sent = sent
new_requests gone sent = sent

abbrev pub serve : Served → Agent → Agent
serve (num, place, t) a = record a {
  num_clients_keepalive = num;
  trace = t;
  requests = new_requests place a.requests;
}

-- A ready event, by the category of its context.
pub data Ready : Type 0 where
  session_ready : ℕ → Event → EventCtx → Ready
  client_ready : Event → ReadReq → Ready
  mailbox_ready : Ready

-- The loop of CheckEvents_.
unfoldable pub check_events : Env → Settings → List Ready → Agent → Option Agent
unfolding session_event check_read_req
check_events env conf [] a = some a
check_events env conf (session_ready k ev ctx ∷ rest) a = elim (session_event env conf k ev ctx a) [
  | none ↦ none
  | some a' ↦ check_events env conf rest a'
]
check_events env conf (client_ready ev rr ∷ rest) a =
    check_events env conf rest (serve (check_read_req env a.trace a.num_clients_keepalive ev rr) a)
check_events env conf (mailbox_ready ∷ rest) a = check_events env conf rest a

-- A context whose time is up.
pub data Late : Type 0 where
  session_late : ℕ → EventCtx → Late
  client_late : ReadReq → Late

-- CleanTimeouts_.
unfoldable pub clean_timeouts : Env → Settings → List Late → Agent → Option Agent
unfolding session_timeout
clean_timeouts env conf [] a = some a
clean_timeouts env conf (session_late k ctx ∷ rest) a = elim (session_timeout env conf k ctx a) [
  | none ↦ none
  | some a' ↦ clean_timeouts env conf rest a'
]
clean_timeouts env conf (client_late rr ∷ rest) a =
    clean_timeouts env conf rest (serve (expire a.trace a.num_clients_keepalive rr) a)

-- CheckMailbox_ on kSession. When Reset answers that no talk is under way, the message goes back as
-- it came, but for the error; its talks are the session's. The object stays taken.
unfoldable pub start_session : Env → Settings → MsgSession → Agent → Option Agent
unfolding reset
start_session env conf m a = elim (reset env conf.timeouts a.trace a.conns_mgr m.talks) [
  | none ↦ none
  | some (under_way, s, c, t) ↦
      let a' = record a { conns_mgr = c; trace = t; next_object = suc a.next_object } in
      some (
        if under_way
        then record a' {
          sessions = record { object = a.next_object; msg = m; state = s } ∷ a.sessions;
        }
        else record a' { answers = record m { talks = s.talks; error = broken } ∷ a.answers })
]

-- CheckMailbox_ on one message. One of another category is reported as a bug and consumed.
unfoldable pub on_mail : Env → Settings → Msg → Agent → Option Agent
unfolding start_session accept handle_msg_destruct config_remotes
on_mail env conf config a =
    some (record a { conns_mgr = config_remotes (conf.remotes a.trace) a.conns_mgr })
on_mail env conf (session m) a = start_session env conf m a
on_mail env conf (read_req m) a =
    some (serve (accept env conf.keep_alive a.trace a.num_clients_keepalive m) a)
on_mail env conf (destruct m) a =
    elim (handle_msg_destruct env conf.keep_alive a.trace a.conns_mgr a.num_clients_keepalive m) [
      | none ↦ none
      | some (c, served) ↦ some (serve served (record a { conns_mgr = c }))
    ]
on_mail env conf (new_req m) a = some a

abbrev pub k_max_num_mails_processed_once : ℕ
k_max_num_mails_processed_once = 100000

-- The loop of CheckMailbox_ over the mails, of which it takes `left` more.
unfoldable pub check_mailbox : Env → Settings → ℕ → List Msg → Agent → Option Agent
unfolding on_mail
check_mailbox env conf zero mails a = some (record a { mailbox = mails })
check_mailbox env conf (suc left) [] a = some (record a { mailbox = [] })
check_mailbox env conf (suc left) (m ∷ mails) a = elim (on_mail env conf m a) [
  | none ↦ none
  | some a' ↦ check_mailbox env conf left mails a'
]

-- What a round of the loop of Process_ finds: ready events, late contexts, and new mails.
pub record Round : Type 0 where
  pub ready : List Ready
  pub late : List Late
  pub mails : List Msg

unfoldable pub round : Env → Settings → Round → Agent → Option Agent
unfolding check_events clean_timeouts check_mailbox
round env conf r a = do
  a1 ← check_events env conf r.ready a
  a2 ← clean_timeouts env conf r.late a1
  check_mailbox env conf k_max_num_mails_processed_once (a2.mailbox ++ r.mails) a2

-- The loop of Process_, and of Run_ around it.
unfoldable pub process : Env → Settings → List Round → Agent → Option Agent
unfolding round
process env conf [] a = some a
process env conf (r ∷ rounds) a = elim (round env conf r a) [
  | none ↦ none
  | some a' ↦ process env conf rounds a'
]
